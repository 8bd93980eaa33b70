-- ===== src/SocketStats.antt =====
-- heyp/host-agent/parse-ss.cc: how a line that `ss` prints is read. `absl::SimpleAtoi`,
-- `absl::SimpleAtod` and `ParseFieldsSS`, which a script generates, are parameters.
pub mod Lines
mod Tests
use heyp_agents.Prelude.Text.{Bytes, bytes_eq, split}
use heyp_agents.Prelude.Text.{codes}
use heyp_agents.Prelude.{
  ℕ, suc, ◌-◌, ◌^◌, Bool, true, false, not, ◌&&◌, ◌||◌, List, [], ◌∷◌, ◌++◌, Option, none, some,
  ltb, leb, ◌==◌, take, length, get_elem?, if◌then◌else◌,
}
use heyp_agents.Markers.{FlowMarker}
use heyp_agents.Urls.{HostPort, parsed, invalid_argument, parse_host_port, drop}

unfoldable pub ends_with : Bytes → Bytes → Bool
unfolding bytes_eq
ends_with s suffix =
    if ltb (length s) (length suffix)
    then false
    else bytes_eq (drop (length s - length suffix) s) suffix

-- All but the last `n` bytes.
abbrev without_last : ℕ → Bytes → Bytes
without_last n s = take (length s - n) s

-- The factor of the last letter, where it is one of a unit.
abbrev unit_factor : ℕ → Option ℕ
unit_factor c =
    if c == b'k' || c == b'K'
    then some (10 ^ 3)
    else if c == b'm' || c == b'M'
    then some (10 ^ 6)
    else if c == b'g' || c == b'G'
    then some (10 ^ 9)
    else if c == b't' || c == b'T'
    then some (10 ^ 12)
    else none

abbrev last_factor : Option ℕ → Option ℕ
last_factor none = none
last_factor (some c) = unit_factor c

-- `SimpleAtod`, and the product with the multiplier as an integer.
abbrev AtodTimes : Type 0
AtodTimes = Bytes → ℕ → Option ℕ

abbrev scaled : AtodTimes → Bytes → Option ℕ → Option ℕ
scaled atod_times s none = atod_times s 1
scaled atod_times s (some multiplier) = atod_times (without_last 1 s) multiplier

unfoldable pub parse_bps_ss : AtodTimes → Bytes → Option ℕ
unfolding ends_with
parse_bps_ss atod_times s =
    let number = without_last 3 s in
    if ends_with s (codes "bps")
    then scaled atod_times number (last_factor (get_elem? number (length number - 1)))
    else none

-- `s.substr(0, s.find('('))`.
unfoldable pub before_bracket : Bytes → Bytes
before_bracket [] = []
before_bracket (c ∷ s) = if c == b'(' then [] else c ∷ before_bracket s

unfoldable pub parse_ms_ss : (Bytes → Option ℕ) → Bool → Bytes → Option ℕ
unfolding ends_with before_bracket
parse_ms_ss simple_atoi has_junk s =
    let clean = if has_junk then before_bracket s else s in
    if ends_with clean (codes "ms") then simple_atoi (without_last 2 clean) else none

abbrev pub is_separator : ℕ → Bool
is_separator c = c == b' ' || c == 9

-- `absl::ascii_isspace`.
abbrev pub is_space : ℕ → Bool
is_space c = c == b' ' || (leb 9 c && leb c 13)

unfoldable pub is_whitespace : Bytes → Bool
is_whitespace [] = true
is_whitespace (c ∷ s) = is_space c && is_whitespace s

unfoldable pub skip_whitespace : List Bytes → List Bytes
unfolding is_whitespace
skip_whitespace [] = []
skip_whitespace (field ∷ fields) =
    let rest = skip_whitespace fields in if is_whitespace field then rest else field ∷ rest

unfoldable pub line_fields : Bytes → List Bytes
unfolding skip_whitespace split
line_fields line = skip_whitespace (split is_separator line)

-- What `ParseFieldsSS` makes of the fields: an error, or the usage and the bytes sent.
pub data FieldsResult : Type 0 where
  fields_failed : Bytes → FieldsResult
  fields_ok : ℕ → ℕ → FieldsResult

-- `out_of_range`: a field that is not there is read.
pub data LineResult : Type 0 where
  out_of_range : LineResult
  failed : Bytes → LineResult
  read : FlowMarker → ℕ → ℕ → LineResult

-- `proto::TCP`.
abbrev pub tcp : ℕ
tcp = 1

abbrev pub ss_flow : ℕ → Bytes → ℕ → Bytes → ℕ → FlowMarker
ss_flow host_id src_addr src_port dst_addr dst_port = record {
  src_dc = [];
  dst_dc = [];
  job = [];
  host_id = host_id;
  src_addr = src_addr;
  dst_addr = dst_addr;
  protocol = tcp;
  src_port = src_port;
  dst_port = dst_port;
  seqnum = 0;
}

abbrev pub line_result : FlowMarker → FieldsResult → LineResult
line_result flow (fields_failed m) = failed m
line_result flow (fields_ok cur_usage_bps cum_usage_bytes) = read flow cur_usage_bps cum_usage_bytes

abbrev pub with_addrs : ℕ → HostPort → HostPort → FieldsResult → LineResult
with_addrs host_id (invalid_argument m) dst fields = failed m
with_addrs host_id (parsed src_addr src_port) (invalid_argument m) fields = failed m
with_addrs host_id (parsed src_addr src_port) (parsed dst_addr dst_port) fields =
    line_result (ss_flow host_id src_addr src_port dst_addr dst_port) fields

abbrev pub with_fields :
    (Bytes → Option ℕ) → ℕ → Option Bytes → Option Bytes → FieldsResult → LineResult
with_fields simple_atoi host_id none dst fields = out_of_range
with_fields simple_atoi host_id (some src) none fields = out_of_range
with_fields simple_atoi host_id (some src) (some dst) fields =
    with_addrs host_id (parse_host_port simple_atoi src) (parse_host_port simple_atoi dst) fields

unfoldable pub parse_line_ss :
    (Bytes → Option ℕ) → (List Bytes → FieldsResult) → ℕ → Bytes → LineResult
unfolding line_fields parse_host_port
parse_line_ss simple_atoi parse_fields_ss host_id line =
    let fields = line_fields line in
    with_fields simple_atoi host_id (get_elem? fields 3) (get_elem? fields 4)
      (parse_fields_ss fields)
