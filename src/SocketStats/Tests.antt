-- ===== src/SocketStats/Tests.antt =====
-- Lines of heyp/host-agent/parse-ss-test.cc, shortened, and the theorem at one.
use heyp_agents.Prelude.Text.{Bytes, bytes_eq, codes, number_of, split}
use heyp_agents.Prelude.{ℕ, ◌*◌, List, Option, some, false, ◌≡◌, refl}
use heyp_agents.Urls.{parse_host_port, parse_host, rfind, starts_with, str_contains}
use heyp_agents.Urls.Tests.{atoi}
use heyp_agents.SocketStats.{
  FieldsResult, fields_ok, read, out_of_range, parse_bps_ss, parse_ms_ss, ends_with, before_bracket,
  parse_line_ss, line_fields, skip_whitespace, is_whitespace, ss_flow,
}

-- Good on whole numbers alone.
abbrev atod_times : Bytes → ℕ → Option ℕ
atod_times s multiplier = some (number_of 0 s * multiplier)

megabits : parse_bps_ss atod_times (codes "25Mbps") ≡ some 25000000
unfolding parse_bps_ss bytes_eq number_of
megabits = refl

milliseconds : parse_ms_ss atoi false (codes "40ms") ≡ some 40
unfolding parse_ms_ss ends_with before_bracket bytes_eq number_of
milliseconds = refl

abbrev two_fields : List Bytes → FieldsResult
two_fields fields = fields_ok 12 345

abbrev line : Bytes
line = codes "ESTAB 0  0 10.0.0.1:21 [::ffff:10.0.0.2]:99"

one_line :
    parse_line_ss atoi two_fields 7 line
    ≡ read (ss_flow 7 (codes "10.0.0.1") 21 (codes "10.0.0.2") 99) 12 345
unfolding parse_line_ss line_fields skip_whitespace is_whitespace split parse_host_port parse_host
    rfind starts_with str_contains number_of
one_line = refl

short_line : parse_line_ss atoi two_fields 7 (codes "ESTAB 0 0") ≡ out_of_range
unfolding parse_line_ss line_fields skip_whitespace is_whitespace split
short_line = refl
