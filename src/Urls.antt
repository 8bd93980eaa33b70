-- ===== src/Urls.antt =====
-- `ParseHostPort` of heyp/host-agent/urls.cc. `absl::SimpleAtoi` is a parameter; a view is the list of
-- its bytes.
pub mod RoundTrip
pub mod Tests
use heyp_agents.Prelude.Text.{Bytes, bytes_eq}
use heyp_agents.Prelude.Text.{codes}
use heyp_agents.Prelude.{
  ℕ, zero, suc, ◌-◌, ◌+◌, Bool, true, false, not, ◌&&◌, List, [], ◌∷◌, ◌++◌, Option, none, some,
  ltb, ◌==◌, take, length, if◌then◌else◌,
}

pub data HostPort : Type 0 where
  parsed : Bytes → ℕ → HostPort
  invalid_argument : Bytes → HostPort

abbrev later_or_here : Bool → Option ℕ → Option ℕ
later_or_here here none = if here then some 0 else none
later_or_here here (some i) = some (suc i)

-- `s.rfind(c)` of one character.
unfoldable pub rfind : ℕ → Bytes → Option ℕ
rfind c [] = none
rfind c (x ∷ s) = later_or_here (x == c) (rfind c s)

unfoldable pub str_contains : ℕ → Bytes → Bool
str_contains c [] = false
str_contains c (x ∷ s) = if x == c then true else str_contains c s

-- `s.substr(n)`.
abbrev pub drop : ℕ → Bytes → Bytes
drop zero s = s
drop (suc n) [] = []
drop (suc n) (x ∷ s) = drop n s

unfoldable pub starts_with : Bytes → Bytes → Bool
starts_with s [] = true
starts_with [] (y ∷ prefix) = false
starts_with (x ∷ s) (y ∷ prefix) = if x == y then starts_with s prefix else false

abbrev pub mapped_prefix : Bytes
mapped_prefix = codes "::ffff:"

-- An IPv4 address that is written as an IPv6 one loses its prefix.
unfoldable pub without_mapped_prefix : Bytes → Bytes
unfolding starts_with str_contains
without_mapped_prefix s =
    if starts_with s mapped_prefix && not (str_contains b':' (drop 7 s)) then drop 7 s else s

abbrev pub first_is : ℕ → Bytes → Bool
first_is c [] = false
first_is c (x ∷ s) = x == c

abbrev pub is_blank : Bytes → Bool
is_blank [] = true
is_blank (x ∷ s) = false

-- The host, once the port is known.
unfoldable pub parse_host : Bytes → ℕ → ℕ → HostPort
unfolding without_mapped_prefix
parse_host s port_separator port =
    if port_separator == 0
    then invalid_argument (codes "found port but no address")
    else if first_is b'[' s
    then if ltb port_separator 3
      then invalid_argument (codes "invalid address")
      else parsed (without_mapped_prefix (take (port_separator - 2) (drop 1 s))) port
    else parsed (take port_separator s) port

abbrev pub with_port : Bytes → ℕ → Bytes → Option ℕ → HostPort
with_port s port_separator port_str none = invalid_argument (codes "invalid port: " ++ port_str)
with_port s port_separator port_str (some port) = parse_host s port_separator port

abbrev pub at_separator : (Bytes → Option ℕ) → Bytes → Option ℕ → HostPort
at_separator simple_atoi s none = invalid_argument (codes "port not found")
at_separator simple_atoi s (some port_separator) =
    let port_str = drop (port_separator + 1) s in
    with_port s port_separator port_str (simple_atoi port_str)

unfoldable pub parse_host_port : (Bytes → Option ℕ) → Bytes → HostPort
unfolding parse_host rfind
parse_host_port simple_atoi s =
    if is_blank s
    then invalid_argument (codes "empty host:port")
    else at_separator simple_atoi s (rfind b':' s)
