-- ===== src/Urls/RoundTrip.antt =====
-- What `ParseHostPort` of heyp/host-agent/urls.cc makes of an address that is written with a port.
use mathlib.Core.List.{append_assoc}
use heyp_agents.Prelude.Text.{Bytes}
use heyp_agents.Prelude.{
  ℕ, suc, ◌+◌, ◌-◌, ◌≤◌, true, false, [], ◌∷◌, ◌++◌, Option, none, some, take, length,
  length-append, if◌then◌else◌, ◌≡◌, refl, ap, sym, ◌∙◌, arith, Bool-cases, inl, inr,
}
use heyp_agents.Urls.{
  parsed, parse_host_port, parse_host, rfind, str_contains, drop, starts_with,
  without_mapped_prefix, first_is, is_blank,
}

-- An address with a port: in brackets, if it has a colon.
unfoldable pub host_port_text : Bytes → Bytes → Bytes
host_port_text host digits =
    if str_contains b':' host then (b'[' ∷ host) ++ b']' ∷ b':' ∷ digits else host ++ b':' ∷ digits

rfind-none : (c : ℕ) (s : Bytes) → str_contains c s ≡ false → rfind c s ≡ none
unfolding rfind str_contains
rfind-none c [] h = refl
rfind-none c (x ∷ s) h = ground (arith, rfind-none c s)

rfind-last :
    (c : ℕ) (s t : Bytes) → str_contains c t ≡ false → rfind c (s ++ c ∷ t) ≡ some (length s)
unfolding rfind
rfind-last c [] t h = ground (arith, rfind-none c t h)
rfind-last c (x ∷ s) t h = rw (rfind-last c s t h) refl

take-length : (s t : Bytes) → take (length s) (s ++ t) ≡ s
take-length [] t = refl
take-length (x ∷ s) t = ap (λ l. x ∷ l) (take-length s t)

drop-length : (s : Bytes) (c : ℕ) (t : Bytes) → drop (suc (length s)) (s ++ c ∷ t) ≡ t
drop-length [] c t = refl
drop-length (x ∷ s) c t = drop-length s c t

starts-contains : (s : Bytes) → str_contains b':' s ≡ false → without_mapped_prefix s ≡ s
unfolding without_mapped_prefix starts_with str_contains
starts-contains [] h = refl
starts-contains (x ∷ s) h = ground arith

not_blank : (s : Bytes) (c : ℕ) (t : Bytes) → is_blank (s ++ c ∷ t) ≡ false
not_blank [] c t = refl
not_blank (x ∷ s) c t = refl

-- The port is found behind the last colon.
parse-port :
    (simple_atoi : Bytes → Option ℕ) (s digits : Bytes) (port : ℕ)
    → simple_atoi digits ≡ some port
    → str_contains b':' digits ≡ false
    → parse_host_port simple_atoi (s ++ b':' ∷ digits)
      ≡ parse_host (s ++ b':' ∷ digits) (length s) port
unfolding parse_host_port
parse-port simple_atoi s digits port a d =
    let e : length s + 1 ≡ suc (length s) = omega arith in
    rw (not_blank s b':' digits, rfind-last b':' s digits d, e, drop-length s b':' digits, a) refl

plain_host :
    (host rest : Bytes) (port : ℕ)
    → is_blank host ≡ false
    → first_is b'[' host ≡ false
    → parse_host (host ++ rest) (length host) port ≡ parsed host port
unfolding parse_host
plain_host [] rest port n f = cc
plain_host (x ∷ host) rest port n f = ground (arith, take-length (x ∷ host) rest)

bracketed : Bytes → Bytes
bracketed host = b'[' ∷ host ++ b']' ∷ []

length-bracketed : (host : Bytes) → length (bracketed host) ≡ suc (suc (length host))
unfolding bracketed
length-bracketed host = omega (arith, length-append host (b']' ∷ []))

parse_bracketed :
    (s : Bytes) (n port : ℕ)
    → first_is b'[' s ≡ true
    → 3 ≤ n
    → parse_host s n port ≡ parsed (without_mapped_prefix (take (n - 2) (drop 1 s))) port
unfolding parse_host
parse_bracketed s n port f h = ground arith

inside_brackets :
    (host rest : Bytes)
    → take (length (bracketed host) - 2) (drop 1 (bracketed host ++ rest)) ≡ host
unfolding bracketed
inside_brackets host rest =
    let e : length (bracketed host) - 2 ≡ length host = omega (arith, length-bracketed host) in
    rw e (rw (append_assoc host (b']' ∷ []) rest) (take-length host (b']' ∷ rest)))

bracketed_host :
    (host rest : Bytes) (port : ℕ)
    → is_blank host ≡ false
    → parse_host (bracketed host ++ rest) (length (bracketed host)) port
      ≡ parsed (without_mapped_prefix host) port
unfolding bracketed
bracketed_host [] rest port n = cc
bracketed_host (x ∷ host) rest port n =
    parse_bracketed (bracketed (x ∷ host) ++ rest) (length (bracketed (x ∷ host))) port refl
      (omega (arith, length-bracketed (x ∷ host)))
    ∙ ap (λ h. parsed (without_mapped_prefix h) port) (inside_brackets (x ∷ host) rest)

-- An address and a port, written as `ss` and others write them, are parsed back, where the address is
-- not empty and does not begin with a bracket, and the digits have no colon and are read as the port:
-- an IPv4 address that is written as an IPv6 one comes back as itself, and any other unchanged.
pub parse_host_port-host_port_text :
    (simple_atoi : Bytes → Option ℕ) (host digits : Bytes) (port : ℕ)
    → is_blank host ≡ false
    → first_is b'[' host ≡ false
    → str_contains b':' digits ≡ false
    → simple_atoi digits ≡ some port
    → parse_host_port simple_atoi (host_port_text host digits)
      ≡ parsed (without_mapped_prefix host) port
unfolding host_port_text bracketed
parse_host_port-host_port_text simple_atoi host digits port n f d a =
    elim (Bool-cases (str_contains b':' host)) [
      | inr e ↦ rw e (
          parse-port simple_atoi host digits port a d
          ∙ plain_host host (b':' ∷ digits) port n f
          ∙ ap (λ h. parsed h port) (sym (starts-contains host e)))
      | inl e ↦ rw e (
          ap (λ t. parse_host_port simple_atoi (b'[' ∷ t))
            (sym (append_assoc host (b']' ∷ []) (b':' ∷ digits)))
          ∙ parse-port simple_atoi (bracketed host) digits port a d
          ∙ bracketed_host host (b':' ∷ digits) port n)
    ]
