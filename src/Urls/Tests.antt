-- ===== src/Urls/Tests.antt =====
-- Addresses of heyp/host-agent/urls-test.cc.
use heyp_agents.Prelude.Text.{Bytes, codes, number_of}
use heyp_agents.Prelude.{ℕ, Option, some, ◌≡◌, refl}
use heyp_agents.Urls.{
  parsed, invalid_argument, parse_host_port, parse_host, rfind, starts_with, str_contains,
}

-- Good on digits alone.
abbrev pub atoi : Bytes → Option ℕ
atoi s = some (number_of 0 s)

v4 : parse_host_port atoi (codes "10.0.0.1:8080") ≡ parsed (codes "10.0.0.1") 8080
unfolding parse_host_port parse_host rfind starts_with str_contains number_of
v4 = refl

mapped : parse_host_port atoi (codes "[::ffff:10.0.0.1]:80") ≡ parsed (codes "10.0.0.1") 80
unfolding parse_host_port parse_host rfind starts_with str_contains number_of
mapped = refl

no_port : parse_host_port atoi (codes "localhost") ≡ invalid_argument (codes "port not found")
unfolding parse_host_port rfind
no_port = refl
