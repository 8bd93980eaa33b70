-- ===== src/Iptables/Lookup.antt =====
-- `SettingsFindDscp` of heyp/host-agent/linux-enforcer/iptables-controller.cc.
pub mod Laws
pub mod Order
use heyp_agents.Prelude.Text.{Bytes, bytes_eq}
use heyp_agents.Prelude.Algorithms.{lower_bound}
use heyp_agents.Prelude.{
  ℕ, Bool, true, false, ◌&&◌, List, [], ◌∷◌, ◌==◌, if◌then◌else◌, Option, none, some,
}
use heyp_agents.Iptables.Setting.{Setting}
use heyp_agents.Iptables.Setting.Laws.{setting_order}

-- The setting that is searched for: it comes before all others with its ports and its address.
abbrev pub to_find : ℕ → ℕ → Bytes → Setting
to_find src_port dst_port dst_addr = record {
  src_port = src_port;
  dst_port = dst_port;
  dst_addr = dst_addr;
  class_id = [];
  dscp = [];
}

unfoldable pub has_key : ℕ → ℕ → Bytes → Setting → Bool
unfolding bytes_eq
has_key src_port dst_port dst_addr s =
    s.src_port == src_port && s.dst_port == dst_port && bytes_eq s.dst_addr dst_addr

-- The entry at an iterator, if it is not the end and has the key.
unfoldable pub dscp_at : ℕ → ℕ → Bytes → List Setting → Option Bytes
dscp_at src_port dst_port dst_addr [] = none
dscp_at src_port dst_port dst_addr (s ∷ rest) =
    if has_key src_port dst_port dst_addr s then some s.dscp else none

-- One `std::lower_bound` and the test behind it.
unfoldable pub search_key : List Setting → ℕ → ℕ → Bytes → Option Bytes
unfolding lower_bound dscp_at
search_key settings src_port dst_port dst_addr =
    dscp_at src_port dst_port dst_addr (lower_bound settings (to_find src_port dst_port dst_addr))

abbrev pub or_try : Option Bytes → Bytes → Bytes
or_try none next = next
or_try (some dscp) next = dscp

unfoldable pub settings_find_dscp : List Setting → ℕ → ℕ → Bytes → Bytes → Bytes
settings_find_dscp settings src_port dst_port dst_addr default_dscp =
    or_try (search_key settings src_port dst_port dst_addr) (
      or_try (search_key settings 0 dst_port dst_addr) (
        or_try (search_key settings src_port 0 dst_addr)
          (or_try (search_key settings 0 0 dst_addr) default_dscp)))
