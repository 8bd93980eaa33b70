-- ===== src/Iptables/Lookup/Laws.antt =====
-- What `SettingsFindDscp` of heyp/host-agent/linux-enforcer/iptables-controller.cc finds.
use heyp_agents.Prelude.Text.{Bytes, bytes_eq_iff}
use heyp_agents.Prelude.Algorithms.{IsSorted}
use mathlib.Core.Bool.{false≢true}
use heyp_agents.Prelude.{
  ℕ, ◌≡◌, refl, ◌∙◌, sym, true, false, List, [], ◌∷◌, All, Bool-cases, inl, inr, if◌then◌else◌,
  Option, none, some, arith,
}
use heyp_agents.Iptables.Setting.{Setting, bytes_less, setting_less}
use heyp_agents.Iptables.Setting.Laws.{setting_order, bytes_less_connex, bytes_less_irrefl}
use heyp_agents.Iptables.Lookup.{to_find, has_key, search_key, settings_find_dscp, or_try}

-- The dscp of the first setting with these ports and this address, by a scan of the whole batch.
unfoldable pub first_with_key : List Setting → ℕ → ℕ → Bytes → Option Bytes
first_with_key [] src_port dst_port dst_addr = none
first_with_key (s ∷ settings) src_port dst_port dst_addr =
    if has_key src_port dst_port dst_addr s
    then some s.dscp
    else first_with_key settings src_port dst_port dst_addr

bytes_less_nil : (a : Bytes) → bytes_less a [] ≡ false
unfolding bytes_less
bytes_less_nil [] = refl
bytes_less_nil (x ∷ a) = refl

-- An entry with the key is not before the one searched for.
has_key-not_less :
    (sp dp : ℕ) (addr : Bytes) (s : Setting)
    → has_key sp dp addr s ≡ true
    → setting_less s (to_find sp dp addr) ≡ false
unfolding has_key setting_less
has_key-not_less sp dp addr s h = ground (
  arith,
  bytes_eq_iff s.dst_addr addr,
  bytes_less_irrefl addr,
  bytes_less_nil s.class_id,
  bytes_less_nil s.dscp,
)

-- An entry that is not before the one searched for and has another key is behind all that have it.
past_key :
    (sp dp : ℕ) (addr : Bytes) (s t : Setting)
    → setting_less s (to_find sp dp addr) ≡ false
    → has_key sp dp addr s ≡ false
    → has_key sp dp addr t ≡ true
    → setting_less t s ≡ true
unfolding has_key setting_less
past_key sp dp addr s t h k m = ground (
  arith,
  bytes_eq_iff s.dst_addr addr,
  bytes_eq_iff t.dst_addr addr,
  bytes_less_connex s.dst_addr addr,
)

none_past :
    (sp dp : ℕ) (addr : Bytes) (s : Setting) (settings : List Setting)
    → setting_less s (to_find sp dp addr) ≡ false
    → has_key sp dp addr s ≡ false
    → All (λ t. setting_less t s ≡ false) settings
    → first_with_key settings sp dp addr ≡ none
unfolding first_with_key
none_past sp dp addr s [] h k b = refl
none_past sp dp addr s (t ∷ settings) h k b = elim (Bool-cases (has_key sp dp addr t)) [
  | inl m ↦ absurd (false≢true (sym b.0 ∙ past_key sp dp addr s t h k m))
  | inr m ↦ rw m (none_past sp dp addr s settings h k b.1)
]

search_key-eq-first :
    (settings : List Setting) (sp dp : ℕ) (addr : Bytes)
    → IsSorted settings
    → search_key settings sp dp addr ≡ first_with_key settings sp dp addr
unfolding search_key first_with_key
search_key-eq-first [] sp dp addr h = refl
search_key-eq-first (s ∷ settings) sp dp addr h =
    elim (Bool-cases (setting_less s (to_find sp dp addr))) [
      | inl p ↦ elim (Bool-cases (has_key sp dp addr s)) [
        | inl m ↦ absurd (false≢true (sym (has_key-not_less sp dp addr s m) ∙ p))
        | inr m ↦ rw (p, m) (search_key-eq-first settings sp dp addr h.1)
      ]
      | inr p ↦ elim (Bool-cases (has_key sp dp addr s)) [
        | inl m ↦ rw (p, m) refl
        | inr m ↦ rw (p, m) (sym (none_past sp dp addr s settings p m h.0))
      ]
    ]

-- In a sorted batch the answer is the dscp of the first setting that has, of these four, the
-- earliest key that any setting has: both ports, the destination port alone, the source port alone,
-- no port, each with the address; without any such setting it is the default.
pub settings_find_dscp-first :
    (settings : List Setting) (sp dp : ℕ) (addr default_dscp : Bytes)
    → IsSorted settings
    → settings_find_dscp settings sp dp addr default_dscp
      ≡ or_try (first_with_key settings sp dp addr) (
          or_try (first_with_key settings 0 dp addr) (
            or_try
              (first_with_key settings sp 0 addr)
              (or_try (first_with_key settings 0 0 addr) default_dscp)))
unfolding settings_find_dscp
settings_find_dscp-first settings sp dp addr default_dscp h =
    rw
      (
        search_key-eq-first settings sp dp addr h,
        search_key-eq-first settings 0 dp addr h,
        search_key-eq-first settings sp 0 addr h,
        search_key-eq-first settings 0 0 addr h,
      )
      refl
