-- ===== src/Iptables/Setting.antt =====
-- `SettingBatch::Setting` of heyp/host-agent/linux-enforcer/iptables-controller.h, its `operator==`
-- and its `operator<`. A `std::string` is the list of its bytes.
pub mod Laws
use heyp_agents.Prelude.Text.{Bytes, bytes_eq}
use heyp_agents.Prelude.{ℕ, Bool, true, false, List, [], ◌∷◌, ltb, ◌==◌ as nat_eq, if◌then◌else◌}

pub record Setting : Type 0 where
  pub src_port : ℕ
  pub dst_port : ℕ
  pub dst_addr : Bytes
  pub class_id : Bytes
  pub dscp : Bytes

-- `std::string`'s `<`: by the first byte that differs.
unfoldable pub bytes_less : Bytes → Bytes → Bool
bytes_less [] [] = false
bytes_less [] (y ∷ ys) = true
bytes_less (x ∷ xs) [] = false
bytes_less (x ∷ xs) (y ∷ ys) = if ltb x y then true else if ltb y x then false else bytes_less xs ys

-- `SAME_OR_RETURN`.
abbrev same_or_return : Bool → Bool → Bool
same_or_return same rest = if same then rest else false

unfoldable pub setting_eq : Setting → Setting → Bool
unfolding bytes_eq
setting_eq lhs rhs = same_or_return (nat_eq lhs.src_port rhs.src_port) (
    same_or_return (nat_eq lhs.dst_port rhs.dst_port) (
      same_or_return (bytes_eq lhs.dst_addr rhs.dst_addr) (
        same_or_return (bytes_eq lhs.class_id rhs.class_id)
          (same_or_return (bytes_eq lhs.dscp rhs.dscp) true))))

-- `COMPARE_FIELD`: `field` compares the field of two settings, `rest` is what follows.
abbrev pub compare_field :
    (Setting → Setting → Bool) → (Setting → Setting → Bool) → Setting → Setting → Bool
compare_field field rest lhs rhs =
    if field lhs rhs then true else if field rhs lhs then false else rest lhs rhs

abbrev pub by_src_port : Setting → Setting → Bool
by_src_port lhs rhs = ltb lhs.src_port rhs.src_port

abbrev pub by_dst_port : Setting → Setting → Bool
by_dst_port lhs rhs = ltb lhs.dst_port rhs.dst_port

abbrev pub by_dst_addr : Setting → Setting → Bool
by_dst_addr lhs rhs = bytes_less lhs.dst_addr rhs.dst_addr

abbrev pub by_class_id : Setting → Setting → Bool
by_class_id lhs rhs = bytes_less lhs.class_id rhs.class_id

abbrev pub by_dscp : Setting → Setting → Bool
by_dscp lhs rhs = bytes_less lhs.dscp rhs.dscp

unfoldable pub setting_less : Setting → Setting → Bool
setting_less = compare_field by_src_port (
    compare_field by_dst_port (
      compare_field by_dst_addr
        (compare_field by_class_id (compare_field by_dscp (λ lhs rhs. false)))))
