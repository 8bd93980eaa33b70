-- ===== src/Iptables/Setting/Laws.antt =====
-- `operator<` on settings (heyp/host-agent/linux-enforcer/iptables-controller.cc) is a strict total
-- order, and `operator==` is equality.
use heyp_agents.Prelude.Text.{Bytes, bytes_eq_iff}
use heyp_agents.Prelude.Order.{StrictOrder, asymm, not_less_trans}
use heyp_agents.Prelude.{ℕ, ◌≡◌, refl, Bool, true, false, [], ◌∷◌, ltb, arith, ◌↔◌}
use heyp_agents.Iptables.Setting.{Setting, bytes_less, setting_eq, setting_less, compare_field}

ltb_irrefl : (a : ℕ) → ltb a a ≡ false
ltb_irrefl a = ground arith

ltb_trans : (a b c : ℕ) → ltb a b ≡ true → ltb b c ≡ true → ltb a c ≡ true
ltb_trans a b c h k = ground arith

ltb_connex : (a b : ℕ) → ltb a b ≡ false → ltb b a ≡ false → a ≡ b
ltb_connex a b h k = ground arith

pub bytes_less_irrefl : (a : Bytes) → bytes_less a a ≡ false
unfolding bytes_less
bytes_less_irrefl [] = refl
bytes_less_irrefl (x ∷ a) = ground (arith, bytes_less_irrefl a)

pub bytes_less_trans :
    (a b c : Bytes) → bytes_less a b ≡ true → bytes_less b c ≡ true → bytes_less a c ≡ true
unfolding bytes_less
bytes_less_trans [] [] c h k = cc
bytes_less_trans [] (y ∷ b) [] h k = cc
bytes_less_trans [] (y ∷ b) (z ∷ c) h k = refl
bytes_less_trans (x ∷ a) [] c h k = cc
bytes_less_trans (x ∷ a) (y ∷ b) [] h k = cc
bytes_less_trans (x ∷ a) (y ∷ b) (z ∷ c) h k = ground (arith, bytes_less_trans a b c)

pub bytes_less_connex : (a b : Bytes) → bytes_less a b ≡ false → bytes_less b a ≡ false → a ≡ b
unfolding bytes_less
bytes_less_connex [] [] h k = refl
bytes_less_connex [] (y ∷ b) h k = cc
bytes_less_connex (x ∷ a) [] h k = cc
bytes_less_connex (x ∷ a) (y ∷ b) h k = ground (arith, bytes_less_connex a b)

abbrev nat_order : StrictOrder ℕ
nat_order = record { less = ltb; irrefl = ltb_irrefl; trans = ltb_trans; connex = ltb_connex }

instance abbrev pub bytes_order : StrictOrder Bytes
bytes_order = record {
  less = bytes_less;
  irrefl = bytes_less_irrefl;
  trans = bytes_less_trans;
  connex = bytes_less_connex;
}

module _ {ℓ} {K : Type ℓ} (o : StrictOrder K) (key : Setting → K)
    (rest : Setting → Setting → Bool) where
  abbrev by : Setting → Setting → Bool
  by = compare_field (λ lhs rhs. o.less (key lhs) (key rhs)) rest

  by_irrefl : (a : Setting) → rest a a ≡ false → by a a ≡ false
  by_irrefl a h = ground (arith, o.irrefl (key a))

  by_trans :
      (a b c : Setting)
      → (rest a b ≡ true → rest b c ≡ true → rest a c ≡ true)
      → by a b ≡ true
      → by b c ≡ true
      → by a c ≡ true
  by_trans a b c h p q = ground (
    arith,
    o.trans (key a) (key b) (key c),
    asymm ⦃o = o⦄ (key a) (key b),
    asymm ⦃o = o⦄ (key b) (key c),
    asymm ⦃o = o⦄ (key a) (key c),
    not_less_trans ⦃o = o⦄ (key a) (key b) (key c),
    o.connex (key a) (key b),
    o.connex (key b) (key c),
  )

  by_connex :
      (a b : Setting)
      → by a b ≡ false
      → by b a ≡ false
      → (key a ≡ key b) × (rest a b ≡ false) × (rest b a ≡ false)
  by_connex a b p q = ground (arith, o.connex (key a) (key b))

abbrev unordered : Setting → Setting → Bool
unordered lhs rhs = false

abbrev by_dscp_on : Setting → Setting → Bool
by_dscp_on = by bytes_order (λ s. s.dscp) unordered

abbrev by_class_id_on : Setting → Setting → Bool
by_class_id_on = by bytes_order (λ s. s.class_id) by_dscp_on

abbrev by_dst_addr_on : Setting → Setting → Bool
by_dst_addr_on = by bytes_order (λ s. s.dst_addr) by_class_id_on

abbrev by_dst_port_on : Setting → Setting → Bool
by_dst_port_on = by nat_order (λ s. s.dst_port) by_dst_addr_on

setting_less_irrefl : (a : Setting) → setting_less a a ≡ false
unfolding setting_less
setting_less_irrefl a =
    by_irrefl nat_order (λ s. s.src_port) by_dst_port_on a
      (by_irrefl nat_order (λ s. s.dst_port) by_dst_addr_on a
        (by_irrefl bytes_order (λ s. s.dst_addr) by_class_id_on a
          (by_irrefl bytes_order (λ s. s.class_id) by_dscp_on a
            (by_irrefl bytes_order (λ s. s.dscp) unordered a refl))))

setting_less_trans :
    (a b c : Setting) → setting_less a b ≡ true → setting_less b c ≡ true → setting_less a c ≡ true
unfolding setting_less
setting_less_trans a b c =
    by_trans nat_order (λ s. s.src_port) by_dst_port_on a b c
      (by_trans nat_order (λ s. s.dst_port) by_dst_addr_on a b c
        (by_trans bytes_order (λ s. s.dst_addr) by_class_id_on a b c
          (by_trans bytes_order (λ s. s.class_id) by_dscp_on a b c
            (by_trans bytes_order (λ s. s.dscp) unordered a b c (λ h k. h)))))

setting_less_connex : (a b : Setting) → setting_less a b ≡ false → setting_less b a ≡ false → a ≡ b
unfolding setting_less
setting_less_connex a b h k =
    let (e1, h1, k1) = by_connex nat_order (λ s. s.src_port) by_dst_port_on a b h k in
    let (e2, h2, k2) = by_connex nat_order (λ s. s.dst_port) by_dst_addr_on a b h1 k1 in
    let (e3, h3, k3) = by_connex bytes_order (λ s. s.dst_addr) by_class_id_on a b h2 k2 in
    let (e4, h4, k4) = by_connex bytes_order (λ s. s.class_id) by_dscp_on a b h3 k3 in
    let (e5, h5, k5) = by_connex bytes_order (λ s. s.dscp) unordered a b h4 k4 in
    λ i. record { src_port = e1 i; dst_port = e2 i; dst_addr = e3 i; class_id = e4 i; dscp = e5 i }

-- `operator<` orders settings totally: it is irreflexive and transitive, and two settings neither of
-- which is before the other are the same in every field.
pub setting_less_order :
    (a b c : Setting)
    → (setting_less a a ≡ false)
      × (setting_less a b ≡ true → setting_less b c ≡ true → setting_less a c ≡ true)
      × (setting_less a b ≡ false → setting_less b a ≡ false → a ≡ b)
setting_less_order a b c =
    (setting_less_irrefl a, setting_less_trans a b c, setting_less_connex a b)

instance abbrev pub setting_order : StrictOrder Setting
setting_order = record {
  less = setting_less;
  irrefl = λ a. (setting_less_order a a a).0;
  trans = λ a b c. (setting_less_order a b c).1;
  connex = λ a b. (setting_less_order a b b).2;
}

-- `operator==` is true exactly of equal settings.
pub setting_eq_iff : (a b : Setting) → (setting_eq a b ≡ true) ↔ (a ≡ b)
unfolding setting_eq
setting_eq_iff a b = ground (
  arith,
  bytes_eq_iff a.dst_addr b.dst_addr,
  bytes_eq_iff a.class_id b.class_id,
  bytes_eq_iff a.dscp b.dscp,
)
