-- ===== src/Prelude/Order.antt =====
-- A strict total order by a Boolean test, as `operator<` gives it to the standard algorithms.
use mathlib.Core.Path.{◌≡◌}
use mathlib.Core.Bool.{Bool, true, false, not, ◌&&◌}
use native.Mathlib.Omega.{arith}

pub record StrictOrder {ℓ} (A : Type ℓ) : Type ℓ where
  pub less : A → A → Bool
  pub irrefl : (a : A) → less a a ≡ false
  pub trans : (a b c : A) → less a b ≡ true → less b c ≡ true → less a c ≡ true
  pub connex : (a b : A) → less a b ≡ false → less b a ≡ false → a ≡ b

module _ {ℓ} {A : Type ℓ} ⦃o : StrictOrder A⦄ where
  abbrev pub less : A → A → Bool
  less = o.less

  -- Equal as the order sees it; by `connex` that is equality.
  abbrev pub same : A → A → Bool
  same a b = not (less a b) && not (less b a)

  pub same_refl : (a : A) → same a a ≡ true
  same_refl a = rw (o.irrefl a)

  pub same_eq : (a b : A) → same a b ≡ true → a ≡ b
  same_eq a b h = o.connex a b (ground arith) (ground arith)

  pub asymm : (a b : A) → less a b ≡ true → less b a ≡ false
  asymm a b h = ground (arith, o.irrefl a, o.trans a b a)

  -- `a` is not above `b`, and `b` not above `c`.
  pub not_less_trans : (a b c : A) → less b a ≡ false → less c b ≡ false → less c a ≡ false
  not_less_trans a b c h k = ground (
    arith,
    o.connex a b,
    o.connex b c,
    o.trans a b c,
    asymm a c,
    o.trans c a b,
    asymm a b,
    asymm b c,
  )
