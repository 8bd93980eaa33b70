-- ===== src/Prelude/Text.antt =====
-- Text as the list of its bytes.
use Prim.Native.Char.{code}
use Prim.Native.String.{String}
use Prim.Native.Nat.{ℕ, zero, suc, ◌+◌, ◌-◌, ◌*◌, ◌/◌, ◌%◌, ◌^◌, ◌<◌}
use mathlib.Core.Path.{◌≡◌, refl, ap}
use mathlib.Core.Logic.{◌↔◌}
use mathlib.Core.Bool.{Bool, true, false}
use native.Mathlib.Omega.{arith}
use native.Mathlib.Nat.{pow-succ'}
use mathlib.Core.List.{List, [], ◌∷◌, ◌++◌}
use heyp_agents.Prelude.Tests.{ltb, ◌==◌, if◌then◌else◌}

-- A `std::string` is the list of its bytes.
abbrev pub Bytes : Type 0
Bytes = List ℕ

unfoldable pub bytes_eq : Bytes → Bytes → Bool
bytes_eq [] [] = true
bytes_eq [] (y ∷ ys) = false
bytes_eq (x ∷ xs) [] = false
bytes_eq (x ∷ xs) (y ∷ ys) = if x == y then bytes_eq xs ys else false

pub bytes_eq_iff : (a b : Bytes) → (bytes_eq a b ≡ true) ↔ (a ≡ b)
unfolding bytes_eq
bytes_eq_iff [] [] = ground arith
bytes_eq_iff [] (y ∷ b) = ground arith
bytes_eq_iff (x ∷ a) [] = ground arith
bytes_eq_iff (x ∷ a) (y ∷ b) = ground (arith, bytes_eq_iff a b)

-- The bytes of an ASCII literal.
abbrev pub codes : String → List ℕ
codes String.[] = []
codes (String.◌∷◌ c s) = code c ∷ codes s

digits_within : ℕ → ℕ → List ℕ
digits_within zero n = []
digits_within (suc fuel) n =
    let front = digits_within fuel (n / 10) in
    if ltb n 10 then (b'0' + n) ∷ [] else front ++ (b'0' + n % 10) ∷ []

-- A number below 2^64 in decimal, as `absl::StrCat` writes it: 20 digits are enough.
unfoldable pub decimal : ℕ → List ℕ
unfolding digits_within
decimal n = digits_within 20 n

-- The number that digits write.
unfoldable pub number_of : ℕ → List ℕ → ℕ
number_of acc [] = acc
number_of acc (d ∷ digits) = number_of (acc * 10 + (d - b'0')) digits

number_of-snoc :
    (acc d : ℕ) (digits : List ℕ)
    → number_of acc (digits ++ d ∷ []) ≡ number_of acc digits * 10 + (d - b'0')
unfolding number_of
number_of-snoc acc d [] = refl
number_of-snoc acc d (c ∷ digits) = number_of-snoc (acc * 10 + (c - b'0')) d digits

number_of-digits_within : (fuel n : ℕ) → n < 10 ^ fuel → number_of 0 (digits_within fuel n) ≡ n
unfolding number_of digits_within
number_of-digits_within zero n h = omega arith
number_of-digits_within (suc fuel) n h =
    let h' : n < 10 * 10 ^ fuel = omega (arith, pow-succ' 10 fuel) in
    ground (
      arith,
      number_of-digits_within fuel (n / 10),
      number_of-snoc 0 (b'0' + n % 10) (digits_within fuel (n / 10)),
    )

-- Numbers below 2^64 have different decimals.
pub decimal-injective : (a b : ℕ) → a < 2 ^ 64 → b < 2 ^ 64 → decimal a ≡ decimal b → a ≡ b
unfolding decimal
decimal-injective a b h k q = omega (
  arith,
  number_of-digits_within 20 a (omega arith),
  number_of-digits_within 20 b (omega arith),
  ap (number_of 0) q,
)

abbrev pub onto_first : ℕ → List Bytes → List Bytes
onto_first c [] = (c ∷ []) ∷ []
onto_first c (field ∷ fields) = (c ∷ field) ∷ fields

abbrev pub split_at : Bool → ℕ → List Bytes → List Bytes
split_at true c fields = [] ∷ fields
split_at false c fields = onto_first c fields

-- `absl::StrSplit` at the characters that pass the test.
unfoldable pub split : (ℕ → Bool) → Bytes → List Bytes
split is_separator [] = [] ∷ []
split is_separator (c ∷ text) = split_at (is_separator c) c (split is_separator text)
