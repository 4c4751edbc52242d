-- ===== src/Base/Decimal/RoundTrip.antt =====
-- The decimal numeral of an integer, and that it is read back.
use Prim.Native.Nat.{ℕ, zero, suc, ◌+◌, ◌/◌, ◌%◌, ◌≤◌}
use mathlib.Core.Bool.{true}
use mathlib.Core.List.{List, [], ◌∷◌}
use mathlib.Core.Logic.{◌≢◌, inl, inr}
use mathlib.Core.Option.{some}
use mathlib.Core.Path.{◌≡◌, refl, ◌∙◌}
use native.Mathlib.Omega.{arith}
use subscription_reconciler.Base.Decimal.{is_digit, scan, magnitude, parse_int32, in_int32}
use subscription_reconciler.Base.Int.{ℤ, pos, negsuc, ◌≤ℤ◌}
use subscription_reconciler.Base.Tests.{ltb, Bool-cases, if◌then◌else◌}

-- The digits of `n` before `out`, the last one first; each round takes one digit off.
pub digits : ℕ → ℕ → List ℕ → List ℕ
digits zero n out = (b'0' + n % 10) ∷ out
digits (suc f) n out =
    let more = digits f (n / 10) ((b'0' + n % 10) ∷ out) in
    if ltb n 10 then (b'0' + n) ∷ out else more

pub numeral : ℕ → List ℕ
unfolding digits
numeral n = digits n n []

unfoldable pub decimal : ℤ → List ℕ
unfolding numeral
decimal (pos n) = numeral n
decimal (negsuc n) = b'-' ∷ numeral (n + 1)

scan-digits : (f n : ℕ) (out : List ℕ) → n ≤ f → scan 0 (digits f n out) ≡ scan n out
unfolding digits
scan-digits zero n out h = ground arith
scan-digits (suc f) n out h = elim (Bool-cases (ltb n 10)) [
  | inl small ↦ ground (arith, small)
  | inr large ↦ ground (arith, large, scan-digits f (n / 10) ((b'0' + n % 10) ∷ out))
]

digits_head :
    (f n : ℕ) (out : List ℕ)
    → n ≤ f
    → (c : ℕ) × (cs : List ℕ) × (digits f n out ≡ c ∷ cs) × (is_digit c ≡ true)
unfolding digits
digits_head zero n out h = (b'0' + n % 10, out, refl, ground arith)
digits_head (suc f) n out h = elim (Bool-cases (ltb n 10)) [
  | inl small ↦ (b'0' + n, out, rw small, ground (arith, small))
  | inr large ↦
      let (c, cs, e, d) = digits_head f (n / 10) ((b'0' + n % 10) ∷ out) (omega arith) in
      (c, cs, rw large e, d)
]

magnitude-scan : (c : ℕ) (cs xs : List ℕ) → xs ≡ c ∷ cs → magnitude xs ≡ scan 0 xs
magnitude-scan c cs xs e = rw e

magnitude-numeral : (n : ℕ) → magnitude (numeral n) ≡ some n
unfolding numeral
magnitude-numeral n =
    let (c, cs, e, d) = digits_head n n [] (omega arith) in
    magnitude-scan c cs (digits n n []) e ∙ scan-digits n n [] (omega arith)

unsigned : (n : ℕ) → parse_int32 (numeral n) ≡ in_int32 (magnitude (numeral n))
unfolding numeral
unsigned n = let (c, cs, e, d) = digits_head n n [] (omega arith) in rw e (ground (arith, d))

-- Every int32 is read back from its decimal numeral.
pub parse_int32-decimal :
    (z : ℤ) → negsuc 2_147_483_647 ≤ℤ z → z ≤ℤ pos 2_147_483_647 → parse_int32 (decimal z) ≡ some z
unfolding decimal
parse_int32-decimal (pos n) low high = unsigned n ∙ rw (magnitude-numeral n) (ground arith)
parse_int32-decimal (negsuc n) low high = rw (magnitude-numeral (n + 1)) (ground arith)

numeral-ne-nil : (n : ℕ) → numeral n ≢ []
unfolding numeral
numeral-ne-nil n e = let (c, cs, starts, d) = digits_head n n [] (omega arith) in cc

pub decimal-ne-nil : (z : ℤ) → decimal z ≢ []
unfolding decimal
decimal-ne-nil (pos n) e = numeral-ne-nil n e
decimal-ne-nil (negsuc n) e = cc
