-- ===== src/Postgres/Types/Expirations.antt =====
-- `sameExpiration` compares what a TIMESTAMPTZ column keeps.
use subscription_reconciler.Base.{
  ℕ, ◌<◌, ◌/◌, ◌^◌, ap, ◌≡◌, ◌↔◌, refl, true, Option, none, some, arith,
}
use subscription_reconciler.Base.Int.{ℤ, eq_of_parts}
use subscription_reconciler.Clock.{Time, int64_of, unix_micro, timestamptz}
use subscription_reconciler.Postgres.Types.{same_expiration}
use mathlib.Core.Option

abbrev pub micros : Option Time → Option ℤ
micros o = Option.map unix_micro o

-- The comparison is equality of these, with nil equal to nil alone.
pub same_expiration-micros :
    (a b : Option Time) → (same_expiration a b ≡ true) ↔ (micros a ≡ micros b)
unfolding same_expiration
same_expiration-micros none none = ground arith
same_expiration-micros none (some b) = ground arith
same_expiration-micros (some a) none = ground arith
same_expiration-micros (some a) (some b) = ground (arith, eq_of_parts (unix_micro a) (unix_micro b))

-- Less than 2^64 microseconds after the zero time, in the year 584554 or before: TIMESTAMPTZ ends
-- in 294276.
abbrev pub InRange : Option Time → Type 0
InRange none = Unit {0}
InRange (some t) = t / 1_000 < 2 ^ 64

int64_of-injective : (m n : ℕ) → m < 2 ^ 64 → n < 2 ^ 64 → int64_of m ≡ int64_of n → m ≡ n
int64_of-injective m n h k e = ground (arith, h, k, e)

unix_micro-injective :
    (a b : Time)
    → a / 1_000 < 2 ^ 64
    → b / 1_000 < 2 ^ 64
    → unix_micro a ≡ unix_micro b
    → a / 1_000 ≡ b / 1_000
unfolding unix_micro
unix_micro-injective a b h k e =
    let same = int64_of-injective _ _ (omega arith) (omega arith) e in omega (arith, h, k, same)

unix_micro-same : (a b : Time) → a / 1_000 ≡ b / 1_000 → unix_micro a ≡ unix_micro b
unfolding unix_micro
unix_micro-same a b e = rw e

-- Of times in that range, sameExpiration holds exactly if both are nil or both are within the same
-- whole microsecond, although UnixMicro wraps around within it.
pub same_expiration_iff :
    (a b : Option Time)
    → InRange a
    → InRange b
    → (same_expiration a b ≡ true) ↔ (Option.map (λ t. t / 1_000) a ≡ Option.map (λ t. t / 1_000) b)
unfolding same_expiration
same_expiration_iff none none h k = ground arith
same_expiration_iff none (some b) h k = ground arith
same_expiration_iff (some a) none h k = ground arith
same_expiration_iff (some a) (some b) h k = (
  λ e. ap some (
      unix_micro-injective a b h k (eq_of_parts (unix_micro a) (unix_micro b) (ground (arith, e)))),
  λ e. ground (arith, e, unix_micro-same a b),
)

unix_micro-timestamptz : (t : Time) → unix_micro (timestamptz t) ≡ unix_micro t
unfolding unix_micro timestamptz
unix_micro-timestamptz t = ground arith

-- Storing an expiration does not change it for the comparison.
pub micros-timestamptz : (o : Option Time) → micros (Option.map timestamptz o) ≡ micros o
micros-timestamptz none = refl
micros-timestamptz (some t) = ground (arith, unix_micro-timestamptz t)
