-- ===== src/Spec/Register.antt =====
-- The promise of the projection: for each user and source, a register that the change with the
-- latest event time wins (README.md, "Timestamp-based Ordering" and "Late-Arriving Events").
use subscription_reconciler.Base.{
  ◌≡◌, ◌≢◌, String, Bool, Option, none, some, List, [], ◌∷◌, if◌then◌else◌, arith,
}
use subscription_reconciler.Base.Int.{ℤ, ltb_ℤ, eq_of_parts}
use subscription_reconciler.Clock.{Time}

pub record Snapshot : Type 0 where
  pub active : Bool
  pub expires_at : Option Time
  pub reason : Option String
  pub time : ℤ

unfoldable pub merge : Option Snapshot → Snapshot → Option Snapshot
merge none c = some c
merge (some s) c = if ltb_ℤ s.time c.time then some c else some s

unfoldable pub merge_all : Option Snapshot → List Snapshot → Option Snapshot
merge_all s [] = s
merge_all s (c ∷ cs) = merge_all (merge s c) cs

-- Two changes of different times may come in either order.
pub merge_swap :
    (s : Option Snapshot) (a b : Snapshot)
    → a.time ≢ b.time
    → merge (merge s a) b ≡ merge (merge s b) a
unfolding merge
merge_swap s a b h = ground (arith, eq_of_parts a.time b.time)
