-- ===== src/Tests/Entitlements.antt =====
-- Instances for the entitlement projection.
use subscription_reconciler.Base.{
  ◌+◌, ◌/◌, ◌==◌, ◌≡◌, refl, sym, ap, subst, Bool, none, some, true, false, List, [], ◌∷◌, arith,
}
use subscription_reconciler.Base.Int.{pos_part}
use subscription_reconciler.Clock.{timestamptz, unix_micro}
use subscription_reconciler.Postgres.Client.Upsert.{
  lock_entitlement_user, optional, record_change, upsert_entitlement, upsert_entitlement_in,
  write_projection,
}
use subscription_reconciler.Postgres.Client.Upsert.Convergence.{
  Delivery, DistinctTimes, deliver_all, deliver_all_perm,
}
use subscription_reconciler.Postgres.Client.Upsert.Refinement.{
  view, change_of, view-upsert_entitlement, upsert_entitlement_stale,
}
use subscription_reconciler.Postgres.Models.{UserEntitlement}
use subscription_reconciler.Postgres.Queries.AuditLogs
use subscription_reconciler.Postgres.Queries.Entitlements
use subscription_reconciler.Postgres.Queries.Entitlements.{is_source, fresh_row}
use subscription_reconciler.Postgres.Session.{
  World, Result, ok, ◌>>=◌, in_transaction, atomically, begin, statement, commit, pure,
}
use subscription_reconciler.Postgres.Types.{same_expiration}
use subscription_reconciler.Postgres.Types.Expirations.{same_expiration_iff}
use subscription_reconciler.Spec.Register.{merge}
use subscription_reconciler.Tests.World.{quiet, fresh, grant_of, cancel_of, start}
use mathlib.Core.Option
use mathlib.Core.List.{Mem, Pairwise, Permᴰ, Pairwise-singleton}
use mathlib.Core.List.Memᴰ
use mathlib.Core.HLevel.{¬_prop}
use mathlib.Core.Logic.{∥∥₁_elim, ◌↔◌}

-- A grant of event time 200 on empty tables.
abbrev pub granted : Result Bool × World
granted = upsert_entitlement none (grant_of 200) (some "evt-1") quiet fresh

pub grants :
    upsert_entitlement none (grant_of 200) (some "evt-1") quiet fresh ≡ (ok true, granted.1)
unfolding deliver_all ◌==◌ ◌>>=◌ in_transaction atomically begin statement lock_entitlement_user
    optional record_change upsert_entitlement upsert_entitlement_in write_projection
    AuditLogs.insert_audit_log Entitlements.get_entitlement_by_user_and_source is_source
    Entitlements.upsert_entitlement commit pure same_expiration timestamptz unix_micro
grants = refl

-- A cancellation of event time 100, after it.
abbrev late : Result Bool × World
late = upsert_entitlement none (cancel_of 100) (some "evt-0") quiet granted.1

comes_late :
    upsert_entitlement none (cancel_of 100) (some "evt-0") quiet granted.1 ≡ (ok false, late.1)
unfolding deliver_all ◌==◌ ◌>>=◌ in_transaction atomically begin statement lock_entitlement_user
    optional record_change upsert_entitlement upsert_entitlement_in write_projection
    AuditLogs.insert_audit_log Entitlements.get_entitlement_by_user_and_source is_source
    Entitlements.upsert_entitlement commit pure same_expiration timestamptz unix_micro
comes_late = refl

view-upsert_entitlement_example :
    view "alice" "STORE" late.1.db
    ≡ merge (view "alice" "STORE" granted.1.db) (change_of (cancel_of 100))
unfolding ◌==◌
view-upsert_entitlement_example =
    view-upsert_entitlement none (cancel_of 100) (some "evt-0") quiet granted.1 late.1 false "alice"
      "STORE" comes_late

abbrev granted_row : UserEntitlement
granted_row = fresh_row (start + 2_000_000_000) (grant_of 200)

row_found : Entitlements.find_entitlement "alice" "STORE" granted.1.db ≡ some granted_row
unfolding deliver_all ◌==◌ ◌>>=◌ in_transaction atomically begin statement lock_entitlement_user
    optional record_change upsert_entitlement upsert_entitlement_in write_projection
    AuditLogs.insert_audit_log Entitlements.get_entitlement_by_user_and_source is_source
    Entitlements.upsert_entitlement commit pure same_expiration timestamptz unix_micro
row_found = refl

upsert_entitlement_stale_example : (false ≡ false) × (late.1.db ≡ granted.1.db)
upsert_entitlement_stale_example =
    upsert_entitlement_stale none (cancel_of 100) (some "evt-0") quiet granted.1 late.1 false
      granted_row row_found (omega arith) comes_late

abbrev grant_delivery : Delivery
grant_delivery = record { change = grant_of 200; trigger = some "evt-1" }

abbrev cancel_delivery : Delivery
cancel_delivery = record { change = cancel_of 100; trigger = some "evt-0" }

abbrev in_order : List Delivery
in_order = cancel_delivery ∷ grant_delivery ∷ []

abbrev swapped : List Delivery
swapped = grant_delivery ∷ cancel_delivery ∷ []

delivers_in_order : deliver_all in_order quiet fresh ≡ (ok tt, (deliver_all in_order quiet fresh).1)
unfolding deliver_all ◌==◌ ◌>>=◌ in_transaction atomically begin statement lock_entitlement_user
    optional record_change upsert_entitlement upsert_entitlement_in write_projection
    AuditLogs.insert_audit_log Entitlements.get_entitlement_by_user_and_source is_source
    Entitlements.upsert_entitlement commit pure same_expiration timestamptz unix_micro
delivers_in_order = refl

delivers_swapped : deliver_all swapped quiet fresh ≡ (ok tt, (deliver_all swapped quiet fresh).1)
unfolding deliver_all ◌==◌ ◌>>=◌ in_transaction atomically begin statement lock_entitlement_user
    optional record_change upsert_entitlement upsert_entitlement_in write_projection
    AuditLogs.insert_audit_log Entitlements.get_entitlement_by_user_and_source is_source
    Entitlements.upsert_entitlement commit pure same_expiration timestamptz unix_micro
delivers_swapped = refl

differ : DistinctTimes cancel_delivery grant_delivery
differ same = absurd (omega (arith, ap pos_part same))

in_order-DistinctTimes : Pairwise DistinctTimes in_order
in_order-DistinctTimes = Pairwise.cons apart (Pairwise-singleton DistinctTimes grant_delivery)
  where
    apart : (d : Delivery) → Mem d (grant_delivery ∷ []) → DistinctTimes cancel_delivery d
    apart d m =
        ∥∥₁_elim m ¬_prop
          λ h. subst (DistinctTimes cancel_delivery) (sym (Memᴰ.eq_of_singleton h)) differ

deliver_all_perm_example :
    view "alice" "STORE" (deliver_all in_order quiet fresh).1.db
    ≡ view "alice" "STORE" (deliver_all swapped quiet fresh).1.db
deliver_all_perm_example =
    deliver_all_perm in_order swapped quiet quiet fresh fresh (deliver_all in_order quiet fresh).1
      (deliver_all swapped quiet fresh).1 "alice" "STORE" ∣ Permᴰ.swap refl refl ∣₁
      in_order-DistinctTimes refl delivers_in_order delivers_swapped

same_expiration_iff_example :
    (same_expiration (some start) (some (start + 999)) ≡ true)
    ↔ (Option.map (λ t. t / 1_000) (some start) ≡ Option.map (λ t. t / 1_000) (some (start + 999)))
same_expiration_iff_example =
    same_expiration_iff (some start) (some (start + 999)) (omega arith) (omega arith)
