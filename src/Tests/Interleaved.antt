-- ===== src/Tests/Interleaved.antt =====
-- A renewal whose call the expiration sweep interrupts.
use subscription_reconciler.Audit.Interleaved.{interleaved_upsert-IsTruthful_iff}
use subscription_reconciler.Audit.Sweep.{reconcile_expired-IsTruthful}
use subscription_reconciler.Audit.Trail.{IsTruthful, Agrees, latest}
use subscription_reconciler.Base.{
  ◌+◌, ◌==◌, ◌&&◌, ◌≡◌, ◌↔◌, refl, Bool, true, some, if◌then◌else◌, arith,
}
use subscription_reconciler.Base.Int.{pos}
use subscription_reconciler.Clock.{timestamptz, unix_micro, unix_milli}
use subscription_reconciler.Postgres.Client.Entitlements.{
  reconcile_expired_entitlements, reconcile_batch, expire_all, expire_one, expire_at,
}
use subscription_reconciler.Postgres.Client.Upsert.{
  lock_entitlement_user, optional, record_change, upsert_entitlement, upsert_entitlement_in,
  write_projection,
}
use subscription_reconciler.Postgres.Client.Upsert.Interleaved.{
  interleaved_upsert, meanwhile, view-interleaved_upsert, Rises,
}
use subscription_reconciler.Postgres.Client.Upsert.Refinement.{view, change_of}
use subscription_reconciler.Postgres.Models.{Db}
use subscription_reconciler.Postgres.Queries.AuditLogs
use subscription_reconciler.Postgres.Queries.Entitlements
use subscription_reconciler.Postgres.Queries.Entitlements.{
  UpsertEntitlementParams, find_entitlement, is_source,
}
use subscription_reconciler.Postgres.Queries.Limits.{limit_rows}
use subscription_reconciler.Postgres.Session.{
  World, Result, ok, ◌>>=◌, in_transaction, atomically, begin, statement, commit, pure,
  locked_entitlements,
}
use subscription_reconciler.Postgres.Types.{same_expiration}
use subscription_reconciler.Spec.Register.{merge}
use subscription_reconciler.Tests.Entitlements.{granted}
use subscription_reconciler.Tests.Sweep.{later, swept, sweeps, granted-IsTruthful, granted-IsKeyed}
use subscription_reconciler.Tests.World.{quiet, grant_of, start, days_30}

-- A second after the grant has expired.
abbrev renewal : UpsertEntitlementParams
renewal = record (grant_of 1_738_281_601_000) { expires_at = some (start + days_30 + days_30) }

abbrev sweep_now : Db → Db
sweep_now db = (reconcile_expired_entitlements (pos 10) later (record granted.1 { db = db })).1.db

abbrev renewed : Result Bool × World
renewed =
    interleaved_upsert sweep_now (some (start + days_30 + 2_000_000_000)) renewal (some "evt-2")
      quiet granted.1

renews :
    interleaved_upsert sweep_now
      (some (start + days_30 + 2_000_000_000))
      renewal
      (some "evt-2")
      quiet
      granted.1
    ≡ (ok true, renewed.1)
unfolding ◌==◌ ◌>>=◌ in_transaction atomically begin statement lock_entitlement_user optional
    record_change upsert_entitlement upsert_entitlement_in write_projection
    AuditLogs.insert_audit_log Entitlements.get_entitlement_by_user_and_source is_source
    Entitlements.upsert_entitlement commit pure same_expiration timestamptz unix_micro
    locked_entitlements reconcile_expired_entitlements reconcile_batch expire_all expire_one
    expire_at Entitlements.get_expired_entitlements_for_reconciliation limit_rows
    Entitlements.expire_entitlement interleaved_upsert meanwhile unix_milli
renews = refl

swept-Rises :
    Rises
      (find_entitlement "alice" "STORE" granted.1.db)
      (find_entitlement "alice" "STORE" (sweep_now granted.1.db))
unfolding ◌==◌ ◌>>=◌ in_transaction atomically begin statement lock_entitlement_user optional
    record_change upsert_entitlement upsert_entitlement_in write_projection
    AuditLogs.insert_audit_log Entitlements.get_entitlement_by_user_and_source is_source
    Entitlements.upsert_entitlement commit pure same_expiration timestamptz unix_micro
    locked_entitlements reconcile_expired_entitlements reconcile_batch expire_all expire_one
    expire_at Entitlements.get_expired_entitlements_for_reconciliation limit_rows
    Entitlements.expire_entitlement unix_milli
swept-Rises = ground arith

view-interleaved_upsert_example : view "alice" "STORE" renewed.1.db ≡ (
    if "alice" == "alice" && "STORE" == "STORE"
    then merge (view "alice" "STORE" (sweep_now granted.1.db)) (change_of renewal)
    else view "alice" "STORE" (sweep_now granted.1.db))
view-interleaved_upsert_example =
    view-interleaved_upsert sweep_now (start + days_30 + 2_000_000_000) renewal (some "evt-2") quiet
      granted.1 renewed.1 true "alice" "STORE" swept-Rises renews

swept-IsTruthful : IsTruthful (sweep_now granted.1.db)
swept-IsTruthful =
    (reconcile_expired-IsTruthful (pos 10) later granted.1 swept.1 1 granted-IsKeyed
      granted-IsTruthful sweeps).0

interleaved_upsert-IsTruthful_iff_example :
    IsTruthful renewed.1.db
    ↔ Agrees
        (find_entitlement "alice" "STORE" granted.1.db)
        (latest "alice" "STORE" (sweep_now granted.1.db).audit_logs)
interleaved_upsert-IsTruthful_iff_example =
    interleaved_upsert-IsTruthful_iff sweep_now (start + days_30 + 2_000_000_000) renewal
      (some "evt-2") quiet granted.1 renewed.1 swept-IsTruthful renews

-- The row that the renewal has read was active, and the newest audit row says that it is not.
swept_disagrees :
    ¬ Agrees
      (find_entitlement "alice" "STORE" granted.1.db)
      (latest "alice" "STORE" (sweep_now granted.1.db).audit_logs)
unfolding ◌==◌ ◌>>=◌ in_transaction atomically begin statement lock_entitlement_user optional
    record_change upsert_entitlement upsert_entitlement_in write_projection
    AuditLogs.insert_audit_log Entitlements.get_entitlement_by_user_and_source is_source
    Entitlements.upsert_entitlement commit pure same_expiration timestamptz unix_micro
    locked_entitlements reconcile_expired_entitlements reconcile_batch expire_all expire_one
    expire_at Entitlements.get_expired_entitlements_for_reconciliation limit_rows
    Entitlements.expire_entitlement
swept_disagrees (a, b) = ground (arith, a)

-- So the audit row of the renewal does not begin where that of the sweep ended.
renewal_breaks_trail : ¬ IsTruthful renewed.1.db
renewal_breaks_trail t = swept_disagrees (
    (interleaved_upsert-IsTruthful_iff sweep_now (start + days_30 + 2_000_000_000) renewal
        (some "evt-2") quiet granted.1 renewed.1 swept-IsTruthful renews).0
      t)
