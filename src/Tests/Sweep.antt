-- ===== src/Tests/Sweep.antt =====
-- Instances for the expiration sweep.
use subscription_reconciler.Application.Expiration.{reconcile_expired_entitlements as sweep_service}
use subscription_reconciler.Audit.Fates.{Fates}
use subscription_reconciler.Audit.Sweep.{reconcile_expired-IsTruthful}
use subscription_reconciler.Audit.Trail.{IsTruthful}
use subscription_reconciler.Audit.Services.{Preserves-IsTruthful}
use subscription_reconciler.Base.{ℕ, ◌+◌, ◌==◌, ◌≡◌, ◌≢◌, arith, refl, none, some, true}
use subscription_reconciler.Base.Int.{pos}
use subscription_reconciler.Clock.{timestamptz, unix_micro}
use subscription_reconciler.Postgres.Client.Entitlements.{
  reconcile_expired_entitlements, reconcile_batch, expire_all, expire_one, expire_at,
}
use subscription_reconciler.Postgres.Client.Entitlements.Sweep.{
  expired, active_rows, reconcile_expired_accounts,
}
use subscription_reconciler.Postgres.Client.Upsert.{
  lock_entitlement_user, optional, record_change, upsert_entitlement, upsert_entitlement_in,
  write_projection,
}
use subscription_reconciler.Postgres.Queries.AuditLogs
use subscription_reconciler.Postgres.Queries.Entitlements
use subscription_reconciler.Postgres.Queries.Entitlements.{is_source}
use subscription_reconciler.Postgres.Queries.Entitlements.Keyed.{IsKeyed}
use subscription_reconciler.Postgres.Queries.Limits.{limit_rows}
use subscription_reconciler.Postgres.Session.{
  Env, World, Result, ok, ◌>>=◌, in_transaction, atomically, begin, statement, commit, pure,
  locked_entitlements,
}
use subscription_reconciler.Postgres.Types.{same_expiration}
use subscription_reconciler.Tests.Entitlements.{granted, grants}
use subscription_reconciler.Tests.World.{quiet, fresh, grant_of, start, days_30, empty-IsTruthful}
use subscription_reconciler.Worker.Expiration.{reconcile_once}
use subscription_reconciler.Worker.Expiration.Drain.{reconcile_once_ends}
use subscription_reconciler.Worker.Notifications.{out_of_fuel}

-- Five seconds after the grant has expired.
abbrev pub later : Env
later = record quiet { db_clock = λ k. start + days_30 + 5_000_000_000 }

abbrev pub swept : Result ℕ × World
swept = reconcile_expired_entitlements (pos 10) later granted.1

pub sweeps : reconcile_expired_entitlements (pos 10) later granted.1 ≡ (ok 1, swept.1)
unfolding ◌==◌ ◌>>=◌ in_transaction atomically begin statement lock_entitlement_user optional
    record_change upsert_entitlement upsert_entitlement_in write_projection
    AuditLogs.insert_audit_log Entitlements.get_entitlement_by_user_and_source is_source
    Entitlements.upsert_entitlement commit pure same_expiration timestamptz unix_micro
    locked_entitlements reconcile_expired_entitlements reconcile_batch expire_all expire_one
    expire_at Entitlements.get_expired_entitlements_for_reconciliation limit_rows
    Entitlements.expire_entitlement
sweeps = refl

pub granted-IsKeyed : IsKeyed granted.1.db.user_entitlements
unfolding ◌==◌ ◌>>=◌ in_transaction atomically begin statement lock_entitlement_user optional
    record_change upsert_entitlement upsert_entitlement_in write_projection
    AuditLogs.insert_audit_log Entitlements.get_entitlement_by_user_and_source is_source
    Entitlements.upsert_entitlement commit pure same_expiration timestamptz unix_micro
granted-IsKeyed = (refl, tt)

pub granted-IsTruthful : IsTruthful granted.1.db
granted-IsTruthful =
    ((Preserves-IsTruthful "STORE").upsert none (grant_of 200) (some "evt-1") refl).at quiet fresh
      granted.1 true grants empty-IsTruthful

reconcile_expired_accounts_example :
    (expired (start + days_30 + 5_000_000_000) swept.1.db + 1
      ≡ expired (start + days_30 + 5_000_000_000) granted.1.db)
    × (active_rows swept.1.db + 1 ≡ active_rows granted.1.db)
reconcile_expired_accounts_example =
    reconcile_expired_accounts (pos 10) later granted.1 swept.1 1 granted-IsKeyed sweeps

reconcile_expired-IsTruthful_example :
    IsTruthful swept.1.db × Fates (start + days_30 + 5_000_000_000) granted.1.db swept.1.db
reconcile_expired-IsTruthful_example =
    reconcile_expired-IsTruthful (pos 10) later granted.1 swept.1 1 granted-IsKeyed
      granted-IsTruthful sweeps

one_active : active_rows granted.1.db ≡ 1
unfolding ◌==◌ ◌>>=◌ in_transaction atomically begin statement lock_entitlement_user optional
    record_change upsert_entitlement upsert_entitlement_in write_projection
    AuditLogs.insert_audit_log Entitlements.get_entitlement_by_user_and_source is_source
    Entitlements.upsert_entitlement commit pure same_expiration timestamptz unix_micro
one_active = refl

reconcile_once_ends_example : (reconcile_once true 2 later granted.1).0 ≢ out_of_fuel
reconcile_once_ends_example =
    reconcile_once_ends 2 later granted.1 granted-IsKeyed (omega (arith, one_active))

abbrev cycle : World
cycle = (reconcile_once true 2 later granted.1).1
