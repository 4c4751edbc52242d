-- ===== src/Tests/Revocation.antt =====
-- Instances for the marketplace revocations.
use subscription_reconciler.Application.MarketplaceRevoke.{
  revocation_key, revocation_change, apply_revocation, ingest_revocation, revoke_user, revoke_users,
  revoke_valid, revoke_marketplace_access,
}
use subscription_reconciler.System.Deduplication.{revoke_marketplace_access_once}
use subscription_reconciler.System.History.{History}
use subscription_reconciler.Base.{ℕ, ◌==◌, ◌≡◌, refl, true, [], ◌∷◌}
use subscription_reconciler.Clock.{timestamptz, unix_micro, unix_milli}
use subscription_reconciler.Domain.Revoke.{
  MarketplaceRevokeRequest, MarketplaceRevokeResponse, validate,
}
use subscription_reconciler.Postgres.Client.Events.{
  with_marketplace_revocation_transaction, insert_marketplace_revocation, mark_event_processed,
}
use subscription_reconciler.Postgres.Client.Upsert.{
  lock_entitlement_user, optional, record_change, upsert_entitlement, upsert_entitlement_in,
  write_projection,
}
use subscription_reconciler.Postgres.Queries.AuditLogs
use subscription_reconciler.Postgres.Queries.Entitlements
use subscription_reconciler.Postgres.Queries.Entitlements.{is_source}
use subscription_reconciler.Postgres.Queries.Events
use subscription_reconciler.Postgres.Session.{
  World, Result, ok, ◌>>=◌, ask, time_now, ctx_err, atomically, begin, wrap, statement, commit,
  pure, raise,
}
use subscription_reconciler.Postgres.Types.{same_expiration}
use subscription_reconciler.Tests.World.{quiet, fresh}

abbrev pub request : MarketplaceRevokeRequest
request = record { user_ids = "alice" ∷ "bob" ∷ [] }

abbrev pub answer_of : ℕ → MarketplaceRevokeResponse
answer_of n = record { accepted = true; count = n; message = "Marketplace access revoked" }

abbrev pub first : Result MarketplaceRevokeResponse × World
first = revoke_marketplace_access request quiet fresh

abbrev again : Result MarketplaceRevokeResponse × World
again = revoke_marketplace_access request quiet first.1

pub revokes : revoke_marketplace_access request quiet fresh ≡ (ok (answer_of 2), first.1)
unfolding revoke_marketplace_access validate revoke_valid revoke_users revoke_user ingest_revocation
    apply_revocation revocation_key revocation_change with_marketplace_revocation_transaction
    insert_marketplace_revocation Events.insert_marketplace_revocation mark_event_processed
    Events.mark_event_processed ◌==◌ ◌>>=◌ ask time_now ctx_err atomically begin wrap statement
    commit pure raise lock_entitlement_user optional record_change upsert_entitlement
    upsert_entitlement_in write_projection AuditLogs.insert_audit_log
    Entitlements.get_entitlement_by_user_and_source is_source Entitlements.upsert_entitlement
    same_expiration timestamptz unix_micro unix_milli
revokes = refl

revokes_again : revoke_marketplace_access request quiet first.1 ≡ (ok (answer_of 0), again.1)
unfolding revoke_marketplace_access validate revoke_valid revoke_users revoke_user ingest_revocation
    apply_revocation revocation_key revocation_change with_marketplace_revocation_transaction
    insert_marketplace_revocation Events.insert_marketplace_revocation mark_event_processed
    Events.mark_event_processed ◌==◌ ◌>>=◌ ask time_now ctx_err atomically begin wrap statement
    commit pure raise lock_entitlement_user optional record_change upsert_entitlement
    upsert_entitlement_in write_projection AuditLogs.insert_audit_log
    Entitlements.get_entitlement_by_user_and_source is_source Entitlements.upsert_entitlement
    same_expiration timestamptz unix_micro unix_milli
revokes_again = refl

revoke_marketplace_access_once_example : ((answer_of 0).count ≡ 0) × (again.1.db ≡ first.1.db)
revoke_marketplace_access_once_example =
    revoke_marketplace_access_once request request quiet quiet fresh first.1 first.1 again.1
      (answer_of 2) (answer_of 0) refl refl revokes (History.start first.1.db refl) revokes_again
