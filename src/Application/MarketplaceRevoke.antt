-- ===== src/Application/MarketplaceRevoke.antt =====
-- internal/application/marketplace_revoke.go.
pub mod Internal
pub mod Monthly
pub mod Repeat
use Prim.Native.String
use subscription_reconciler.Base.{
  ℕ, ◌+◌, String, Bool, true, false, Option, none, some, List, [], ◌∷◌, if◌then◌else◌,
}
use subscription_reconciler.Clock.{Time, unix_milli}
use subscription_reconciler.Domain.Error.{DomainError, domain}
use subscription_reconciler.Domain.Revoke.{
  MarketplaceRevokeRequest, MarketplaceRevokeResponse, validate,
}
use subscription_reconciler.Postgres.Client.Events.{
  with_marketplace_revocation_transaction, insert_marketplace_revocation, mark_event_processed,
}
use subscription_reconciler.Postgres.Client.Upsert.{upsert_entitlement}
use subscription_reconciler.Postgres.Queries.Entitlements.{UpsertEntitlementParams}
use subscription_reconciler.Postgres.Session.{
  Action, Queries, pure, raise, ask, ◌>>=◌, ◌>>◌, wrap, time_now, ctx_err,
}

-- fmt.Sprintf("marketplace_revoke_%s_%s", userID, month)
unfoldable pub revocation_key : String → String → String
revocation_key user month =
    String.◌++◌ "marketplace_revoke_" (String.◌++◌ user (String.◌++◌ "_" month))

unfoldable pub revocation_change : String → Time → UpsertEntitlementParams
revocation_change user batch_time = record {
  user_id = user;
  source = "MARKETPLACE";
  active = false;
  expires_at = none;
  reason = some "MARKETPLACE_REVOKE";
  last_event_time = unix_milli batch_time;
}

unfoldable pub apply_revocation : String → String → Time → Queries → Action (Unit {0})
apply_revocation event user batch_time tx = do
  ctx_err
  changed ←
      wrap "upsert marketplace entitlement"
        (upsert_entitlement tx (revocation_change user batch_time) (some event))
  ctx_err
  wrap "mark revocation event processed" (mark_event_processed tx event "MARKETPLACE")

-- The callback: whether the monthly event was new.
unfoldable pub ingest_revocation : String → String → Time → Queries → Action Bool
ingest_revocation event user batch_time tx = do
  ctx_err
  inserted ← wrap "record revocation event" (insert_marketplace_revocation tx event user)
  if inserted then (do apply_revocation event user batch_time tx; pure true) else pure false

unfoldable pub revoke_user : String → String → Time → Action Bool
revoke_user event user batch_time = do
  wrap "marketplace revoke canceled" ctx_err
  wrap "process marketplace revocation"
      (with_marketplace_revocation_transaction (ingest_revocation event user batch_time))

-- The loop over the users; an error ends it.
unfoldable pub revoke_users : (Time → String) → Time → List String → ℕ → Action ℕ
revoke_users year_month batch_time [] processed = pure processed
revoke_users year_month batch_time (user ∷ users) processed = do
  inserted ← revoke_user (revocation_key user (year_month batch_time)) user batch_time
  revoke_users year_month batch_time users (if inserted then processed + 1 else processed)

unfoldable pub revoke_valid : MarketplaceRevokeRequest → Action MarketplaceRevokeResponse
revoke_valid r = do
  env ← ask
  batch_time ← time_now
  processed ← revoke_users env.year_month batch_time r.user_ids 0
  pure (record { accepted = true; count = processed; message = "Marketplace access revoked" })

abbrev pub validated :
    Option DomainError → Action MarketplaceRevokeResponse → Action MarketplaceRevokeResponse
validated (some e) m = raise (domain e)
validated none m = m

-- `RevokeMarketplaceAccess`.
unfoldable pub revoke_marketplace_access :
    MarketplaceRevokeRequest → Action MarketplaceRevokeResponse
revoke_marketplace_access r = validated (validate r) (revoke_valid r)
