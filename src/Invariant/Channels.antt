-- ===== src/Invariant/Channels.antt =====
-- The three channels by which entitlements come in, as one operation.
use subscription_reconciler.Application.CarrierPolling.{CarrierClient, poll_carriers_for_users}
use subscription_reconciler.Application.MarketplaceRevoke.{revoke_marketplace_access}
use subscription_reconciler.Application.StoreWebhook.{process_store_webhook}
use subscription_reconciler.Base.{String}
use subscription_reconciler.Base.Int.{ℤ}
use subscription_reconciler.Clock.{Time}
use subscription_reconciler.Domain.Revoke.{MarketplaceRevokeRequest}
use subscription_reconciler.Domain.Webhook.{StoreWebhookPayload}
use subscription_reconciler.Invariant.Polling.{poll_carriers_for_users-Keeps}
use subscription_reconciler.Invariant.Preserves.{Preserves}
use subscription_reconciler.Invariant.Services.{
  process_store_webhook-Keeps, revoke_marketplace_access-Keeps,
}
use subscription_reconciler.Postgres.Models.{Db}
use subscription_reconciler.Postgres.Session.{Env, World}

-- The three channels, by the call that each one makes, and the source that each one writes.
pub data Channel : Type 0 where
  store : StoreWebhookPayload → Channel
  marketplace : MarketplaceRevokeRequest → Channel
  carrier : CarrierClient → ℤ → Time → Channel

abbrev pub source_of : Channel → String
source_of (store p) = "STORE"
source_of (marketplace r) = "MARKETPLACE"
source_of (carrier client batch_size due_before) = "CARRIER"

abbrev pub receive : Channel → Env → World → World
receive (store p) env w = (process_store_webhook p env w).1
receive (marketplace r) env w = (revoke_marketplace_access r env w).1
receive (carrier client batch_size due_before) env w =
    (poll_carriers_for_users client batch_size due_before env w).1

-- A channel keeps what its statements keep, whatever fails and wherever it stops.
pub receive-Keeps :
    {P : Db → Type 0} (c : Channel)
    → Preserves P (source_of c)
    → (env : Env) (w : World) → P w.db
    → P (receive c env w).db
receive-Keeps (store p) k env w h = (process_store_webhook-Keeps k p).at env w h
receive-Keeps (marketplace r) k env w h = (revoke_marketplace_access-Keeps k r).at env w h
receive-Keeps (carrier client batch_size due_before) k env w h =
    poll_carriers_for_users-Keeps k client batch_size due_before env w h
