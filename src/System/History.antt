-- ===== src/System/History.antt =====
-- The transactions of the running system, one after another in any order, each in an environment
-- of its own: its clocks, its locks and the calls that fail.
use subscription_reconciler.Application.CarrierPolling.{
  CarrierClient, apply_status, poll_carriers_for_users,
}
use subscription_reconciler.Application.MarketplaceRevoke.{revoke_user, revoke_marketplace_access}
use subscription_reconciler.Application.StoreWebhook.{process_store_webhook}
use subscription_reconciler.Audit.Services.{Preserves-IsTruthful}
use subscription_reconciler.Base.{String, ◌≡◌, refl, subst, Option}
use subscription_reconciler.Base.Int.{ℤ}
use subscription_reconciler.Clock.{Time}
use subscription_reconciler.Domain.Carrier.{CarrierPlanStatus}
use subscription_reconciler.Domain.Revoke.{MarketplaceRevokeRequest}
use subscription_reconciler.Domain.Webhook.{StoreWebhookPayload}
use subscription_reconciler.Invariant.Daily.{Preserves-NotifiesDaily}
use subscription_reconciler.Invariant.Keyed.{Preserves-HasKeys}
use subscription_reconciler.Invariant.Polling.{apply_status-Keeps, poll_batch-Keeps}
use subscription_reconciler.Invariant.Preserves.{Preserves, Preserves-both}
use subscription_reconciler.Invariant.Services.{
  process_store_webhook-Keeps, revoke_user-Keeps, revoke_batch-Keeps,
}
use subscription_reconciler.Postgres.Client.Entitlements.{
  claim_due_carrier_entitlements, reconcile_expired_entitlements,
}
use subscription_reconciler.Postgres.Client.Notifications.{claim_due_notifications}
use subscription_reconciler.Postgres.Models.{Db}
use subscription_reconciler.Postgres.Session.{Env, World}
use subscription_reconciler.Postgres.Session.Keeps.{Keeps}
use subscription_reconciler.Postgres.Types.{Entitlement}
use subscription_reconciler.System.Sweep.{IsSound, reconcile_expired_entitlements-IsSound}
use subscription_reconciler.System.Claims.{claim_due_notifications-IsSound}

-- A delivery of a store event; one user of a batch of revocations; the claim of a polling batch and
-- what one answer of the carrier leads to; a sweep; a claim of due notifications.
pub data Operation : Type 0 where
  deliver : StoreWebhookPayload → Operation
  revoke : String → String → Time → Operation
  claim_carriers : ℤ → Time → Operation
  apply_plan : Entitlement → Option CarrierPlanStatus → Operation
  sweep : ℤ → Operation
  claim_notifications : ℤ → Operation

abbrev pub perform : Operation → Env → World → World
perform (deliver p) env w = (process_store_webhook p env w).1
perform (revoke event user batch_time) env w = (revoke_user event user batch_time env w).1
perform (claim_carriers limit due_before) env w =
    (claim_due_carrier_entitlements limit due_before env w).1
perform (apply_plan ent status) env w = (apply_status ent status env w).1
perform (sweep limit) env w = (reconcile_expired_entitlements limit env w).1
perform (claim_notifications limit) env w = (claim_due_notifications limit env w).1

-- From the tables `before`, some transactions lead to these.
pub data History (before : Db) : Db → Type 0 where
  start : (db : Db) → db ≡ before → History before db
  also :
      (o : Operation) (env : Env) (w : World) (after : Db)
      → History before w.db
      → (perform o env w).db ≡ after
      → History before after

pub Preserves-IsSound : (source : String) → Preserves IsSound source
Preserves-IsSound source =
    Preserves-both (Preserves-HasKeys source)
      (Preserves-both (Preserves-IsTruthful source) (Preserves-NotifiesDaily source))

-- A history keeps what the services, the sweep and the claim of notifications keep.
module _ {P : Db → Type 0} (services : (source : String) → Preserves P source)
    (sweeps : (limit : ℤ) → Keeps P (reconcile_expired_entitlements limit))
    (claims : (limit : ℤ) → Keeps P (claim_due_notifications limit)) where
  perform-keeps : (o : Operation) (env : Env) (w : World) → P w.db → P (perform o env w).db
  perform-keeps (deliver p) env w h = (process_store_webhook-Keeps (services "STORE") p).at env w h
  perform-keeps (revoke event user batch_time) env w h =
      (revoke_user-Keeps (services "MARKETPLACE") event user batch_time).at env w h
  perform-keeps (claim_carriers limit due_before) env w h =
      (Preserves.claim (services "CARRIER") limit due_before).at env w h
  perform-keeps (apply_plan ent status) env w h =
      (apply_status-Keeps (services "CARRIER") ent status).at env w h
  perform-keeps (sweep limit) env w h = (sweeps limit).at env w h
  perform-keeps (claim_notifications limit) env w h = (claims limit).at env w h

  pub History_keeps : (before after : Db) → History before after → P before → P after
  History_keeps before after (History.start _ same) h = rw same h
  History_keeps before after (History.also o env w _ earlier done) h =
      subst P done (perform-keeps o env w (History_keeps before w.db earlier h))

-- From sound tables, such as empty ones, every history of the system leads to sound ones, whatever
-- the order of the transactions and whatever fails: no two entitlements share a user and a source,
-- the audit trail is truthful, and no user has two notifications of a kind on one day.
pub History-IsSound : (before after : Db) → History before after → IsSound before → IsSound after
History-IsSound =
    History_keeps Preserves-IsSound reconcile_expired_entitlements-IsSound
      claim_due_notifications-IsSound

-- A batch of revocations and a polling batch, wherever they stop, are histories of such
-- transactions, with those of others between them or not.
module _ (before : Db) where
  revoke_user-History :
      (event user : String) (batch_time : Time)
      → Keeps (History before) (revoke_user event user batch_time)
  revoke_user-History event user batch_time = record {
    at = λ env w h. History.also (revoke event user batch_time) env w _ h refl;
  }

  pub revoke_marketplace_access-History :
      (r : MarketplaceRevokeRequest) → Keeps (History before) (revoke_marketplace_access r)
  revoke_marketplace_access-History r = revoke_batch-Keeps revoke_user-History r

  pub process_store_webhook-History :
      (p : StoreWebhookPayload) → Keeps (History before) (process_store_webhook p)
  process_store_webhook-History p = record {
    at = λ env w h. History.also (deliver p) env w _ h refl;
  }

  pub poll_carriers_for_users-History :
      (client : CarrierClient) (batch_size : ℤ) (due_before : Time) (env : Env) (w : World)
      → History before w.db
      → History before (poll_carriers_for_users client batch_size due_before env w).1.db
  poll_carriers_for_users-History =
      poll_batch-Keeps
        (λ limit due_before. record {
          at = λ env w h. History.also (claim_carriers limit due_before) env w _ h refl;
        })
        (λ ent status. record {
          at = λ env w h. History.also (apply_plan ent status) env w _ h refl;
        })
