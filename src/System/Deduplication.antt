-- ===== src/System/Deduplication.antt =====
-- A store event is applied once, and a user is revoked once a month, however late the copies come.
use subscription_reconciler.Application.MarketplaceRevoke.{revoke_marketplace_access}
use subscription_reconciler.Application.MarketplaceRevoke.Repeat.{
  event_of, recorded_by_users, repeat_users, accepted-ran,
}
use subscription_reconciler.Base.Lists.{All-map}
use subscription_reconciler.Domain.Revoke.{MarketplaceRevokeRequest, MarketplaceRevokeResponse}
use subscription_reconciler.Postgres.Queries.Events.{has_revocation}
use subscription_reconciler.Application.StoreWebhook.{process_store_webhook}
use subscription_reconciler.Application.StoreWebhook.Redelivery.{
  process_store_webhook_known, has_store_event-process_store_webhook,
}
use subscription_reconciler.Base.{String, ◌≡◌, true}
use subscription_reconciler.Domain.Webhook.{StoreWebhookPayload, StoreWebhookResponse}
use subscription_reconciler.Invariant.Recorded.{
  Records, Preserves-Records, Revokes, Preserves-Revokes,
}
use subscription_reconciler.Postgres.Models.{Db}
use subscription_reconciler.Postgres.Session.{Env, World, ok, next}
use subscription_reconciler.System.Claims.{Keeps-claim_due_notifications}
use subscription_reconciler.System.History.{History, History_keeps}
use subscription_reconciler.System.Sweep.{Keeps-reconcile_expired}

pub History-Records :
    (event : String) (before after : Db)
    → History before after
    → Records event before
    → Records event after
History-Records event =
    History_keeps (Preserves-Records event)
      (Keeps-reconcile_expired {P = Records event} (λ db rows logs id d. d))
      (Keeps-claim_due_notifications {P = Records event} (λ db ns d. d))

pub History-Revokes :
    (event : String) (before after : Db)
    → History before after
    → Revokes event before
    → Revokes event after
History-Revokes event =
    History_keeps (Preserves-Revokes event)
      (Keeps-reconcile_expired {P = Revokes event} (λ db rows logs id d. d))
      (Keeps-claim_due_notifications {P = Revokes event} (λ db ns d. d))

-- Once a delivery of an event has returned, then after any history of the system, in which the
-- other channels, the sweep and other deliveries may have run and failed in any order, a delivery
-- with its id that returns says that it is a duplicate and changes no table.
pub process_store_webhook_once :
    (p p' : StoreWebhookPayload) (env env' : Env) (w w' v v' : World) (r r' : StoreWebhookResponse)
    → p'.event_id ≡ p.event_id
    → process_store_webhook p env w ≡ (ok r, w')
    → History w'.db v.db
    → process_store_webhook p' env' v ≡ (ok r', v')
    → (r'.is_duplicate ≡ true) × (v'.db ≡ v.db)
process_store_webhook_once p p' env env' w w' v v' r r' same first between second =
    process_store_webhook_known p' env' v v' r'
      (rw same (
        History-Records p.event_id w'.db v.db between
          (has_store_event-process_store_webhook p env w w' r first)))
      second

-- Once a batch of revocations has returned, then after any history of the system, a batch for the
-- same users in the same month that returns counts no user and changes no table, whatever its
-- faults and clocks are otherwise.
pub revoke_marketplace_access_once :
    (r r' : MarketplaceRevokeRequest) (env env' : Env) (w w' v v' : World)
    (x x' : MarketplaceRevokeResponse)
    → r'.user_ids ≡ r.user_ids
    → env'.year_month (env'.wall v.tick) ≡ env.year_month (env.wall w.tick)
    → revoke_marketplace_access r env w ≡ (ok x, w')
    → History w'.db v.db
    → revoke_marketplace_access r' env' v ≡ (ok x', v')
    → (x'.count ≡ 0) × (v'.db ≡ v.db)
revoke_marketplace_access_once r r' env env' w w' v v' x x' users month first between second =
    let event = event_of env.year_month (env.wall w.tick) in
    let recorded =
      All-map (λ user. has_revocation (event user) w'.db ≡ true)
        (λ user. has_revocation (event user) v.db ≡ true)
        (λ user. History-Revokes (event user) w'.db v.db between) r.user_ids
        (recorded_by_users env.year_month (env.wall w.tick) r.user_ids 0 x.count env (next w) w'
          (accepted-ran r env w w' x first)) in
    repeat_users env'.year_month (env'.wall v.tick) r'.user_ids 0 x'.count env' (next v) v'
      (rw (users, month) recorded) (accepted-ran r' env' v v' x' second)
