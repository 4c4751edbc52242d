-- ===== src/Application/StoreWebhook/Projection.antt =====
-- What a store event does to the entitlements, from the webhook to the table.
use subscription_reconciler.Application.StoreWebhook.{
  Transition, process_store_webhook, store_change,
}
use subscription_reconciler.Application.StoreWebhook.Delivery.{
  process_store_webhook-effect, transition_at,
}
use subscription_reconciler.Application.StoreWebhook.Effect.{ingest_effect, apply_effect, recorded}
use subscription_reconciler.Base.{◌+◌, String, ◌≡◌, not, some, ◌&&◌, ◌==◌, if◌then◌else◌, arith}
use subscription_reconciler.Clock.{Time}
use subscription_reconciler.Domain.Webhook.{StoreWebhookPayload, StoreWebhookResponse}
use subscription_reconciler.Postgres.Client.Upsert.Effect.{upsert_effect}
use subscription_reconciler.Postgres.Client.Upsert.Refinement.{view, view-effect, change_of}
use subscription_reconciler.Postgres.Models.{Db}
use subscription_reconciler.Postgres.Session.{Env, World, ok}
use subscription_reconciler.Spec.Register.{merge}

rows-apply_effect :
    (now : Time) (p : StoreWebhookPayload) (t : Transition) (db : Db)
    → (apply_effect now p t db).user_entitlements
      ≡ (upsert_effect now (store_change p t) (some p.event_id) db).1.user_entitlements
unfolding apply_effect
rows-apply_effect now p t db = ground arith

view-ingest_effect :
    (now : Time) (p : StoreWebhookPayload) (t : Transition) (db : Db) (u s : String)
    → view u s (ingest_effect now p t db).1 ≡ (
        if (ingest_effect now p t db).0 && (p.user_id == u && "STORE" == s)
        then merge (view u s db) (change_of (store_change p t))
        else view u s db)
unfolding ingest_effect view store_change
view-ingest_effect now p t db u s = ground (
  arith,
  rows-apply_effect now p t (recorded now p db),
  view-effect now (store_change p t) (some p.event_id) (recorded now p db) u s,
)

-- A delivery that returns and is no duplicate has merged the state that its event asks for into the
-- STORE register of its user; it has left every other register alone, and a duplicate leaves all.
pub process_store_webhook-view :
    (p : StoreWebhookPayload) (env : Env) (w w' : World) (r : StoreWebhookResponse) (u s : String)
    → process_store_webhook p env w ≡ (ok r, w')
    → view u s w'.db ≡ (
        if not r.is_duplicate && (p.user_id == u && "STORE" == s)
        then merge (view u s w.db) (change_of (store_change p (transition_at p env w)))
        else view u s w.db)
process_store_webhook-view p env w w' r u s h = ground (
  arith,
  process_store_webhook-effect p env w w' r h,
  view-ingest_effect (env.db_clock (w.tick + 1)) p (transition_at p env w) w.db u s,
)
