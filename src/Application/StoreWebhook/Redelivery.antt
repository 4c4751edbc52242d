-- ===== src/Application/StoreWebhook/Redelivery.antt =====
-- At-least-once delivery (README.md, "Idempotency"): a second delivery changes nothing.
use subscription_reconciler.Base.{◌+◌, ◌≡◌, true, false, ==_refl, arith, Bool-cases, inl, inr}
use subscription_reconciler.Application.StoreWebhook.{
  Transition, process_store_webhook, event_params,
}
use subscription_reconciler.Application.StoreWebhook.Delivery.{
  process_store_webhook-effect, transition_at,
}
use subscription_reconciler.Application.StoreWebhook.Effect.{ingest_effect, apply_effect, recorded}
use subscription_reconciler.Clock.{Time}
use subscription_reconciler.Domain.Webhook.{StoreWebhookPayload, StoreWebhookResponse}
use subscription_reconciler.Postgres.Client.Upsert.Effect.{upsert_effect}
use subscription_reconciler.Postgres.Models.{Db}
use subscription_reconciler.Postgres.Queries.Events.{has_store_event}
use subscription_reconciler.Postgres.Session.{Env, World, ok}

store_events-apply_effect :
    (now : Time) (p : StoreWebhookPayload) (t : Transition) (db : Db)
    → (apply_effect now p t db).store_events ≡ db.store_events
unfolding apply_effect upsert_effect
store_events-apply_effect now p t db = elim (Bool-cases t.active) [
  | inl e ↦ ground (arith, e)
  | inr e ↦ ground (arith, e)
]

has_store_event-ingest_effect :
    (now : Time) (p : StoreWebhookPayload) (t : Transition) (db : Db)
    → has_store_event p.event_id (ingest_effect now p t db).1 ≡ true
unfolding ingest_effect event_params
has_store_event-ingest_effect now p t db =
    ground (arith, store_events-apply_effect now p t (recorded now p db), ==_refl p.event_id)

known_unchanged :
    (now : Time) (p : StoreWebhookPayload) (t : Transition) (db : Db)
    → has_store_event p.event_id db ≡ true
    → ingest_effect now p t db ≡ (false, db)
unfolding ingest_effect
known_unchanged now p t db h = rw h

-- Once a delivery has returned, its event is in the log.
pub has_store_event-process_store_webhook :
    (p : StoreWebhookPayload) (env : Env) (w w' : World) (r : StoreWebhookResponse)
    → process_store_webhook p env w ≡ (ok r, w')
    → has_store_event p.event_id w'.db ≡ true
has_store_event-process_store_webhook p env w w' r ran = ground (
  arith,
  process_store_webhook-effect p env w w' r ran,
  has_store_event-ingest_effect (env.db_clock (w.tick + 1)) p (transition_at p env w) w.db,
)

-- A delivery of an event that is in the log, if it returns, is a duplicate.
pub process_store_webhook_known :
    (p : StoreWebhookPayload) (env : Env) (w w' : World) (r : StoreWebhookResponse)
    → has_store_event p.event_id w.db ≡ true
    → process_store_webhook p env w ≡ (ok r, w')
    → (r.is_duplicate ≡ true) × (w'.db ≡ w.db)
process_store_webhook_known p env w w' r known ran = ground (
  arith,
  process_store_webhook-effect p env w w' r ran,
  known_unchanged (env.db_clock (w.tick + 1)) p (transition_at p env w) w.db known,
)
