-- ===== src/Application/StoreWebhook/Success.antt =====
-- Where nothing fails, every valid delivery is accepted.
use subscription_reconciler.Base.{
  String, ◌≡◌, refl, ap, ◌∙◌, Bool, true, false, not, Option, none, some, arith, ◌==◌,
}
use subscription_reconciler.Application.StoreWebhook.{
  Transition, process_store_webhook, process_valid, respond, event_params, ingest_event,
  apply_event, schedule_expiry, store_change,
}
use subscription_reconciler.Application.StoreWebhook.Delivery.{process_store_webhook-effect}
use subscription_reconciler.Application.StoreWebhook.Effect.{ingest_effect}
use subscription_reconciler.Clock.{Time}
use subscription_reconciler.Domain.Webhook.{StoreWebhookPayload, StoreWebhookResponse, validate}
use subscription_reconciler.Postgres.Client.Events.{
  with_store_webhook_transaction, insert_store_event, mark_event_processed,
}
use subscription_reconciler.Postgres.Client.Notifications.{schedule_notification}
use subscription_reconciler.Postgres.Client.Upsert.Success.{upsert_entitlement-Succeeds}
use subscription_reconciler.Postgres.Models.{Db}
use subscription_reconciler.Postgres.Queries.Entitlements.{is_source}
use subscription_reconciler.Postgres.Queries.Events.{
  has_store_event, insert_store_event as insert_row, mark_event_processed as mark_row,
}
use subscription_reconciler.Postgres.Queries.Notifications.{schedule_notification as schedule_row}
use subscription_reconciler.Postgres.Session.{Env, World, ok, Queries}
use subscription_reconciler.Postgres.Session.Succeeds.{
  IsQuiet, is_ok, Succeeds, Succeeds-pure, Succeeds-ask, Succeeds-time_now, Succeeds-bind,
  Succeeds-wrap, Succeeds-if, Succeeds-statement, Succeeds-in_transaction,
}

insert_total :
    (p : StoreWebhookPayload)
    → validate p ≡ none
    → (now : Time) (db : Db) → is_ok (insert_row (event_params p) now db) ≡ true
unfolding insert_row event_params validate
insert_total p good now db = ground arith

store_source :
    (p : StoreWebhookPayload) (t : Transition) → is_source (store_change p t).source ≡ true
unfolding store_change is_source ◌==◌
store_source p t = refl

-- The notification of an expiry is of the one kind that the schema allows.
schedule_total :
    (user : String) (t now : Time) (db : Db)
    → is_ok (
        schedule_row
          (record { user_id = user; kind = "PREMIUM_EXPIRES_SOON"; scheduled_for = t })
          now
          db)
      ≡ true
unfolding schedule_row ◌==◌
schedule_total user t now db = ground arith

mark_total : (event : String) (now : Time) (db : Db) → is_ok (mark_row event "STORE" now db) ≡ true
unfolding mark_row ◌==◌
mark_total event now db = ground arith

module _ {env : Env} (quiet : IsQuiet env) where
  schedule-Succeeds :
      (q : Queries) (user : String) (wanted : Bool) (o : Option Time)
      → Succeeds env (schedule_expiry q user wanted o)
  unfolding schedule_expiry schedule_notification
  schedule-Succeeds q user wanted none = Succeeds-pure tt
  schedule-Succeeds q user wanted (some t) =
      Succeeds-if wanted _ _
        (Succeeds-wrap _ _ (Succeeds-statement quiet q _ (schedule_total user _)))
        (Succeeds-pure tt)

  apply-Succeeds :
      (p : StoreWebhookPayload) (t : Transition) (q : Queries) → Succeeds env (apply_event p t q)
  unfolding apply_event mark_event_processed
  apply-Succeeds p t q =
      Succeeds-bind _ _
        (Succeeds-wrap _ _ (
          upsert_entitlement-Succeeds quiet q (store_change p t) (some p.event_id)
            (store_source p t)))
        λ changed.
          Succeeds-bind _ _ (schedule-Succeeds q p.user_id _ t.expires_at)
            λ u. Succeeds-wrap _ _ (Succeeds-statement quiet q _ (mark_total p.event_id))

  ingest-Succeeds :
      (p : StoreWebhookPayload) (t : Transition) (q : Queries)
      → validate p ≡ none
      → Succeeds env (ingest_event p t q)
  unfolding ingest_event insert_store_event
  ingest-Succeeds p t q good =
      Succeeds-bind _ _
        (Succeeds-wrap _ _ (
          Succeeds-bind _ _ (Succeeds-statement quiet q _ (insert_total p good))
            λ n. Succeeds-pure _))
        λ inserted.
          Succeeds-if inserted _ _
            (Succeeds-bind _ _ (apply-Succeeds p t q) (λ u. Succeeds-pure true))
            (Succeeds-pure false)

  process_valid-Succeeds :
      (p : StoreWebhookPayload) → validate p ≡ none → Succeeds env (process_valid p)
  unfolding process_valid with_store_webhook_transaction
  process_valid-Succeeds p good = Succeeds-bind _ _ Succeeds-ask λ e.
      Succeeds-bind _ _ Succeeds-time_now λ now.
        Succeeds-bind _ _ (Succeeds-in_transaction quiet _ (λ q. ingest-Succeeds p _ q good))
          (λ inserted. Succeeds-pure _)

-- The answer is fixed by what was recorded before.
answered :
    (p : StoreWebhookPayload) (env : Env) (w w' : World) (r : StoreWebhookResponse)
    → process_store_webhook p env w ≡ (ok r, w')
    → r ≡ respond p (not (has_store_event p.event_id w.db))
unfolding ingest_effect
answered p env w w' r ran = ground (arith, process_store_webhook-effect p env w w' r ran)

-- Where no call of the database fails, a delivery of a valid payload returns: it is accepted, and
-- reported as a duplicate exactly if its event was recorded before.
pub process_store_webhook_accepts :
    (p : StoreWebhookPayload) (env : Env) (w : World)
    → IsQuiet env
    → validate p ≡ none
    → (w' : World) × (process_store_webhook p env w
        ≡ (ok (respond p (not (has_store_event p.event_id w.db))), w'))
unfolding process_store_webhook
process_store_webhook_accepts p env w quiet good =
    let (r, w', ran) = (process_valid-Succeeds quiet p good).at w in
    let run : process_store_webhook p env w ≡ (ok r, w') = rw good ran in
    (w', run ∙ ap (λ (x : StoreWebhookResponse). (ok x, w')) (answered p env w w' r run))
