-- ===== src/Application/StoreWebhook/Effect.antt =====
-- One delivery of a store event as a function on the tables, and that the service amounts to it.
use subscription_reconciler.Base.{
  ◌+◌, ◌-◌, String, Bool, true, false, Option, none, some, ◌∷◌, ◌&&◌, ◌==◌, if◌then◌else◌, arith,
}
use subscription_reconciler.Application.StoreWebhook.{
  Transition, event_params, store_change, schedule_expiry, apply_event, ingest_event,
}
use subscription_reconciler.Base.Lists.{any}
use subscription_reconciler.Clock.{Time, hours_24, timestamptz}
use subscription_reconciler.Domain.Entitlement.{premium_expires_soon}
use subscription_reconciler.Domain.Webhook.{StoreWebhookPayload}
use subscription_reconciler.Postgres.Client.Events.{insert_store_event, mark_event_processed}
use subscription_reconciler.Postgres.Client.Notifications.{schedule_notification}
use subscription_reconciler.Postgres.Client.Upsert.Effect.{
  upsert_effect, upsert_entitlement_in-Implements,
}
use subscription_reconciler.Postgres.Client.Upsert.{upsert_entitlement}
use subscription_reconciler.Postgres.Models.{Db}
use subscription_reconciler.Postgres.Queries.Events.{
  has_store_event, fresh_event, is_mark, fresh_mark, insert_store_event as insert_row,
  mark_event_processed as mark_row,
}
use subscription_reconciler.Postgres.Queries.Notifications.{
  same_day, fresh_notification, ScheduleNotificationParams, schedule_notification as schedule_row,
}
use subscription_reconciler.Postgres.Session.{◌>>=◌, pure, wrap, statement}
use subscription_reconciler.Postgres.Session.Implements.{
  Implements, Implements-pure, Implements-bind, Implements-if, Implements-wrap, Implements-eq,
}

-- The event in the immutable log.
abbrev pub recorded : Time → StoreWebhookPayload → Db → Db
recorded now p db = record db {
  store_events = fresh_event db.next_store_event now (event_params p) ∷ db.store_events;
  next_store_event = db.next_store_event + 1;
}

abbrev pub expiry_notice : String → Time → ScheduleNotificationParams
expiry_notice user t = record {
  user_id = user;
  kind = premium_expires_soon;
  scheduled_for = t - hours_24;
}

-- At most one notice for a user and a day.
abbrev pub noticed : Time → ScheduleNotificationParams → Db → Db
noticed now n db =
    if any (same_day n.user_id n.kind (timestamptz n.scheduled_for)) db.notifications
    then db
    else record db {
      notifications = fresh_notification db.next_notification now n ∷ db.notifications;
      next_notification = db.next_notification + 1;
    }

abbrev pub scheduled : Time → String → Bool → Option Time → Db → Db
scheduled now user wanted none db = db
scheduled now user wanted (some t) db = if wanted then noticed now (expiry_notice user t) db else db

abbrev pub marked : Time → String → String → Db → Db
marked now event source db =
    if any (is_mark event source) db.processed_events
    then db
    else record db { processed_events = fresh_mark now event source ∷ db.processed_events }

-- The order of the writes is that of the callback.
unfoldable pub apply_effect : Time → StoreWebhookPayload → Transition → Db → Db
apply_effect now p t db =
    let (changed, db') = upsert_effect now (store_change p t) (some p.event_id) db in
    marked now p.event_id "STORE" (scheduled now p.user_id (changed && t.active) t.expires_at db')

unfoldable pub ingest_effect : Time → StoreWebhookPayload → Transition → Db → Bool × Db
ingest_effect now p t db =
    if has_store_event p.event_id db
    then (false, db)
    else (true, apply_effect now p t (recorded now p db))

insert-Implements :
    (now : Time) (p : StoreWebhookPayload)
    → Implements
        (insert_store_event (some now) (event_params p))
        (λ db. if has_store_event p.event_id db then (false, db) else (true, recorded now p db))
unfolding insert_store_event insert_row event_params ◌>>=◌ statement
insert-Implements now p = record { at = λ env w w' a h. ground arith }

schedule-Implements :
    (now : Time) (user : String) (wanted : Bool) (o : Option Time)
    → Implements
        (schedule_expiry (some now) user wanted o)
        (λ db. (tt, scheduled now user wanted o db))
unfolding schedule_expiry schedule_notification schedule_row pure wrap statement ◌==◌
schedule-Implements now user wanted none = record { at = λ env w w' a h. ground arith }
schedule-Implements now user wanted (some t) = record { at = λ env w w' a h. ground arith }

mark-Implements :
    (now : Time) (event : String)
    → Implements
        (mark_event_processed (some now) event "STORE")
        (λ db. (tt, marked now event "STORE" db))
unfolding mark_event_processed mark_row statement ◌==◌
mark-Implements now event = record { at = λ env w w' a h. ground arith }

apply-Implements :
    (now : Time) (p : StoreWebhookPayload) (t : Transition)
    → Implements (apply_event p t (some now)) (λ db. (tt, apply_effect now p t db))
unfolding apply_event apply_effect upsert_entitlement
apply-Implements now p t =
    Implements-bind (upsert_effect now (store_change p t) (some p.event_id)) _
      (Implements-wrap _
        (upsert_entitlement_in-Implements now (store_change p t) (some p.event_id)))
      λ changed.
        Implements-bind (λ db. (tt, scheduled now p.user_id (changed && t.active) t.expires_at db))
          _ (schedule-Implements now p.user_id (changed && t.active) t.expires_at)
          (λ u. Implements-wrap _ (mark-Implements now p.event_id))

-- A delivery whose transaction returns did all of its writes, or none if the event was known.
pub ingest-Implements :
    (now : Time) (p : StoreWebhookPayload) (t : Transition)
    → Implements (ingest_event p t (some now)) (ingest_effect now p t)
unfolding ingest_event ingest_effect
ingest-Implements now p t =
    Implements-eq _ _ _
      (Implements-bind
        (λ db. if has_store_event p.event_id db then (false, db) else (true, recorded now p db))
        (λ inserted db. if inserted then (true, apply_effect now p t db) else (false, db))
        (Implements-wrap _ (insert-Implements now p))
        (λ inserted.
          Implements-if inserted (λ db. (true, apply_effect now p t db)) (λ db. (false, db))
            (Implements-bind (λ db. (tt, apply_effect now p t db)) (λ u db. (true, db))
              (apply-Implements now p t) (λ u. Implements-pure true))
            (Implements-pure false)))
      (λ db. ground arith)
