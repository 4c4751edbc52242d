-- ===== src/Application/StoreWebhook/Internal.antt =====
-- Which deliveries fail with a domain error: those whose payload is invalid, and no others.
use subscription_reconciler.Base.{String, ◌≡◌, Bool, Option, none, some, arith}
use subscription_reconciler.Application.StoreWebhook.{
  Transition, process_store_webhook, process_valid, ingest_event, apply_event, schedule_expiry,
  event_params,
}
use subscription_reconciler.Clock.{Time}
use subscription_reconciler.Domain.Error.{as_domain}
use subscription_reconciler.Domain.Webhook.{StoreWebhookPayload, validate}
use subscription_reconciler.Postgres.Client.Events.{
  with_store_webhook_transaction, insert_store_event, mark_event_processed,
}
use subscription_reconciler.Postgres.Client.Notifications.{schedule_notification}
use subscription_reconciler.Postgres.Client.Upsert.Internal.{upsert_entitlement-IsInternal}
use subscription_reconciler.Postgres.Models.{Db}
use subscription_reconciler.Postgres.Queries.Events.{
  InsertStoreEventParams, insert_store_event as insert_row, mark_event_processed as mark_row,
}
use subscription_reconciler.Postgres.Queries.Notifications.{
  ScheduleNotificationParams, schedule_notification as schedule_row,
}
use subscription_reconciler.Postgres.Session.{Env, World, Queries}
use subscription_reconciler.Postgres.Session.Internal.{
  IsInternal, IsInternalResult, IsInternal-pure, IsInternal-ask, IsInternal-time_now,
  IsInternal-bind, IsInternal-if, IsInternal-wrap, IsInternal-statement, IsInternal-in_transaction,
}

insert_row-IsInternal :
    (p : InsertStoreEventParams) (now : Time) (db : Db) → IsInternalResult (insert_row p now db)
unfolding insert_row as_domain
insert_row-IsInternal p now db = ground arith

pub mark_row-IsInternal :
    (event source : String) (now : Time) (db : Db) → IsInternalResult (mark_row event source now db)
unfolding mark_row as_domain
mark_row-IsInternal event source now db = ground arith

schedule_row-IsInternal :
    (p : ScheduleNotificationParams) (now : Time) (db : Db)
    → IsInternalResult (schedule_row p now db)
unfolding schedule_row as_domain
schedule_row-IsInternal p now db = ground arith

schedule-IsInternal :
    (q : Queries) (user : String) (wanted : Bool) (o : Option Time)
    → IsInternal (schedule_expiry q user wanted o)
unfolding schedule_expiry schedule_notification
schedule-IsInternal q user wanted none = IsInternal-pure tt
schedule-IsInternal q user wanted (some t) =
    IsInternal-if wanted _ _
      (IsInternal-wrap _ _ (IsInternal-statement q _ (schedule_row-IsInternal _)))
      (IsInternal-pure tt)

apply-IsInternal :
    (p : StoreWebhookPayload) (t : Transition) (q : Queries) → IsInternal (apply_event p t q)
unfolding apply_event mark_event_processed
apply-IsInternal p t q =
    IsInternal-bind _ _ (IsInternal-wrap _ _ (upsert_entitlement-IsInternal q _ _)) λ changed.
      IsInternal-bind _ _ (schedule-IsInternal q p.user_id _ t.expires_at)
        λ u. IsInternal-wrap _ _ (IsInternal-statement q _ (mark_row-IsInternal p.event_id "STORE"))

ingest-IsInternal :
    (p : StoreWebhookPayload) (t : Transition) (q : Queries) → IsInternal (ingest_event p t q)
unfolding ingest_event insert_store_event
ingest-IsInternal p t q =
    IsInternal-bind _ _
      (IsInternal-wrap _ _ (
        IsInternal-bind _ _ (IsInternal-statement q _ (insert_row-IsInternal (event_params p)))
          (λ n. IsInternal-pure _)))
      λ inserted.
        IsInternal-if inserted _ _
          (IsInternal-bind _ _ (apply-IsInternal p t q) (λ u. IsInternal-pure _))
          (IsInternal-pure _)

process_valid-IsInternal : (p : StoreWebhookPayload) → IsInternal (process_valid p)
unfolding process_valid with_store_webhook_transaction
process_valid-IsInternal p = IsInternal-bind _ _ IsInternal-ask λ env.
    IsInternal-bind _ _ IsInternal-time_now λ now.
      IsInternal-bind _ _ (IsInternal-in_transaction _ (λ q. ingest-IsInternal p _ q))
        (λ inserted. IsInternal-pure _)

-- An invalid payload is refused before any call is made; of a valid one, every error is internal.
pub process_store_webhook-IsInternal :
    (p : StoreWebhookPayload) (env : Env) (w : World)
    → validate p ≡ none
    → IsInternalResult (process_store_webhook p env w).0
unfolding process_store_webhook
process_store_webhook-IsInternal p env w good = rw good ((process_valid-IsInternal p).at env w)
