-- ===== src/Tests/Webhook.antt =====
-- Instances for the store webhook.
use subscription_reconciler.Application.StoreWebhook.Grants.{IsGrant, process_store_webhook-grants}
use subscription_reconciler.Base.Int.{pos}
use subscription_reconciler.Application.StoreWebhook.{
  process_store_webhook, process_valid, ingest_event, event_params, apply_event,
  compute_state_transition, respond, schedule_expiry, store_change,
}
use subscription_reconciler.Invariant.Channels.{store}
use subscription_reconciler.Application.StoreWebhook.Delivery.{
  transition_at, process_store_webhook_atomic, process_store_webhook-effect,
}
use subscription_reconciler.Application.StoreWebhook.Effect.{ingest_effect}
use subscription_reconciler.Application.StoreWebhook.Projection.{process_store_webhook-view}
use subscription_reconciler.Application.StoreWebhook.Success.{process_store_webhook_accepts}
use subscription_reconciler.Audit.Services.{receive-IsTruthful}
use subscription_reconciler.Audit.Trail.{IsTruthful}
use subscription_reconciler.Base.{◌↔◌, ◌<◌, some, ◌+◌, ◌==◌, ◌≡◌, refl, none, true, false}
use subscription_reconciler.Clock.{of_unix_milli, timestamptz, unix_micro, utc_date}
use subscription_reconciler.Domain.Error.{driver}
use subscription_reconciler.Domain.Webhook.{StoreWebhookResponse, validate, is_valid_event_type}
use subscription_reconciler.Postgres.Client.Events.{
  with_store_webhook_transaction, insert_store_event, mark_event_processed,
}
use subscription_reconciler.Postgres.Client.Notifications.{schedule_notification}
use subscription_reconciler.Postgres.Client.Upsert.{
  lock_entitlement_user, optional, record_change, upsert_entitlement, upsert_entitlement_in,
  write_projection,
}
use subscription_reconciler.Postgres.Client.Upsert.Refinement.{view, change_of}
use subscription_reconciler.Postgres.Models.{empty_db}
use subscription_reconciler.Postgres.Queries.AuditLogs
use subscription_reconciler.Postgres.Queries.Entitlements
use subscription_reconciler.Postgres.Queries.Entitlements.{is_source}
use subscription_reconciler.Postgres.Queries.Events
use subscription_reconciler.Postgres.Queries.Notifications
use subscription_reconciler.Postgres.Session.{
  World, Result, ok, err, ◌>>=◌, ask, time_now, in_transaction, atomically, begin, wrap, statement,
  commit, pure, raise,
}
use subscription_reconciler.Postgres.Session.Succeeds.{IsQuiet}
use subscription_reconciler.Postgres.Types.{same_expiration}
use subscription_reconciler.Spec.Register.{Snapshot, merge}
use subscription_reconciler.Tests.World.{
  days_30, start_ms, quiet, broken, fresh, empty-IsTruthful, purchase, renewal_copy, start,
}

abbrev pub delivered : Result StoreWebhookResponse × World
delivered = process_store_webhook purchase quiet fresh

abbrev pub accepted : StoreWebhookResponse
accepted = record {
  event_id = "evt-1";
  user_id = "alice";
  accepted = true;
  is_duplicate = false;
  message = "Event accepted and processed";
}

-- The first delivery of a purchase.
pub delivers : process_store_webhook purchase quiet fresh ≡ (ok accepted, delivered.1)
unfolding process_store_webhook validate is_valid_event_type ◌==◌ process_valid ◌>>=◌ ask time_now
    with_store_webhook_transaction in_transaction atomically begin ingest_event wrap
    insert_store_event statement Events.insert_store_event event_params apply_event
    compute_state_transition respond schedule_expiry store_change of_unix_milli timestamptz
    unix_micro utc_date mark_event_processed schedule_notification lock_entitlement_user optional
    record_change upsert_entitlement upsert_entitlement_in write_projection
    AuditLogs.insert_audit_log Entitlements.get_entitlement_by_user_and_source is_source
    Entitlements.upsert_entitlement Events.mark_event_processed Notifications.schedule_notification
    commit pure raise same_expiration
delivers = refl

-- The same event again, with another body.
abbrev pub repeated : Result StoreWebhookResponse × World
repeated = process_store_webhook renewal_copy quiet delivered.1

abbrev pub duplicate : StoreWebhookResponse
duplicate = record accepted {
  is_duplicate = true;
  message = "Duplicate event, previously processed";
}

pub repeats : process_store_webhook renewal_copy quiet delivered.1 ≡ (ok duplicate, repeated.1)
unfolding process_store_webhook validate is_valid_event_type ◌==◌ process_valid ◌>>=◌ ask time_now
    with_store_webhook_transaction in_transaction atomically begin ingest_event wrap
    insert_store_event statement Events.insert_store_event event_params apply_event
    compute_state_transition respond schedule_expiry store_change of_unix_milli timestamptz
    unix_micro utc_date mark_event_processed schedule_notification lock_entitlement_user optional
    record_change upsert_entitlement upsert_entitlement_in write_projection
    AuditLogs.insert_audit_log Entitlements.get_entitlement_by_user_and_source is_source
    Entitlements.upsert_entitlement Events.mark_event_processed Notifications.schedule_notification
    commit pure raise same_expiration
repeats = refl

abbrev pub failed : Result StoreWebhookResponse × World
failed = process_store_webhook purchase broken fresh

pub fails : process_store_webhook purchase broken fresh ≡ (err (driver 7), failed.1)
unfolding process_store_webhook validate is_valid_event_type ◌==◌ process_valid ◌>>=◌ ask time_now
    with_store_webhook_transaction in_transaction atomically begin ingest_event wrap
    insert_store_event statement Events.insert_store_event event_params apply_event
    compute_state_transition respond schedule_expiry store_change of_unix_milli timestamptz
    unix_micro utc_date mark_event_processed schedule_notification lock_entitlement_user optional
    record_change upsert_entitlement upsert_entitlement_in write_projection
    AuditLogs.insert_audit_log Entitlements.get_entitlement_by_user_and_source is_source
    Entitlements.upsert_entitlement Events.mark_event_processed Notifications.schedule_notification
    commit pure raise same_expiration
fails = refl

process_store_webhook-view_example :
    view "alice" "STORE" delivered.1.db
    ≡ merge none (change_of (store_change purchase (transition_at purchase quiet fresh)))
unfolding view merge ◌==◌
process_store_webhook-view_example =
    process_store_webhook-view purchase quiet fresh delivered.1 accepted "alice" "STORE" delivers

process_store_webhook_atomic_example : failed.1.db ≡ empty_db
process_store_webhook_atomic_example =
    process_store_webhook_atomic purchase broken fresh failed.1 (driver 7) fails

process_store_webhook-effect_example :
    (validate purchase ≡ none)
    × (accepted ≡ respond purchase true)
    × (ingest_effect (start + 2_000_000_000) purchase (transition_at purchase quiet fresh) empty_db
        ≡ (true, delivered.1.db))
process_store_webhook-effect_example =
    process_store_webhook-effect purchase quiet fresh delivered.1 accepted delivers

pub quiet-IsQuiet : IsQuiet quiet
quiet-IsQuiet = record { no_fault = λ k. refl; no_cancel = λ k. refl }

pub purchase_valid : validate purchase ≡ none
unfolding validate is_valid_event_type ◌==◌
purchase_valid = refl

process_store_webhook_accepts_example :
    (w' : World) × (process_store_webhook purchase quiet fresh ≡ (ok (respond purchase true), w'))
process_store_webhook_accepts_example =
    process_store_webhook_accepts purchase quiet fresh quiet-IsQuiet purchase_valid

receive-IsTruthful_example : IsTruthful delivered.1.db
receive-IsTruthful_example = receive-IsTruthful (store purchase) quiet fresh empty-IsTruthful

process_store_webhook-grants_example :
    (s : Snapshot) × (view "alice" "STORE" delivered.1.db ≡ some s)
    × (s.time ≡ pos start_ms)
    × ((s.active ≡ true) ↔ (
        IsGrant "INITIAL_PURCHASE"
        × (start + 1_000_000_000 < of_unix_milli (pos start_ms) + days_30)))
    × (s.active ≡ true → s.expires_at ≡ some (timestamptz (of_unix_milli (pos start_ms) + days_30)))
unfolding view
process_store_webhook-grants_example =
    process_store_webhook-grants purchase quiet fresh delivered.1 accepted tt delivers refl
