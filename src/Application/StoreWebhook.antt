-- ===== src/Application/StoreWebhook.antt =====
-- internal/application/store_webhook.go.
pub mod Internal
pub mod Effect
pub mod Delivery
pub mod Redelivery
pub mod Success
pub mod Projection
pub mod Grants
use subscription_reconciler.Base.{
  ℕ, ◌-◌, String, Bool, true, false, not, Option, none, some, ◌||◌, ◌&&◌, ◌==◌, if◌then◌else◌,
}
use subscription_reconciler.Base.Int.{ℤ}
use subscription_reconciler.Clock.{Time, after, hours_24, of_unix_milli}
use subscription_reconciler.Domain.Entitlement.{premium_expires_soon}
use subscription_reconciler.Domain.Error.{DomainError, domain}
use subscription_reconciler.Domain.Webhook.{StoreWebhookPayload, StoreWebhookResponse, validate}
use subscription_reconciler.Postgres.Client.Events.{
  with_store_webhook_transaction, insert_store_event, mark_event_processed,
}
use subscription_reconciler.Postgres.Client.Notifications.{schedule_notification}
use subscription_reconciler.Postgres.Client.Upsert.{upsert_entitlement}
use subscription_reconciler.Postgres.Queries.Entitlements.{UpsertEntitlementParams}
use subscription_reconciler.Postgres.Queries.Events.{InsertStoreEventParams}
use subscription_reconciler.Postgres.Session.{
  Action, Queries, pure, raise, ask, ◌>>=◌, ◌>>◌, wrap, time_now,
}

pub record Transition : Type 0 where
  pub active : Bool
  pub expires_at : Option Time
  pub reason : String

abbrev pub is_grant : String → Bool
is_grant t = t == "INITIAL_PURCHASE" || (t == "RENEWAL" || t == "UN_CANCELLATION")

abbrev pub grant : String → Time → Time → Transition
grant event_type expiry now =
    if after expiry now
    then record { active = true; expires_at = some expiry; reason = event_type }
    else record { active = false; expires_at = some expiry; reason = "EXPIRATION" }

-- The `switch`: a type of no case leaves the zero values.
unfoldable pub compute_state_transition : (Time → Time) → Time → String → ℤ → Transition
compute_state_transition add_month now event_type event_time_ms =
    if is_grant event_type
    then grant event_type (add_month (of_unix_milli event_time_ms)) now
    else if event_type == "CANCELLATION"
        || (event_type == "BILLING_ISSUE" || event_type == "EXPIRATION")
    then record { active = false; expires_at = none; reason = event_type }
    else record { active = false; expires_at = none; reason = "" }

unfoldable pub event_params : StoreWebhookPayload → InsertStoreEventParams
event_params p = record {
  event_id = p.event_id;
  user_id = p.user_id;
  event_type = p.event_type;
  event_time_ms = p.event_time_ms;
  product_id = some p.product_id;
}

unfoldable pub store_change : StoreWebhookPayload → Transition → UpsertEntitlementParams
store_change p t = record {
  user_id = p.user_id;
  source = "STORE";
  active = t.active;
  expires_at = t.expires_at;
  reason = some t.reason;
  last_event_time = p.event_time_ms;
}

-- Schedule only for a real transition to an active, expiring grant.
unfoldable pub schedule_expiry : Queries → String → Bool → Option Time → Action (Unit {0})
schedule_expiry tx user wanted none = pure tt
schedule_expiry tx user wanted (some t) =
    if wanted
    then wrap "schedule store expiration notification"
        (schedule_notification tx user premium_expires_soon (t - hours_24))
    else pure tt

-- The callback's work on a first delivery.
unfoldable pub apply_event : StoreWebhookPayload → Transition → Queries → Action (Unit {0})
apply_event p t tx = do
  state_changed ←
      wrap "upsert store entitlement" (upsert_entitlement tx (store_change p t) (some p.event_id))
  schedule_expiry tx p.user_id (state_changed && t.active) t.expires_at
  wrap "mark store event processed" (mark_event_processed tx p.event_id "STORE")

-- The callback: whether the event was new.
unfoldable pub ingest_event : StoreWebhookPayload → Transition → Queries → Action Bool
ingest_event p t tx = do
  inserted ← wrap "insert store event" (insert_store_event tx (event_params p))
  if inserted then (do apply_event p t tx; pure true) else pure false

unfoldable pub respond : StoreWebhookPayload → Bool → StoreWebhookResponse
respond p inserted = record {
  event_id = p.event_id;
  user_id = p.user_id;
  accepted = true;
  is_duplicate = not inserted;
  message =
      if inserted then "Event accepted and processed" else "Duplicate event, previously processed";
}

unfoldable pub process_valid : StoreWebhookPayload → Action StoreWebhookResponse
process_valid p = do
  env ← ask
  now ← time_now
  inserted ←
      with_store_webhook_transaction
        (ingest_event p (compute_state_transition env.add_month now p.event_type p.event_time_ms))
  pure (respond p inserted)

abbrev pub validated :
    Option DomainError → Action StoreWebhookResponse → Action StoreWebhookResponse
validated (some e) m = raise (domain e)
validated none m = m

-- `ProcessStoreWebhook`. The response that accompanies a validation error is dropped by the caller.
unfoldable pub process_store_webhook : StoreWebhookPayload → Action StoreWebhookResponse
process_store_webhook p = validated (validate p) (process_valid p)
