-- ===== src/Domain/Webhook.antt =====
-- internal/domain/store_webhook.go.
use subscription_reconciler.Base.{String, Bool, Option, none, some, not, ◌||◌, ◌==◌, if◌then◌else◌}
use subscription_reconciler.Base.Int.{ℤ, pos, leb_ℤ}
use subscription_reconciler.Domain.Error.{
  DomainError, err_missing_event_id, err_missing_user_id, err_invalid_event_type,
  err_invalid_event_time, err_missing_product_id,
}

pub record StoreWebhookPayload : Type 0 where
  pub event_id : String
  pub user_id : String
  pub event_type : String
  pub event_time_ms : ℤ
  pub product_id : String

pub record StoreWebhookResponse : Type 0 where
  pub event_id : String
  pub user_id : String
  pub accepted : Bool
  pub is_duplicate : Bool
  pub message : String

unfoldable pub is_valid_event_type : String → Bool
is_valid_event_type t =
    t == "INITIAL_PURCHASE"
    || (t == "RENEWAL"
        || (t == "CANCELLATION"
            || (t == "BILLING_ISSUE" || (t == "EXPIRATION" || t == "UN_CANCELLATION"))))

-- `none` is `nil`, a valid payload.
unfoldable pub validate : StoreWebhookPayload → Option DomainError
validate p =
    if p.event_id == ""
    then some err_missing_event_id
    else if p.user_id == ""
    then some err_missing_user_id
    else if not (is_valid_event_type p.event_type)
    then some err_invalid_event_type
    else if leb_ℤ p.event_time_ms (pos 0)
    then some err_invalid_event_time
    else if p.product_id == ""
    then some err_missing_product_id
    else none
