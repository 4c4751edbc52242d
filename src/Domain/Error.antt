-- ===== src/Domain/Error.antt =====
-- internal/domain/store_webhook.go and marketplace_revoke.go: `DomainError`, and the errors that a
-- call can return.
use subscription_reconciler.Base.{ℕ, String, Option, none, some}

pub record DomainError : Type 0 where
  pub code : String
  pub message : String

abbrev pub err_missing_event_id : DomainError
err_missing_event_id = record { code = "MISSING_EVENT_ID"; message = "eventId is required" }

abbrev pub err_missing_user_id : DomainError
err_missing_user_id = record { code = "MISSING_USER_ID"; message = "userId is required" }

abbrev pub err_invalid_event_type : DomainError
err_invalid_event_type = record {
  code = "INVALID_EVENT_TYPE";
  message = "type is not a valid event type";
}

abbrev pub err_invalid_event_time : DomainError
err_invalid_event_time = record {
  code = "INVALID_EVENT_TIME";
  message = "eventTimeMs must be greater than 0";
}

abbrev pub err_missing_product_id : DomainError
err_missing_product_id = record { code = "MISSING_PRODUCT_ID"; message = "productId is required" }

abbrev pub err_empty_user_id_list : DomainError
err_empty_user_id_list = record {
  code = "EMPTY_USER_ID_LIST";
  message = "userIds list cannot be empty";
}

abbrev pub err_too_many_user_ids : DomainError
err_too_many_user_ids = record {
  code = "TOO_MANY_USER_IDS";
  message = "userIds list cannot exceed 10000 items";
}

-- `driver n` is an error of the database, the network or the context, `violation` a CHECK
-- constraint of the schema, `no_rows` is `sql.ErrNoRows`, and `wrapped` is `fmt.Errorf("…: %w")`.
pub data Error : Type 0 where
  domain : DomainError → Error
  driver : ℕ → Error
  violation : Error
  no_rows : Error
  wrapped : String → Error → Error

-- `errors.As(err, &domainErr)` goes through the wrapping.
unfoldable pub as_domain : Error → Option DomainError
as_domain (domain e) = some e
as_domain (driver n) = none
as_domain violation = none
as_domain no_rows = none
as_domain (wrapped text e) = as_domain e
