-- ===== src/Http/StoreWebhook.antt =====
-- internal/infrastructure/http/store_webhook.go.
pub mod Status
pub mod Retry
use Prim.Native.String
use subscription_reconciler.Application.StoreWebhook.{process_store_webhook}
use subscription_reconciler.Base.{String, Option, none, some}
use subscription_reconciler.Domain.Error.{DomainError, Error, as_domain}
use subscription_reconciler.Domain.Webhook.{StoreWebhookPayload, StoreWebhookResponse}
use subscription_reconciler.Http.Message.{
  Request, Decoded, value, invalid, Json, webhook, Response, reply, respond_error, status_accepted,
  status_bad_request, status_internal_server_error,
}
use subscription_reconciler.Postgres.Session.{Env, World, Result, ok, err}

-- A domain error is the client's fault; any other is the server's.
abbrev pub webhook_error : Option DomainError → Response
webhook_error (some e) = respond_error status_bad_request e.code e.message
webhook_error none =
    respond_error status_internal_server_error "INTERNAL_ERROR" "Failed to process webhook"

abbrev pub webhook_response : Result StoreWebhookResponse × World → Response × World
webhook_response (ok r, w) = (reply status_accepted (webhook r), w)
webhook_response (err e, w) = (webhook_error (as_domain e), w)

abbrev pub webhook_decoded : Decoded StoreWebhookPayload → Env → World → Response × World
webhook_decoded (value p) env w = webhook_response (process_store_webhook p env w)
webhook_decoded (invalid text) env w =
    (respond_error status_bad_request "INVALID_REQUEST" (String.◌++◌ "Invalid JSON: " text), w)

abbrev pub webhook_read : Json → Option String → Env → World → Response × World
webhook_read json (some body) env w = webhook_decoded (json.store_webhook body) env w
webhook_read json none env w =
    (respond_error status_bad_request "INVALID_REQUEST" "Failed to read request body", w)

-- `HandleStoreWebhook`.
unfoldable pub handle_store_webhook : Json → Request → Env → World → Response × World
handle_store_webhook json r env w = webhook_read json r.body env w
