-- ===== src/Http/Message.antt =====
-- internal/infrastructure/http/response.go, and what the handlers take from net/http, chi and
-- encoding/json.
use subscription_reconciler.Base.{ℕ, String, Option}
use subscription_reconciler.Domain.Carrier.{MockCarrierResponse}
use subscription_reconciler.Domain.Entitlement.{EntitlementResponse}
use subscription_reconciler.Domain.Revoke.{MarketplaceRevokeRequest, MarketplaceRevokeResponse}
use subscription_reconciler.Domain.Timeline.{TimelineResponse}
use subscription_reconciler.Domain.Webhook.{StoreWebhookPayload, StoreWebhookResponse}

-- What a handler reads of a request: `io.ReadAll(r.Body)`, `none` for an error; `chi.URLParam` and
-- `r.URL.Query().Get`, where a name that is not there reads as "".
pub record Request : Type 0 where
  pub body : Option String
  pub url_param : String → String
  pub query : String → String

-- `json.Unmarshal`: a value, or the text of its error.
pub data Decoded (A : Type 0) : Type 0 where
  value : A → Decoded A
  invalid : String → Decoded A

pub record Json : Type 0 where
  pub store_webhook : String → Decoded StoreWebhookPayload
  pub marketplace_revoke : String → Decoded MarketplaceRevokeRequest

-- The values that are encoded into the body; `failure` is the map with `error` and `code`, and
-- `carrier_failure` the one with `error` alone.
pub data Content : Type 0 where
  failure : String → String → Content
  webhook : StoreWebhookResponse → Content
  revocation : MarketplaceRevokeResponse → Content
  entitlement : EntitlementResponse → Content
  timeline : TimelineResponse → Content
  plan : MockCarrierResponse → Content
  carrier_failure : String → Content

pub record Response : Type 0 where
  pub status : ℕ
  pub content_type : String
  pub content : Content

abbrev pub status_ok : ℕ
status_ok = 200

abbrev pub status_accepted : ℕ
status_accepted = 202

abbrev pub status_bad_request : ℕ
status_bad_request = 400

abbrev pub status_internal_server_error : ℕ
status_internal_server_error = 500

-- The three calls by which every handler answers: the header, the status, the body.
abbrev pub reply : ℕ → Content → Response
reply status content = record {
  status = status;
  content_type = "application/json";
  content = content;
}

abbrev pub respond_error : ℕ → String → String → Response
respond_error status code message = reply status (failure code message)
