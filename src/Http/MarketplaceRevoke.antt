-- ===== src/Http/MarketplaceRevoke.antt =====
-- internal/infrastructure/http/marketplace_revoke.go.
pub mod Status
use Prim.Native.String
use subscription_reconciler.Application.MarketplaceRevoke.{revoke_marketplace_access}
use subscription_reconciler.Base.{String, Option, none, some}
use subscription_reconciler.Domain.Error.{DomainError, as_domain}
use subscription_reconciler.Domain.Revoke.{MarketplaceRevokeRequest, MarketplaceRevokeResponse}
use subscription_reconciler.Http.Message.{
  Request, Decoded, value, invalid, Json, revocation, Response, reply, respond_error,
  status_accepted, status_bad_request, status_internal_server_error,
}
use subscription_reconciler.Postgres.Session.{Env, World, Result, ok, err}

abbrev pub revoke_error : Option DomainError → Response
revoke_error (some e) = respond_error status_bad_request e.code e.message
revoke_error none =
    respond_error status_internal_server_error "INTERNAL_ERROR" "Failed to process revoke"

abbrev pub revoke_response : Result MarketplaceRevokeResponse × World → Response × World
revoke_response (ok r, w) = (reply status_accepted (revocation r), w)
revoke_response (err e, w) = (revoke_error (as_domain e), w)

abbrev pub revoke_decoded : Decoded MarketplaceRevokeRequest → Env → World → Response × World
revoke_decoded (value r) env w = revoke_response (revoke_marketplace_access r env w)
revoke_decoded (invalid text) env w =
    (respond_error status_bad_request "INVALID_REQUEST" (String.◌++◌ "Invalid JSON: " text), w)

abbrev pub revoke_read : Json → Option String → Env → World → Response × World
revoke_read json (some body) env w = revoke_decoded (json.marketplace_revoke body) env w
revoke_read json none env w =
    (respond_error status_bad_request "INVALID_REQUEST" "Failed to read request body", w)

-- `HandleMarketplaceRevoke`.
unfoldable pub handle_marketplace_revoke : Json → Request → Env → World → Response × World
handle_marketplace_revoke json r env w = revoke_read json r.body env w
