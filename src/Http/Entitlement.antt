-- ===== src/Http/Entitlement.antt =====
-- internal/infrastructure/http/entitlement.go.
use subscription_reconciler.Application.EntitlementQuery.{get_canonical_entitlement}
use subscription_reconciler.Base.{◌==◌, if◌then◌else◌}
use subscription_reconciler.Domain.Entitlement.{EntitlementResponse}
use subscription_reconciler.Http.Message.{
  Request, entitlement, Response, reply, respond_error, status_ok, status_bad_request,
  status_internal_server_error,
}
use subscription_reconciler.Postgres.Session.{Env, World, Result, ok, err}

abbrev pub entitlement_response : Result EntitlementResponse × World → Response × World
entitlement_response (ok r, w) = (reply status_ok (entitlement r), w)
entitlement_response (err e, w) =
    (respond_error status_internal_server_error "INTERNAL_ERROR" "Failed to query entitlement", w)

-- `HandleGetEntitlement`.
unfoldable pub handle_get_entitlement : Request → Env → World → Response × World
handle_get_entitlement r env w =
    let user = r.url_param "userId" in
    if user == ""
    then (respond_error status_bad_request "MISSING_USER_ID" "User ID is required", w)
    else entitlement_response (get_canonical_entitlement user env w)
