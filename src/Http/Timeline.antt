-- ===== src/Http/Timeline.antt =====
-- internal/infrastructure/http/timeline.go.
pub mod Page
use subscription_reconciler.Application.Timeline.{get_entitlement_timeline}
use subscription_reconciler.Base.{String, Bool, Option, none, some, ◌==◌, ◌||◌, if◌then◌else◌}
use subscription_reconciler.Base.Decimal.{codes, parse_int32}
use subscription_reconciler.Base.Int.{ℤ, pos, ltb_ℤ}
use subscription_reconciler.Domain.Timeline.{TimelineResponse}
use subscription_reconciler.Http.Message.{
  Request, timeline, Response, reply, respond_error, status_ok, status_bad_request,
  status_internal_server_error,
}
use subscription_reconciler.Postgres.Session.{Env, World, Result, ok, err}

abbrev pub or_default : ℤ → Option ℤ → ℤ
or_default d none = d
or_default d (some n) = n

-- A parameter that is absent or does not parse keeps the default.
unfoldable pub int_param : ℤ → String → ℤ
int_param d s = if s == "" then d else or_default d (parse_int32 (codes s))

abbrev pub timeline_response : Result TimelineResponse × World → Response × World
timeline_response (ok r, w) = (reply status_ok (timeline r), w)
timeline_response (err e, w) =
    (respond_error status_internal_server_error "INTERNAL_ERROR" "Failed to query timeline", w)

abbrev pub timeline_page : String → ℤ → ℤ → Env → World → Response × World
timeline_page user limit offset env w =
    if ltb_ℤ limit (pos 1) || ltb_ℤ (pos 1000) limit
    then (
      respond_error status_bad_request "INVALID_PARAMETERS" "limit must be between 1 and 1000",
      w,
    )
    else if ltb_ℤ offset (pos 0)
    then (respond_error status_bad_request "INVALID_PARAMETERS" "offset must be >= 0", w)
    else timeline_response (get_entitlement_timeline user limit offset env w)

-- `HandleGetTimeline`.
unfoldable pub handle_get_timeline : Request → Env → World → Response × World
unfolding int_param
handle_get_timeline r env w =
    let user = r.url_param "userId" in
    let limit = int_param (pos 100) (r.query "limit") in
    let offset = int_param (pos 0) (r.query "offset") in
    if user == ""
    then (respond_error status_bad_request "MISSING_USER_ID" "User ID is required", w)
    else timeline_page user limit offset env w
