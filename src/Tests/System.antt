-- ===== src/Tests/System.antt =====
-- Instances for the histories of the system, its workers and the router.
use subscription_reconciler.Application.StoreWebhook.{
  process_store_webhook, process_valid, ingest_event, event_params, apply_event,
  compute_state_transition, respond, schedule_expiry, store_change,
}
use subscription_reconciler.Base.{
  ◌==◌, ==_iff, ◌≡◌, ◌≢◌, refl, true, none, some, [], ◌∷◌, arith, String, Option, ℕ, if◌then◌else◌,
  zero, suc, List, Bool, not, ◌&&◌, ◌||◌,
}
use subscription_reconciler.Base.Int.{pos}
use subscription_reconciler.Base.Lists.{get_elem?}
use subscription_reconciler.Clock.{of_unix_milli, timestamptz, unix_micro, utc_date}
use subscription_reconciler.Domain.Webhook.{validate, is_valid_event_type}
use subscription_reconciler.Http.Message.{respond_error}
use subscription_reconciler.Http.MockCarrier.{Rand}
use subscription_reconciler.Http.Router.{Route, Mux, MatchesMethod, MatchesPath, is_static, serve}
use subscription_reconciler.Http.Router.Effects.{serve-view}
use subscription_reconciler.Http.Router.Reads.{serve-get_unchanged}
use subscription_reconciler.Invariant.Channels.{marketplace, receive}
use subscription_reconciler.Invariant.Sources.{view-receive}
use subscription_reconciler.Postgres.Client.Events.{
  with_store_webhook_transaction, insert_store_event, mark_event_processed,
}
use subscription_reconciler.Postgres.Client.Notifications.{schedule_notification}
use subscription_reconciler.Postgres.Client.Upsert.{
  lock_entitlement_user, optional, record_change, upsert_entitlement, upsert_entitlement_in,
  write_projection,
}
use subscription_reconciler.Postgres.Client.Upsert.Refinement.{view}
use subscription_reconciler.Postgres.Models.{empty_db}
use subscription_reconciler.Postgres.Queries.AuditLogs
use subscription_reconciler.Postgres.Queries.Entitlements
use subscription_reconciler.Postgres.Queries.Entitlements.{is_source}
use subscription_reconciler.Postgres.Queries.Events
use subscription_reconciler.Postgres.Queries.Notifications
use subscription_reconciler.Postgres.Session.{
  World, ok, ◌>>=◌, ask, time_now, in_transaction, atomically, begin, wrap, statement, commit, pure,
  raise,
}
use subscription_reconciler.Postgres.Types.{same_expiration}
use subscription_reconciler.System.Deduplication.{process_store_webhook_once}
use subscription_reconciler.System.History.{deliver, sweep, perform, History, History-IsSound}
use subscription_reconciler.System.Sweep.{IsSound}
use subscription_reconciler.Tests.Http.{codec, request_with}
use subscription_reconciler.Tests.Revocation.{request}
use subscription_reconciler.Tests.Webhook.{delivered, delivers, accepted, repeated, duplicate}
use subscription_reconciler.Tests.World.{quiet, fresh, purchase, renewal_copy, empty-IsTruthful}
use subscription_reconciler.Worker.Schedule.{tick, done, start-done, start as start_worker}

empty-IsSound : IsSound empty_db
empty-IsSound = (tt, (empty-IsTruthful, tt))

-- A delivery, and a sweep after it.
abbrev swept : World
swept = perform (sweep (pos 100)) quiet delivered.1

run : History empty_db swept.db
run =
    History.also (sweep (pos 100)) quiet delivered.1 swept.db
      (History.also (deliver purchase) quiet fresh delivered.1.db (History.start empty_db refl)
        refl)
      refl

History-IsSound_example : IsSound swept.db
History-IsSound_example = History-IsSound empty_db swept.db run empty-IsSound

-- A copy of the event that comes after another copy of it.
abbrev late : World
late = (process_store_webhook renewal_copy quiet repeated.1).1

late_copy : process_store_webhook renewal_copy quiet repeated.1 ≡ (ok duplicate, late)
unfolding process_store_webhook validate is_valid_event_type ◌==◌ process_valid ◌>>=◌ ask time_now
    with_store_webhook_transaction in_transaction atomically begin ingest_event wrap
    insert_store_event statement Events.insert_store_event event_params apply_event
    compute_state_transition respond schedule_expiry store_change of_unix_milli timestamptz
    unix_micro utc_date mark_event_processed schedule_notification lock_entitlement_user optional
    record_change upsert_entitlement upsert_entitlement_in write_projection
    AuditLogs.insert_audit_log Entitlements.get_entitlement_by_user_and_source is_source
    Entitlements.upsert_entitlement Events.mark_event_processed Notifications.schedule_notification
    commit pure raise same_expiration
late_copy = refl

process_store_webhook_once_example : (duplicate.is_duplicate ≡ true) × (late.db ≡ repeated.1.db)
process_store_webhook_once_example =
    process_store_webhook_once purchase renewal_copy quiet quiet fresh delivered.1 repeated.1 late
      accepted duplicate refl delivers
      (History.also (deliver renewal_copy) quiet delivered.1 repeated.1.db
        (History.start delivered.1.db refl) refl)
      late_copy

store-ne-marketplace : ◌≢◌ {A = String} "STORE" "MARKETPLACE"
unfolding ◌==◌
store-ne-marketplace e = ground (arith, ==_iff "STORE" "MARKETPLACE")

view-receive_example :
    view "alice" "STORE" (receive (marketplace request) quiet delivered.1).db
    ≡ view "alice" "STORE" delivered.1.db
view-receive_example =
    view-receive (marketplace request) quiet delivered.1 "alice" "STORE" store-ne-marketplace

stops_when_done :
    start_worker (perform (sweep (pos 9)) quiet) (tick ∷ done ∷ tick ∷ []) fresh
    ≡ start_worker (perform (sweep (pos 9)) quiet) (tick ∷ []) fresh
stops_when_done = start-done (perform (sweep (pos 9)) quiet) (tick ∷ []) (tick ∷ []) fresh

first_of : (Route → Bool) → List Route → Option ℕ
first_of test [] = none
first_of test (r ∷ rs) =
    if test r then some 0 else elim (first_of test rs) [ none ↦ none | some i ↦ some (suc i) ]

first_of_lem :
    (test : Route → Bool) (routes : List Route) (i : ℕ) (r : Route)
    → first_of test routes ≡ some i
    → get_elem? routes i ≡ some r
    → test r ≡ true
unfolding first_of
first_of_lem test [] i r e g = cc
first_of_lem test (x ∷ xs) zero r e g = ground arith
first_of_lem test (x ∷ xs) (suc i) r e g = ground (arith, first_of_lem test xs i r)

-- A multiplexer that takes the first route of the method whose pattern, if it is static, is the
-- path.
abbrev fits : String → String → Route → Bool
fits method path r = r.method == method && (not (is_static r.pattern) || r.pattern == path)

abbrev mux : Mux
mux = record {
  find = λ routes method path. first_of (fits method path) routes;
  otherwise = respond_error 404 "NOT_FOUND" "404 page not found";
}

mux-MatchesMethod : MatchesMethod mux
mux-MatchesMethod = record {
  method_of = λ routes method path i r e g.
      ground (arith, first_of_lem (fits method path) routes i r e g, ==_iff r.method method);
}

mux-MatchesPath : MatchesPath mux
mux-MatchesPath = record {
  path_of = λ routes method path i r e g static.
      ground (arith, first_of_lem (fits method path) routes i r e g, static, ==_iff r.pattern path);
}

abbrev always_zero : Rand
always_zero seed n = 0

serve-get_unchanged_example :
    (serve mux codec always_zero "GET" "/users/alice/entitlement"
      (request_with "")
      quiet
      delivered.1).1.db
    ≡ delivered.1.db
serve-get_unchanged_example =
    serve-get_unchanged mux codec always_zero "/users/alice/entitlement" (request_with "") quiet
      delivered.1 mux-MatchesMethod

other_path : ◌≢◌ {A = String} "/webhooks/marketplace/revoke" "/webhooks/store"
unfolding ◌==◌
other_path e = ground (arith, ==_iff "/webhooks/marketplace/revoke" "/webhooks/store")

serve-view_example :
    view "alice" "STORE"
      (serve mux codec always_zero "POST" "/webhooks/marketplace/revoke"
        (request_with "batch")
        quiet
        delivered.1).1.db
    ≡ view "alice" "STORE" delivered.1.db
serve-view_example =
    serve-view mux codec always_zero "POST" "/webhooks/marketplace/revoke" (request_with "batch")
      quiet delivered.1 "alice" "STORE" mux-MatchesPath (λ e. absurd (other_path e))
      (λ e. store-ne-marketplace)
