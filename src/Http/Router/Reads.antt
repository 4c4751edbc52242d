-- ===== src/Http/Router/Reads.antt =====
-- The GET requests only read.
use subscription_reconciler.Application.EntitlementQuery.{get_canonical_entitlement}
use subscription_reconciler.Application.Timeline.{get_entitlement_timeline}
use subscription_reconciler.Base.{
  ℕ, zero, suc, String, ◌≡◌, ◌≢◌, refl, ◌∙◌, Option, none, some, List, ◌==◌, Bool-cases, inl, inr,
  arith, ==_iff,
}
use subscription_reconciler.Base.Int.{ℤ, pos}
use subscription_reconciler.Base.Lists.{get_elem?}
use subscription_reconciler.Domain.Entitlement.{EntitlementResponse}
use subscription_reconciler.Domain.Timeline.{TimelineResponse}
use subscription_reconciler.Http.Entitlement.{handle_get_entitlement, entitlement_response}
use subscription_reconciler.Http.Message.{Request, Response, Json}
use subscription_reconciler.Http.MockCarrier.{Rand, handle_get_plan}
use subscription_reconciler.Http.Router.{
  Route, Mux, MatchesMethod, chosen, serve_by, serve, mount, new_router,
}
use subscription_reconciler.Postgres.Queries.Limits.{with_rows, limit_rows}
use subscription_reconciler.Http.Timeline.{
  int_param, handle_get_timeline, timeline_page, timeline_response,
}
use subscription_reconciler.Postgres.Client.AuditLogs.{
  get_audit_logs_by_user, count_audit_logs_by_user,
}
use subscription_reconciler.Postgres.Client.Entitlements.{get_entitlements_by_user}
use subscription_reconciler.Postgres.Models.{Db}
use subscription_reconciler.Postgres.Queries.AuditLogs
use subscription_reconciler.Postgres.Session.{Env, World, Result, ok, err}
use subscription_reconciler.Postgres.Session.Keeps.{
  Keeps, Keeps-bind, Keeps-pure, Keeps-statement, Keeps-time_now,
}

db-entitlement_response :
    (x : Result EntitlementResponse × World) → (entitlement_response x).1 ≡ x.1
db-entitlement_response (ok r, w) = refl
db-entitlement_response (err e, w) = refl

db-timeline_response : (x : Result TimelineResponse × World) → (timeline_response x).1 ≡ x.1
db-timeline_response (ok r, w) = refl
db-timeline_response (err e, w) = refl

query_reads : (db : Db) (user : String) → Keeps (λ d. d ≡ db) (get_canonical_entitlement user)
unfolding get_canonical_entitlement get_entitlements_by_user
query_reads db user =
    Keeps-bind _ _
      (Keeps-bind _ _ (Keeps-statement none _ (λ now d d' a e h. ground arith))
        (λ rows. Keeps-pure _))
      λ es. Keeps-bind _ _ Keeps-time_now (λ now. Keeps-pure _)

read_limited :
    {A : Type 0} (r : Result (List A)) (d d' : Db) (a : List A)
    → with_rows {B = List A × Db} r (λ page. ok (page, d)) ≡ ok (a, d')
    → d' ≡ d
read_limited (ok page) d d' a e = ground arith
read_limited (err x) d d' a e = cc

read_page :
    {A : Type 0} (r : Result (List A)) (limit : ℤ) (d d' : Db) (a : List A)
    → with_rows {B = List A × Db} r
        (λ rest. with_rows (limit_rows limit rest) (λ page. ok (page, d)))
      ≡ ok (a, d')
    → d' ≡ d
read_page (ok rest) limit d d' a e = read_limited (limit_rows limit rest) d d' a e
read_page (err x) limit d d' a e = cc

timeline_reads :
    (db : Db) (user : String) (limit offset : ℤ)
    → Keeps (λ d. d ≡ db) (get_entitlement_timeline user limit offset)
unfolding get_entitlement_timeline get_audit_logs_by_user count_audit_logs_by_user
    AuditLogs.get_audit_logs_by_user
timeline_reads db user limit offset =
    Keeps-bind _ _
      (Keeps-bind _ _ (Keeps-statement none _ (λ now d d' a e h. read_page _ _ d d' a e ∙ h))
        (λ rows. Keeps-pure _))
      λ logs.
        Keeps-bind _ _ (Keeps-statement none _ (λ now d d' a e h. ground arith))
          (λ total. Keeps-pure _)

pub entitlement_unchanged :
    (r : Request) (env : Env) (w : World) → (handle_get_entitlement r env w).1.db ≡ w.db
unfolding handle_get_entitlement
entitlement_unchanged r env w = ground (
  arith,
  db-entitlement_response (get_canonical_entitlement (r.url_param "userId") env w),
  (query_reads w.db (r.url_param "userId")).at env w refl,
)

page_unchanged :
    (user : String) (limit offset : ℤ) (env : Env) (w : World)
    → (timeline_page user limit offset env w).1.db ≡ w.db
page_unchanged user limit offset env w = ground (
  arith,
  db-timeline_response (get_entitlement_timeline user limit offset env w),
  (timeline_reads w.db user limit offset).at env w refl,
)

pub timeline_unchanged :
    (r : Request) (env : Env) (w : World) → (handle_get_timeline r env w).1.db ≡ w.db
unfolding handle_get_timeline
timeline_unchanged r env w = elim (Bool-cases (r.url_param "userId" == "")) [
  | inl e ↦ rw e
  | inr e ↦ rw e (
      page_unchanged (r.url_param "userId") (int_param (pos 100) (r.query "limit"))
        (int_param (pos 0) (r.query "offset")) env w)
]

pub plan_unchanged :
    (rand : Rand) (r : Request) (env : Env) (w : World) → (handle_get_plan rand r env w).1.db ≡ w.db
unfolding handle_get_plan
plan_unchanged rand r env w = elim (Bool-cases (r.query "userId" == "")) [
  | inl e ↦ rw e
  | inr e ↦ rw e
]

post-ne-get : ◌≢◌ {A = String} "POST" "GET"
unfolding ◌==◌
post-ne-get e = ground (arith, ==_iff "POST" "GET")

-- Whichever of the routes serves a GET request, it only reads.
route_unchanged :
    (json : Json) (rand : Rand) (otherwise : Response) (i : ℕ) (r : Request) (env : Env) (w : World)
    → ((route : Route)
        → get_elem? (mount (new_router json rand)) i ≡ some route
        → route.method ≡ "GET")
    → (serve_by otherwise (get_elem? (mount (new_router json rand)) i) r env w).1.db ≡ w.db
unfolding mount new_router
route_unchanged json rand otherwise zero r env w h = absurd (post-ne-get (h _ refl))
route_unchanged json rand otherwise (suc zero) r env w h = absurd (post-ne-get (h _ refl))
route_unchanged json rand otherwise (suc (suc zero)) r env w h = entitlement_unchanged r env w
route_unchanged json rand otherwise (suc (suc (suc zero))) r env w h = timeline_unchanged r env w
route_unchanged json rand otherwise (suc (suc (suc (suc zero)))) r env w h =
    plan_unchanged rand r env w
route_unchanged json rand otherwise (suc (suc (suc (suc (suc i))))) r env w h = refl

found_unchanged :
    (mux : Mux) (json : Json) (rand : Rand) (path : String) (o : Option ℕ) (r : Request) (env : Env)
    (w : World)
    → MatchesMethod mux
    → mux.find (mount (new_router json rand)) "GET" path ≡ o
    → (serve_by mux.otherwise (chosen (mount (new_router json rand)) o) r env w).1.db ≡ w.db
found_unchanged mux json rand path none r env w law e = refl
found_unchanged mux json rand path (some i) r env w law e =
    route_unchanged json rand mux.otherwise i r env w
      (λ route found. law.method_of _ "GET" path i route e found)

-- A GET request changes no table, whatever its path, its parameters and its outcome.
pub serve-get_unchanged :
    (mux : Mux) (json : Json) (rand : Rand) (path : String) (r : Request) (env : Env) (w : World)
    → MatchesMethod mux
    → (serve mux json rand "GET" path r env w).1.db ≡ w.db
unfolding serve
serve-get_unchanged mux json rand path r env w law =
    found_unchanged mux json rand path _ r env w law refl
