-- ===== src/Http/Router.antt =====
-- internal/infrastructure/http/router.go. How chi chooses among the routes is a parameter.
pub mod Reads
pub mod Effects
use subscription_reconciler.Base.{
  ℕ, ◌≡◌, String, Bool, true, not, Option, none, some, List, [], ◌∷◌, ◌||◌, eqb,
}
use subscription_reconciler.Base.Decimal.{codes}
use subscription_reconciler.Base.Lists.{any, get_elem?}
use subscription_reconciler.Http.Entitlement.{handle_get_entitlement}
use subscription_reconciler.Http.MarketplaceRevoke.{handle_marketplace_revoke}
use subscription_reconciler.Http.Message.{Request, Response, Json}
use subscription_reconciler.Http.MockCarrier.{Rand, handle_get_plan}
use subscription_reconciler.Http.StoreWebhook.{handle_store_webhook}
use subscription_reconciler.Http.Timeline.{handle_get_timeline}
use subscription_reconciler.Postgres.Session.{Env, World}

abbrev pub Handler : Type 0
Handler = Request → Env → World → Response × World

-- `Router`: the five handlers over one database.
pub record Router : Type 0 where
  pub store_webhook_handler : Handler
  pub entitlement_handler : Handler
  pub marketplace_revoke_handler : Handler
  pub mock_carrier_handler : Handler
  pub timeline_handler : Handler

-- `NewRouter`.
unfoldable pub new_router : Json → Rand → Router
new_router json rand = record {
  store_webhook_handler = handle_store_webhook json;
  entitlement_handler = handle_get_entitlement;
  marketplace_revoke_handler = handle_marketplace_revoke json;
  mock_carrier_handler = handle_get_plan rand;
  timeline_handler = handle_get_timeline;
}

pub record Route : Type 0 where
  pub method : String
  pub pattern : String
  pub handler : Handler

-- `Mount`.
unfoldable pub mount : Router → List Route
mount r =
    record { method = "POST"; pattern = "/webhooks/store"; handler = r.store_webhook_handler }
    ∷ record {
      method = "POST";
      pattern = "/webhooks/marketplace/revoke";
      handler = r.marketplace_revoke_handler;
    }
    ∷ record {
      method = "GET";
      pattern = "/users/{userId}/entitlement";
      handler = r.entitlement_handler;
    }
    ∷ record { method = "GET"; pattern = "/users/{userId}/timeline"; handler = r.timeline_handler }
    ∷ record { method = "GET"; pattern = "/mock/carrier/plan"; handler = r.mock_carrier_handler }
    ∷ []

-- chi: which of the routes serves a method and a path, and the answer where none does.
pub record Mux : Type 0 where
  pub find : List Route → String → String → Option ℕ
  pub otherwise : Response

-- It serves a request by a route of its method.
pub record MatchesMethod (mux : Mux) : Type 0 where
  pub method_of :
      (routes : List Route) (method path : String) (i : ℕ) (r : Route)
      → mux.find routes method path ≡ some i
      → get_elem? routes i ≡ some r
      → r.method ≡ method

-- No parameter and no wildcard: neither `{` nor `*`.
abbrev pub is_static : String → Bool
is_static pattern = not (any (λ c. eqb c 123 || eqb c 42) (codes pattern))

-- chi serves by a pattern without parameters only what has that path.
pub record MatchesPath (mux : Mux) : Type 0 where
  pub path_of :
      (routes : List Route) (method path : String) (i : ℕ) (r : Route)
      → mux.find routes method path ≡ some i
      → get_elem? routes i ≡ some r
      → is_static r.pattern ≡ true
      → r.pattern ≡ path

abbrev pub chosen : List Route → Option ℕ → Option Route
chosen routes none = none
chosen routes (some i) = get_elem? routes i

abbrev pub serve_by : Response → Option Route → Handler
serve_by otherwise none r env w = (otherwise, w)
serve_by otherwise (some route) r env w = route.handler r env w

-- A request to the mounted router.
unfoldable pub serve : Mux → Json → Rand → String → String → Handler
unfolding new_router mount
serve mux json rand method path =
    let routes = mount (new_router json rand) in
    serve_by mux.otherwise (chosen routes (mux.find routes method path))
