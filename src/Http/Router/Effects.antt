-- ===== src/Http/Router/Effects.antt =====
-- What a request may do to the tables: what the two webhooks do.
use subscription_reconciler.Application.MarketplaceRevoke.{revoke_marketplace_access}
use subscription_reconciler.Application.StoreWebhook.{process_store_webhook}
use subscription_reconciler.Base.{
  ℕ, zero, suc, String, ◌≡◌, ◌≢◌, ◌∙◌, refl, sym, ap, Option, none, some,
}
use subscription_reconciler.Domain.Revoke.{MarketplaceRevokeRequest, MarketplaceRevokeResponse}
use subscription_reconciler.Domain.Webhook.{StoreWebhookPayload, StoreWebhookResponse}
use subscription_reconciler.Http.MarketplaceRevoke.{
  handle_marketplace_revoke, revoke_response, revoke_decoded, revoke_read,
}
use subscription_reconciler.Http.Message.{Request, Decoded, value, invalid, Json}
use subscription_reconciler.Http.MockCarrier.{Rand}
use subscription_reconciler.Http.Router.{
  Mux, MatchesPath, chosen, serve_by, serve, mount, new_router,
}
use subscription_reconciler.Http.Router.Reads.{
  entitlement_unchanged, timeline_unchanged, plan_unchanged,
}
use subscription_reconciler.Http.StoreWebhook.{
  handle_store_webhook, webhook_response, webhook_decoded, webhook_read,
}
use subscription_reconciler.Invariant.Channels.{store, marketplace}
use subscription_reconciler.Invariant.Sources.{view-receive}
use subscription_reconciler.Postgres.Client.Upsert.Refinement.{view}
use subscription_reconciler.Postgres.Models.{Db}
use subscription_reconciler.Postgres.Session.{Env, World, Result, ok, err}
use subscription_reconciler.Postgres.Session.Keeps.{Keeps}

world-webhook_response : (x : Result StoreWebhookResponse × World) → (webhook_response x).1 ≡ x.1
world-webhook_response (ok r, w) = refl
world-webhook_response (err e, w) = refl

world-revoke_response : (x : Result MarketplaceRevokeResponse × World) → (revoke_response x).1 ≡ x.1
world-revoke_response (ok r, w) = refl
world-revoke_response (err e, w) = refl

module _ {P : Db → Type 0}
    (webhook : (p : StoreWebhookPayload) → Keeps P (process_store_webhook p)) where
  webhook_decoded-Keeps :
      (x : Decoded StoreWebhookPayload) (env : Env) (w : World)
      → P w.db
      → P (webhook_decoded x env w).1.db
  webhook_decoded-Keeps (value p) env w h =
      rw (world-webhook_response (process_store_webhook p env w)) ((webhook p).at env w h)
  webhook_decoded-Keeps (invalid text) env w h = h

  webhook_read-Keeps :
      (json : Json) (o : Option String) (env : Env) (w : World)
      → P w.db
      → P (webhook_read json o env w).1.db
  webhook_read-Keeps json none env w h = h
  webhook_read-Keeps json (some body) env w h =
      webhook_decoded-Keeps (json.store_webhook body) env w h

module _ {P : Db → Type 0}
    (batch : (r : MarketplaceRevokeRequest) → Keeps P (revoke_marketplace_access r)) where
  revoke_decoded-Keeps :
      (x : Decoded MarketplaceRevokeRequest) (env : Env) (w : World)
      → P w.db
      → P (revoke_decoded x env w).1.db
  revoke_decoded-Keeps (value r) env w h =
      rw (world-revoke_response (revoke_marketplace_access r env w)) ((batch r).at env w h)
  revoke_decoded-Keeps (invalid text) env w h = h

  revoke_read-Keeps :
      (json : Json) (o : Option String) (env : Env) (w : World)
      → P w.db
      → P (revoke_read json o env w).1.db
  revoke_read-Keeps json none env w h = h
  revoke_read-Keeps json (some body) env w h =
      revoke_decoded-Keeps (json.marketplace_revoke body) env w h

module _ (json : Json) (rand : Rand) (mux : Mux) (law : MatchesPath mux) (u s : String) where
  served-view :
      (method path : String) (o : Option ℕ) (r : Request) (env : Env) (w : World)
      → mux.find (mount (new_router json rand)) method path ≡ o
      → (path ≡ "/webhooks/store" → s ≢ "STORE")
      → (path ≡ "/webhooks/marketplace/revoke" → s ≢ "MARKETPLACE")
      → view u s (serve_by mux.otherwise (chosen (mount (new_router json rand)) o) r env w).1.db
        ≡ view u s w.db
  unfolding mount new_router handle_store_webhook handle_marketplace_revoke
  served-view method path none r env w e st mk = refl
  served-view method path (some zero) r env w e st mk =
      webhook_read-Keeps {P = λ db. view u s db ≡ view u s w.db}
        (λ p. record {
          at = λ env' v h.
              view-receive (store p) env' v u s
                (st (sym (law.path_of _ method path zero _ e refl refl)))
              ∙ h;
        })
        json r.body env w refl
  served-view method path (some (suc zero)) r env w e st mk =
      revoke_read-Keeps {P = λ db. view u s db ≡ view u s w.db}
        (λ x. record {
          at = λ env' v h.
              view-receive (marketplace x) env' v u s
                (mk (sym (law.path_of _ method path (suc zero) _ e refl refl)))
              ∙ h;
        })
        json r.body env w refl
  served-view method path (some (suc (suc zero))) r env w e st mk =
      ap (view u s) (entitlement_unchanged r env w)
  served-view method path (some (suc (suc (suc zero)))) r env w e st mk =
      ap (view u s) (timeline_unchanged r env w)
  served-view method path (some (suc (suc (suc (suc zero))))) r env w e st mk =
      ap (view u s) (plan_unchanged rand r env w)
  served-view method path (some (suc (suc (suc (suc (suc i)))))) r env w e st mk = refl

-- Where chi serves by a pattern without parameters only what has that path, a request changes a
-- register of the source STORE only at the path /webhooks/store, one of MARKETPLACE only at
-- /webhooks/marketplace/revoke, and no other, whatever its method and its body are and whatever
-- fails.
pub serve-view :
    (mux : Mux) (json : Json) (rand : Rand) (method path : String) (r : Request) (env : Env)
    (w : World) (u s : String)
    → MatchesPath mux
    → (path ≡ "/webhooks/store" → s ≢ "STORE")
    → (path ≡ "/webhooks/marketplace/revoke" → s ≢ "MARKETPLACE")
    → view u s (serve mux json rand method path r env w).1.db ≡ view u s w.db
unfolding serve
serve-view mux json rand method path r env w u s law st mk =
    served-view json rand mux law u s method path _ r env w refl st mk
