-- ===== src/Http/MarketplaceRevoke/Status.antt =====
-- What the status of an answer to the marketplace tells it.
use subscription_reconciler.Application.MarketplaceRevoke.{revoke_marketplace_access}
use subscription_reconciler.Application.MarketplaceRevoke.Repeat.{event_of}
use subscription_reconciler.Base.{◌≡◌, ◌≢◌, true, Option, none, some, String}
use subscription_reconciler.Base.Lists.{All}
use subscription_reconciler.Domain.Revoke.{
  MarketplaceRevokeRequest, MarketplaceRevokeResponse, validate,
}
use subscription_reconciler.Http.Message.{
  Request, Response, Decoded, value, invalid, Json, revocation,
}
use subscription_reconciler.Postgres.Queries.Events.{has_revocation}
use subscription_reconciler.Postgres.Session.{Env, World, ok}

abbrev decoded : Decoded MarketplaceRevokeRequest → Option MarketplaceRevokeRequest
decoded (value p) = some p
decoded (invalid text) = none

abbrev batch_in : Json → Option String → Option MarketplaceRevokeRequest
batch_in json none = none
batch_in json (some body) = decoded (json.marketplace_revoke body)

-- The batch that a request carries, if its body can be read and decoded.
abbrev pub batch_of : Json → Request → Option MarketplaceRevokeRequest
batch_of json r = batch_in json r.body

abbrev pub IsRefused : Option MarketplaceRevokeRequest → Type 0
IsRefused none = Unit {0}
IsRefused (some p) = validate p ≢ none

-- What an answer of 202 stands for.
abbrev pub IsAccepted : Option MarketplaceRevokeRequest → Env → World → Response → World → Type 0
IsAccepted none env w answer w' = ⊥
IsAccepted (some p) env w answer w' =
    (r : MarketplaceRevokeResponse) × (revoke_marketplace_access p env w ≡ (ok r, w'))
    × (answer.content ≡ revocation r)
    × All (λ user. has_revocation (event_of env.year_month (env.wall w.tick) user) w'.db ≡ true)
        p.user_ids
