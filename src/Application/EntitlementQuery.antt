-- ===== src/Application/EntitlementQuery.antt =====
-- internal/application/entitlement_query.go.
pub mod Priority
pub mod Answer
use subscription_reconciler.Base.{
  ℕ, String, Bool, true, false, Option, none, some, List, [], ◌∷◌, ◌&&◌, ltb, if◌then◌else◌,
}
use subscription_reconciler.Clock.{Time, zero_time, after}
use subscription_reconciler.Domain.Entitlement.{EntitlementResponse, is_active, source_priority}
use subscription_reconciler.Postgres.Client.Entitlements.{get_entitlements_by_user}
use subscription_reconciler.Postgres.Session.{Action, pure, ◌>>=◌, time_now}
use subscription_reconciler.Postgres.Types.{Entitlement}

abbrev pub is_current : Time → Entitlement → Bool
is_current now e = is_active (record { active = e.active; expires_at = e.expires_at }) now

-- The loop: the best so far, and its priority.
unfoldable pub best_from : Time → Option Entitlement → ℕ → List Entitlement → Option Entitlement
best_from now best top [] = best
best_from now best top (e ∷ es) =
    let better = best_from now (some e) (source_priority e.source) es in
    let same = best_from now best top es in
    if is_current now e && ltb top (source_priority e.source) then better else same

unfoldable pub most_recent : Entitlement → List Entitlement → Entitlement
most_recent best [] = best
most_recent best (e ∷ es) = most_recent (if after e.updated_at best.updated_at then e else best) es

abbrev pub active_response : Entitlement → EntitlementResponse
active_response e = record {
  active = e.active;
  source = e.source;
  expires_at = e.expires_at;
  last_changed_at = e.updated_at;
  reason = e.reason;
}

abbrev pub none_response : Time → EntitlementResponse
none_response t = record {
  active = false;
  source = "NONE";
  expires_at = none;
  last_changed_at = t;
  reason = none;
}

resolve_best : Option Entitlement → Entitlement → List Entitlement → EntitlementResponse
unfolding most_recent
resolve_best (some e) first rest = active_response e
resolve_best none first rest = none_response (most_recent first rest).updated_at

unfoldable pub resolve : Time → List Entitlement → EntitlementResponse
unfolding resolve_best
resolve now [] = none_response zero_time
resolve now (e ∷ es) = resolve_best (best_from now none 0 (e ∷ es)) e es

-- `GetCanonicalEntitlement`. The clock is read for no use where there is no entitlement.
unfoldable pub get_canonical_entitlement : String → Action EntitlementResponse
get_canonical_entitlement user = do
  entitlements ← get_entitlements_by_user none user
  now ← time_now
  pure (resolve now entitlements)
