-- ===== src/Application/EntitlementQuery/Answer.antt =====
-- The answer of the service on the tables that it reads.
use subscription_reconciler.Application.EntitlementQuery.{get_canonical_entitlement, resolve}
use subscription_reconciler.Application.EntitlementQuery.Priority.{Canonical, resolve-Canonical}
use subscription_reconciler.Base.{◌+◌, String, ◌≡◌, subst, none, List, map, arith}
use subscription_reconciler.Domain.Entitlement.{EntitlementResponse}
use subscription_reconciler.Postgres.Client.Entitlements.{get_entitlements_by_user}
use subscription_reconciler.Postgres.Models.{Db}
use subscription_reconciler.Postgres.Queries.Entitlements
use subscription_reconciler.Postgres.Session.{Env, World, ok, pure, ◌>>=◌, statement, time_now}
use subscription_reconciler.Postgres.Session.Implements.{bind-ran}
use subscription_reconciler.Postgres.Types.{Entitlement, entitlement_from_gen}

-- The entitlements of a user, as the service sees them.
abbrev pub entitlements_of : String → Db → List Entitlement
entitlements_of user db = map entitlement_from_gen (Entitlements.get_entitlements_by_user user 0 db)

read_rows :
    (user : String) (env : Env) (w w' : World) (es : List Entitlement)
    → get_entitlements_by_user none user env w ≡ (ok es, w')
    → (es ≡ entitlements_of user w.db) × (w'.db ≡ w.db) × (w'.tick ≡ w.tick + 1)
unfolding get_entitlements_by_user ◌>>=◌ statement pure Entitlements.get_entitlements_by_user
read_rows user env w w' es h = ground arith

-- An answer of `GetCanonicalEntitlement` is canonical among the user's entitlements at the time of
-- the call, and no table changes.
pub get_canonical_entitlement-Canonical :
    (user : String) (env : Env) (w w' : World) (r : EntitlementResponse)
    → get_canonical_entitlement user env w ≡ (ok r, w')
    → Canonical (env.wall (w.tick + 1)) (entitlements_of user w.db) r × (w'.db ≡ w.db)
unfolding get_canonical_entitlement time_now pure ◌>>=◌
get_canonical_entitlement-Canonical user env w w' r h =
    let (es, v, read, rest) =
      bind-ran (get_entitlements_by_user none user)
        (λ found. time_now >>= λ now. pure (resolve now found)) env w w' r h in
    let (same, kept, ticked) = read_rows user env w v es read in
    let answered : resolve (env.wall (w.tick + 1)) (entitlements_of user w.db) ≡ r =
      ground (arith, rest, same, ticked) in
    (
      subst (Canonical (env.wall (w.tick + 1)) (entitlements_of user w.db)) answered
          (resolve-Canonical (env.wall (w.tick + 1)) (entitlements_of user w.db)),
      ground (arith, rest, kept),
    )
