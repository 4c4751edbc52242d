-- ===== src/Postgres/Queries/Entitlements/Lookup.antt =====
-- What the entitlement statements do to the row of each user and source.
use subscription_reconciler.Base.{
  String, ◌≡◌, List, [], ◌∷◌, ◌&&◌, ◌==◌, ==_iff, if◌then◌else◌, arith,
}
use subscription_reconciler.Base.Lists.{find?, update_where}
use subscription_reconciler.Postgres.Models.{UserEntitlement}
use subscription_reconciler.Postgres.Queries.Entitlements.{is_key}
use mathlib.Core.Option

module _ (f : UserEntitlement → UserEntitlement)
    (keeps_user : (r : UserEntitlement) → (f r).user_id ≡ r.user_id)
    (keeps_source : (r : UserEntitlement) → (f r).source ≡ r.source) where
  -- An update of one key changes what is found under that key alone.
  pub find?-update_where :
      (u s u' s' : String) (rows : List UserEntitlement)
      → find? (is_key u' s') (update_where (is_key u s) f rows) ≡ (
          if u == u' && s == s'
          then Option.map f (find? (is_key u s) rows)
          else find? (is_key u' s') rows)
  find?-update_where u s u' s' [] = ground arith
  find?-update_where u s u' s' (r ∷ rows) = ground (
    arith,
    keeps_user r,
    keeps_source r,
    ==_iff r.user_id u,
    ==_iff r.user_id u',
    ==_iff r.source s,
    ==_iff r.source s',
    ==_iff u u',
    ==_iff s s',
    find?-update_where u s u' s' rows,
  )
