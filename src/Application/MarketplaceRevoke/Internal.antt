-- ===== src/Application/MarketplaceRevoke/Internal.antt =====
-- Which batches fail with a domain error: the invalid ones, and no others.
use subscription_reconciler.Application.MarketplaceRevoke.{
  revocation_change, apply_revocation, ingest_revocation, revoke_user, revoke_users, revoke_valid,
  revoke_marketplace_access,
}
use subscription_reconciler.Application.StoreWebhook.Internal.{mark_row-IsInternal}
use subscription_reconciler.Base.{ℕ, String, ◌≡◌, none, some, List, [], ◌∷◌}
use subscription_reconciler.Clock.{Time}
use subscription_reconciler.Domain.Revoke.{MarketplaceRevokeRequest, validate}
use subscription_reconciler.Postgres.Client.Events.{
  with_marketplace_revocation_transaction, insert_marketplace_revocation, mark_event_processed,
}
use subscription_reconciler.Postgres.Client.Upsert.Internal.{upsert_entitlement-IsInternal}
use subscription_reconciler.Postgres.Session.{Env, World, Queries}
use subscription_reconciler.Postgres.Session.Internal.{
  IsInternal, IsInternalResult, IsInternal-pure, IsInternal-ask, IsInternal-time_now,
  IsInternal-ctx_err, IsInternal-begin, IsInternal-commit, IsInternal-bind, IsInternal-if,
  IsInternal-wrap, IsInternal-statement, IsInternal-atomically,
}

apply-IsInternal :
    (event user : String) (batch_time : Time) (q : Queries)
    → IsInternal (apply_revocation event user batch_time q)
unfolding apply_revocation mark_event_processed
apply-IsInternal event user batch_time q = IsInternal-bind _ _ IsInternal-ctx_err λ u.
    IsInternal-bind _ _
      (IsInternal-wrap _ _
        (upsert_entitlement-IsInternal q (revocation_change user batch_time) (some event)))
      λ changed. IsInternal-bind _ _ IsInternal-ctx_err λ u.
        IsInternal-wrap _ _ (IsInternal-statement q _ (mark_row-IsInternal event "MARKETPLACE"))

ingest-IsInternal :
    (event user : String) (batch_time : Time) (q : Queries)
    → IsInternal (ingest_revocation event user batch_time q)
unfolding ingest_revocation insert_marketplace_revocation
ingest-IsInternal event user batch_time q = IsInternal-bind _ _ IsInternal-ctx_err λ u.
    IsInternal-bind _ _
      (IsInternal-wrap _ _
        (IsInternal-bind _ _ (IsInternal-statement q _ (λ now db. tt)) (λ n. IsInternal-pure _)))
      λ inserted.
        IsInternal-if inserted _ _
          (IsInternal-bind _ _ (apply-IsInternal event user batch_time q) (λ u. IsInternal-pure _))
          (IsInternal-pure _)

revoke_user-IsInternal :
    (event user : String) (batch_time : Time) → IsInternal (revoke_user event user batch_time)
unfolding revoke_user with_marketplace_revocation_transaction
revoke_user-IsInternal event user batch_time =
    IsInternal-bind _ _ (IsInternal-wrap _ _ IsInternal-ctx_err) λ u. IsInternal-wrap _ _ (
      IsInternal-atomically _ (
        IsInternal-bind _ _ (IsInternal-wrap _ _ IsInternal-begin) λ tx.
          IsInternal-bind _ _ (ingest-IsInternal event user batch_time tx) λ b.
            IsInternal-bind _ _ (IsInternal-wrap _ _ IsInternal-ctx_err) λ u.
              IsInternal-bind _ _ (IsInternal-wrap _ _ IsInternal-commit) λ u. IsInternal-pure b))

revoke_users-IsInternal :
    (year_month : Time → String) (batch_time : Time) (users : List String) (n : ℕ)
    → IsInternal (revoke_users year_month batch_time users n)
unfolding revoke_users
revoke_users-IsInternal year_month batch_time [] n = IsInternal-pure n
revoke_users-IsInternal year_month batch_time (user ∷ users) n =
    IsInternal-bind _ _ (revoke_user-IsInternal _ user batch_time)
      λ inserted. revoke_users-IsInternal year_month batch_time users _

revoke_valid-IsInternal : (r : MarketplaceRevokeRequest) → IsInternal (revoke_valid r)
unfolding revoke_valid
revoke_valid-IsInternal r = IsInternal-bind _ _ IsInternal-ask λ env.
    IsInternal-bind _ _ IsInternal-time_now λ now.
      IsInternal-bind _ _ (revoke_users-IsInternal env.year_month now r.user_ids 0)
        (λ n. IsInternal-pure _)

-- Of a valid batch, every error is internal.
pub revoke_marketplace_access-IsInternal :
    (r : MarketplaceRevokeRequest) (env : Env) (w : World)
    → validate r ≡ none
    → IsInternalResult (revoke_marketplace_access r env w).0
unfolding revoke_marketplace_access
revoke_marketplace_access-IsInternal r env w good = rw good ((revoke_valid-IsInternal r).at env w)
