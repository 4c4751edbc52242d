-- ===== src/Domain/Revoke.antt =====
-- internal/domain/marketplace_revoke.go.
use subscription_reconciler.Base.{
  ℕ, String, Bool, Option, none, some, List, eqb, ltb, if◌then◌else◌,
}
use subscription_reconciler.Base.Lists.{length}
use subscription_reconciler.Domain.Error.{
  DomainError, err_empty_user_id_list, err_too_many_user_ids,
}

pub record MarketplaceRevokeRequest : Type 0 where
  pub user_ids : List String

pub record MarketplaceRevokeResponse : Type 0 where
  pub accepted : Bool
  pub count : ℕ
  pub message : String

-- The callers never pass a nil request.
unfoldable pub validate : MarketplaceRevokeRequest → Option DomainError
validate r =
    if eqb (length r.user_ids) 0
    then some err_empty_user_id_list
    else if ltb 10_000 (length r.user_ids)
    then some err_too_many_user_ids
    else none
