-- ===== src/Postgres/Client/Entitlements.antt =====
-- internal/infrastructure/postgres/client.go: the reads of `user_entitlements`, the expiration
-- sweep and the carrier claims.
pub mod Sweep
pub mod Claims
pub mod Backlog
use subscription_reconciler.Base.{
  ℕ, ◌+◌, String, Bool, true, false, Option, none, some, List, [], ◌∷◌, map, eqb, if◌then◌else◌,
}
use subscription_reconciler.Base.Int.{ℤ, pos, leb_ℤ}
use subscription_reconciler.Clock.{Time, unix_milli}
use subscription_reconciler.Postgres.Models.{UserEntitlement}
use subscription_reconciler.Postgres.Queries.AuditLogs.{InsertAuditLogParams, insert_audit_log}
use subscription_reconciler.Postgres.Queries.CarrierClaims.{
  ClaimDueCarrierEntitlementsParams, claim_due_carrier_entitlements as claim_rows,
}
use subscription_reconciler.Postgres.Queries.Entitlements
use subscription_reconciler.Postgres.Queries.Entitlements.{
  ExpireEntitlementParams, expire_entitlement,
}
use subscription_reconciler.Postgres.Session.{
  Action, Queries, pure, ◌>>=◌, ◌>>◌, statement, exec, query, in_transaction, locked_entitlements,
}
use subscription_reconciler.Postgres.Types.{Entitlement, entitlement_from_gen}

unfoldable pub get_entitlement_by_user_and_source : Queries → String → String → Action Entitlement
get_entitlement_by_user_and_source c user source = do
  row ← statement c (Entitlements.get_entitlement_by_user_and_source user source)
  pure (entitlement_from_gen row)

unfoldable pub get_entitlements_by_user : Queries → String → Action (List Entitlement)
get_entitlements_by_user c user = do
  rows ← query c (Entitlements.get_entitlements_by_user user)
  pure (map entitlement_from_gen rows)

-- The driver scans the COALESCE as an int64.
unfoldable pub get_last_event_time_from_store : Queries → String → Action ℤ
get_last_event_time_from_store c user = query c (Entitlements.get_last_event_time_from_store user)

unfoldable pub get_entitlements_expiring_within_24h : Queries → Action (List Entitlement)
get_entitlements_expiring_within_24h c = do
  rows ← query c Entitlements.get_entitlements_expiring_within_24h
  pure (map entitlement_from_gen rows)

unfoldable pub get_expired_entitlements_for_reconciliation : Queries → ℤ → Action (List Entitlement)
get_expired_entitlements_for_reconciliation c limit = do
  rows ← statement c (Entitlements.list_expired_entitlements_for_reconciliation limit)
  pure (map entitlement_from_gen rows)

abbrev pub expire_params : UserEntitlement → Time → ExpireEntitlementParams
expire_params row t = record {
  user_id = row.user_id;
  source = row.source;
  reason = some "EXPIRATION";
  last_event_time = unix_milli t;
}

abbrev pub expire_transition : UserEntitlement → InsertAuditLogParams
expire_transition row = record {
  user_id = row.user_id;
  source = row.source;
  previous_active = some true;
  next_active = false;
  previous_expires_at = row.expires_at;
  next_expires_at = none;
  triggering_event_id = none;
  reason = some "EXPIRATION";
}

unfoldable pub expire_at : Queries → UserEntitlement → Time → Action Bool
expire_at q row t = do
  affected ← exec q (expire_entitlement (expire_params row t))
  if eqb affected 0
      then pure false
      else (do statement q (insert_audit_log (expire_transition row)); pure true)

-- One round of the loop: whether the row counts as reconciled.
unfoldable pub expire_one : Queries → UserEntitlement → Option Time → Action Bool
unfolding expire_at
expire_one q row none = pure false
expire_one q row (some t) = expire_at q row t

unfoldable pub expire_all : Queries → List UserEntitlement → ℕ → Action ℕ
unfolding expire_one
expire_all q [] reconciled = pure reconciled
expire_all q (row ∷ rows) reconciled = do
  done ← expire_one q row row.expires_at
  expire_all q rows (if done then reconciled + 1 else reconciled)

unfoldable pub reconcile_batch : ℤ → Action ℕ
unfolding expire_all
reconcile_batch limit = in_transaction λ q. do
  locked ← locked_entitlements
  rows ← statement q (Entitlements.get_expired_entitlements_for_reconciliation locked limit)
  expire_all q rows 0

-- The client of a sweep is never inside a transaction.
unfoldable pub reconcile_expired_entitlements : ℤ → Action ℕ
unfolding reconcile_batch
reconcile_expired_entitlements limit = if leb_ℤ limit (pos 0) then pure 0 else reconcile_batch limit

unfoldable pub claim_due_carrier_entitlements : ℤ → Time → Action (List Entitlement)
claim_due_carrier_entitlements limit due_before = in_transaction λ q. do
  locked ← locked_entitlements
  rows ←
      statement q (claim_rows locked (record { due_before = some due_before; batch_limit = limit }))
  pure (map entitlement_from_gen rows)
