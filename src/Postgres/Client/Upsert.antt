-- ===== src/Postgres/Client/Upsert.antt =====
-- internal/infrastructure/postgres/client.go: UpsertEntitlement.
pub mod Effect
pub mod Refinement
pub mod Convergence
pub mod Success
pub mod Internal
pub mod Interleaved
use subscription_reconciler.Base.{
  ℕ, String, Bool, true, false, not, Option, none, some, ◌||◌, eqb, if◌then◌else◌,
}
use subscription_reconciler.Base.Int.{ℤ, leb_ℤ}
use subscription_reconciler.Clock.{Time}
use subscription_reconciler.Domain.Error.{Error, domain, driver, violation, no_rows, wrapped}
use subscription_reconciler.Postgres.Models.{UserEntitlement}
use subscription_reconciler.Postgres.Queries.AuditLogs.{InsertAuditLogParams, insert_audit_log}
use subscription_reconciler.Postgres.Queries.Entitlements.{
  UpsertEntitlementParams, get_entitlement_by_user_and_source, upsert_entitlement as upsert_row,
}
use subscription_reconciler.Postgres.Session.{
  World, Result, ok, err, Action, Queries, pure, ◌>>=◌, ◌>>◌, statement, exec, in_transaction,
}
use subscription_reconciler.Postgres.Types.{Entitlement, entitlement_from_gen, same_expiration}
use mathlib.Core.Option

-- `err != sql.ErrNoRows`: an absent row is no error.
abbrev unless_no_rows : {A : Type 0} → Error → Result (Option A)
unless_no_rows no_rows = ok none
unless_no_rows (domain e) = err (domain e)
unless_no_rows (driver n) = err (driver n)
unless_no_rows violation = err violation
unless_no_rows (wrapped text e) = err (wrapped text e)

abbrev optional_result : {A : Type 0} → Result A × World → Result (Option A) × World
optional_result (ok a, w) = (ok (some a), w)
optional_result (err e, w) = (unless_no_rows e, w)

unfoldable pub optional : {A : Type 0} → Action A → Action (Option A)
optional m env w = optional_result (m env w)

-- pg_advisory_xact_lock: transactions of one user run one after another, and no table changes.
unfoldable pub lock_entitlement_user : Queries → String → Action (Unit {0})
lock_entitlement_user q user = exec q (λ now db. (tt, db))

-- `err == nil && lastEventTime <= existingLastEventTime`
abbrev pub is_not_newer : Option Entitlement → ℤ → Bool
is_not_newer none t = false
is_not_newer (some e) t = leb_ℤ t e.last_event_time

abbrev pub differs : Bool → Bool → Bool
differs true true = false
differs true false = true
differs false true = true
differs false false = false

abbrev pub is_state_changed : Option Entitlement → UpsertEntitlementParams → Bool
is_state_changed none p = true
is_state_changed (some e) p =
    differs e.active p.active || not (same_expiration e.expires_at p.expires_at)

abbrev prior_active : Option Entitlement → Option Bool
prior_active none = none
prior_active (some e) = some e.active

abbrev prior_expires_at : Option Entitlement → Option Time
prior_expires_at none = none
prior_expires_at (some e) = e.expires_at

abbrev pub transition :
    Option Entitlement → UpsertEntitlementParams → Option String → InsertAuditLogParams
transition existing p trigger = record {
  user_id = p.user_id;
  source = p.source;
  previous_active = prior_active existing;
  next_active = p.active;
  previous_expires_at = prior_expires_at existing;
  next_expires_at = p.expires_at;
  triggering_event_id = trigger;
  reason = p.reason;
}

-- The audit row of a change of state.
unfoldable pub record_change :
    Queries → Option Entitlement → UpsertEntitlementParams → Option String → Action Bool
record_change q existing p trigger =
    if is_state_changed existing p
    then (do statement q (insert_audit_log (transition existing p trigger)); pure true)
    else pure false

unfoldable pub write_projection :
    Queries → Option Entitlement → UpsertEntitlementParams → Option String → Action Bool
unfolding record_change
write_projection q existing p trigger = do
  affected ← statement q (upsert_row p)
  if eqb affected 0 then pure false else record_change q existing p trigger

-- What follows the read of the row.
abbrev pub after_read :
    Queries → UpsertEntitlementParams → Option String → Option UserEntitlement → Action Bool
after_read q p trigger row =
    let existing = Option.map entitlement_from_gen row in
    if is_not_newer existing p.last_event_time
    then pure false
    else write_projection q existing p trigger

-- The unexported `upsertEntitlement`.
unfoldable pub upsert_entitlement_in :
    Queries → UpsertEntitlementParams → Option String → Action Bool
unfolding write_projection lock_entitlement_user optional
upsert_entitlement_in q p trigger = do
  lock_entitlement_user q p.user_id
  row ← optional (statement q (get_entitlement_by_user_and_source p.user_id p.source))
  after_read q p trigger row

-- `UpsertEntitlement`: in the client's transaction, or in one of its own.
unfoldable pub upsert_entitlement : Queries → UpsertEntitlementParams → Option String → Action Bool
unfolding upsert_entitlement_in
upsert_entitlement (some t) p trigger = upsert_entitlement_in (some t) p trigger
upsert_entitlement none p trigger = in_transaction λ q. upsert_entitlement_in q p trigger
