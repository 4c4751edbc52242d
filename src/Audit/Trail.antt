-- ===== src/Audit/Trail.antt =====
-- When the audit log tells the truth about `user_entitlements`. Expirations are compared as the code
-- compares them, by UnixMicro, which tells any two whole microseconds apart that TIMESTAMPTZ holds.
use subscription_reconciler.Base.{
  String, ◌≡◌, ◌⊎◌, ◌≢◌, Bool, Option, none, some, List, [], ◌∷◌, ◌&&◌, ◌==◌,
}
use subscription_reconciler.Base.Lists.{find?}
use subscription_reconciler.Postgres.Models.{Db, UserEntitlement, AuditLog}
use subscription_reconciler.Postgres.Queries.Entitlements.{find_entitlement}
use subscription_reconciler.Postgres.Types.Expirations.{micros}

abbrev pub is_log_key : String → String → AuditLog → Bool
is_log_key u s l = l.user_id == u && l.source == s

-- The newest audit row of a user and a source.
abbrev pub latest : String → String → List AuditLog → Option AuditLog
latest u s logs = find? (is_log_key u s) logs

-- The newest audit row states the entitlement as it stands. A row that was put in by other means
-- than this program may have no audit row yet.
abbrev pub Agrees : Option UserEntitlement → Option AuditLog → Type 0
Agrees r none = Unit {0}
Agrees none (some l) = ⊥
Agrees (some r) (some l) =
    (l.next_active ≡ r.active) × (micros l.next_expires_at ≡ micros r.expires_at)

-- An audit row begins where the one before it ended.
abbrev pub Follows : AuditLog → Option AuditLog → Type 0
Follows l none = Unit {0}
Follows l (some before) =
    (l.previous_active ≡ some before.next_active)
    × (micros l.previous_expires_at ≡ micros before.next_expires_at)

-- It records a first state or a change of the active status or of the expiration.
abbrev pub IsChange : AuditLog → Type 0
IsChange l =
    (l.previous_active ≢ some l.next_active)
    ⊎ (micros l.previous_expires_at ≢ micros l.next_expires_at)

abbrev pub IsChained : List AuditLog → Type 0
IsChained [] = Unit {0}
IsChained (l ∷ logs) = Follows l (latest l.user_id l.source logs) × IsChange l × IsChained logs

pub record IsTruthful (db : Db) : Type 0 where
  pub agrees : (u s : String) → Agrees (find_entitlement u s db) (latest u s db.audit_logs)
  pub chained : IsChained db.audit_logs
