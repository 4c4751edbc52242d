-- ===== src/Postgres/Queries/AuditLogs.antt =====
-- internal/infrastructure/postgres/gen/audit_logs.sql.go, on the table `audit_logs`.
use subscription_reconciler.Base.{ℕ, ◌+◌, String, Bool, Option, List, ◌∷◌, ◌==◌, leb, if◌then◌else◌}
use subscription_reconciler.Base.Int.{ℤ}
use subscription_reconciler.Base.Lists.{filter, length, sort_by}
use subscription_reconciler.Clock.{Time, timestamptz}
use subscription_reconciler.Domain.Error.{violation}
use subscription_reconciler.Postgres.Models.{Db, AuditLog}
use subscription_reconciler.Postgres.Session.{Result, ok, err}
use subscription_reconciler.Postgres.Queries.Entitlements.{is_source}
use subscription_reconciler.Postgres.Queries.Limits.{limit_rows, offset_rows, with_rows}
use mathlib.Core.Option

abbrev pub logs_of : String → Db → List AuditLog
logs_of user db = filter (λ l. l.user_id == user) db.audit_logs

unfoldable pub count_audit_logs_by_user : String → Time → Db → ℕ
count_audit_logs_by_user user now db = length (logs_of user db)

-- ORDER BY created_at DESC; of two rows of one time, the one that was written later comes first.
abbrev pub newest_first : List AuditLog → List AuditLog
newest_first = sort_by (λ a b. leb b.created_at a.created_at)

unfoldable pub get_audit_logs_by_user : String → ℤ → ℤ → Time → Db → Result (List AuditLog × Db)
get_audit_logs_by_user user limit offset now db =
    with_rows (offset_rows offset (newest_first (logs_of user db)))
      λ rest. with_rows (limit_rows limit rest) λ page. ok (page, db)

pub record InsertAuditLogParams : Type 0 where
  pub user_id : String
  pub source : String
  pub previous_active : Option Bool
  pub next_active : Bool
  pub previous_expires_at : Option Time
  pub next_expires_at : Option Time
  pub triggering_event_id : Option String
  pub reason : Option String

abbrev pub fresh_log : ℕ → Time → InsertAuditLogParams → AuditLog
fresh_log id now p = record {
  id = id;
  user_id = p.user_id;
  source = p.source;
  previous_active = p.previous_active;
  next_active = p.next_active;
  previous_expires_at = Option.map timestamptz p.previous_expires_at;
  next_expires_at = Option.map timestamptz p.next_expires_at;
  triggering_event_id = p.triggering_event_id;
  reason = p.reason;
  created_at = now;
}

unfoldable pub insert_audit_log : InsertAuditLogParams → Time → Db → Result (Unit {0} × Db)
insert_audit_log p now db =
    if is_source p.source
    then ok (
      tt,
      record db {
        audit_logs = fresh_log db.next_audit_log now p ∷ db.audit_logs;
        next_audit_log = db.next_audit_log + 1;
      },
    )
    else err violation
