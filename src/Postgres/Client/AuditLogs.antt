-- ===== src/Postgres/Client/AuditLogs.antt =====
-- internal/infrastructure/postgres/client.go: the audit log.
use subscription_reconciler.Base.{ℕ, String, List, map}
use subscription_reconciler.Base.Int.{ℤ}
use subscription_reconciler.Postgres.Queries.AuditLogs
use subscription_reconciler.Postgres.Queries.AuditLogs.{InsertAuditLogParams}
use subscription_reconciler.Postgres.Session.{Action, Queries, pure, ◌>>=◌, statement, query}
use subscription_reconciler.Postgres.Types.{AuditLog, audit_log_from_gen}

unfoldable pub insert_audit_log : Queries → InsertAuditLogParams → Action (Unit {0})
insert_audit_log c p = statement c (AuditLogs.insert_audit_log p)

unfoldable pub get_audit_logs_by_user : Queries → String → ℤ → ℤ → Action (List AuditLog)
get_audit_logs_by_user c user limit offset = do
  rows ← statement c (AuditLogs.get_audit_logs_by_user user limit offset)
  pure (map audit_log_from_gen rows)

unfoldable pub count_audit_logs_by_user : Queries → String → Action ℕ
count_audit_logs_by_user c user = query c (AuditLogs.count_audit_logs_by_user user)
