-- ===== src/Audit/Claims.antt =====
-- A claim of carrier entitlements leaves the audit trail truthful.
use subscription_reconciler.Audit.Trail.{IsTruthful, Agrees, latest}
use subscription_reconciler.Base.{String, Option, none, some, List, [], ◌∷◌, arith}
use subscription_reconciler.Base.Lists.{find?, update_where}
use subscription_reconciler.Clock.{Time}
use subscription_reconciler.Postgres.Models.{Db, UserEntitlement, AuditLog}
use subscription_reconciler.Postgres.Queries.CarrierClaims.{is_claimed, polled_at, claim_rows}
use subscription_reconciler.Postgres.Queries.Entitlements.{is_key}

claimed-Agrees :
    (due : List UserEntitlement) (now : Time) (u s : String) (o : Option AuditLog)
    (rows : List UserEntitlement)
    → Agrees (find? (is_key u s) rows) o
    → Agrees (find? (is_key u s) (update_where (is_claimed due) (polled_at now) rows)) o
claimed-Agrees due now u s o [] h = h
claimed-Agrees due now u s none (r ∷ rows) h = tt
claimed-Agrees due now u s (some l) (r ∷ rows) h =
    ground (arith, claimed-Agrees due now u s (some l) rows)

pub claimed-IsTruthful :
    (due : List UserEntitlement) (now : Time) (db : Db)
    → IsTruthful db
    → IsTruthful (claim_rows now db due).1
claimed-IsTruthful due now db t = record {
  agrees = λ u s.
      claimed-Agrees due now u s (latest u s db.audit_logs) db.user_entitlements (t.agrees u s);
  chained = t.chained;
}
