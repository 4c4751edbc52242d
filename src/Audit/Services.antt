-- ===== src/Audit/Services.antt =====
-- Every service that changes an entitlement keeps the audit trail truthful, whatever fails.
use subscription_reconciler.Audit.Claims.{claimed-IsTruthful}
use subscription_reconciler.Audit.Trail.{IsTruthful}
use subscription_reconciler.Audit.Upsert.{effect-IsTruthful}
use subscription_reconciler.Base.{String, ◌≡◌}
use subscription_reconciler.Invariant.Channels.{Channel, source_of, receive, receive-Keeps}
use subscription_reconciler.Invariant.Preserves.{Preserves}
use subscription_reconciler.Invariant.Statements.{Preserves-of}
use subscription_reconciler.Postgres.Models.{Db}
use subscription_reconciler.Postgres.Session.{Env, World}

pub IsTruthful-same :
    (db db' : Db)
    → db'.user_entitlements ≡ db.user_entitlements
    → db'.audit_logs ≡ db.audit_logs
    → IsTruthful db
    → IsTruthful db'
IsTruthful-same db db' rows logs t = record {
  agrees = λ u s. rw (rows, logs) (t.agrees u s);
  chained = rw logs t.chained;
}

pub Preserves-IsTruthful : (source : String) → Preserves IsTruthful source
Preserves-IsTruthful source =
    Preserves-of IsTruthful-same source
      (λ now p trigger db same t. effect-IsTruthful now p trigger db t) claimed-IsTruthful

-- A delivery, a batch of revocations and a polling batch, accepted, refused, failed or stopped at any
-- call, keep the audit trail truthful.
pub receive-IsTruthful :
    (c : Channel) (env : Env) (w : World) → IsTruthful w.db → IsTruthful (receive c env w).db
receive-IsTruthful c env w t = receive-Keeps c (Preserves-IsTruthful (source_of c)) env w t
