-- ===== src/Tests/Services.antt =====
-- Instances for the other services.
use subscription_reconciler.Application.EntitlementQuery.{
  get_canonical_entitlement, resolve, best_from,
}
use subscription_reconciler.Application.EntitlementQuery.Answer.{
  entitlements_of, get_canonical_entitlement-Canonical,
}
use subscription_reconciler.Application.EntitlementQuery.Priority.{Canonical}
use subscription_reconciler.Application.Timeline.{
  get_entitlement_timeline, timeline_entry, timeline_of, clamp_limit, clamp_offset,
}
use subscription_reconciler.Application.Timeline.Page.{page, get_entitlement_timeline-page}
use subscription_reconciler.Base.{
  ℕ, ◌+◌, ◌==◌, ◌≤◌, ◌≡◌, ◌≢◌, refl, true, none, some, [], ◌∷◌, map, arith,
}
use subscription_reconciler.Base.Int.{pos}
use subscription_reconciler.Base.Lists.{length}
use subscription_reconciler.Domain.Entitlement.{EntitlementResponse, is_active, source_priority}
use subscription_reconciler.Domain.Timeline.{TimelineResponse}
use subscription_reconciler.Postgres.Client.AuditLogs.{
  get_audit_logs_by_user, count_audit_logs_by_user,
}
use subscription_reconciler.Postgres.Client.Entitlements.{get_entitlements_by_user}
use subscription_reconciler.Postgres.Client.Notifications.{claim_batch}
use subscription_reconciler.Postgres.Models.{Notification, UserEntitlement, AuditLog, empty_db}
use subscription_reconciler.Postgres.Queries.AuditLogs
use subscription_reconciler.Postgres.Queries.Entitlements
use subscription_reconciler.Postgres.Queries.Limits.{limit_rows, offset_rows}
use subscription_reconciler.Postgres.Queries.Notifications
use subscription_reconciler.Postgres.Session.{
  World, ok, ◌>>=◌, in_transaction, atomically, begin, statement, commit, pure, time_now,
  locked_notifications,
}
use subscription_reconciler.Postgres.Types
use subscription_reconciler.Postgres.Types.{audit_log_from_gen, entitlement_from_gen}
use subscription_reconciler.Tests.World.{quiet, start}
use subscription_reconciler.Worker.Notifications.{out_of_fuel, send_once}
use subscription_reconciler.Worker.Notifications.Drain.{
  Claims, backlog, send_once_ends, claim_batch-backlog,
}

-- An expired STORE grant, and a CARRIER plan with no end.
abbrev store_row : UserEntitlement
store_row = record {
  user_id = "alice";
  source = "STORE";
  active = true;
  expires_at = some start;
  reason = some "RENEWAL";
  updated_at = start;
  last_event_time = pos 100;
  carrier_polled_at = none;
}

abbrev carrier_row : UserEntitlement
carrier_row = record store_row {
  source = "CARRIER";
  expires_at = none;
  reason = some "CARRIER_POLL";
}

abbrev store_log : AuditLog
store_log = record {
  id = 1;
  user_id = "alice";
  source = "STORE";
  previous_active = none;
  next_active = true;
  previous_expires_at = none;
  next_expires_at = some start;
  triggering_event_id = some "evt-1";
  reason = some "RENEWAL";
  created_at = start;
}

abbrev due_notice : Notification
due_notice = record {
  id = 1;
  user_id = "alice";
  kind = "PREMIUM_EXPIRES_SOON";
  scheduled_for = start;
  sent_at = none;
  created_at = start;
}

abbrev filled : World
filled = record {
  db = record empty_db {
    user_entitlements = carrier_row ∷ store_row ∷ [];
    audit_logs = store_log ∷ [];
    notifications = due_notice ∷ [];
  };
  tick = 0;
}

abbrev carrier_answer : EntitlementResponse
carrier_answer = record {
  active = true;
  source = "CARRIER";
  expires_at = none;
  last_changed_at = start;
  reason = some "CARRIER_POLL";
}

answers :
    get_canonical_entitlement "alice" quiet filled
    ≡ (ok carrier_answer, (get_canonical_entitlement "alice" quiet filled).1)
unfolding get_canonical_entitlement get_entitlements_by_user Entitlements.get_entitlements_by_user
    resolve best_from is_active source_priority statement pure time_now ◌>>=◌ ◌==◌
answers = refl

get_canonical_entitlement-Canonical_example :
    Canonical (start + 1_000_000_000) (entitlements_of "alice" filled.db) carrier_answer
    × ((get_canonical_entitlement "alice" quiet filled).1.db ≡ filled.db)
get_canonical_entitlement-Canonical_example =
    get_canonical_entitlement-Canonical "alice" quiet filled
      (get_canonical_entitlement "alice" quiet filled).1 carrier_answer answers

abbrev first_page : TimelineResponse
first_page = timeline_of "alice" (pos 100) (pos 0) (audit_log_from_gen store_log ∷ []) 1

shows :
    get_entitlement_timeline "alice" (pos 0) (pos 0) quiet filled
    ≡ (ok first_page, (get_entitlement_timeline "alice" (pos 0) (pos 0) quiet filled).1)
unfolding get_entitlement_timeline get_audit_logs_by_user count_audit_logs_by_user
    AuditLogs.get_audit_logs_by_user AuditLogs.count_audit_logs_by_user limit_rows offset_rows
    clamp_limit clamp_offset statement pure ◌>>=◌ ◌==◌
shows = refl

get_entitlement_timeline-page_example :
    (n : ℕ) × (k : ℕ) × ((pos 100 ≡ pos n) × (1 ≤ n) × (n ≤ 1_000) × (pos 0 ≡ pos k))
    × (first_page.entries
        ≡ map timeline_entry (map audit_log_from_gen (page n k "alice" filled.db)))
    × (length first_page.entries ≤ n)
    × (1 ≡ length (AuditLogs.logs_of "alice" filled.db))
    × ((get_entitlement_timeline "alice" (pos 0) (pos 0) quiet filled).1.db ≡ filled.db)
get_entitlement_timeline-page_example =
    get_entitlement_timeline-page "alice" (pos 0) (pos 0) quiet filled
      (get_entitlement_timeline "alice" (pos 0) (pos 0) quiet filled).1 first_page shows

abbrev due_notice' : Types.Notification
due_notice' = Types.notification_from_gen due_notice

claims : claim_batch (pos 1_000) quiet filled ≡ (
  ok (record due_notice' { sent_at = some (start + 2_000_000_000) } ∷ []),
  (claim_batch (pos 1_000) quiet filled).1,
)
unfolding claim_batch Notifications.claim_due_notifications in_transaction atomically begin
    statement locked_notifications limit_rows commit pure ◌>>=◌
claims = refl

claim_batch-backlog_example :
    Claims
      (start + 2_000_000_000)
      filled.db
      (record due_notice' { sent_at = some (start + 2_000_000_000) } ∷ [])
      (claim_batch (pos 1_000) quiet filled).1.db
    × (backlog (claim_batch (pos 1_000) quiet filled).1.db + 1 ≡ backlog filled.db)
claim_batch-backlog_example =
    claim_batch-backlog (pos 1_000) quiet filled (claim_batch (pos 1_000) quiet filled).1
      (record due_notice' { sent_at = some (start + 2_000_000_000) } ∷ []) claims

send_once_ends_example : (send_once 2 quiet filled).0 ≢ out_of_fuel
send_once_ends_example = send_once_ends 2 quiet filled (omega arith)
