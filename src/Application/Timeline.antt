-- ===== src/Application/Timeline.antt =====
-- internal/application/timeline.go.
pub mod Page
use subscription_reconciler.Base.{String, Bool, true, false, none, map, ℕ, List, if◌then◌else◌}
use subscription_reconciler.Base.Int.{ℤ, pos, leb_ℤ, ltb_ℤ}
use subscription_reconciler.Domain.Timeline.{TimelineEntry, TimelineResponse}
use subscription_reconciler.Postgres.Client.AuditLogs.{
  get_audit_logs_by_user, count_audit_logs_by_user,
}
use subscription_reconciler.Postgres.Session.{Action, pure, ◌>>=◌}
use subscription_reconciler.Postgres.Types.{AuditLog}

abbrev pub default_limit : ℤ → ℤ
default_limit limit = if leb_ℤ limit (pos 0) then pos 100 else limit

unfoldable pub clamp_limit : ℤ → ℤ
clamp_limit limit = if ltb_ℤ (pos 1000) (default_limit limit) then pos 1000 else default_limit limit

unfoldable pub clamp_offset : ℤ → ℤ
clamp_offset offset = if ltb_ℤ offset (pos 0) then pos 0 else offset

abbrev pub timeline_entry : AuditLog → TimelineEntry
timeline_entry l = record {
  timestamp = l.created_at;
  source = l.source;
  active = if l.next_active then true else false;
  reason = l.reason;
  expires_at = l.next_expires_at;
  triggering_event_id = l.triggering_event_id;
}

abbrev pub timeline_of : String → ℤ → ℤ → List AuditLog → ℕ → TimelineResponse
timeline_of user limit offset logs total = record {
  user_id = user;
  entries = map timeline_entry logs;
  total = total;
  limit = limit;
  offset = offset;
}

-- `GetEntitlementTimeline`.
unfoldable pub get_entitlement_timeline : String → ℤ → ℤ → Action TimelineResponse
get_entitlement_timeline user limit offset = do
  logs ← get_audit_logs_by_user none user (clamp_limit limit) (clamp_offset offset)
  total ← count_audit_logs_by_user none user
  pure (timeline_of user (clamp_limit limit) (clamp_offset offset) logs total)
