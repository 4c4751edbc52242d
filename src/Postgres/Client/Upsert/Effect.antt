-- ===== src/Postgres/Client/Upsert/Effect.antt =====
-- `UpsertEntitlement` as one function on the tables, and that the client's steps amount to it.
use subscription_reconciler.Base.{
  ◌+◌, String, ◌≡◌, Bool, true, false, Option, none, some, ◌∷◌, if◌then◌else◌, arith,
}
use subscription_reconciler.Base.Int.{leb_ℤ}
use subscription_reconciler.Base.Lists.{update_where}
use subscription_reconciler.Clock.{Time}
use subscription_reconciler.Postgres.Client.Upsert.{
  is_state_changed, transition, upsert_entitlement_in, upsert_entitlement,
}
use subscription_reconciler.Postgres.Models.{Db, UserEntitlement}
use subscription_reconciler.Postgres.Queries.AuditLogs.{
  InsertAuditLogParams, fresh_log, insert_audit_log,
}
use subscription_reconciler.Postgres.Queries.Entitlements.{
  UpsertEntitlementParams, is_key, find_entitlement, fresh_row, overwrite,
  upsert_entitlement as upsert_row, get_entitlement_by_user_and_source,
}
use subscription_reconciler.Postgres.Session.{Env, World, ok, Queries, ◌>>=◌, statement}
use subscription_reconciler.Postgres.Session.Transaction.{in_transaction-effect}
use subscription_reconciler.Postgres.Session.Implements.{Implements}
use subscription_reconciler.Postgres.Types.{entitlement_from_gen}

-- The table with the audit row of a transition in front.
abbrev pub logged : Time → InsertAuditLogParams → Db → Db
logged now l db = record db {
  audit_logs = fresh_log db.next_audit_log now l ∷ db.audit_logs;
  next_audit_log = db.next_audit_log + 1;
}

abbrev pub inserted : Time → UpsertEntitlementParams → Db → Db
inserted now p db = record db { user_entitlements = fresh_row now p ∷ db.user_entitlements }

abbrev pub overwritten : Time → UpsertEntitlementParams → Db → Db
overwritten now p db = record db {
  user_entitlements =
      update_where (is_key p.user_id p.source) (overwrite now p) db.user_entitlements;
}

abbrev pub effect_on :
    Option UserEntitlement → Time → UpsertEntitlementParams → Option String → Db → Bool × Db
effect_on none now p trigger db = (true, logged now (transition none p trigger) (inserted now p db))
effect_on (some r) now p trigger db =
    if leb_ℤ p.last_event_time r.last_event_time
    then (false, db)
    else if is_state_changed (some (entitlement_from_gen r)) p
    then (
      true,
      logged now (transition (some (entitlement_from_gen r)) p trigger) (overwritten now p db),
    )
    else (false, overwritten now p db)

unfoldable pub upsert_effect : Time → UpsertEntitlementParams → Option String → Db → Bool × Db
upsert_effect now p trigger db = effect_on (find_entitlement p.user_id p.source db) now p trigger db

-- A first row, a stale event, a change of state and a mere advance of the event time: on every
-- path that returns, the client does what `upsert_effect` says.
pub upsert_entitlement_in-Implements :
    (now : Time) (p : UpsertEntitlementParams) (trigger : Option String)
    → Implements (upsert_entitlement_in (some now) p trigger) (upsert_effect now p trigger)
unfolding upsert_entitlement_in upsert_effect ◌>>=◌ statement get_entitlement_by_user_and_source
    upsert_row insert_audit_log
upsert_entitlement_in-Implements now p trigger = record { at = λ env w w' a h. ground arith }

-- The NOW() of a call: that of the client's transaction, or of the one that the call begins.
abbrev pub call_time : Queries → Env → World → Time
call_time none env w = env.db_clock w.tick
call_time (some now) env w = now

-- On every path that returns, the exported method, inside a transaction or in one of its own,
-- leaves the tables as `upsert_effect` does and returns its flag.
pub upsert_entitlement-effect :
    (c : Queries) (p : UpsertEntitlementParams) (trigger : Option String) (env : Env) (w w' : World)
    (b : Bool)
    → upsert_entitlement c p trigger env w ≡ (ok b, w')
    → upsert_effect (call_time c env w) p trigger w.db ≡ (b, w'.db)
unfolding upsert_entitlement
upsert_entitlement-effect (some now) p trigger env w w' b h =
    (upsert_entitlement_in-Implements now p trigger).at env w w' b h
upsert_entitlement-effect none p trigger env w w' b h =
    in_transaction-effect (λ q. upsert_entitlement_in q p trigger)
      (upsert_effect (env.db_clock w.tick) p trigger) env w w' b
      (upsert_entitlement_in-Implements (env.db_clock w.tick) p trigger) h
