-- ===== src/Invariant/Statements.antt =====
-- An invariant of the entitlements and their audit trail: the other statements keep it, so only
-- the upsert and the carrier claim remain to be shown.
use subscription_reconciler.Base.{String, ◌≡◌, subst, Bool, Option, List, arith}
use subscription_reconciler.Base.Int.{ℤ}
use subscription_reconciler.Clock.{Time}
use subscription_reconciler.Invariant.Preserves.{Preserves}
use subscription_reconciler.Postgres.Client.Entitlements.{claim_due_carrier_entitlements}
use subscription_reconciler.Postgres.Client.Events.{
  insert_store_event, insert_marketplace_revocation, mark_event_processed,
}
use subscription_reconciler.Postgres.Client.Notifications.{schedule_notification}
use subscription_reconciler.Postgres.Client.Upsert.{upsert_entitlement}
use subscription_reconciler.Postgres.Client.Upsert.Effect.{
  upsert_effect, upsert_entitlement-effect, call_time,
}
use subscription_reconciler.Postgres.Models.{Db, UserEntitlement}
use subscription_reconciler.Postgres.Queries.CarrierClaims.{
  claim_rows, claim_due_carrier_entitlements as claim_due,
}
use subscription_reconciler.Postgres.Queries.Entitlements.{UpsertEntitlementParams}
use subscription_reconciler.Postgres.Queries.Events
use subscription_reconciler.Postgres.Queries.Events.{InsertStoreEventParams}
use subscription_reconciler.Postgres.Queries.Limits.{with_rows}
use subscription_reconciler.Postgres.Queries.Notifications
use subscription_reconciler.Postgres.Session.{Queries, Result, ok, err}
use subscription_reconciler.Postgres.Session.Keeps.{
  Keeps, Keeps-bind, Keeps-pure, Keeps-statement, Keeps-locked_entitlements,
}
use subscription_reconciler.Postgres.Session.KeepsOk.{KeepsOk}
use subscription_reconciler.Postgres.Session.Transaction.{Keeps-in_transaction}

claimed_rows :
    (P : Db → Type 0) (now : Time) (r : Result (List UserEntitlement)) (db db' : Db)
    (a : List UserEntitlement)
    → ((due : List UserEntitlement) → P (claim_rows now db due).1)
    → with_rows r (λ due. ok (claim_rows now db due)) ≡ ok (a, db')
    → P db'
claimed_rows P now (ok due) db db' a k e =
    let same : (claim_rows now db due).1 ≡ db' = ground (arith, e) in subst P same (k due)
claimed_rows P now (err x) db db' a k e = cc

-- A claim of carrier entitlements keeps what marking rows as polled keeps.
pub Keeps-claim :
    {P : Db → Type 0}
    → ((due : List UserEntitlement) (now : Time) (db : Db) → P db → P (claim_rows now db due).1)
    → (limit : ℤ) (due_before : Time) → Keeps P (claim_due_carrier_entitlements limit due_before)
unfolding claim_due_carrier_entitlements claim_due
Keeps-claim {P} k limit due_before = Keeps-in_transaction _ λ q.
    Keeps-bind _ _ Keeps-locked_entitlements λ locked.
      Keeps-bind _ _
        (Keeps-statement q _
          (λ now db db' a e h. claimed_rows P now _ db db' a (λ due. k due now db h) e))
        λ rows. Keeps-pure _

pub KeepsOk-upsert :
    {P : Db → Type 0} (c : Queries) (p : UpsertEntitlementParams) (trigger : Option String)
    → ((now : Time) (db : Db) → P db → P (upsert_effect now p trigger db).1)
    → KeepsOk P (upsert_entitlement c p trigger)
KeepsOk-upsert {P} c p trigger k = record {
  at = λ env w w' b e h.
      subst (λ (r : Bool × Db). P r.1) (upsert_entitlement-effect c p trigger env w w' b e)
        (k (call_time c env w) w.db h);
}

module _ {P : Db → Type 0}
    (same : (db db' : Db)
      → db'.user_entitlements ≡ db.user_entitlements
      → db'.audit_logs ≡ db.audit_logs
      → P db
      → P db') where
  schedule-Keeps :
      (q : Queries) (user kind : String) (t : Time) → Keeps P (schedule_notification q user kind t)
  unfolding schedule_notification Notifications.schedule_notification
  schedule-Keeps q user kind t =
      Keeps-statement q _ λ now db db' a e. same db db' (ground (arith, e)) (ground (arith, e))

  mark-Keeps : (q : Queries) (event source : String) → Keeps P (mark_event_processed q event source)
  unfolding mark_event_processed Events.mark_event_processed
  mark-Keeps q event source =
      Keeps-statement q _ λ now db db' a e. same db db' (ground (arith, e)) (ground (arith, e))

  store_event-Keeps : (q : Queries) (p : InsertStoreEventParams) → Keeps P (insert_store_event q p)
  unfolding insert_store_event Events.insert_store_event
  store_event-Keeps q p =
      Keeps-bind _ _
        (Keeps-statement q _ λ now db db' a e. same db db' (ground (arith, e)) (ground (arith, e)))
        (λ n. Keeps-pure _)

  revocation-Keeps :
      (q : Queries) (event user : String) → Keeps P (insert_marketplace_revocation q event user)
  unfolding insert_marketplace_revocation Events.insert_marketplace_revocation
  revocation-Keeps q event user =
      Keeps-bind _ _
        (Keeps-statement q _ λ now db db' a e. same db db' (ground (arith, e)) (ground (arith, e)))
        (λ n. Keeps-pure _)

  -- The interface, from what the two writes of entitlements keep.
  pub Preserves-of :
      (source : String)
      → ((now : Time) (p : UpsertEntitlementParams) (trigger : Option String) (db : Db)
          → p.source ≡ source
          → P db
          → P (upsert_effect now p trigger db).1)
      → ((due : List UserEntitlement) (now : Time) (db : Db) → P db → P (claim_rows now db due).1)
      → Preserves P source
  Preserves-of source effect claimed = record {
    schedule = schedule-Keeps;
    mark = mark-Keeps;
    store_event = store_event-Keeps;
    revocation = revocation-Keeps;
    upsert = λ q p trigger e. KeepsOk-upsert q p trigger (λ now db. effect now p trigger db e);
    claim = Keeps-claim claimed;
  }
