-- ===== src/Invariant/Daily.antt =====
-- At most one notification of a kind for a user and a UTC day, kept by every service.
use subscription_reconciler.Base.{String, ◌≡◌, arith, Option}
use subscription_reconciler.Clock.{Time}
use subscription_reconciler.Invariant.Preserves.{Preserves}
use subscription_reconciler.Invariant.Statements.{KeepsOk-upsert, Keeps-claim}
use subscription_reconciler.Postgres.Client.Events.{
  insert_store_event, insert_marketplace_revocation, mark_event_processed,
}
use subscription_reconciler.Postgres.Client.Notifications.{schedule_notification}
use subscription_reconciler.Postgres.Client.Upsert.Effect.{upsert_effect}
use subscription_reconciler.Postgres.Models.{Db}
use subscription_reconciler.Postgres.Queries.Entitlements.{UpsertEntitlementParams}
use subscription_reconciler.Postgres.Queries.Events
use subscription_reconciler.Postgres.Queries.Events.{InsertStoreEventParams}
use subscription_reconciler.Postgres.Queries.Notifications
use subscription_reconciler.Postgres.Queries.Notifications.Daily.{IsDaily}
use subscription_reconciler.Postgres.Session.{Queries}
use subscription_reconciler.Postgres.Session.Keeps.{Keeps, Keeps-bind, Keeps-pure, Keeps-statement}

abbrev pub NotifiesDaily : Db → Type 0
NotifiesDaily db = IsDaily db.notifications

same : (db db' : Db) → db'.notifications ≡ db.notifications → NotifiesDaily db → NotifiesDaily db'
same db db' e d = rw e d

schedule-Daily :
    (q : Queries) (user kind : String) (t : Time)
    → Keeps NotifiesDaily (schedule_notification q user kind t)
unfolding schedule_notification Notifications.schedule_notification
schedule-Daily q user kind t = Keeps-statement q _ λ now db db' a e d. ground arith

mark-Daily :
    (q : Queries) (event origin : String)
    → Keeps NotifiesDaily (mark_event_processed q event origin)
unfolding mark_event_processed Events.mark_event_processed
mark-Daily q event origin = Keeps-statement q _ λ now db db' a e. same db db' (ground (arith, e))

store_event-Daily :
    (q : Queries) (p : InsertStoreEventParams) → Keeps NotifiesDaily (insert_store_event q p)
unfolding insert_store_event Events.insert_store_event
store_event-Daily q p =
    Keeps-bind _ _ (Keeps-statement q _ λ now db db' a e. same db db' (ground (arith, e)))
      (λ n. Keeps-pure _)

revocation-Daily :
    (q : Queries) (event user : String)
    → Keeps NotifiesDaily (insert_marketplace_revocation q event user)
unfolding insert_marketplace_revocation Events.insert_marketplace_revocation
revocation-Daily q event user =
    Keeps-bind _ _ (Keeps-statement q _ λ now db db' a e. same db db' (ground (arith, e)))
      (λ n. Keeps-pure _)

notifications-upsert_effect :
    (now : Time) (p : UpsertEntitlementParams) (trigger : Option String) (db : Db)
    → (upsert_effect now p trigger db).1.notifications ≡ db.notifications
unfolding upsert_effect
notifications-upsert_effect now p trigger db = ground arith

pub Preserves-NotifiesDaily : (source : String) → Preserves NotifiesDaily source
Preserves-NotifiesDaily source = record {
  schedule = schedule-Daily;
  mark = mark-Daily;
  store_event = store_event-Daily;
  revocation = revocation-Daily;
  upsert = λ q p trigger e. KeepsOk-upsert q p trigger (λ now db d.
      same db (upsert_effect now p trigger db).1 (notifications-upsert_effect now p trigger db) d);
  claim = Keeps-claim (λ due now db d. d);
}
