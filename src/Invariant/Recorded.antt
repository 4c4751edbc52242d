-- ===== src/Invariant/Recorded.antt =====
-- The logs of the store's events and of the monthly revocations only grow.
use subscription_reconciler.Base.{String, ◌≡◌, refl, true, Option, arith}
use subscription_reconciler.Clock.{Time}
use subscription_reconciler.Invariant.Preserves.{Preserves}
use subscription_reconciler.Invariant.Statements.{KeepsOk-upsert, Keeps-claim}
use subscription_reconciler.Postgres.Client.Events.{
  insert_store_event, insert_marketplace_revocation, mark_event_processed,
}
use subscription_reconciler.Postgres.Client.Notifications.{schedule_notification}
use subscription_reconciler.Postgres.Client.Upsert.Effect.{upsert_effect}
use subscription_reconciler.Postgres.Models.{Db}
use subscription_reconciler.Postgres.Queries.CarrierClaims.{claim_rows}
use subscription_reconciler.Postgres.Queries.Entitlements.{UpsertEntitlementParams}
use subscription_reconciler.Postgres.Queries.Events
use subscription_reconciler.Postgres.Queries.Events.{
  InsertStoreEventParams, has_store_event, has_revocation,
}
use subscription_reconciler.Postgres.Queries.Notifications
use subscription_reconciler.Postgres.Session.{Queries}
use subscription_reconciler.Postgres.Session.Keeps.{Keeps, Keeps-bind, Keeps-pure, Keeps-statement}

-- An invariant of the two logs that their two statements keep is kept by every other.
module _ {P : Db → Type 0}
    (same : (db db' : Db)
      → db'.store_events ≡ db.store_events
      → db'.marketplace_revocations ≡ db.marketplace_revocations
      → P db
      → P db')
    (store_event : (q : Queries) (p : InsertStoreEventParams) → Keeps P (insert_store_event q p))
    (revocation : (q : Queries) (event user : String)
      → Keeps P (insert_marketplace_revocation q event user)) where
  schedule-Keeps :
      (q : Queries) (user kind : String) (t : Time) → Keeps P (schedule_notification q user kind t)
  unfolding schedule_notification Notifications.schedule_notification
  schedule-Keeps q user kind t =
      Keeps-statement q _ λ now db db' a e. same db db' (ground (arith, e)) (ground (arith, e))

  mark-Keeps : (q : Queries) (other origin : String) → Keeps P (mark_event_processed q other origin)
  unfolding mark_event_processed Events.mark_event_processed
  mark-Keeps q other origin =
      Keeps-statement q _ λ now db db' a e. same db db' (ground (arith, e)) (ground (arith, e))

  upsert_effect-keeps :
      (now : Time) (p : UpsertEntitlementParams) (trigger : Option String) (db : Db)
      → P db
      → P (upsert_effect now p trigger db).1
  unfolding upsert_effect
  upsert_effect-keeps now p trigger db =
      same db (upsert_effect now p trigger db).1 (ground arith) (ground arith)

  pub Preserves-logs : (source : String) → Preserves P source
  Preserves-logs source = record {
    schedule = schedule-Keeps;
    mark = mark-Keeps;
    store_event = store_event;
    revocation = revocation;
    upsert = λ q p trigger e.
        KeepsOk-upsert q p trigger (λ now db. upsert_effect-keeps now p trigger db);
    claim = Keeps-claim (λ due now db. same db (claim_rows now db due).1 refl refl);
  }

abbrev pub Records : String → Db → Type 0
Records event db = has_store_event event db ≡ true

abbrev pub Revokes : String → Db → Type 0
Revokes event db = has_revocation event db ≡ true

module _ (event : String) where
  store_event-Records :
      (q : Queries) (p : InsertStoreEventParams) → Keeps (Records event) (insert_store_event q p)
  unfolding insert_store_event Events.insert_store_event
  store_event-Records q p =
      Keeps-bind _ _ (Keeps-statement q _ λ now db db' a e d. ground arith) (λ n. Keeps-pure _)

  revocation-Records :
      (q : Queries) (other user : String)
      → Keeps (Records event) (insert_marketplace_revocation q other user)
  unfolding insert_marketplace_revocation Events.insert_marketplace_revocation
  revocation-Records q other user =
      Keeps-bind _ _ (Keeps-statement q _ λ now db db' a e d. ground arith) (λ n. Keeps-pure _)

  pub Preserves-Records : (source : String) → Preserves (Records event) source
  Preserves-Records =
      Preserves-logs (λ db db' events revocations d. rw events d) store_event-Records
        revocation-Records

  store_event-Revokes :
      (q : Queries) (p : InsertStoreEventParams) → Keeps (Revokes event) (insert_store_event q p)
  unfolding insert_store_event Events.insert_store_event
  store_event-Revokes q p =
      Keeps-bind _ _ (Keeps-statement q _ λ now db db' a e d. ground arith) (λ n. Keeps-pure _)

  revocation-Revokes :
      (q : Queries) (other user : String)
      → Keeps (Revokes event) (insert_marketplace_revocation q other user)
  unfolding insert_marketplace_revocation Events.insert_marketplace_revocation
  revocation-Revokes q other user =
      Keeps-bind _ _ (Keeps-statement q _ λ now db db' a e d. ground arith) (λ n. Keeps-pure _)

  pub Preserves-Revokes : (source : String) → Preserves (Revokes event) source
  Preserves-Revokes =
      Preserves-logs (λ db db' events revocations d. rw revocations d) store_event-Revokes
        revocation-Revokes
