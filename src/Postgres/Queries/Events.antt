-- ===== src/Postgres/Queries/Events.antt =====
-- internal/infrastructure/postgres/gen: store_events.sql.go, marketplace_revocations.sql.go and
-- processed_events.sql.go, the insert-only tables of the events.
use subscription_reconciler.Base.{
  ℕ, ◌+◌, String, Bool, not, Option, none, some, List, ◌∷◌, ◌&&◌, ◌||◌, ◌==◌, if◌then◌else◌,
}
use subscription_reconciler.Base.Int.{ℤ, pos, leb_ℤ}
use subscription_reconciler.Base.Lists.{filter, find?, any, sort_by}
use subscription_reconciler.Clock.{Time}
use subscription_reconciler.Domain.Error.{no_rows, violation}
use subscription_reconciler.Domain.Webhook.{is_valid_event_type}
use subscription_reconciler.Postgres.Models.{Db, StoreEvent, MarketplaceRevocation, ProcessedEvent}
use subscription_reconciler.Postgres.Session.{Result, ok, err}

abbrev or_no_rows : {A : Type 0} → Option A → Db → Result (A × Db)
or_no_rows none db = err no_rows
or_no_rows (some a) db = ok (a, db)

abbrev pub has_store_event : String → Db → Bool
has_store_event event db = any (λ e. e.event_id == event) db.store_events

unfoldable pub get_store_event_by_id : String → Time → Db → Result (StoreEvent × Db)
get_store_event_by_id event now db =
    or_no_rows (find? (λ e. e.event_id == event) db.store_events) db

-- ORDER BY event_time_ms DESC
unfoldable pub get_store_events_by_user : String → Time → Db → List StoreEvent
get_store_events_by_user user now db =
    sort_by (λ a b. leb_ℤ b.event_time_ms a.event_time_ms)
      (filter (λ e. e.user_id == user) db.store_events)

pub record InsertStoreEventParams : Type 0 where
  pub event_id : String
  pub user_id : String
  pub event_type : String
  pub event_time_ms : ℤ
  pub product_id : Option String

abbrev pub fresh_event : ℕ → Time → InsertStoreEventParams → StoreEvent
fresh_event id now p = record {
  id = id;
  event_id = p.event_id;
  user_id = p.user_id;
  event_type = p.event_type;
  event_time_ms = p.event_time_ms;
  product_id = p.product_id;
  created_at = now;
}

-- ON CONFLICT (event_id) DO NOTHING; the result is the number of rows inserted. The CHECKs on the
-- type and the time come first.
unfoldable pub insert_store_event : InsertStoreEventParams → Time → Db → Result (ℕ × Db)
insert_store_event p now db =
    if not (is_valid_event_type p.event_type) || leb_ℤ p.event_time_ms (pos 0)
    then err violation
    else if has_store_event p.event_id db
    then ok (0, db)
    else ok (
      1,
      record db {
        store_events = fresh_event db.next_store_event now p ∷ db.store_events;
        next_store_event = db.next_store_event + 1;
      },
    )

abbrev pub has_revocation : String → Db → Bool
has_revocation event db = any (λ e. e.event_id == event) db.marketplace_revocations

unfoldable pub get_marketplace_revocation_by_event_id :
    String → Time → Db → Result (MarketplaceRevocation × Db)
get_marketplace_revocation_by_event_id event now db =
    or_no_rows (find? (λ e. e.event_id == event) db.marketplace_revocations) db

abbrev pub fresh_revocation : ℕ → Time → String → String → MarketplaceRevocation
fresh_revocation id now event user = record {
  id = id;
  event_id = event;
  user_id = user;
  created_at = now;
}

unfoldable pub insert_marketplace_revocation : String → String → Time → Db → ℕ × Db
insert_marketplace_revocation event user now db = if has_revocation event db then (0, db) else (
  1,
  record db {
    marketplace_revocations =
        fresh_revocation db.next_revocation now event user ∷ db.marketplace_revocations;
    next_revocation = db.next_revocation + 1;
  },
)

abbrev pub is_mark : String → String → ProcessedEvent → Bool
is_mark event source e = e.event_id == event && e.source == source

unfoldable pub get_processed_event : String → String → Time → Db → Result (ProcessedEvent × Db)
get_processed_event event source now db =
    or_no_rows (find? (is_mark event source) db.processed_events) db

unfoldable pub is_event_processed : String → String → Time → Db → Bool
is_event_processed event source now db = any (is_mark event source) db.processed_events

abbrev pub fresh_mark : Time → String → String → ProcessedEvent
fresh_mark now event source = record { event_id = event; source = source; processed_at = now }

-- CHECK (source IN ('STORE', 'MARKETPLACE')), then ON CONFLICT DO NOTHING.
unfoldable pub mark_event_processed : String → String → Time → Db → Result (Unit {0} × Db)
mark_event_processed event source now db =
    if not (source == "STORE" || source == "MARKETPLACE")
    then err violation
    else if any (is_mark event source) db.processed_events
    then ok (tt, db)
    else ok (tt, record db { processed_events = fresh_mark now event source ∷ db.processed_events })
