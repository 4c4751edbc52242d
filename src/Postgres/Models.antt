-- ===== src/Postgres/Models.antt =====
-- internal/infrastructure/postgres/gen/models.go and migrations/*.up.sql: the rows and the tables.
-- A nullable column, and the `sql.Null…` value that it is scanned into, is an `Option`. A table is
-- the list of its rows; the `next_…` counters stand for the BIGSERIAL sequences.
use subscription_reconciler.Base.{ℕ, String, Bool, Option, List, []}
use subscription_reconciler.Base.Int.{ℤ}
use subscription_reconciler.Clock.{Time}

pub record UserEntitlement : Type 0 where
  pub user_id : String
  pub source : String
  pub active : Bool
  pub expires_at : Option Time
  pub reason : Option String
  pub updated_at : Time
  pub last_event_time : ℤ
  pub carrier_polled_at : Option Time

pub record StoreEvent : Type 0 where
  pub id : ℕ
  pub event_id : String
  pub user_id : String
  pub event_type : String
  pub event_time_ms : ℤ
  pub product_id : Option String
  pub created_at : Time

pub record MarketplaceRevocation : Type 0 where
  pub id : ℕ
  pub event_id : String
  pub user_id : String
  pub created_at : Time

pub record ProcessedEvent : Type 0 where
  pub event_id : String
  pub source : String
  pub processed_at : Time

pub record Notification : Type 0 where
  pub id : ℕ
  pub user_id : String
  pub kind : String
  pub scheduled_for : Time
  pub sent_at : Option Time
  pub created_at : Time

pub record AuditLog : Type 0 where
  pub id : ℕ
  pub user_id : String
  pub source : String
  pub previous_active : Option Bool
  pub next_active : Bool
  pub previous_expires_at : Option Time
  pub next_expires_at : Option Time
  pub triggering_event_id : Option String
  pub reason : Option String
  pub created_at : Time

-- Rows are added at the front, so the newest comes first.
pub record Db : Type 0 where
  pub user_entitlements : List UserEntitlement
  pub store_events : List StoreEvent
  pub marketplace_revocations : List MarketplaceRevocation
  pub processed_events : List ProcessedEvent
  pub notifications : List Notification
  pub audit_logs : List AuditLog
  pub next_store_event : ℕ
  pub next_revocation : ℕ
  pub next_notification : ℕ
  pub next_audit_log : ℕ

abbrev pub empty_db : Db
empty_db = record {
  user_entitlements = [];
  store_events = [];
  marketplace_revocations = [];
  processed_events = [];
  notifications = [];
  audit_logs = [];
  next_store_event = 1;
  next_revocation = 1;
  next_notification = 1;
  next_audit_log = 1;
}
