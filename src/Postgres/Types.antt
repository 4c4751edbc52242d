-- ===== src/Postgres/Types.antt =====
-- internal/infrastructure/postgres/types.go, and the conversions at the end of client.go from the
-- generated rows. A pointer that may be nil is an `Option`, as is the `sql.Null…` that it comes from.
pub mod Expirations
use subscription_reconciler.Base.{ℕ, String, Bool, true, false, Option, none, some, eqb}
use subscription_reconciler.Base.Int.{ℤ, pos_part, neg_part}
use subscription_reconciler.Clock.{Time, unix_micro}
use subscription_reconciler.Postgres.Models
use mathlib.Core.Bool.{◌&&◌}

pub record Entitlement : Type 0 where
  pub user_id : String
  pub source : String
  pub active : Bool
  pub expires_at : Option Time
  pub reason : Option String
  pub updated_at : Time
  pub last_event_time : ℤ
  pub carrier_polled_at : Option Time

pub record Notification : Type 0 where
  pub id : ℕ
  pub user_id : String
  pub kind : String
  pub scheduled_for : Time
  pub sent_at : Option Time
  pub created_at : Time

pub record AuditLog : Type 0 where
  pub id : ℕ
  pub user_id : String
  pub source : String
  pub previous_active : Option Bool
  pub next_active : Bool
  pub previous_expires_at : Option Time
  pub next_expires_at : Option Time
  pub triggering_event_id : Option String
  pub reason : Option String
  pub created_at : Time

pub record StoreEvent : Type 0 where
  pub id : ℕ
  pub event_id : String
  pub user_id : String
  pub event_type : String
  pub event_time_ms : ℤ
  pub product_id : Option String
  pub created_at : Time

abbrev pub entitlement_from_gen : Models.UserEntitlement → Entitlement
entitlement_from_gen r = record {
  user_id = r.user_id;
  source = r.source;
  active = r.active;
  expires_at = r.expires_at;
  reason = r.reason;
  updated_at = r.updated_at;
  last_event_time = r.last_event_time;
  carrier_polled_at = r.carrier_polled_at;
}

abbrev pub notification_from_gen : Models.Notification → Notification
notification_from_gen r = record {
  id = r.id;
  user_id = r.user_id;
  kind = r.kind;
  scheduled_for = r.scheduled_for;
  sent_at = r.sent_at;
  created_at = r.created_at;
}

abbrev pub audit_log_from_gen : Models.AuditLog → AuditLog
audit_log_from_gen r = record {
  id = r.id;
  user_id = r.user_id;
  source = r.source;
  previous_active = r.previous_active;
  next_active = r.next_active;
  previous_expires_at = r.previous_expires_at;
  next_expires_at = r.next_expires_at;
  triggering_event_id = r.triggering_event_id;
  reason = r.reason;
  created_at = r.created_at;
}

abbrev pub store_event_from_gen : Models.StoreEvent → StoreEvent
store_event_from_gen r = record {
  id = r.id;
  event_id = r.event_id;
  user_id = r.user_id;
  event_type = r.event_type;
  event_time_ms = r.event_time_ms;
  product_id = r.product_id;
  created_at = r.created_at;
}

abbrev eqb_ℤ : ℤ → ℤ → Bool
eqb_ℤ a b = eqb (pos_part a) (pos_part b) && eqb (neg_part a) (neg_part b)

unfoldable pub same_expiration : Option Time → Option Time → Bool
same_expiration none none = true
same_expiration none (some r) = false
same_expiration (some l) none = false
same_expiration (some l) (some r) = eqb_ℤ (unix_micro l) (unix_micro r)
