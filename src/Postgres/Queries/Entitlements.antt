-- ===== src/Postgres/Queries/Entitlements.antt =====
-- internal/infrastructure/postgres/gen/entitlements.sql.go, on the table `user_entitlements`.
pub mod Lookup
pub mod Keyed
pub mod Selection
use subscription_reconciler.Base.{
  ℕ, ◌+◌, String, Bool, true, false, not, Option, none, some, List, [], ◌∷◌, ◌&&◌, ◌||◌, ◌==◌, ltb,
  leb, if◌then◌else◌,
}
use subscription_reconciler.Base.Int.{ℤ, pos, ltb_ℤ}
use subscription_reconciler.Base.Lists.{filter, find?, any, sort_by, update_where, count_where}
use subscription_reconciler.Clock.{Time, timestamptz, hours_24}
use subscription_reconciler.Domain.Error.{Error, no_rows, violation}
use subscription_reconciler.Postgres.Models.{Db, UserEntitlement}
use subscription_reconciler.Postgres.Session.{Result, ok, err}
use subscription_reconciler.Postgres.Queries.Limits.{limit_rows, with_rows}
use mathlib.Core.Option

abbrev pub is_key : String → String → UserEntitlement → Bool
is_key user source r = r.user_id == user && r.source == source

-- CHECK (source IN ('STORE', 'CARRIER', 'MARKETPLACE'))
unfoldable pub is_source : String → Bool
is_source s = s == "STORE" || (s == "CARRIER" || s == "MARKETPLACE")

abbrev pub find_entitlement : String → String → Db → Option UserEntitlement
find_entitlement user source db = find? (is_key user source) db.user_entitlements

abbrev or_no_rows : {A : Type 0} → Option A → Db → Result (A × Db)
or_no_rows none db = err no_rows
or_no_rows (some a) db = ok (a, db)

unfoldable pub get_entitlement_by_user_and_source :
    String → String → Time → Db → Result (UserEntitlement × Db)
get_entitlement_by_user_and_source user source now db =
    or_no_rows (find_entitlement user source db) db

-- ORDER BY source, over the three sources that the CHECK allows.
abbrev source_rank : String → ℕ
source_rank s = if s == "CARRIER" then 0 else if s == "MARKETPLACE" then 1 else 2

unfoldable pub get_entitlements_by_user : String → Time → Db → List UserEntitlement
get_entitlements_by_user user now db =
    sort_by (λ a b. leb (source_rank a.source) (source_rank b.source))
      (filter (λ r. r.user_id == user) db.user_entitlements)

-- A comparison with NULL does not hold.
abbrev pub at_or_before : Option Time → Time → Bool
at_or_before none now = false
at_or_before (some t) now = leb t now

abbrev pub is_before : Time → Option Time → Bool
is_before now none = false
is_before now (some t) = ltb now t

-- ORDER BY … ASC, and NULLS FIRST.
abbrev pub time_le : Option Time → Option Time → Bool
time_le none b = true
time_le (some a) none = false
time_le (some a) (some b) = leb a b

-- active = TRUE AND expires_at IS NOT NULL AND expires_at <= NOW()
abbrev pub is_expired : Time → UserEntitlement → Bool
is_expired now r = r.active && at_or_before r.expires_at now

unfoldable pub get_entitlements_expiring_within_24h : Time → Db → List UserEntitlement
get_entitlements_expiring_within_24h now db =
    sort_by (λ a b. time_le a.expires_at b.expires_at)
      (filter
        (λ r.
          r.active && (at_or_before r.expires_at (now + hours_24) && is_before now r.expires_at))
        db.user_entitlements)

-- FOR UPDATE SKIP LOCKED passes over the locked rows.
unfoldable pub get_expired_entitlements_for_reconciliation :
    (UserEntitlement → Bool) → ℤ → Time → Db → Result (List UserEntitlement × Db)
get_expired_entitlements_for_reconciliation locked limit now db =
    with_rows
      (limit_rows limit (
        sort_by (λ a b. time_le a.expires_at b.expires_at)
          (filter (λ r. is_expired now r && not (locked r)) db.user_entitlements)))
      (λ rows. ok (rows, db))

unfoldable pub list_expired_entitlements_for_reconciliation :
    ℤ → Time → Db → Result (List UserEntitlement × Db)
list_expired_entitlements_for_reconciliation limit now db =
    with_rows
      (limit_rows limit (
        sort_by (λ a b. time_le a.expires_at b.expires_at)
          (filter (is_expired now) db.user_entitlements)))
      (λ rows. ok (rows, db))

max_time : ℤ → List UserEntitlement → ℤ
max_time best [] = best
max_time best (r ∷ rows) =
    max_time (if ltb_ℤ best r.last_event_time then r.last_event_time else best) rows

-- COALESCE(MAX(last_event_time), 0)
max_or_zero : List UserEntitlement → ℤ
unfolding max_time
max_or_zero [] = pos 0
max_or_zero (r ∷ rows) = max_time r.last_event_time rows

unfoldable pub get_last_event_time_from_store : String → Time → Db → ℤ
unfolding max_or_zero
get_last_event_time_from_store user now db =
    max_or_zero (filter (is_key user "STORE") db.user_entitlements)

pub record UpsertEntitlementParams : Type 0 where
  pub user_id : String
  pub source : String
  pub active : Bool
  pub expires_at : Option Time
  pub reason : Option String
  pub last_event_time : ℤ

abbrev pub fresh_row : Time → UpsertEntitlementParams → UserEntitlement
fresh_row now p = record {
  user_id = p.user_id;
  source = p.source;
  active = p.active;
  expires_at = Option.map timestamptz p.expires_at;
  reason = p.reason;
  updated_at = now;
  last_event_time = p.last_event_time;
  carrier_polled_at = none;
}

-- DO UPDATE SET … keeps the key and `carrier_polled_at`.
abbrev pub overwrite : Time → UpsertEntitlementParams → UserEntitlement → UserEntitlement
overwrite now p r = record r {
  active = p.active;
  expires_at = Option.map timestamptz p.expires_at;
  reason = p.reason;
  updated_at = now;
  last_event_time = p.last_event_time;
}

abbrev upsert_row : Option UserEntitlement → Time → UpsertEntitlementParams → Db → ℕ × Db
upsert_row none now p db =
    (1, record db { user_entitlements = fresh_row now p ∷ db.user_entitlements })
upsert_row (some r) now p db =
    if ltb_ℤ r.last_event_time p.last_event_time
    then (
      1,
      record db {
        user_entitlements =
            update_where (is_key p.user_id p.source) (overwrite now p) db.user_entitlements;
      },
    )
    else (0, db)

unfoldable pub upsert_entitlement : UpsertEntitlementParams → Time → Db → Result (ℕ × Db)
upsert_entitlement p now db =
    if is_source p.source
    then ok (upsert_row (find_entitlement p.user_id p.source db) now p db)
    else err violation

pub record ExpireEntitlementParams : Type 0 where
  pub user_id : String
  pub source : String
  pub reason : Option String
  pub last_event_time : ℤ

abbrev pub expire_row : Time → ExpireEntitlementParams → UserEntitlement → UserEntitlement
expire_row now p r = record r {
  active = false;
  expires_at = none;
  reason = p.reason;
  updated_at = now;
  last_event_time = p.last_event_time;
}

unfoldable pub expire_entitlement : ExpireEntitlementParams → Time → Db → ℕ × Db
expire_entitlement p now db =
    let hit = λ (r : UserEntitlement). is_key p.user_id p.source r && is_expired now r in
    (
      count_where hit db.user_entitlements,
      record db { user_entitlements = update_where hit (expire_row now p) db.user_entitlements },
    )
