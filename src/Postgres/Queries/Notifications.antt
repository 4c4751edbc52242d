-- ===== src/Postgres/Queries/Notifications.antt =====
-- internal/infrastructure/postgres/gen/notifications.sql.go, on the table `notifications`.
pub mod Claims
pub mod Daily
use subscription_reconciler.Base.{
  ℕ, ◌+◌, String, Bool, true, false, not, Option, none, some, List, [], ◌∷◌, ◌&&◌, ◌||◌, ◌==◌, ltb,
  leb, eqb, if◌then◌else◌,
}
use subscription_reconciler.Base.Int.{ℤ}
use subscription_reconciler.Base.Lists.{filter, find?, any, sort_by, update_where}
use subscription_reconciler.Clock.{Time, timestamptz, utc_date}
use subscription_reconciler.Domain.Error.{no_rows, violation}
use subscription_reconciler.Postgres.Models.{Db, Notification}
use subscription_reconciler.Postgres.Session.{Result, ok, err}
use subscription_reconciler.Postgres.Queries.Limits.{limit_rows, with_rows}

abbrev pub is_unsent : Option Time → Bool
is_unsent none = true
is_unsent (some t) = false

-- scheduled_for <= NOW() AND sent_at IS NULL
abbrev pub is_due : Time → Notification → Bool
is_due now n = leb n.scheduled_for now && is_unsent n.sent_at

abbrev earlier : Notification → Notification → Bool
earlier a b = leb a.scheduled_for b.scheduled_for

-- ORDER BY scheduled_for ASC, id ASC
abbrev pub claim_order : Notification → Notification → Bool
claim_order a b =
    ltb a.scheduled_for b.scheduled_for || (eqb a.scheduled_for b.scheduled_for && leb a.id b.id)

unfoldable pub get_due_notifications :
    (Notification → Bool) → ℤ → Time → Db → Result (List Notification × Db)
get_due_notifications locked limit now db =
    with_rows
      (limit_rows limit
        (sort_by earlier (filter (λ n. is_due now n && not (locked n)) db.notifications)))
      (λ rows. ok (rows, db))

abbrev pub is_claimed : List Notification → Notification → Bool
is_claimed due n = any (λ d. eqb n.id d.id) due && is_unsent n.sent_at

abbrev pub sent_now : Time → Notification → Notification
sent_now now n = record n { sent_at = some now }

-- The rows that the UPDATE returns, as it leaves them.
abbrev pub returned : Time → List Notification → List Notification → List Notification
returned now due [] = []
returned now due (n ∷ ns) =
    if is_claimed due n then sent_now now n ∷ returned now due ns else returned now due ns

-- `due` is unsent and not in the future, so CHECK (sent_at >= scheduled_for) holds.
abbrev pub claim_rows : Time → Db → List Notification → List Notification × Db
claim_rows now db due = (
  returned now due db.notifications,
  record db { notifications = update_where (is_claimed due) (sent_now now) db.notifications },
)

unfoldable pub claim_due_notifications :
    (Notification → Bool) → ℤ → Time → Db → Result (List Notification × Db)
claim_due_notifications locked limit now db =
    with_rows
      (limit_rows limit
        (sort_by claim_order (filter (λ n. is_due now n && not (locked n)) db.notifications)))
      (λ due. ok (claim_rows now db due))

abbrev pub same_day : String → String → Time → Notification → Bool
same_day user kind t n =
    n.user_id == user && (n.kind == kind && eqb (utc_date n.scheduled_for) (utc_date t))

abbrev or_no_rows : Option Notification → Db → Result (Notification × Db)
or_no_rows none db = err no_rows
or_no_rows (some n) db = ok (n, db)

unfoldable pub get_notification_by_user_type_and_date :
    String → String → Time → Time → Db → Result (Notification × Db)
get_notification_by_user_type_and_date user kind date now db =
    or_no_rows (find? (same_day user kind date) db.notifications) db

-- CHECK (sent_at IS NULL OR sent_at >= scheduled_for) refuses to mark one that is not yet due.
unfoldable pub mark_notification_sent : ℕ → Time → Db → Result (Unit {0} × Db)
mark_notification_sent id now db =
    if any (λ n. eqb n.id id && ltb now n.scheduled_for) db.notifications
    then err violation
    else ok (
      tt,
      record db { notifications = update_where (λ n. eqb n.id id) (sent_now now) db.notifications },
    )

pub record ScheduleNotificationParams : Type 0 where
  pub user_id : String
  pub kind : String
  pub scheduled_for : Time

abbrev pub fresh_notification : ℕ → Time → ScheduleNotificationParams → Notification
fresh_notification id now p = record {
  id = id;
  user_id = p.user_id;
  kind = p.kind;
  scheduled_for = timestamptz p.scheduled_for;
  sent_at = none;
  created_at = now;
}

-- ON CONFLICT DO NOTHING, with one row for a user, a type and a UTC day (uq_notifications_user_type_day).
unfoldable pub schedule_notification :
    ScheduleNotificationParams → Time → Db → Result (Unit {0} × Db)
schedule_notification p now db =
    if not (p.kind == "PREMIUM_EXPIRES_SOON")
    then err violation
    else if any (same_day p.user_id p.kind (timestamptz p.scheduled_for)) db.notifications
    then ok (tt, db)
    else ok (
      tt,
      record db {
        notifications = fresh_notification db.next_notification now p ∷ db.notifications;
        next_notification = db.next_notification + 1;
      },
    )
