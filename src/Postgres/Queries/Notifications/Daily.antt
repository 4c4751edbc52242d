-- ===== src/Postgres/Queries/Notifications/Daily.antt =====
-- At most one notification of a kind for a user and a UTC day (uq_notifications_user_type_day).
use subscription_reconciler.Base.{String, ◌≡◌, refl, Bool, false, List, [], ◌∷◌, arith}
use subscription_reconciler.Base.Lists.{any, update_where}
use subscription_reconciler.Clock.{Time}
use subscription_reconciler.Postgres.Models.{Notification}
use subscription_reconciler.Postgres.Queries.Notifications.{same_day, sent_now}

abbrev pub IsDaily : List Notification → Type 0
IsDaily [] = Unit {0}
IsDaily (n ∷ ns) = (any (same_day n.user_id n.kind n.scheduled_for) ns ≡ false) × IsDaily ns

same_day-update :
    (t : Notification → Bool) (now : Time) (user kind : String) (day : Time)
    (ns : List Notification)
    → any (same_day user kind day) (update_where t (sent_now now) ns)
      ≡ any (same_day user kind day) ns
same_day-update t now user kind day [] = refl
same_day-update t now user kind day (n ∷ ns) =
    ground (arith, same_day-update t now user kind day ns)

-- Marking some as sent does not move any.
pub IsDaily-sent :
    (t : Notification → Bool) (now : Time) (ns : List Notification)
    → IsDaily ns
    → IsDaily (update_where t (sent_now now) ns)
IsDaily-sent t now [] d = tt
IsDaily-sent t now (n ∷ ns) (alone, d) =
    ground
      (arith, same_day-update t now n.user_id n.kind n.scheduled_for ns, IsDaily-sent t now ns d)
