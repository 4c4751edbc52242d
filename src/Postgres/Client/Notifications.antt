-- ===== src/Postgres/Client/Notifications.antt =====
-- internal/infrastructure/postgres/client.go: the notifications.
use subscription_reconciler.Base.{ℕ, String, List, [], map, if◌then◌else◌}
use subscription_reconciler.Base.Int.{ℤ, pos, leb_ℤ}
use subscription_reconciler.Clock.{Time}
use subscription_reconciler.Postgres.Queries.Notifications
use subscription_reconciler.Postgres.Session.{
  Action, Queries, pure, ◌>>=◌, statement, in_transaction, locked_notifications,
}
use subscription_reconciler.Postgres.Types.{Notification, notification_from_gen}

unfoldable pub schedule_notification : Queries → String → String → Time → Action (Unit {0})
schedule_notification c user kind scheduled_for = statement c (
    Notifications.schedule_notification
      (record { user_id = user; kind = kind; scheduled_for = scheduled_for }))

unfoldable pub claim_batch : ℤ → Action (List Notification)
claim_batch limit = in_transaction λ q. do
  locked ← locked_notifications
  rows ← statement q (Notifications.claim_due_notifications locked limit)
  pure (map notification_from_gen rows)

unfoldable pub claim_due_notifications : ℤ → Action (List Notification)
unfolding claim_batch
claim_due_notifications limit = if leb_ℤ limit (pos 0) then pure [] else claim_batch limit

unfoldable pub get_due_notifications : ℤ → Action (List Notification)
get_due_notifications limit = in_transaction λ q. do
  locked ← locked_notifications
  rows ← statement q (Notifications.get_due_notifications locked limit)
  pure (map notification_from_gen rows)

unfoldable pub mark_notification_sent : Queries → ℕ → Action (Unit {0})
mark_notification_sent c id = statement c (Notifications.mark_notification_sent id)

unfoldable pub get_notification_by_user_type_and_date :
    Queries → String → String → Time → Action Notification
get_notification_by_user_type_and_date c user kind date = do
  row ← statement c (Notifications.get_notification_by_user_type_and_date user kind date)
  pure (notification_from_gen row)
