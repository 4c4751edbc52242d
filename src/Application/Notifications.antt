-- ===== src/Application/Notifications.antt =====
-- internal/application/notifications.go.
use subscription_reconciler.Base.{ℕ, ◌-◌, ◌%◌, ◌^◌, ltb, if◌then◌else◌}
use subscription_reconciler.Base.Int.{ℤ, pos, negsuc}
use subscription_reconciler.Base.Lists.{length}
use subscription_reconciler.Postgres.Client.Notifications.{claim_due_notifications}
use subscription_reconciler.Postgres.Session.{Action, pure, ◌>>=◌}

-- The conversion `int32(n)` of a length.
unfoldable pub to_int32 : ℕ → ℤ
to_int32 n = let m = n % 2 ^ 32 in if ltb m (2 ^ 31) then pos m else negsuc (2 ^ 32 - 1 - m)

unfoldable pub send_due_notifications : ℤ → Action ℤ
unfolding to_int32
send_due_notifications batch_size = do
  claimed ← claim_due_notifications batch_size
  pure (to_int32 (length claimed))
