-- ===== src/Worker/Notifications.antt =====
-- internal/infrastructure/worker/notifications.go: the sending worker. The loop of a cycle runs on
-- fuel.
pub mod Drain
use subscription_reconciler.Worker.Schedule.{Signal, start}
use subscription_reconciler.Base.{ℕ, List, zero, suc, Bool, true, false}
use subscription_reconciler.Base.Int.{ℤ, pos, ltb_ℤ}
use subscription_reconciler.Application.Notifications.{send_due_notifications}
use subscription_reconciler.Domain.Error.{Error}
use subscription_reconciler.Postgres.Session.{Env, World, Result, ok, err, ◌>>=◌, ◌>>◌, ctx_err}

abbrev pub notification_batch_size : ℤ
notification_batch_size = pos 1000

-- How a cycle ends: the backlog is drained, or an error or the context stopped it.
pub data Cycle : Type 0 where
  drained : Cycle
  stopped : Error → Cycle
  out_of_fuel : Cycle

-- `if batchClaimed < notificationBatchSize { break }`
abbrev pub is_last : ℤ → Bool
is_last n = ltb_ℤ n notification_batch_size

abbrev pub after_batch : Result ℤ × World → (World → Cycle × World) → Cycle × World
after_batch (err e, w) again = (stopped e, w)
after_batch (ok n, w) again = elim (is_last n) [ true ↦ (drained, w) | false ↦ again w ]

unfoldable pub send_once : ℕ → Env → World → Cycle × World
send_once zero env w = (out_of_fuel, w)
send_once (suc fuel) env w =
    after_batch ((do ctx_err; send_due_notifications notification_batch_size) env w)
      (λ w'. send_once fuel env w')

-- `StartNotificationSending`.
unfoldable pub start_notification_sending : ℕ → Env → List Signal → World → World
start_notification_sending fuel env signals w = start (λ v. (send_once fuel env v).1) signals w
