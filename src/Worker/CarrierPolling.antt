-- ===== src/Worker/CarrierPolling.antt =====
-- internal/infrastructure/worker/carrier_polling.go: the polling worker. The loop of a cycle runs on
-- fuel.
pub mod Drain
use subscription_reconciler.Worker.Schedule.{Signal, start}
use subscription_reconciler.Application.CarrierPolling.{
  CarrierClient, Polled, poll_carriers_for_users,
}
use subscription_reconciler.Base.{ℕ, List, zero, suc, ◌-◌, ◌*◌, true, false, none, some}
use subscription_reconciler.Base.Int.{ℤ, pos, ltb_ℤ}
use subscription_reconciler.Clock.{minute}
use subscription_reconciler.Postgres.Session.{Env, World, ctx_err, next}
use subscription_reconciler.Worker.Expiration.{after_check}
use subscription_reconciler.Worker.Notifications.{Cycle, drained, stopped, out_of_fuel}

abbrev pub carrier_polling_batch_size : ℤ
carrier_polling_batch_size = pos 100

abbrev pub carrier_polling_staleness : ℕ
carrier_polling_staleness = 5 * minute

abbrev pub after_batch : Polled × World → (World → Cycle × World) → Cycle × World
after_batch (polled, w) again = elim polled.error [
  | some e ↦ (stopped e, w)
  | none ↦ elim (ltb_ℤ (pos polled.processed) carrier_polling_batch_size) [
    | true ↦ (drained, w)
    | false ↦ again w
  ]
]

unfoldable pub poll_once : CarrierClient → ℕ → Env → World → Cycle × World
poll_once client zero env w = (out_of_fuel, w)
poll_once client (suc fuel) env w = after_check (ctx_err env w) λ v.
    after_batch
      (poll_carriers_for_users client carrier_polling_batch_size
        (env.wall v.tick - carrier_polling_staleness) env (next v))
      (λ w'. poll_once client fuel env w')

-- `StartCarrierPolling`.
unfoldable pub start_carrier_polling : CarrierClient → ℕ → Env → List Signal → World → World
start_carrier_polling client fuel env signals w =
    start (λ v. (poll_once client fuel env v).1) signals w
