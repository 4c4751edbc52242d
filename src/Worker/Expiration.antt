-- ===== src/Worker/Expiration.antt =====
-- internal/infrastructure/worker/expiration.go: the sweep worker. The loop of a cycle runs on fuel.
pub mod Drain
use subscription_reconciler.Worker.Schedule.{Signal, start}
use subscription_reconciler.Application.Expiration.{Swept, reconcile_expired_entitlements}
use subscription_reconciler.Base.{ℕ, List, zero, suc, Bool, true, false, Option, none, some}
use subscription_reconciler.Base.Int.{ℤ, pos, ltb_ℤ}
use subscription_reconciler.Postgres.Session.{Env, World, Result, ok, err, ctx_err}
use subscription_reconciler.Worker.Notifications.{Cycle, drained, stopped, out_of_fuel}

abbrev pub expiration_batch_size : ℤ
expiration_batch_size = pos 1000

abbrev pub after_check : Result (Unit {0}) × World → (World → Cycle × World) → Cycle × World
after_check (ok u, w) rest = rest w
after_check (err e, w) rest = (stopped e, w)

abbrev pub after_sweep : Swept × World → (World → Cycle × World) → Cycle × World
after_sweep (swept, w) again = elim swept.error [
  | some e ↦ (stopped e, w)
  | none ↦ elim (ltb_ℤ (pos swept.processed) expiration_batch_size) [
    | true ↦ (drained, w)
    | false ↦ again w
  ]
]

-- The flag says which path the service takes, as in `reconcile_expired_entitlements`.
unfoldable pub reconcile_once : Bool → ℕ → Env → World → Cycle × World
reconcile_once concrete zero env w = (out_of_fuel, w)
reconcile_once concrete (suc fuel) env w = after_check (ctx_err env w) λ v.
    after_sweep (reconcile_expired_entitlements concrete expiration_batch_size env v)
      λ w'. reconcile_once concrete fuel env w'

-- `StartExpirationReconciliation`.
unfoldable pub start_expiration_reconciliation : Bool → ℕ → Env → List Signal → World → World
start_expiration_reconciliation concrete fuel env signals w =
    start (λ v. (reconcile_once concrete fuel env v).1) signals w
