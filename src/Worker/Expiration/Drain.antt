-- ===== src/Worker/Expiration/Drain.antt =====
-- A sweep cycle ends, and what it leaves.
use subscription_reconciler.Application.Expiration.{
  reconcile_expired_entitlements, swept_of, effective_batch,
}
use subscription_reconciler.Base.{
  ℕ, zero, suc, ◌≤◌, ◌<◌, ◌≡◌, ◌≢◌, refl, ap, subst, true, inl, inr, Bool-cases, arith,
}
use subscription_reconciler.Base.Int.{pos, ltb_ℤ}
use subscription_reconciler.Postgres.Client.Entitlements
use subscription_reconciler.Postgres.Client.Entitlements.Sweep.{
  active_rows, reconcile_expired-active,
}
use subscription_reconciler.Postgres.Models.{Db}
use subscription_reconciler.Postgres.Queries.Entitlements.Keyed.{IsKeyed}
use subscription_reconciler.Postgres.Session.{Env, World, Result, ok, err, ctx_err}
use subscription_reconciler.Postgres.Session.Implements.{Implements-ctx_err}
use subscription_reconciler.Worker.Expiration.{
  reconcile_once, after_check, after_sweep, expiration_batch_size,
}
use subscription_reconciler.Worker.Notifications.{Cycle, out_of_fuel}

pub checked :
    (x : Result (Unit {0}) × World) (k : World → Cycle × World)
    → ((v : World) → x ≡ (ok tt, v) → (k v).0 ≢ out_of_fuel)
    → (after_check x k).0 ≢ out_of_fuel
checked (ok tt, v) k more = more v refl
checked (err e, v) k more = cc

continues :
    (x : Result ℕ × World) (k : World → Cycle × World)
    → ((n : ℕ) (v : World) → x ≡ (ok n, v) → 1_000 ≤ n → (k v).0 ≢ out_of_fuel)
    → (after_sweep (swept_of x) k).0 ≢ out_of_fuel
continues (err e, v) k more = cc
continues (ok n, v) k more = elim (Bool-cases (ltb_ℤ (pos n) expiration_batch_size)) [
  | inl last ↦ rw (last, after_sweep) (λ e. cc)
  | inr full ↦ rw (full, after_sweep) (more n v refl (ground (arith, full)))
]

-- A sweep cycle ends: over a table in which no two rows share a user and a source, with more fuel
-- than there are active rows, it comes down to a short batch or stops at an error, and never runs
-- out of fuel, however the clock moves.
pub reconcile_once_ends :
    (fuel : ℕ) (env : Env) (w : World)
    → IsKeyed w.db.user_entitlements
    → active_rows w.db < fuel
    → (reconcile_once true fuel env w).0 ≢ out_of_fuel
unfolding reconcile_once reconcile_expired_entitlements
reconcile_once_ends zero env w k h = absurd (omega (arith, h))
reconcile_once_ends (suc fuel) env w k h = checked (ctx_err env w) _ λ v passed.
    let same : w.db ≡ v.db =
      ap (λ (x : Unit {0} × Db). x.1) (Implements-ctx_err.at env w v tt passed) in
    continues
      (Entitlements.reconcile_expired_entitlements (effective_batch expiration_batch_size) env v)
      (λ u. reconcile_once true fuel env u)
      λ n w' ran full.
        let (fewer, keyed) =
          reconcile_expired-active (effective_batch expiration_batch_size) env v w' n
            (subst (λ (db : Db). IsKeyed db.user_entitlements) same k) ran in
        reconcile_once_ends fuel env w' keyed (omega (arith, fewer, full, h, ap active_rows same))
