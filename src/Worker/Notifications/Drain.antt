-- ===== src/Worker/Notifications/Drain.antt =====
-- A sending cycle ends.
use subscription_reconciler.Base.{
  ℕ, zero, suc, ◌+◌, ◌<◌, ◌≡◌, ◌≢◌, refl, Bool, true, false, List, map, [], ◌∷◌, arith, Bool-cases,
  Option, none, ap, ◌∙◌, sym, inl, inr, some,
}
use subscription_reconciler.Application.Notifications.{send_due_notifications, to_int32}
use subscription_reconciler.Base.Int.{ℤ}
use subscription_reconciler.Base.Lists.{count_where, filter, length, update_where}
use subscription_reconciler.Clock.{Time}
use subscription_reconciler.Postgres.Client.Notifications.{claim_due_notifications, claim_batch}
use subscription_reconciler.Postgres.Models.{Db, Notification}
use subscription_reconciler.Postgres.Queries.Limits.{with_rows}
use subscription_reconciler.Postgres.Queries.Notifications.{
  claim_rows, is_claimed, returned, sent_now, claim_due_notifications as claim_rows_of,
}
use subscription_reconciler.Postgres.Queries.Notifications.Claims.{
  is_pending, claim_accounts, claimed-pending, returned_lem,
}
use subscription_reconciler.Postgres.Session.{
  Env, World, Result, ok, err, ◌>>=◌, ◌>>◌, ctx_err, next, statement, run_statement, proceed,
  locked_notifications, pure,
}
use subscription_reconciler.Postgres.Session.Implements.{Implements-ctx_err}
use subscription_reconciler.Postgres.Session.Transaction.{in_transaction-ran}
use subscription_reconciler.Postgres.Types
use subscription_reconciler.Postgres.Types.{notification_from_gen}
use subscription_reconciler.Worker.Notifications.{
  out_of_fuel, send_once, is_last, notification_batch_size, after_batch,
}

-- The backlog: the notifications that no cycle has claimed yet.
abbrev pub backlog : Db → ℕ
backlog db = count_where is_pending db.notifications

length-map : (ns : List Notification) → length (map notification_from_gen ns) ≡ length ns
length-map [] = refl
length-map (n ∷ ns) = omega (arith, length-map ns)

to_int32-full : (n : ℕ) → is_last (to_int32 n) ≡ false → 0 < n
unfolding to_int32
to_int32-full n h = ground arith

claimed :
    (limit : Result (List Notification)) (now : Time) (db db' : Db) (rows : List Notification)
    → with_rows limit (λ due. ok (claim_rows now db due)) ≡ ok (rows, db')
    → (due : List Notification) × (claim_rows now db due ≡ (rows, db'))
claimed (err x) now db db' rows e = (cc, cc)
claimed (ok due) now db db' rows e = (due, ground (arith, e))

rows_of :
    (o : Option ℕ) (r : Result (List Notification × Db)) (env : Env) (w v : World)
    (ns : List Types.Notification)
    → proceed (run_statement o r w) (λ rows u. pure (map notification_from_gen rows) env u)
      ≡ (ok ns, v)
    → (rows : List Notification) × (r ≡ ok (rows, v.db)) × (ns ≡ map notification_from_gen rows)
unfolding pure
rows_of none (ok (rows, db)) env w v ns h = (rows, ground (arith, h), ground (arith, h))
rows_of none (err e) env w v ns h = cc
rows_of (some n) r env w v ns h = cc

-- The rows of a claim: those that it marks as sent were all unsent, and those that it returns are
-- the same ones, each once.
abbrev pub Claims : Time → Db → List Types.Notification → Db → Type 0
Claims now db ns db' =
    (taken : Notification → Bool) × ((n : Notification) → taken n ≡ true → is_pending n ≡ true)
    × (db'.notifications ≡ update_where taken (sent_now now) db.notifications)
    × (ns ≡ map notification_from_gen (map (sent_now now) (filter taken db.notifications)))

claim_batch-ran :
    (limit : ℤ) (env : Env) (w w' : World) (ns : List Types.Notification)
    → claim_batch limit env w ≡ (ok ns, w')
    → (due : List Notification) × (w'.db ≡ (claim_rows (env.db_clock w.tick) w.db due).1)
      × (ns ≡ map notification_from_gen (claim_rows (env.db_clock w.tick) w.db due).0)
unfolding claim_batch claim_rows_of ◌>>=◌ locked_notifications statement
claim_batch-ran limit env w w' ns h =
    let (v, ran, same) = in_transaction-ran _ env w w' ns h in
    let (rows, given, e) = rows_of (env.fault (w.tick + 1)) _ env (next w) v ns ran in
    let (due, marked) = claimed _ _ w.db v.db rows given in
    (
      due,
      sym same ∙ ap (λ (x : List Notification × Db). x.1) (sym marked),
      e ∙ ap (λ (x : List Notification × Db). map notification_from_gen x.0) (sym marked),
    )

-- A claim of notifications that returns hands out exactly the rows that it marks as sent, each once
-- and as it leaves it, each of them unsent before; every other row stays as it was, and the backlog
-- of unsent ones is shorter by as many.
pub claim_batch-backlog :
    (limit : ℤ) (env : Env) (w w' : World) (ns : List Types.Notification)
    → claim_batch limit env w ≡ (ok ns, w')
    → Claims (env.db_clock w.tick) w.db ns w'.db × (backlog w'.db + length ns ≡ backlog w.db)
claim_batch-backlog limit env w w' ns h =
    let (due, left, given) = claim_batch-ran limit env w w' ns h in
    let now = env.db_clock w.tick in
    (
      (
        is_claimed due,
        claimed-pending due,
        ap (λ (db : Db). db.notifications) left,
        given ∙ ap (map notification_from_gen) (returned_lem now due w.db.notifications),
      ),
      omega (
        arith,
        claim_accounts now due w.db.notifications,
        ap backlog left,
        ap length given,
        length-map (returned now due w.db.notifications),
      ),
    )

sent_one :
    (x : Result (Unit {0}) × World) (env : Env) (limit : ℤ) (n : ℤ) (w' : World)
    → proceed x (λ u v. send_due_notifications limit env v) ≡ (ok n, w')
    → (v : World) × (x ≡ (ok tt, v)) × (send_due_notifications limit env v ≡ (ok n, w'))
sent_one (ok tt, v) env limit n w' h = (v, refl, h)
sent_one (err e, v) env limit n w' h = cc

counted :
    (x : Result (List Types.Notification) × World) (env : Env) (n : ℤ) (w' : World)
    → proceed x (λ claimed v. pure (to_int32 (length claimed)) env v) ≡ (ok n, w')
    → (ns : List Types.Notification) × (x ≡ (ok ns, w')) × (n ≡ to_int32 (length ns))
unfolding pure
counted (ok ns, v) env n w' h = (ns, ground (arith, h), ground (arith, h))
counted (err e, v) env n w' h = cc

batch_shrinks :
    (env : Env) (w w' : World) (n : ℤ)
    → (do ctx_err; send_due_notifications notification_batch_size) env w ≡ (ok n, w')
    → is_last n ≡ false
    → backlog w'.db < backlog w.db
unfolding ◌>>=◌ send_due_notifications claim_due_notifications ctx_err
batch_shrinks env w w' n h more =
    let (v, checked, sent) = sent_one (ctx_err env w) env notification_batch_size n w' h in
    let (ns, claimed, e) = counted _ env n w' sent in
    let same = ap (λ (x : Unit {0} × Db). backlog x.1) (Implements-ctx_err.at env w v tt checked) in
    let (rows, shrunk) = claim_batch-backlog notification_batch_size env v w' ns claimed in
    omega (arith, shrunk, same, to_int32-full (length ns) (ap is_last (sym e) ∙ more))

continues :
    (x : Result ℤ × World) (fuel : ℕ) (env : Env)
    → ((n : ℤ) (v : World)
        → x ≡ (ok n, v)
        → is_last n ≡ false
        → (send_once fuel env v).0 ≢ out_of_fuel)
    → (after_batch x (λ v. send_once fuel env v)).0 ≢ out_of_fuel
continues (err e, v) fuel env k = cc
continues (ok n, v) fuel env k = elim (Bool-cases (is_last n)) [
  | inl last ↦ rw (last, after_batch) (λ e. cc)
  | inr more ↦ rw (more, after_batch) (k n v refl more)
]

-- A cycle ends: with more fuel than there are unsent notifications it drains the backlog down to a
-- short batch or stops at an error, and never runs out of fuel.
pub send_once_ends :
    (fuel : ℕ) (env : Env) (w : World)
    → backlog w.db < fuel
    → (send_once fuel env w).0 ≢ out_of_fuel
unfolding send_once
send_once_ends zero env w h = absurd (omega (arith, h))
send_once_ends (suc fuel) env w h =
    continues ((do ctx_err; send_due_notifications notification_batch_size) env w) fuel env
      λ n v ran more. send_once_ends fuel env v (omega (arith, h, batch_shrinks env w v n ran more))
