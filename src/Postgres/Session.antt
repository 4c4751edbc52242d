-- ===== src/Postgres/Session.antt =====
-- How the program reaches the database, the clock and its context (database/sql, time, context):
-- an action runs in an environment that decides what each call meets, and on a world that holds
-- the committed tables, or the working copy of the open transaction.
pub mod Keeps
pub mod RollsBack
pub mod Implements
pub mod Transaction
pub mod KeepsOk
pub mod Succeeds
pub mod Internal
use subscription_reconciler.Base.{ℕ, ◌+◌, String, Bool, Option, none, some}
use subscription_reconciler.Clock.{Time}
use subscription_reconciler.Domain.Error.{Error, driver, wrapped}
use subscription_reconciler.Postgres.Models.{Db, UserEntitlement, Notification}

-- Every call out of the program has a number. `fault k` is the error that call k of the database
-- meets, `canceled k` the answer of `ctx.Err()`, `wall k` that of `time.Now()`; `db_clock k` is
-- NOW() in a statement or transaction begun by call k, and the two last say which rows other
-- transactions have locked then. `add_month` and `year_month` are `t.AddDate(0, 1, 0)` and
-- `t.Format("2006-01")` in the process's time zone.
pub record Env : Type 0 where
  pub fault : ℕ → Option ℕ
  pub canceled : ℕ → Option ℕ
  pub wall : ℕ → Time
  pub db_clock : ℕ → Time
  pub entitlement_locked : ℕ → UserEntitlement → Bool
  pub notification_locked : ℕ → Notification → Bool
  pub add_month : Time → Time
  pub year_month : Time → String

pub record World : Type 0 where
  pub db : Db
  pub tick : ℕ

pub data Result (A : Type 0) : Type 0 where
  ok : A → Result A
  err : Error → Result A

abbrev pub Action : Type 0 → Type 0
Action A = Env → World → Result A × World

unfoldable pub pure : {A : Type 0} → A → Action A
pure a env w = (ok a, w)

unfoldable pub raise : {A : Type 0} → Error → Action A
raise e env w = (err e, w)

unfoldable pub ask : Action Env
ask env w = (ok env, w)

abbrev pub proceed :
    {A B : Type 0} → Result A × World → (A → World → Result B × World) → Result B × World
proceed (ok a, w) k = k a w
proceed (err e, w) k = (err e, w)

-- Opening this opens `pure` and `raise` too.
infixl 5 ◌>>=◌ ◌>>◌
unfoldable pub ◌>>=◌ : {A B : Type 0} → Action A → (A → Action B) → Action B
unfolding pure raise
◌>>=◌ m f env w = proceed (m env w) (λ a w'. f a env w')

abbrev pub ◌>>◌ : {A B : Type 0} → Action A → Action B → Action B
m >> k = m >>= λ _. k

-- `fmt.Errorf("text: %w", err)` on the error path.
abbrev pub wrap_result : {A : Type 0} → String → Result A × World → Result A × World
wrap_result text (ok a, w) = (ok a, w)
wrap_result text (err e, w) = (err (wrapped text e), w)

unfoldable pub wrap : {A : Type 0} → String → Action A → Action A
wrap text m env w = wrap_result text (m env w)

abbrev pub next : World → World
next w = record w { tick = w.tick + 1 }

-- A call that fails as the oracle says, and otherwise answers `a`.
abbrev pub answer : {A : Type 0} → Option ℕ → A → World → Result A × World
answer none a w = (ok a, next w)
answer (some n) a w = (err (driver n), next w)

unfoldable pub ctx_err : Action (Unit {0})
ctx_err env w = answer (env.canceled w.tick) tt w

unfoldable pub time_now : Action Time
time_now env w = (ok (env.wall w.tick), next w)

-- `gen.Queries` over the pool, `none`, or over the transaction that began at the time.
abbrev pub Queries : Type 0
Queries = Option Time

abbrev now_of : Queries → Time → Time
now_of none t = t
now_of (some t) _ = t

abbrev finish : {A : Type 0} → Result (A × Db) → World → Result A × World
finish (ok (a, db)) w = (ok a, record w { db = db; tick = w.tick + 1 })
finish (err e) w = (err e, next w)

abbrev pub run_statement : {A : Type 0} → Option ℕ → Result (A × Db) → World → Result A × World
run_statement none r w = finish r w
run_statement (some n) r w = (err (driver n), next w)

-- One statement: it fails and writes nothing, or takes effect as a whole.
unfoldable pub statement : {A : Type 0} → Queries → (Time → Db → Result (A × Db)) → Action A
statement q f env w = run_statement (env.fault w.tick) (f (now_of q (env.db_clock w.tick)) w.db) w

-- A statement that no constraint of the schema refuses, and one that only reads.
abbrev pub exec : {A : Type 0} → Queries → (Time → Db → A × Db) → Action A
exec q f = statement q (λ now db. ok (f now db))

abbrev pub query : {A : Type 0} → Queries → (Time → Db → A) → Action A
query q f = statement q (λ now db. ok (f now db, db))

-- `db.BeginTx`, `tx.Commit`, and `defer tx.Rollback()` around the code between them.
unfoldable pub begin : Action Queries
begin env w = answer (env.fault w.tick) (some (env.db_clock w.tick)) w

unfoldable pub commit : Action (Unit {0})
commit env w = answer (env.fault w.tick) tt w

abbrev pub rollback_on_error : {A : Type 0} → Db → Result A × World → Result A × World
rollback_on_error db (ok a, w) = (ok a, w)
rollback_on_error db (err e, w) = (err e, record w { db = db })

unfoldable pub atomically : {A : Type 0} → Action A → Action A
atomically m env w = rollback_on_error w.db (m env w)

-- BeginTx, the work on the transaction's queries, Commit; a failure anywhere rolls back.
unfoldable pub in_transaction : {A : Type 0} → (Queries → Action A) → Action A
in_transaction body = atomically do q ← begin; a ← body q; commit; pure a

-- The rows that FOR UPDATE SKIP LOCKED passes over at the next call.
unfoldable pub locked_entitlements : Action (UserEntitlement → Bool)
locked_entitlements env w = (ok (env.entitlement_locked w.tick), w)

unfoldable pub locked_notifications : Action (Notification → Bool)
locked_notifications env w = (ok (env.notification_locked w.tick), w)
