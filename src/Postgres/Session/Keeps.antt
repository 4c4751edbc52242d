-- ===== src/Postgres/Session/Keeps.antt =====
-- What an action keeps of the tables, one rule for each way to build an action.
use subscription_reconciler.Base.{
  ℕ, ◌≡◌, refl, Bool, true, false, String, Option, none, some, if◌then◌else◌,
}
use subscription_reconciler.Clock.{Time}
use subscription_reconciler.Domain.Error.{Error}
use subscription_reconciler.Postgres.Models.{Db}
use subscription_reconciler.Postgres.Session.{
  Env, World, Result, ok, err, Action, pure, raise, ask, ◌>>=◌, proceed, wrap, wrap_result, ctx_err,
  time_now, answer, Queries, run_statement, now_of, statement, begin, commit, atomically,
  rollback_on_error, locked_entitlements, locked_notifications,
}

-- `m` keeps `P` of the tables, whether it returns or raises.
pub record Keeps {A : Type 0} (P : Db → Type 0) (m : Action A) : Type 0 where
  pub at : (env : Env) (w : World) → P w.db → P (m env w).1.db

-- The rest of a block keeps `P`, from wherever its first step ended.
proceed-Keeps :
    {A B : Type 0} (P : Db → Type 0) (r : Result A × World) (f : A → Action B) (env : Env)
    → P r.1.db
    → ((a : A) → Keeps P (f a))
    → P (proceed r (λ a w. f a env w)).1.db
proceed-Keeps P (ok a, w) f env h kf = (kf a).at env w h
proceed-Keeps P (err e, w) f env h kf = h

db-wrap_result :
    {A : Type 0} (text : String) (r : Result A × World) → (wrap_result text r).1.db ≡ r.1.db
db-wrap_result text (ok a, w) = refl
db-wrap_result text (err e, w) = refl

db-answer : {A : Type 0} (o : Option ℕ) (a : A) (w : World) → (answer o a w).1.db ≡ w.db
db-answer none a w = refl
db-answer (some n) a w = refl

rollback-Keeps :
    {A : Type 0} (P : Db → Type 0) (db : Db) (r : Result A × World)
    → P db
    → P r.1.db
    → P (rollback_on_error db r).1.db
rollback-Keeps P db (ok a, w) h k = k
rollback-Keeps P db (err e, w) h k = h

module _ {P : Db → Type 0} where
  pub Keeps-pure : {A : Type 0} (a : A) → Keeps P (pure a)
  unfolding pure
  Keeps-pure a = record { at = λ env w h. h }

  pub Keeps-raise : {A : Type 0} (e : Error) → Keeps P (raise {A = A} e)
  unfolding raise
  Keeps-raise e = record { at = λ env w h. h }

  pub Keeps-ask : Keeps P ask
  unfolding ask
  Keeps-ask = record { at = λ env w h. h }

  pub Keeps-bind :
      {A B : Type 0} (m : Action A) (f : A → Action B)
      → Keeps P m
      → ((a : A) → Keeps P (f a))
      → Keeps P (m >>= f)
  unfolding ◌>>=◌
  Keeps-bind m f km kf = record {
    at = λ env w h. proceed-Keeps P (m env w) f env (km.at env w h) kf;
  }

  pub Keeps-if :
      {A : Type 0} (b : Bool) (m n : Action A)
      → Keeps P m
      → Keeps P n
      → Keeps P (if b then m else n)
  Keeps-if true m n km kn = km
  Keeps-if false m n km kn = kn

  pub Keeps-wrap : {A : Type 0} (text : String) (m : Action A) → Keeps P m → Keeps P (wrap text m)
  unfolding wrap
  Keeps-wrap text m k = record { at = λ env w h. rw (db-wrap_result text (m env w)) (k.at env w h) }

  pub Keeps-ctx_err : Keeps P ctx_err
  unfolding ctx_err
  Keeps-ctx_err = record { at = λ env w h. rw (db-answer (env.canceled w.tick) tt w) h }

  pub Keeps-time_now : Keeps P time_now
  unfolding time_now
  Keeps-time_now = record { at = λ env w h. h }

  pub Keeps-begin : Keeps P begin
  unfolding begin
  Keeps-begin = record {
    at = λ env w h. rw (db-answer (env.fault w.tick) (some (env.db_clock w.tick)) w) h;
  }

  pub Keeps-commit : Keeps P commit
  unfolding commit
  Keeps-commit = record { at = λ env w h. rw (db-answer (env.fault w.tick) tt w) h }

  pub Keeps-locked_entitlements : Keeps P locked_entitlements
  unfolding locked_entitlements
  Keeps-locked_entitlements = record { at = λ env w h. h }

  pub Keeps-locked_notifications : Keeps P locked_notifications
  unfolding locked_notifications
  Keeps-locked_notifications = record { at = λ env w h. h }

-- A statement keeps what its effect keeps.
run_statement-Keeps :
    {A : Type 0} (P : Db → Type 0) (o : Option ℕ) (r : Result (A × Db)) (w : World)
    → P w.db
    → ((a : A) (db : Db) → r ≡ ok (a, db) → P db)
    → P (run_statement o r w).1.db
run_statement-Keeps P (some n) r w h k = h
run_statement-Keeps P none (ok (a, db)) w h k = k a db refl
run_statement-Keeps P none (err e) w h k = h

module _ {P : Db → Type 0} where
  pub Keeps-statement :
      {A : Type 0} (q : Queries) (f : Time → Db → Result (A × Db))
      → ((now : Time) (db db' : Db) (a : A) → f now db ≡ ok (a, db') → P db → P db')
      → Keeps P (statement q f)
  unfolding statement
  Keeps-statement q f k = record {
    at = λ env w h.
        run_statement-Keeps P (env.fault w.tick) (f (now_of q (env.db_clock w.tick)) w.db) w h
          (λ a db e. k _ w.db db a e h);
  }

  pub Keeps-atomically : {A : Type 0} (m : Action A) → Keeps P m → Keeps P (atomically m)
  unfolding atomically
  Keeps-atomically m k = record { at = λ env w h. rollback-Keeps P w.db (m env w) h (k.at env w h) }

pub ruleset keeps_rules = (
  Keeps-pure, Keeps-raise, Keeps-ask, Keeps-bind, Keeps-if, Keeps-wrap, Keeps-ctx_err,
  Keeps-time_now, Keeps-begin, Keeps-commit, Keeps-locked_entitlements, Keeps-locked_notifications,
  Keeps-atomically,
)
