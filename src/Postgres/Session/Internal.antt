-- ===== src/Postgres/Session/Internal.antt =====
-- Actions whose errors come from the database, the context or the schema: `errors.As` finds no
-- domain error in them, through whatever wrapping.
use subscription_reconciler.Base.{
  ℕ, ◌≡◌, refl, String, Bool, true, false, Option, none, some, if◌then◌else◌,
}
use subscription_reconciler.Clock.{Time}
use subscription_reconciler.Domain.Error.{as_domain}
use subscription_reconciler.Postgres.Models.{Db}
use subscription_reconciler.Postgres.Session.{
  Env, World, Result, ok, err, Action, Queries, ◌>>=◌, proceed, pure, ask, wrap, wrap_result,
  time_now, ctx_err, answer, statement, now_of, run_statement, begin, commit, atomically,
  rollback_on_error, in_transaction,
}

abbrev pub IsInternalResult : {A : Type 0} → Result A → Type 0
IsInternalResult (ok a) = Unit {0}
IsInternalResult (err e) = as_domain e ≡ none

pub record IsInternal {A : Type 0} (m : Action A) : Type 0 where
  pub at : (env : Env) (w : World) → IsInternalResult (m env w).0

answer-IsInternal :
    {A : Type 0} (o : Option ℕ) (a : A) (w : World) → IsInternalResult (answer o a w).0
unfolding as_domain
answer-IsInternal none a w = tt
answer-IsInternal (some n) a w = refl

pub IsInternal-pure : {A : Type 0} (a : A) → IsInternal (pure a)
unfolding pure
IsInternal-pure a = record { at = λ env w. tt }

pub IsInternal-ask : IsInternal ask
unfolding ask
IsInternal-ask = record { at = λ env w. tt }

pub IsInternal-time_now : IsInternal time_now
unfolding time_now
IsInternal-time_now = record { at = λ env w. tt }

pub IsInternal-ctx_err : IsInternal ctx_err
unfolding ctx_err
IsInternal-ctx_err = record { at = λ env w. answer-IsInternal (env.canceled w.tick) tt w }

pub IsInternal-begin : IsInternal begin
unfolding begin
IsInternal-begin = record {
  at = λ env w. answer-IsInternal (env.fault w.tick) (some (env.db_clock w.tick)) w;
}

pub IsInternal-commit : IsInternal commit
unfolding commit
IsInternal-commit = record { at = λ env w. answer-IsInternal (env.fault w.tick) tt w }

proceed-IsInternal :
    {A B : Type 0} (r : Result A × World) (f : A → Action B) (env : Env)
    → IsInternalResult r.0
    → ((a : A) → IsInternal (f a))
    → IsInternalResult (proceed r (λ a w. f a env w)).0
proceed-IsInternal (ok a, w) f env h k = (k a).at env w
proceed-IsInternal (err e, w) f env h k = h

pub IsInternal-bind :
    {A B : Type 0} (m : Action A) (f : A → Action B)
    → IsInternal m
    → ((a : A) → IsInternal (f a))
    → IsInternal (m >>= f)
unfolding ◌>>=◌
IsInternal-bind m f im k = record {
  at = λ env w. proceed-IsInternal (m env w) f env (im.at env w) k;
}

pub IsInternal-if :
    {A : Type 0} (b : Bool) (m n : Action A)
    → IsInternal m
    → IsInternal n
    → IsInternal (if b then m else n)
IsInternal-if true m n im inn = im
IsInternal-if false m n im inn = inn

wrapped-IsInternal :
    {A : Type 0} (text : String) (r : Result A × World)
    → IsInternalResult r.0
    → IsInternalResult (wrap_result text r).0
unfolding as_domain
wrapped-IsInternal text (ok a, w) h = tt
wrapped-IsInternal text (err e, w) h = h

pub IsInternal-wrap :
    {A : Type 0} (text : String) (m : Action A) → IsInternal m → IsInternal (wrap text m)
unfolding wrap
IsInternal-wrap text m im = record { at = λ env w. wrapped-IsInternal text (m env w) (im.at env w) }

run-IsInternal :
    {A : Type 0} (o : Option ℕ) (r : Result (A × Db)) (w : World)
    → IsInternalResult r
    → IsInternalResult (run_statement o r w).0
unfolding as_domain
run-IsInternal none (ok (a, db)) w h = tt
run-IsInternal none (err e) w h = h
run-IsInternal (some n) r w h = refl

pub IsInternal-statement :
    {A : Type 0} (q : Queries) (f : Time → Db → Result (A × Db))
    → ((now : Time) (db : Db) → IsInternalResult (f now db))
    → IsInternal (statement q f)
unfolding statement
IsInternal-statement q f k = record {
  at = λ env w. run-IsInternal (env.fault w.tick) _ w (k (now_of q (env.db_clock w.tick)) w.db);
}

rolled_back-IsInternal :
    {A : Type 0} (db : Db) (r : Result A × World)
    → IsInternalResult r.0
    → IsInternalResult (rollback_on_error db r).0
rolled_back-IsInternal db (ok a, w) h = tt
rolled_back-IsInternal db (err e, w) h = h

pub IsInternal-atomically : {A : Type 0} (m : Action A) → IsInternal m → IsInternal (atomically m)
unfolding atomically
IsInternal-atomically m im = record {
  at = λ env w. rolled_back-IsInternal w.db (m env w) (im.at env w);
}

pub IsInternal-in_transaction :
    {A : Type 0} (body : Queries → Action A)
    → ((q : Queries) → IsInternal (body q))
    → IsInternal (in_transaction body)
unfolding in_transaction
IsInternal-in_transaction body k = IsInternal-atomically _ (
    IsInternal-bind _ _ IsInternal-begin λ q.
      IsInternal-bind _ _ (k q) λ a. IsInternal-bind _ _ IsInternal-commit (λ u. IsInternal-pure a))

pub ruleset internal_rules = (
  IsInternal-pure, IsInternal-ask, IsInternal-time_now, IsInternal-ctx_err, IsInternal-begin,
  IsInternal-commit, IsInternal-bind, IsInternal-if, IsInternal-wrap, IsInternal-atomically,
  IsInternal-in_transaction,
)
