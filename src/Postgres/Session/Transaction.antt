-- ===== src/Postgres/Session/Transaction.antt =====
-- What a transaction does: all that its body does, or nothing.
use subscription_reconciler.Base.{ℕ, ◌≡◌, ◌∙◌, ap, Option, none, some, arith}
use subscription_reconciler.Clock.{Time}
use subscription_reconciler.Postgres.Models.{Db}
use subscription_reconciler.Postgres.Session.{
  Env, World, Result, ok, err, Action, ◌>>=◌, ◌>>◌, pure, next, begin, commit, atomically,
  in_transaction, Queries, answer, proceed, rollback_on_error,
}
use subscription_reconciler.Postgres.Session.Implements.{Implements}
use subscription_reconciler.Postgres.Session.Keeps.{Keeps, keeps_rules}
use subscription_reconciler.Postgres.Session.RollsBack.{RollsBack, RollsBack-atomically}

pub RollsBack-in_transaction :
    {A : Type 0} (body : Queries → Action A) → RollsBack (in_transaction body)
unfolding in_transaction
RollsBack-in_transaction body = RollsBack-atomically _

pub Keeps-in_transaction :
    {A : Type 0} {P : Db → Type 0} (body : Queries → Action A)
    → ((q : Queries) → Keeps P (body q))
    → Keeps P (in_transaction body)
unfolding in_transaction
Keeps-in_transaction body k = search (keeps_rules, k)

committed :
    {A : Type 0} (db : Db) (r : Result A × World) (env : Env) (w' : World) (a : A)
    → rollback_on_error db (proceed r (λ x v. (commit >> pure x) env v)) ≡ (ok a, w')
    → (v : World) × (r ≡ (ok a, v)) × (v.db ≡ w'.db)
unfolding commit ◌>>=◌
committed db (ok x, v) env w' a h = (v, ground arith, ground arith)
committed db (err e, v) env w' a h = cc

begun :
    {A : Type 0} (o : Option ℕ) (t : Time) (w : World) (db : Db)
    (k : Queries → World → Result A × World) (a : A) (w' : World)
    → rollback_on_error db (proceed (answer o (some t) w) k) ≡ (ok a, w')
    → rollback_on_error db (k (some t) (next w)) ≡ (ok a, w')
begun none t w db k a w' h = h
begun (some n) t w db k a w' h = cc

-- A transaction that returns ran its body from the tables that it began on, at the NOW() of its
-- start, and committed what the body left.
pub in_transaction-ran :
    {A : Type 0} (body : Queries → Action A) (env : Env) (w w' : World) (a : A)
    → in_transaction body env w ≡ (ok a, w')
    → (v : World) × (body (some (env.db_clock w.tick)) env (next w) ≡ (ok a, v)) × (v.db ≡ w'.db)
unfolding in_transaction atomically begin ◌>>=◌
in_transaction-ran body env w w' a h =
    committed w.db (body (some (env.db_clock w.tick)) env (next w)) env w' a
      (begun (env.fault w.tick) (env.db_clock w.tick) w w.db _ a w' h)

pub in_transaction-effect :
    {A : Type 0} (body : Queries → Action A) (f : Db → A × Db) (env : Env) (w w' : World) (a : A)
    → Implements (body (some (env.db_clock w.tick))) f
    → in_transaction body env w ≡ (ok a, w')
    → f w.db ≡ (a, w'.db)
in_transaction-effect body f env w w' a i h =
    let (v, ran, same) = in_transaction-ran body env w w' a h in
    i.at env (next w) v a ran ∙ ap (λ (db : Db). (a, db)) same
