-- ===== src/Postgres/Session/RollsBack.antt =====
-- Actions that leave the tables alone when they raise.
use subscription_reconciler.Base.{◌≡◌, refl, ◌∙◌, arith}
use subscription_reconciler.Domain.Error.{Error}
use subscription_reconciler.Postgres.Models.{Db}
use subscription_reconciler.Postgres.Session.{
  Env, World, Result, ok, err, Action, pure, raise, ◌>>=◌, proceed, atomically, rollback_on_error,
}
use subscription_reconciler.Postgres.Session.Keeps.{Keeps}

pub record RollsBack {A : Type 0} (m : Action A) : Type 0 where
  pub at : (env : Env) (w w' : World) (e : Error) → m env w ≡ (err e, w') → w'.db ≡ w.db

rolled_back :
    {A : Type 0} (db : Db) (r : Result A × World) (w' : World) (e : Error)
    → rollback_on_error db r ≡ (err e, w')
    → w'.db ≡ db
rolled_back db (ok a, w) w' e h = cc
rolled_back db (err x, w) w' e h = ground arith

-- A transaction is all or nothing.
pub RollsBack-atomically : {A : Type 0} (m : Action A) → RollsBack (atomically m)
unfolding atomically
RollsBack-atomically m = record { at = λ env w w' e h. rolled_back w.db (m env w) w' e h }

pub RollsBack-pure : {A : Type 0} (a : A) → RollsBack (pure a)
unfolding pure
RollsBack-pure a = record { at = λ env w w' e h. cc }

pub RollsBack-raise : {A : Type 0} (x : Error) → RollsBack (raise {A = A} x)
unfolding raise
RollsBack-raise x = record { at = λ env w w' e h. ground arith }

after_read :
    {A B : Type 0} (db : Db) (r : Result A × World) (f : A → Action B) (env : Env) (w' : World)
    (e : Error)
    → r.1.db ≡ db
    → ((a : A) → RollsBack (f a))
    → proceed r (λ a w. f a env w) ≡ (err e, w')
    → w'.db ≡ db
after_read db (ok a, w) f env w' e same k h = (k a).at env w w' e h ∙ same
after_read db (err x, w) f env w' e same k h = ground arith

-- Steps that only read may come before a transaction, and a pure step after it.
pub RollsBack-after_read :
    {A B : Type 0} (m : Action A) (f : A → Action B)
    → ((db : Db) → Keeps (λ d. d ≡ db) m)
    → ((a : A) → RollsBack (f a))
    → RollsBack (m >>= f)
unfolding ◌>>=◌
RollsBack-after_read m f reads k = record {
  at = λ env w w' e h. after_read w.db (m env w) f env w' e ((reads w.db).at env w refl) k h;
}

then_pure :
    {A B : Type 0} (db : Db) (r : Result A × World) (g : A → B) (env : Env) (w' : World) (e : Error)
    → ((x : Error) (v : World) → r ≡ (err x, v) → v.db ≡ db)
    → proceed r (λ a w. pure (g a) env w) ≡ (err e, w')
    → w'.db ≡ db
unfolding pure
then_pure db (ok a, w) g env w' e back h = cc
then_pure db (err x, w) g env w' e back h = ground (arith, back x w refl)

pub RollsBack-then_pure :
    {A B : Type 0} (m : Action A) (g : A → B) → RollsBack m → RollsBack (m >>= λ a. pure (g a))
unfolding ◌>>=◌
RollsBack-then_pure m g back = record {
  at = λ env w w' e h. then_pure w.db (m env w) g env w' e (λ x v p. back.at env w v x p) h;
}
