-- ===== src/Postgres/Session/KeepsOk.antt =====
-- What an action keeps of the tables where it returns. A transaction whose body does so keeps it
-- on every path, since it rolls back where it raises.
use subscription_reconciler.Base.{
  ℕ, ◌≡◌, refl, subst, String, Bool, true, false, Option, none, some, if◌then◌else◌,
}
use subscription_reconciler.Clock.{Time}
use subscription_reconciler.Postgres.Models.{Db}
use subscription_reconciler.Postgres.Session.{
  Env, World, Result, ok, err, Action, Queries, ◌>>=◌, proceed, wrap, next, answer, begin,
  atomically, rollback_on_error, in_transaction,
}
use subscription_reconciler.Postgres.Session.Implements.{Implements, wrapped}
use subscription_reconciler.Postgres.Session.Keeps.{Keeps, Keeps-bind, Keeps-commit, Keeps-pure}

pub record KeepsOk {A : Type 0} (P : Db → Type 0) (m : Action A) : Type 0 where
  pub at : (env : Env) (w w' : World) (a : A) → m env w ≡ (ok a, w') → P w.db → P w'.db

module _ {A : Type 0} {P : Db → Type 0} where
  pub KeepsOk-of_Keeps : (m : Action A) → Keeps P m → KeepsOk P m
  KeepsOk-of_Keeps m k = record {
    at = λ env w w' a e h. subst (λ (r : Result A × World). P r.1.db) e (k.at env w h);
  }

  pub KeepsOk-of_Implements :
      (m : Action A) (f : Db → A × Db)
      → Implements m f
      → ((db : Db) → P db → P (f db).1)
      → KeepsOk P m
  KeepsOk-of_Implements m f i k = record {
    at = λ env w w' a e h. subst (λ (r : A × Db). P r.1) (i.at env w w' a e) (k w.db h);
  }

  pub KeepsOk-if :
      (b : Bool) (m n : Action A) → KeepsOk P m → KeepsOk P n → KeepsOk P (if b then m else n)
  KeepsOk-if true m n km kn = km
  KeepsOk-if false m n km kn = kn

proceed-KeepsOk :
    {A B : Type 0} (P : Db → Type 0) (r : Result A × World) (f : A → Action B) (env : Env)
    (w' : World) (b : B)
    → ((a : A) (v : World) → r ≡ (ok a, v) → P v.db)
    → ((a : A) → KeepsOk P (f a))
    → proceed r (λ a w. f a env w) ≡ (ok b, w')
    → P w'.db
proceed-KeepsOk P (ok a, v) f env w' b first rest e = (rest a).at env v w' b e (first a v refl)
proceed-KeepsOk P (err x, v) f env w' b first rest e = cc

module _ {P : Db → Type 0} where
  pub KeepsOk-bind :
      {A B : Type 0} (m : Action A) (f : A → Action B)
      → KeepsOk P m
      → ((a : A) → KeepsOk P (f a))
      → KeepsOk P (m >>= f)
  unfolding ◌>>=◌
  KeepsOk-bind m f km kf = record {
    at = λ env w w' b e h.
        proceed-KeepsOk P (m env w) f env w' b (λ a v x. km.at env w v a x h) kf e;
  }

  pub KeepsOk-wrap :
      {A : Type 0} (text : String) (m : Action A) → KeepsOk P m → KeepsOk P (wrap text m)
  unfolding wrap
  KeepsOk-wrap text m k = record {
    at = λ env w w' a e h. k.at env w w' a (wrapped text (m env w) a w' e) h;
  }

rollback-Keeps :
    {A : Type 0} (P : Db → Type 0) (db : Db) (r : Result A × World)
    → P db
    → ((a : A) (v : World) → r ≡ (ok a, v) → P v.db)
    → P (rollback_on_error db r).1.db
rollback-Keeps P db (ok a, v) h k = k a v refl
rollback-Keeps P db (err x, v) h k = h

pub Keeps-atomically_ok :
    {A : Type 0} {P : Db → Type 0} (m : Action A) → KeepsOk P m → Keeps P (atomically m)
unfolding atomically
Keeps-atomically_ok {P} m k = record {
  at = λ env w h. rollback-Keeps P w.db (m env w) h (λ a v e. k.at env w v a e h);
}

begun-KeepsOk :
    {A : Type 0} (P : Db → Type 0) (o : Option ℕ) (t : Time) (w w' : World) (a : A)
    (k : Queries → World → Result A × World)
    → (k (some t) (next w) ≡ (ok a, w') → P w'.db)
    → proceed (answer o (some t) w) k ≡ (ok a, w')
    → P w'.db
begun-KeepsOk P none t w w' a k done e = done e
begun-KeepsOk P (some n) t w w' a k done e = cc

pub KeepsOk-begin :
    {A : Type 0} {P : Db → Type 0} (f : Queries → Action A)
    → ((now : Time) → KeepsOk P (f (some now)))
    → KeepsOk P (begin >>= f)
unfolding begin ◌>>=◌
KeepsOk-begin {P} f k = record {
  at = λ env w w' a e h.
      begun-KeepsOk P (env.fault w.tick) (env.db_clock w.tick) w w' a (λ q v. f q env v)
        (λ x. (k (env.db_clock w.tick)).at env (next w) w' a x h) e;
}

-- A transaction keeps what its body keeps where it returns.
pub Keeps-in_transaction_ok :
    {A : Type 0} {P : Db → Type 0} (body : Queries → Action A)
    → ((now : Time) → KeepsOk P (body (some now)))
    → Keeps P (in_transaction body)
unfolding in_transaction
Keeps-in_transaction_ok body k = Keeps-atomically_ok _ (
    KeepsOk-begin _ λ now.
      KeepsOk-bind _ _ (k now)
        λ a. KeepsOk-of_Keeps _ (Keeps-bind _ _ Keeps-commit (λ u. Keeps-pure a)))
