-- ===== src/Postgres/Session/Implements.antt =====
-- Actions that, where they return, give the answer of a function on the tables and leave the
-- tables as it does: the rules for each way to build an action inside a transaction.
use subscription_reconciler.Base.{
  ℕ, ◌≡◌, refl, sym, ◌∙◌, ap, String, Bool, true, false, Option, none, some, if◌then◌else◌, arith,
}
use subscription_reconciler.Clock.{Time}
use subscription_reconciler.Postgres.Models.{Db}
use subscription_reconciler.Postgres.Session.{
  Env, World, Result, ok, err, Action, pure, ◌>>=◌, proceed, wrap, wrap_result, ctx_err, answer,
  run_statement, statement, commit,
}

pub record Implements {A : Type 0} (m : Action A) (f : Db → A × Db) : Type 0 where
  pub at : (env : Env) (w w' : World) (a : A) → m env w ≡ (ok a, w') → f w.db ≡ (a, w'.db)

abbrev pub seq : {A B : Type 0} → A × Db → (A → Db → B × Db) → B × Db
seq (a, db) g = g a db

pub Implements-pure : {A : Type 0} (a : A) → Implements (pure a) (λ db. (a, db))
unfolding pure
Implements-pure a = record { at = λ env w w' b h. ground arith }

proceed-Implements :
    {A B : Type 0} (f : Db → A × Db) (g : A → Db → B × Db) (db : Db) (r : Result A × World)
    (k : A → Action B) (env : Env) (w' : World) (b : B)
    → ((a : A) (v : World) → r ≡ (ok a, v) → f db ≡ (a, v.db))
    → ((a : A) → Implements (k a) (g a))
    → proceed r (λ a w. k a env w) ≡ (ok b, w')
    → seq (f db) g ≡ (b, w'.db)
proceed-Implements f g db (ok a, v) k env w' b first rest h =
    rw (first a v refl) ((rest a).at env v w' b h)
proceed-Implements f g db (err e, v) k env w' b first rest h = cc

pub Implements-bind :
    {A B : Type 0} {m : Action A} {k : A → Action B} (f : Db → A × Db) (g : A → Db → B × Db)
    → Implements m f
    → ((a : A) → Implements (k a) (g a))
    → Implements (m >>= k) (λ db. seq (f db) g)
unfolding ◌>>=◌
Implements-bind {m} {k} f g first rest = record {
  at = λ env w w' b h.
      proceed-Implements f g w.db (m env w) k env w' b (λ a v p. first.at env w v a p) rest h;
}

pub Implements-if :
    {A : Type 0} (b : Bool) {m n : Action A} (f g : Db → A × Db)
    → Implements m f
    → Implements n g
    → Implements (if b then m else n) (λ db. if b then f db else g db)
Implements-if true f g mf ng = mf
Implements-if false f g mf ng = ng

pub wrapped :
    {A : Type 0} (text : String) (r : Result A × World) (a : A) (w' : World)
    → wrap_result text r ≡ (ok a, w')
    → r ≡ (ok a, w')
wrapped text (ok x, w) a w' h = h
wrapped text (err e, w) a w' h = cc

pub Implements-wrap :
    {A : Type 0} (text : String) {m : Action A} {f : Db → A × Db}
    → Implements m f
    → Implements (wrap text m) f
unfolding wrap
Implements-wrap text {m} mf = record {
  at = λ env w w' a h. mf.at env w w' a (wrapped text (m env w) a w' h);
}

answered :
    {A : Type 0} (o : Option ℕ) (x a : A) (w w' : World)
    → answer o x w ≡ (ok a, w')
    → (x ≡ a) × (w.db ≡ w'.db)
answered none x a w w' h = (ground arith, ground arith)
answered (some n) x a w w' h = (cc, cc)

pub Implements-ctx_err : Implements ctx_err (λ db. (tt, db))
unfolding ctx_err
Implements-ctx_err = record {
  at = λ env w w' a h. ap (λ (db : Db). (tt, db)) (answered (env.canceled w.tick) tt a w w' h).1;
}

pub Implements-commit : Implements commit (λ db. (tt, db))
unfolding commit
Implements-commit = record {
  at = λ env w w' a h. ap (λ (db : Db). (tt, db)) (answered (env.fault w.tick) tt a w w' h).1;
}

ran :
    {A : Type 0} (o : Option ℕ) (r : Result (A × Db)) (a : A) (w w' : World)
    → run_statement o r w ≡ (ok a, w')
    → r ≡ ok (a, w'.db)
ran none (ok (x, db)) a w w' h = ground arith
ran none (err e) a w w' h = cc
ran (some n) r a w w' h = cc

pub statement-ran :
    {A : Type 0} (now : Time) (s : Time → Db → Result (A × Db)) (env : Env) (w w' : World) (a : A)
    → statement (some now) s env w ≡ (ok a, w')
    → s now w.db ≡ ok (a, w'.db)
unfolding statement
statement-ran now s env w w' a h = ran (env.fault w.tick) (s now w.db) a w w' h

proceed-ran :
    {A B : Type 0} (r : Result A × World) (f : A → Action B) (env : Env) (w' : World) (b : B)
    → proceed r (λ a v. f a env v) ≡ (ok b, w')
    → (a : A) × (v : World) × (r ≡ (ok a, v)) × (f a env v ≡ (ok b, w'))
proceed-ran (ok a, v) f env w' b h = (a, v, refl, h)
proceed-ran (err e, v) f env w' b h = cc

-- A block that returns ran both of its parts to their ends.
pub bind-ran :
    {A B : Type 0} (m : Action A) (f : A → Action B) (env : Env) (w w' : World) (b : B)
    → (m >>= f) env w ≡ (ok b, w')
    → (a : A) × (v : World) × (m env w ≡ (ok a, v)) × (f a env v ≡ (ok b, w'))
unfolding ◌>>=◌
bind-ran m f env w w' b h = proceed-ran (m env w) f env w' b h

-- A statement of a transaction that began at `now`.
pub Implements-statement :
    {A : Type 0} (now : Time) (s : Time → Db → Result (A × Db)) (f : Db → A × Db)
    → ((db : Db) (x : A × Db) → s now db ≡ ok x → f db ≡ x)
    → Implements (statement (some now) s) f
unfolding statement
Implements-statement now s f k = record {
  at = λ env w w' a h. k w.db (a, w'.db) (ran (env.fault w.tick) (s now w.db) a w w' h);
}

pub Implements-eq :
    {A : Type 0} (m : Action A) (f g : Db → A × Db)
    → Implements m f
    → ((db : Db) → f db ≡ g db)
    → Implements m g
Implements-eq m f g i e = record { at = λ env w w' a h. sym (e w.db) ∙ i.at env w w' a h }
