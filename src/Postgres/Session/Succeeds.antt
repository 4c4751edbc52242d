-- ===== src/Postgres/Session/Succeeds.antt =====
-- Actions that return where no call fails.
use subscription_reconciler.Base.{
  ℕ, ◌+◌, ◌≡◌, refl, String, Bool, true, false, none, some, if◌then◌else◌,
}
use subscription_reconciler.Clock.{Time}
use subscription_reconciler.Postgres.Models.{Db}
use subscription_reconciler.Postgres.Session.{
  Env, World, Result, ok, err, Action, Queries, ◌>>=◌, pure, ask, wrap, next, time_now, ctx_err,
  statement, now_of, begin, commit, atomically, in_transaction,
}

-- No call of the database fails, and the context is never cancelled.
pub record IsQuiet (env : Env) : Type 0 where
  pub no_fault : (k : ℕ) → env.fault k ≡ none
  pub no_cancel : (k : ℕ) → env.canceled k ≡ none

pub record Succeeds {A : Type 0} (env : Env) (m : Action A) : Type 0 where
  pub at : (w : World) → (a : A) × (w' : World) × (m env w ≡ (ok a, w'))

abbrev pub is_ok : {A : Type 0} → Result A → Bool
is_ok (ok a) = true
is_ok (err e) = false

value_of :
    {A : Type 0} (r : Result (A × Db)) → is_ok r ≡ true → (a : A) × (db : Db) × (r ≡ ok (a, db))
value_of (ok (a, db)) h = (a, db, refl)
value_of (err e) h = cc

module _ {env : Env} where
  pub Succeeds-pure : {A : Type 0} (a : A) → Succeeds env (pure a)
  unfolding pure
  Succeeds-pure a = record { at = λ w. (a, w, refl) }

  pub Succeeds-ask : Succeeds env ask
  unfolding ask
  Succeeds-ask = record { at = λ w. (env, w, refl) }

  pub Succeeds-time_now : Succeeds env time_now
  unfolding time_now
  Succeeds-time_now = record { at = λ w. (env.wall w.tick, next w, refl) }

  pub Succeeds-bind :
      {A B : Type 0} (m : Action A) (f : A → Action B)
      → Succeeds env m
      → ((a : A) → Succeeds env (f a))
      → Succeeds env (m >>= f)
  unfolding ◌>>=◌
  Succeeds-bind m f sm sf = record {
    at = λ w. let (a, v, e) = sm.at w in let (b, w', e') = (sf a).at v in (b, w', rw e e');
  }

  pub Succeeds-wrap :
      {A : Type 0} (text : String) (m : Action A) → Succeeds env m → Succeeds env (wrap text m)
  unfolding wrap
  Succeeds-wrap text m s = record { at = λ w. let (a, v, e) = s.at w in (a, v, rw e) }

  pub Succeeds-if :
      {A : Type 0} (b : Bool) (m n : Action A)
      → Succeeds env m
      → Succeeds env n
      → Succeeds env (if b then m else n)
  Succeeds-if true m n sm sn = sm
  Succeeds-if false m n sm sn = sn

  pub Succeeds-atomically :
      {A : Type 0} (m : Action A) → Succeeds env m → Succeeds env (atomically m)
  unfolding atomically
  Succeeds-atomically m s = record { at = λ w. let (a, v, e) = s.at w in (a, v, rw e) }

module _ {env : Env} (quiet : IsQuiet env) where
  pub Succeeds-ctx_err : Succeeds env ctx_err
  unfolding ctx_err
  Succeeds-ctx_err = record { at = λ w. (tt, next w, rw (quiet.no_cancel w.tick)) }

  pub Succeeds-begin : Succeeds env begin
  unfolding begin
  Succeeds-begin = record {
    at = λ w. (some (env.db_clock w.tick), next w, rw (quiet.no_fault w.tick));
  }

  pub Succeeds-commit : Succeeds env commit
  unfolding commit
  Succeeds-commit = record { at = λ w. (tt, next w, rw (quiet.no_fault w.tick)) }

  -- A statement that no constraint refuses.
  pub Succeeds-statement :
      {A : Type 0} (q : Queries) (f : Time → Db → Result (A × Db))
      → ((now : Time) (db : Db) → is_ok (f now db) ≡ true)
      → Succeeds env (statement q f)
  unfolding statement
  Succeeds-statement q f total = record {
    at = λ w.
        let (a, db', e) = value_of _ (total (now_of q (env.db_clock w.tick)) w.db) in
        (a, record w { db = db'; tick = w.tick + 1 }, rw (quiet.no_fault w.tick, e));
  }

  pub Succeeds-in_transaction :
      {A : Type 0} (body : Queries → Action A)
      → ((q : Queries) → Succeeds env (body q))
      → Succeeds env (in_transaction body)
  unfolding in_transaction
  Succeeds-in_transaction body s = Succeeds-atomically _ (
      Succeeds-bind _ _ Succeeds-begin
        λ q. Succeeds-bind _ _ (s q) λ a. Succeeds-bind _ _ Succeeds-commit λ u. Succeeds-pure a)
