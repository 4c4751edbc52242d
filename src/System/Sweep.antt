-- ===== src/System/Sweep.antt =====
-- What a sweep keeps, whether it returns or fails.
use subscription_reconciler.Audit.Sweep.{reconcile_expired-IsTruthful}
use subscription_reconciler.Audit.Trail.{IsTruthful}
use subscription_reconciler.Base.{
  ℕ, ◌≡◌, subst, Bool, true, false, Option, none, some, List, [], ◌∷◌, arith, Bool-cases, inl, inr,
  eqb, if◌then◌else◌,
}
use subscription_reconciler.Base.Int.{ℤ, pos, leb_ℤ}
use subscription_reconciler.Clock.{Time}
use subscription_reconciler.Invariant.Daily.{NotifiesDaily}
use subscription_reconciler.Invariant.Keyed.{HasKeys}
use subscription_reconciler.Invariant.Preserves.{Keeps-of_RollsBack}
use subscription_reconciler.Postgres.Client.Entitlements.{
  reconcile_expired_entitlements, reconcile_batch,
}
use subscription_reconciler.Postgres.Client.Entitlements.Sweep.{
  expire_effect, sweep_effect, reconcile_batch-ran, reconcile_expired-active,
}
use subscription_reconciler.Base.Lists.{count_where}
use subscription_reconciler.Postgres.Queries.Entitlements.Keyed.{is_hit}
use subscription_reconciler.Postgres.Models.{Db, UserEntitlement, AuditLog}
use subscription_reconciler.Postgres.Session.{Env, World, ok, Action, pure}
use subscription_reconciler.Postgres.Session.Keeps.{Keeps}
use subscription_reconciler.Postgres.Session.KeepsOk.{KeepsOk}
use subscription_reconciler.Postgres.Session.RollsBack.{RollsBack, RollsBack-pure}
use subscription_reconciler.Postgres.Session.Transaction.{RollsBack-in_transaction}

RollsBack-if :
    {A : Type 0} (b : Bool) (m n : Action A)
    → RollsBack m
    → RollsBack n
    → RollsBack (if b then m else n)
RollsBack-if true m n km kn = km
RollsBack-if false m n km kn = kn

reconcile-RollsBack : (limit : ℤ) → RollsBack (reconcile_expired_entitlements limit)
unfolding reconcile_expired_entitlements reconcile_batch
reconcile-RollsBack limit = RollsBack-if _ _ _ (RollsBack-pure 0) (RollsBack-in_transaction _)

-- What does not depend on the entitlements and the audit trail.
module _ {P : Db → Type 0}
    (untouched : (db : Db) (rows : List UserEntitlement) (logs : List AuditLog) (id : ℕ)
      → P db
      → P (record db { user_entitlements = rows; audit_logs = logs; next_audit_log = id })) where
  expire-untouched :
      (now : Time) (row : UserEntitlement) (o : Option Time) (db : Db)
      → P db
      → P (expire_effect now row o db).1
  expire-untouched now row none db h = h
  expire-untouched now row (some t) db h =
      elim (Bool-cases
        (eqb (count_where (is_hit now row.user_id row.source) db.user_entitlements) 0)) [
          | inl e ↦ rw e (untouched db _ db.audit_logs db.next_audit_log h)
          | inr e ↦ rw e (untouched db _ _ _ h)
        ]

  sweep-untouched :
      (now : Time) (rows : List UserEntitlement) (n : ℕ) (db : Db)
      → P db
      → P (sweep_effect now rows n db).1
  unfolding sweep_effect
  sweep-untouched now [] n db h = h
  sweep-untouched now (row ∷ rows) n db h =
      sweep-untouched now rows _ (expire_effect now row row.expires_at db).1
        (expire-untouched now row row.expires_at db h)

  reconcile_expired-untouched :
      (limit : ℤ) (env : Env) (w w' : World) (n : ℕ)
      → P w.db
      → reconcile_expired_entitlements limit env w ≡ (ok n, w')
      → P w'.db
  unfolding reconcile_expired_entitlements pure
  reconcile_expired-untouched limit env w w' n h e = elim (Bool-cases (leb_ℤ limit (pos 0))) [
    | inl none_asked ↦ let same : w.db ≡ w'.db = ground (arith, none_asked, e) in subst P same h
    | inr asked ↦
        let (locked, rows, found, held, swept) =
          reconcile_batch-ran limit env w w' n (ground (arith, asked, e)) in
        subst (λ (x : ℕ × Db). P x.1) swept (sweep-untouched (env.db_clock w.tick) rows 0 w.db h)
  ]

  -- Whether the sweep returns or fails.
  pub Keeps-reconcile_expired : (limit : ℤ) → Keeps P (reconcile_expired_entitlements limit)
  Keeps-reconcile_expired limit =
      Keeps-of_RollsBack _ (reconcile-RollsBack limit)
        (record { at = λ env w w' n e h. reconcile_expired-untouched limit env w w' n h e })

-- The invariant of the whole database: the primary key, the truth of the audit trail, and at most
-- one notification of a kind for a user and a day.
abbrev pub IsSound : Db → Type 0
IsSound db = HasKeys db × (IsTruthful db × NotifiesDaily db)

reconcile-KeepsOk : (limit : ℤ) → KeepsOk IsSound (reconcile_expired_entitlements limit)
reconcile-KeepsOk limit = record {
  at = λ env w w' n h (keyed, (truthful, daily)). (
    (reconcile_expired-active limit env w w' n keyed h).1,
    (
      (reconcile_expired-IsTruthful limit env w w' n keyed truthful h).0,
      reconcile_expired-untouched {P = NotifiesDaily} (λ db rows logs id d. d) limit env w w' n
          daily h,
    ),
  );
}

-- A sweep keeps the database sound, whether it returns or fails.
pub reconcile_expired_entitlements-IsSound :
    (limit : ℤ) → Keeps IsSound (reconcile_expired_entitlements limit)
reconcile_expired_entitlements-IsSound limit =
    Keeps-of_RollsBack _ (reconcile-RollsBack limit) (reconcile-KeepsOk limit)
