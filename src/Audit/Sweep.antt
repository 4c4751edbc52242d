-- ===== src/Audit/Sweep.antt =====
-- The expiration sweep keeps the audit trail truthful.
use subscription_reconciler.Audit.Fates.{Fates, Fates-same, sweep-Fates}
use subscription_reconciler.Audit.Trail.{IsTruthful, Agrees, IsChained, latest}
use subscription_reconciler.Base.{
  ℕ, String, ◌≡◌, ◌⊎◌, refl, subst, Bool, false, Option, none, some, List, [], ◌∷◌, ==_iff, arith,
  inl, inr, Bool-cases,
}
use subscription_reconciler.Base.Int.{ℤ, pos, negsuc, leb_ℤ}
use subscription_reconciler.Base.Lists.{All, All-map, All-take, All-sort_by, All-filter, take}
use subscription_reconciler.Clock.{Time}
use subscription_reconciler.Postgres.Client.Entitlements.{
  reconcile_expired_entitlements, expire_params,
}
use subscription_reconciler.Postgres.Client.Entitlements.Backlog.{expire-IsKeyed}
use subscription_reconciler.Postgres.Client.Entitlements.Sweep.{
  expire_effect, sweep_effect, candidates, reconcile_batch-ran,
}
use subscription_reconciler.Postgres.Models.{Db, UserEntitlement}
use subscription_reconciler.Postgres.Queries.Entitlements.{find_entitlement}
use subscription_reconciler.Postgres.Queries.Entitlements.Keyed.{
  IsKeyed, count_hits, find?-expire, found_by_key,
}
use subscription_reconciler.Postgres.Queries.Limits.{limit_rows}
use subscription_reconciler.Postgres.Session.{Env, World, ok, pure}
use subscription_reconciler.Postgres.Types.Expirations.{micros-timestamptz}

-- What the table holds for a row that the sweep has selected: that row still, or one that no
-- longer gives access.
abbrev Tracks : UserEntitlement → Option UserEntitlement → Type 0
Tracks row none = Unit {0}
Tracks row (some r) = (r ≡ row) ⊎ (r.active ≡ false)

abbrev held : UserEntitlement → Db → Option UserEntitlement
held row db = find_entitlement row.user_id row.source db

expire-Agrees :
    (now : Time) (row : UserEntitlement) (o : Option Time) (db : Db) (u s : String)
    → row.expires_at ≡ o
    → IsKeyed db.user_entitlements
    → Tracks row (held row db)
    → Agrees (find_entitlement u s db) (latest u s db.audit_logs)
    → let db' = (expire_effect now row o db).1 in
      Agrees (find_entitlement u s db') (latest u s db'.audit_logs)
expire-Agrees now row none db u s e k t h = h
expire-Agrees now row (some x) db u s e k t h = ground (
  arith,
  ==_iff row.user_id u,
  ==_iff row.source s,
  count_hits now row.user_id row.source db.user_entitlements k,
  find?-expire now (expire_params row x) row.user_id row.source u s db.user_entitlements,
)

expire-IsChained :
    (now : Time) (row : UserEntitlement) (o : Option Time) (db : Db)
    → row.expires_at ≡ o
    → IsKeyed db.user_entitlements
    → Tracks row (held row db)
    → Agrees (held row db) (latest row.user_id row.source db.audit_logs)
    → IsChained db.audit_logs
    → IsChained (expire_effect now row o db).1.audit_logs
expire-IsChained now row none db e k t h c = c
expire-IsChained now row (some x) db e k t h c = ground (
  arith,
  micros-timestamptz row.expires_at,
  count_hits now row.user_id row.source db.user_entitlements k,
)

expire-Tracks :
    (now : Time) (row other : UserEntitlement) (o : Option Time) (db : Db)
    → Tracks other (held other db)
    → Tracks other (held other (expire_effect now row o db).1)
expire-Tracks now row other none db h = h
expire-Tracks now row other (some x) db h = ground (
  arith,
  find?-expire now (expire_params row x) row.user_id row.source other.user_id other.source
      db.user_entitlements,
)

sweep-IsTruthful :
    (now : Time) (rows : List UserEntitlement) (n : ℕ) (db : Db)
    → All (λ row. Tracks row (held row db)) rows
    → IsKeyed db.user_entitlements
    → IsTruthful db
    → IsTruthful (sweep_effect now rows n db).1
unfolding sweep_effect
sweep-IsTruthful now [] n db a k t = t
sweep-IsTruthful now (row ∷ rows) n db (tracked, a) k t =
    sweep-IsTruthful now rows _ (expire_effect now row row.expires_at db).1
      (All-map _ _ (λ other h. expire-Tracks now row other row.expires_at db h) rows a)
      (expire-IsKeyed now row row.expires_at db k)
      (record {
        agrees = λ u s. expire-Agrees now row row.expires_at db u s refl k tracked (t.agrees u s);
        chained =
            expire-IsChained now row row.expires_at db refl k tracked
              (t.agrees row.user_id row.source) t.chained;
      })

candidates-Tracks :
    (locked : UserEntitlement → Bool) (now : Time) (db : Db)
    → IsKeyed db.user_entitlements
    → All (λ row. Tracks row (held row db)) (candidates locked now db)
candidates-Tracks locked now db k = All-sort_by _ _ _ (
    All-filter _ _ db.user_entitlements (
      All-map (λ row. held row db ≡ some row) _ (λ row e. rw e (inl refl)) db.user_entitlements
        (found_by_key db.user_entitlements k)))

limited-Tracks :
    (limit : ℤ) (locked : UserEntitlement → Bool) (now : Time) (db : Db)
    (rows : List UserEntitlement)
    → IsKeyed db.user_entitlements
    → limit_rows limit (candidates locked now db) ≡ ok rows
    → All (λ row. Tracks row (held row db)) rows
unfolding limit_rows
limited-Tracks (negsuc n) locked now db rows k e = cc
limited-Tracks (pos n) locked now db rows k e =
    let same : take n (candidates locked now db) ≡ rows = ground (arith, e) in
    subst (λ xs. All (λ row. Tracks row (held row db)) xs) same
      (All-take _ n _ (candidates-Tracks locked now db k))

-- A sweep that returns, over a table in which no two rows share a user and a source, keeps the
-- audit trail truthful. Each row and the newest audit row of its key stay as they are, or the row
-- has expired by the clock of the sweep, gives access no longer, and its newest audit row says so;
-- no row comes or goes.
pub reconcile_expired-IsTruthful :
    (limit : ℤ) (env : Env) (w w' : World) (n : ℕ)
    → IsKeyed w.db.user_entitlements
    → IsTruthful w.db
    → reconcile_expired_entitlements limit env w ≡ (ok n, w')
    → IsTruthful w'.db × Fates (env.db_clock w.tick) w.db w'.db
unfolding reconcile_expired_entitlements pure
reconcile_expired-IsTruthful limit env w w' n k t h =
    let now = env.db_clock w.tick in
    elim (Bool-cases (leb_ℤ limit (pos 0))) [
      | inl none_asked ↦
          let same : w.db ≡ w'.db = ground (arith, none_asked, h) in
          (subst IsTruthful same t, subst (Fates now w.db) same (Fates-same now w.db))
      | inr asked ↦
          let (locked, rows, found, held_now, swept) =
            reconcile_batch-ran limit env w w' n (ground (arith, asked, h)) in
          (
            subst (λ (x : ℕ × Db). IsTruthful x.1) swept
                (sweep-IsTruthful now rows 0 w.db
                  (limited-Tracks limit locked now w.db rows k found) k t),
            subst (λ (x : ℕ × Db). Fates now w.db x.1) swept (sweep-Fates now rows 0 w.db k),
          )
    ]
