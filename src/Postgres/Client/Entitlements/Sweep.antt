-- ===== src/Postgres/Client/Entitlements/Sweep.antt =====
-- The expiration sweep as a function on the tables, and its account.
use subscription_reconciler.Base.{
  ℕ, ◌+◌, subst, sym, ap, ◌≤◌, ◌≡◌, refl, Bool, true, false, not, Option, none, some, List, [], ◌∷◌,
  ◌&&◌, eqb, if◌then◌else◌, arith, Bool-cases, inl, inr,
}
use subscription_reconciler.Base.Int.{ℤ, pos, leb_ℤ}
use subscription_reconciler.Base.Lists.{sort_by, filter, count_where, find?, update_where}
use subscription_reconciler.Clock.{Time}
use subscription_reconciler.Postgres.Client.Entitlements.{
  expire_at, expire_one, expire_all, reconcile_batch, reconcile_expired_entitlements, expire_params,
  expire_transition,
}
use subscription_reconciler.Postgres.Client.Upsert.Effect.{logged}
use subscription_reconciler.Postgres.Models.{Db, UserEntitlement}
use subscription_reconciler.Postgres.Queries.AuditLogs.{insert_audit_log}
use subscription_reconciler.Postgres.Queries.Entitlements
use subscription_reconciler.Postgres.Queries.Entitlements.{
  ExpireEntitlementParams, expire_entitlement, expire_row, is_expired, is_key, time_le,
}
use subscription_reconciler.Postgres.Queries.Entitlements.Keyed.{
  IsKeyed, is_hit, hits, count_hits, hit_accounts, IsKeyed-expire,
}
use subscription_reconciler.Postgres.Queries.Limits.{with_rows, limit_rows}
use subscription_reconciler.Postgres.Session.{
  Env, World, Result, ok, err, ◌>>=◌, statement, pure, next, locked_entitlements,
}
use subscription_reconciler.Postgres.Session.Implements.{
  Implements, Implements-bind, Implements-pure, statement-ran, bind-ran,
}
use subscription_reconciler.Postgres.Session.Transaction.{in_transaction-ran}

-- The rows that have expired and still give access.
abbrev pub expired : Time → Db → ℕ
expired now db = count_where (is_expired now) db.user_entitlements

abbrev pub expire_effect : Time → UserEntitlement → Option Time → Db → Bool × Db
expire_effect now row none db = (false, db)
expire_effect now row (some t) db =
    let hit = is_hit now row.user_id row.source in
    let db' = record db {
      user_entitlements =
          update_where hit (expire_row now (expire_params row t)) db.user_entitlements;
    } in
    if eqb (count_where hit db.user_entitlements) 0
    then (false, db')
    else (true, logged now (expire_transition row) db')

unfoldable pub sweep_effect : Time → List UserEntitlement → ℕ → Db → ℕ × Db
sweep_effect now [] n db = (n, db)
sweep_effect now (row ∷ rows) n db =
    let (done, db') = expire_effect now row row.expires_at db in
    sweep_effect now rows (if done then n + 1 else n) db'

expire_one-Implements :
    (now : Time) (row : UserEntitlement) (o : Option Time)
    → Implements (expire_one (some now) row o) (expire_effect now row o)
unfolding expire_one expire_at ◌>>=◌ statement expire_entitlement insert_audit_log pure
expire_one-Implements now row none = record { at = λ env w w' a h. ground arith }
expire_one-Implements now row (some t) = record { at = λ env w w' a h. ground arith }

pub expire_all-Implements :
    (now : Time) (rows : List UserEntitlement) (n : ℕ)
    → Implements (expire_all (some now) rows n) (sweep_effect now rows n)
unfolding expire_all sweep_effect
expire_all-Implements now [] n = Implements-pure n
expire_all-Implements now (row ∷ rows) n =
    Implements-bind (expire_effect now row row.expires_at) _
      (expire_one-Implements now row row.expires_at)
      λ done. expire_all-Implements now rows (if done then n + 1 else n)

hits_le : (now : Time) (o : Option UserEntitlement) → hits now o ≤ 1
hits_le now none = omega arith
hits_le now (some r) = ground arith

plus_if : (b : Bool) (n : ℕ) → (if b then n + 1 else n) ≡ (if b then 1 else 0) + n
plus_if true n = omega arith
plus_if false n = omega arith

module _ (now : Time) (kind : UserEntitlement → Bool)
    (covers : (r : UserEntitlement) → is_expired now r ≡ true → kind r ≡ true)
    (cleared : (p : ExpireEntitlementParams) (r : UserEntitlement)
      → kind (expire_row now p r) ≡ false) where
  step_accounts :
      (row : UserEntitlement) (o : Option Time) (db : Db)
      → IsKeyed db.user_entitlements
      → (count_where kind (expire_effect now row o db).1.user_entitlements
            + (if (expire_effect now row o db).0 then 1 else 0)
          ≡ count_where kind db.user_entitlements)
        × IsKeyed (expire_effect now row o db).1.user_entitlements
  step_accounts row none db k = (omega arith, k)
  step_accounts row (some t) db k = ground (
    arith,
    count_hits now row.user_id row.source db.user_entitlements k,
    hit_accounts now kind covers cleared (expire_params row t) row.user_id row.source
        db.user_entitlements,
    IsKeyed-expire now (expire_params row t) row.user_id row.source db.user_entitlements k,
    hits_le now (find? (is_key row.user_id row.source) db.user_entitlements),
  )

  -- The sweep counts the rows of the kind that it takes away, and keeps the key.
  sweep_accounts :
      (rows : List UserEntitlement) (n : ℕ) (db : Db)
      → IsKeyed db.user_entitlements
      → (count_where kind (sweep_effect now rows n db).1.user_entitlements
            + (sweep_effect now rows n db).0
          ≡ count_where kind db.user_entitlements + n)
        × IsKeyed (sweep_effect now rows n db).1.user_entitlements
  unfolding sweep_effect
  sweep_accounts [] n db k = (refl, k)
  sweep_accounts (row ∷ rows) n db k =
      let (done, left) = step_accounts row row.expires_at db k in
      let (rest, keyed) =
        sweep_accounts rows (if (expire_effect now row row.expires_at db).0 then n + 1 else n)
          (expire_effect now row row.expires_at db).1 left in
      let counts = plus_if (expire_effect now row row.expires_at db).0 n in
      (omega (arith, done, rest, counts), keyed)

selected :
    (r : Result (List UserEntitlement)) (rows : List UserEntitlement) (db db' : Db)
    → with_rows {B = List UserEntitlement × Db} r (λ found. ok (found, db)) ≡ ok (rows, db')
    → (r ≡ ok rows) × (db ≡ db')
selected (ok found) rows db db' e = (ground arith, ground arith)
selected (err x) rows db db' e = (cc, cc)

-- The expired rows that no other transaction has locked, the first to expire in front.
abbrev pub candidates : (UserEntitlement → Bool) → Time → Db → List UserEntitlement
candidates locked now db =
    sort_by (λ a b. time_le a.expires_at b.expires_at)
      (filter (λ r. is_expired now r && not (locked r)) db.user_entitlements)

locked_by :
    {f g : UserEntitlement → Bool} {w v : World}
    → ◌≡◌ {A = Result (UserEntitlement → Bool) × World} (ok f, w) (ok g, v)
    → (r : UserEntitlement) → g r ≡ f r
locked_by {f} e r = ap (λ (x : Result (UserEntitlement → Bool) × World). test x.0 r) (sym e)
  where
    test : Result (UserEntitlement → Bool) → UserEntitlement → Bool
    test (ok h) s = h s
    test (err x) s = false

-- A batch that returns: the rows it selected, and what it did with them.
pub reconcile_batch-ran :
    (limit : ℤ) (env : Env) (w w' : World) (n : ℕ)
    → reconcile_batch limit env w ≡ (ok n, w')
    → (locked : UserEntitlement → Bool) × (rows : List UserEntitlement) × (limit_rows limit
          (candidates locked (env.db_clock w.tick) w.db)
        ≡ ok rows)
      × ((r : UserEntitlement) → locked r ≡ env.entitlement_locked (w.tick + 1) r)
      × (sweep_effect (env.db_clock w.tick) rows 0 w.db ≡ (n, w'.db))
unfolding reconcile_batch locked_entitlements
    Entitlements.get_expired_entitlements_for_reconciliation
reconcile_batch-ran limit env w w' n h =
    let (v, ran, same) = in_transaction-ran _ env w w' n h in
    let (locked, v1, first, rest) = bind-ran _ _ env (next w) v n ran in
    let (rows, v2, read, swept) = bind-ran _ _ env v1 v n rest in
    let (found, kept) = selected _ rows v1.db v2.db (statement-ran _ _ env v1 v2 rows read) in
    let begun : w.db ≡ v1.db = ground (arith, first) in
    let done = (expire_all-Implements (env.db_clock w.tick) rows 0).at env v2 v n swept in
    (
      locked,
      rows,
      ground (arith, found, begun),
      λ r. locked_by first r,
      ground (arith, done, begun, kept, same),
    )

-- A sweep that returns, over a table with its key, took as many rows as it counts off each kind
-- that all expired rows are of and no inactive one is of.
pub reconcile_expired-kind :
    (kind : UserEntitlement → Bool) (limit : ℤ) (env : Env) (w w' : World) (n : ℕ)
    → ((r : UserEntitlement) → is_expired (env.db_clock w.tick) r ≡ true → kind r ≡ true)
    → ((p : ExpireEntitlementParams) (r : UserEntitlement)
        → kind (expire_row (env.db_clock w.tick) p r) ≡ false)
    → IsKeyed w.db.user_entitlements
    → reconcile_expired_entitlements limit env w ≡ (ok n, w')
    → (count_where kind w'.db.user_entitlements + n ≡ count_where kind w.db.user_entitlements)
      × IsKeyed w'.db.user_entitlements
unfolding reconcile_expired_entitlements pure
reconcile_expired-kind kind limit env w w' n covers cleared k h =
    elim (Bool-cases (leb_ℤ limit (pos 0))) [
      | inl none_asked ↦
          let same : w.db ≡ w'.db = ground (arith, none_asked, h) in
          let zero_done : n ≡ 0 = ground (arith, none_asked, h) in
          (
            omega (arith, zero_done, ap (λ (db : Db). count_where kind db.user_entitlements) same),
            subst (λ (db : Db). IsKeyed db.user_entitlements) same k,
          )
      | inr asked ↦
          let (locked, rows, found, held, swept) =
            reconcile_batch-ran limit env w w' n (ground (arith, asked, h)) in
          let (counted, keyed) =
            sweep_accounts (env.db_clock w.tick) kind covers cleared rows 0 w.db k in
          (
            omega (
              arith,
              counted,
              ap (λ (x : ℕ × Db). count_where kind x.1.user_entitlements) swept,
              ap (λ (x : ℕ × Db). x.0) swept,
            ),
            subst (λ (x : ℕ × Db). IsKeyed x.1.user_entitlements) swept keyed,
          )
    ]

abbrev pub active_rows : Db → ℕ
active_rows db = count_where (λ r. r.active) db.user_entitlements

-- A sweep takes as many active rows as it counts, whatever the clock.
pub reconcile_expired-active :
    (limit : ℤ) (env : Env) (w w' : World) (n : ℕ)
    → IsKeyed w.db.user_entitlements
    → reconcile_expired_entitlements limit env w ≡ (ok n, w')
    → (active_rows w'.db + n ≡ active_rows w.db) × IsKeyed w'.db.user_entitlements
reconcile_expired-active limit env w w' n k h =
    reconcile_expired-kind (λ r. r.active) limit env w w' n (λ r e. ground (arith, e)) (λ p r. refl)
      k h

-- A sweep that returns n, over a table in which no two rows share a user and a source, leaves
-- exactly n fewer rows that have expired, by the clock of its transaction, and are still active,
-- and exactly n fewer active rows: a row counted twice, or counted and left active, would make n
-- too large.
pub reconcile_expired_accounts :
    (limit : ℤ) (env : Env) (w w' : World) (n : ℕ)
    → IsKeyed w.db.user_entitlements
    → reconcile_expired_entitlements limit env w ≡ (ok n, w')
    → (expired (env.db_clock w.tick) w'.db + n ≡ expired (env.db_clock w.tick) w.db)
      × (active_rows w'.db + n ≡ active_rows w.db)
reconcile_expired_accounts limit env w w' n k h = (
  (reconcile_expired-kind (is_expired (env.db_clock w.tick)) limit env w w' n (λ r e. e)
      (λ p r. refl) k h).0,
  (reconcile_expired-active limit env w w' n k h).0,
)
