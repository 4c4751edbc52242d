-- ===== src/Postgres/Client/Entitlements/Backlog.antt =====
-- A sweep that does not fill its batch leaves nothing that has expired.
use subscription_reconciler.Base.{
  ℕ, ◌+◌, ◌<◌, ◌≡◌, refl, ap, subst, ◌∙◌, Bool, true, false, not, Option, none, some, List, [], ◌∷◌,
  ◌&&◌, ==_iff, if◌then◌else◌, arith,
}
use subscription_reconciler.Base.Int.{pos, leb_ℤ}
use subscription_reconciler.Base.Lists.{
  All, All-map, All-take, All-sort_by, count_where, find?, length, take,
}
use subscription_reconciler.Clock.{Time}
use subscription_reconciler.Postgres.Client.Entitlements.{
  reconcile_expired_entitlements, expire_params,
}
use subscription_reconciler.Postgres.Client.Entitlements.Sweep.{
  candidates, expire_effect, expired, reconcile_batch-ran, reconcile_expired_accounts, sweep_effect,
}
use subscription_reconciler.Postgres.Models.{Db, UserEntitlement}
use subscription_reconciler.Postgres.Queries.CarrierClaims.Stale.{filter-Passed}
use subscription_reconciler.Postgres.Queries.Entitlements.{find_entitlement, is_expired, is_key}
use subscription_reconciler.Postgres.Queries.Entitlements.Keyed.{
  IsKeyed, IsKeyed-expire, count_hits, find?-expire, found_by_key,
}
use subscription_reconciler.Postgres.Queries.Entitlements.Selection.{
  IsKeyed-filter, IsKeyed-take, IsKeyed-sort_by, length-filter, length-take, length-sort_by,
}
use subscription_reconciler.Postgres.Queries.Limits.{limit_rows}
use subscription_reconciler.Postgres.Session.{Env, World, ok}

-- A selected row that the sweep has still before it.
abbrev IsReady : Time → Db → UserEntitlement → Type 0
IsReady now db row =
    (find_entitlement row.user_id row.source db ≡ some row) × (is_expired now row ≡ true)

expire-done :
    (now : Time) (row : UserEntitlement) (o : Option Time) (db : Db)
    → row.expires_at ≡ o
    → IsKeyed db.user_entitlements
    → IsReady now db row
    → (expire_effect now row o db).0 ≡ true
expire-done now row none db e k (there, late) = ground (arith, e, late)
expire-done now row (some t) db e k (there, late) =
    ground (arith, there, late, count_hits now row.user_id row.source db.user_entitlements k)

none-All :
    (p : UserEntitlement → Bool) (rows : List UserEntitlement)
    → find? p rows ≡ none
    → All (λ r. p r ≡ false) rows
none-All p [] h = tt
none-All p (r ∷ rows) h = (ground (arith, h), none-All p rows (ground (arith, h)))

expire-IsReady :
    (now : Time) (row other : UserEntitlement) (o : Option Time) (db : Db)
    → is_key row.user_id row.source other ≡ false
    → IsReady now db other
    → IsReady now (expire_effect now row o db).1 other
expire-IsReady now row other none db e h = h
expire-IsReady now row other (some t) db e (there, late) = (
  ground (
    arith,
    e,
    there,
    ==_iff row.user_id other.user_id,
    ==_iff row.source other.source,
    ==_iff other.user_id row.user_id,
    ==_iff other.source row.source,
    find?-expire now (expire_params row t) row.user_id row.source other.user_id other.source
        db.user_entitlements,
  ),
  late,
)

All-IsReady :
    (now : Time) (row : UserEntitlement) (rows : List UserEntitlement) (db : Db)
    → All (λ r. is_key row.user_id row.source r ≡ false) rows
    → All (IsReady now db) rows
    → All (IsReady now (expire_effect now row row.expires_at db).1) rows
All-IsReady now row [] db a h = tt
All-IsReady now row (r ∷ rows) db (e, a) (h, k) =
    (expire-IsReady now row r row.expires_at db e h, All-IsReady now row rows db a k)

pub expire-IsKeyed :
    (now : Time) (row : UserEntitlement) (o : Option Time) (db : Db)
    → IsKeyed db.user_entitlements
    → IsKeyed (expire_effect now row o db).1.user_entitlements
expire-IsKeyed now row none db k = k
expire-IsKeyed now row (some x) db k =
    ground (
      arith,
      IsKeyed-expire now (expire_params row x) row.user_id row.source db.user_entitlements k,
    )

-- It counts every row that it has selected.
sweep_counts :
    (now : Time) (rows : List UserEntitlement) (n : ℕ) (db : Db)
    → IsKeyed db.user_entitlements
    → IsKeyed rows
    → All (IsReady now db) rows
    → (sweep_effect now rows n db).0 ≡ n + length rows
unfolding sweep_effect
sweep_counts now [] n db k d a = omega arith
sweep_counts now (row ∷ rows) n db k (fresh, d) (h, a) =
    let counted = expire-done now row row.expires_at db refl k h in
    let rest =
      sweep_counts now rows (if (expire_effect now row row.expires_at db).0 then n + 1 else n)
        (expire_effect now row row.expires_at db).1 (expire-IsKeyed now row row.expires_at db k) d
        (All-IsReady now row rows db (none-All _ rows fresh) a) in
    omega (arith, rest, ap (λ b. if b then n + 1 else n) counted)

candidates-IsReady :
    (locked : UserEntitlement → Bool) (now : Time) (db : Db)
    → IsKeyed db.user_entitlements
    → All (IsReady now db) (candidates locked now db)
candidates-IsReady locked now db k = All-sort_by _ _ _ (
    All-map _ _ (λ r (there, passed). (there, ground (arith, passed))) _
      (filter-Passed (λ r. is_expired now r && not (locked r)) _ db.user_entitlements
        (found_by_key db.user_entitlements k)))

candidates-length :
    (locked : UserEntitlement → Bool) (now : Time) (rows : List UserEntitlement)
    → ((r : UserEntitlement) → locked r ≡ false)
    → count_where (λ r. is_expired now r && not (locked r)) rows ≡ count_where (is_expired now) rows
candidates-length locked now [] free = refl
candidates-length locked now (r ∷ rows) free =
    ground (arith, free r, candidates-length locked now rows free)

-- A batch that is not full has counted every expired row.
counted_all :
    (now : Time) (locked : UserEntitlement → Bool) (limit : ℕ) (rows : List UserEntitlement)
    (db db' : Db) (n : ℕ)
    → ((r : UserEntitlement) → locked r ≡ false)
    → IsKeyed db.user_entitlements
    → n < limit
    → limit_rows (pos limit) (candidates locked now db) ≡ ok rows
    → sweep_effect now rows 0 db ≡ (n, db')
    → n ≡ expired now db
unfolding limit_rows
counted_all now locked limit rows db db' n free k few found swept =
    let all = candidates locked now db in
    let same : take limit all ≡ rows = ground (arith, found) in
    let own =
      IsKeyed-take limit all (IsKeyed-sort_by _ _ (IsKeyed-filter _ db.user_entitlements k)) in
    let ready = All-take _ limit all (candidates-IsReady locked now db k) in
    let counts =
      sweep_counts now rows 0 db k (subst IsKeyed same own)
        (subst (All (IsReady now db)) same ready) in
    let counted : n ≡ length (take limit all) =
      omega (arith, counts, ap (λ (x : ℕ × Db). x.0) swept, ap length same) in
    let whole = length-take limit all (omega (arith, counted, few)) in
    counted
    ∙ whole
    ∙ length-sort_by _ _
    ∙ length-filter _ db.user_entitlements
    ∙ candidates-length locked now db.user_entitlements free

-- A sweep that returns less than its limit, while no other transaction holds a row locked, leaves
-- no active row that had expired by the clock of its transaction.
pub reconcile_expired-all :
    (limit : ℕ) (env : Env) (w w' : World) (n : ℕ)
    → ((r : UserEntitlement) → env.entitlement_locked (w.tick + 1) r ≡ false)
    → IsKeyed w.db.user_entitlements
    → n < limit
    → reconcile_expired_entitlements (pos limit) env w ≡ (ok n, w')
    → expired (env.db_clock w.tick) w'.db ≡ 0
unfolding reconcile_expired_entitlements
reconcile_expired-all limit env w w' n free k few h =
    let asked : leb_ℤ (pos limit) (pos 0) ≡ false = ground (arith, few) in
    let (locked, rows, found, held, swept) =
      reconcile_batch-ran (pos limit) env w w' n (ground (arith, asked, h)) in
    let counted =
      counted_all (env.db_clock w.tick) locked limit rows w.db w'.db n (λ r. held r ∙ free r) k few
        found swept in
    let (left, active) = reconcile_expired_accounts (pos limit) env w w' n k h in
    omega (arith, counted, left)
