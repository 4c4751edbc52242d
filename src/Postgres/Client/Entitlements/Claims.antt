-- ===== src/Postgres/Client/Entitlements/Claims.antt =====
-- What a claim of carrier entitlements that returns has done.
use subscription_reconciler.Base.{
  ◌≡◌, ◌≢◌, refl, ap, subst, sym, ◌∙◌, ◌≤◌, ◌<◌, Bool, true, not, some, List, [], ◌∷◌, map, ◌&&◌,
  ◌==◌, ==_refl, arith,
}
use subscription_reconciler.Base.Int.{ℤ, pos, negsuc}
use subscription_reconciler.Base.Lists.{
  All, All-take, All-sort_by, All-map, any, filter, sort_by, take, update_where,
}
use subscription_reconciler.Clock.{Time}
use subscription_reconciler.Postgres.Client.Entitlements.{claim_due_carrier_entitlements}
use subscription_reconciler.Postgres.Models.{Db, UserEntitlement}
use subscription_reconciler.Postgres.Queries.CarrierClaims.{
  is_claimed, is_due, polled_at, claim_rows, polled_le, claim_due_carrier_entitlements as claim_due,
}
use subscription_reconciler.Postgres.Queries.CarrierClaims.Stale.{
  Counts, Passed, has_carrier_row, filter-Passed, stale-Counts, stale_rows,
}
use subscription_reconciler.Postgres.Queries.Entitlements.{is_key}
use subscription_reconciler.Postgres.Queries.Limits.{limit_rows, with_rows}
use subscription_reconciler.Postgres.Session.{
  Env, World, Result, ok, err, pure, next, locked_entitlements,
}
use subscription_reconciler.Postgres.Session.Implements.{statement-ran, bind-ran}
use subscription_reconciler.Postgres.Session.Transaction.{in_transaction-ran}
use subscription_reconciler.Postgres.Types.{Entitlement, entitlement_from_gen}

abbrev wanted : Time → (UserEntitlement → Bool) → UserEntitlement → Bool
wanted due_before locked r =
    is_due (record { due_before = some due_before; batch_limit = pos 0 }) r && not (locked r)

-- The due rows that no other transaction has locked, the longest unpolled in front.
abbrev candidates : Time → (UserEntitlement → Bool) → Db → List UserEntitlement
candidates due_before locked db =
    sort_by (λ a b. polled_le a.carrier_polled_at b.carrier_polled_at a.user_id b.user_id)
      (filter (wanted due_before locked) db.user_entitlements)

selected :
    (now : Time) (r : Result (List UserEntitlement)) (rows : List UserEntitlement) (db db' : Db)
    → with_rows r (λ due. ok (claim_rows now db due)) ≡ ok (rows, db')
    → (due : List UserEntitlement) × (r ≡ ok due) × (claim_rows now db due ≡ (rows, db'))
selected now (ok due) rows db db' e = (due, refl, ground (arith, e))
selected now (err x) rows db db' e = (cc, cc, cc)

-- The rows that a claim selected, and what it did with them.
pub claim_due-ran :
    (limit : ℤ) (due_before : Time) (env : Env) (w w' : World) (ents : List Entitlement)
    → claim_due_carrier_entitlements limit due_before env w ≡ (ok ents, w')
    → (locked : UserEntitlement → Bool) × (due : List UserEntitlement) × (limit_rows limit
          (candidates due_before locked w.db)
        ≡ ok due)
      × (ents ≡ map entitlement_from_gen (claim_rows (env.db_clock w.tick) w.db due).0)
      × (w'.db ≡ (claim_rows (env.db_clock w.tick) w.db due).1)
unfolding claim_due_carrier_entitlements claim_due locked_entitlements pure
claim_due-ran limit due_before env w w' ents h =
    let (v, ran, same) = in_transaction-ran _ env w w' ents h in
    let (locked, v1, first, rest) = bind-ran _ _ env (next w) v ents ran in
    let (rows, v2, read, last) = bind-ran _ _ env v1 v ents rest in
    let begun : w.db ≡ v1.db = ground (arith, first) in
    let (due, found, marked) =
      selected _ _ rows v1.db v2.db (statement-ran _ _ env v1 v2 rows read) in
    let marked_rows : claim_rows (env.db_clock w.tick) w.db due ≡ (rows, v2.db) =
      subst (λ (db : Db). claim_rows (env.db_clock w.tick) db due ≡ (rows, v2.db)) (sym begun)
        marked in
    let returned : map entitlement_from_gen rows ≡ ents = ground (arith, last) in
    let ended : v2.db ≡ v.db = ground (arith, last) in
    (
      locked,
      due,
      ground (arith, found, begun),
      sym returned
          ∙ ap (λ (x : List UserEntitlement × Db). map entitlement_from_gen x.0) (sym marked_rows),
      sym same ∙ sym ended ∙ ap (λ (x : List UserEntitlement × Db). x.1) (sym marked_rows),
    )

module _ (now cut due_before : Time) (locked : UserEntitlement → Bool) (db : Db) (later : cut < now)
    (early : due_before ≤ cut) where
  abbrev Takes : UserEntitlement → Type 0
  Takes = Passed (wanted due_before locked) (Counts cut now later db.user_entitlements)

  pub due_rows :
      (limit : ℤ) (due : List UserEntitlement)
      → limit_rows limit (candidates due_before locked db) ≡ ok due
      → All Takes due
  unfolding limit_rows
  due_rows (pos n) due e =
      let same : take n (candidates due_before locked db) ≡ due = ground (arith, e) in
      subst (All Takes) same (
        All-take Takes n (candidates due_before locked db) (
          All-sort_by Takes _ _ (
            filter-Passed (wanted due_before locked) _ db.user_entitlements
              (stale-Counts cut now later db.user_entitlements))))
  due_rows (negsuc n) due e = cc

  nothing_claimed : (rows : List UserEntitlement) → filter (is_claimed []) rows ≡ []
  nothing_claimed [] = refl
  nothing_claimed (r ∷ rows) = ground (arith, nothing_claimed rows)

  -- A claim that hands out a row takes a stale one off.
  pub claimed_fewer :
      (due : List UserEntitlement)
      → All Takes due
      → (claim_rows now db due).0 ≢ []
      → stale_rows cut (claim_rows now db due).1 < stale_rows cut db
  claimed_fewer [] a some_row = absurd (
      some_row
        (nothing_claimed (update_where (is_claimed []) (polled_at now) db.user_entitlements)))
  claimed_fewer (d ∷ due) ((counts, passed), a) some_row =
      counts (is_claimed (d ∷ due)) (ground (arith, passed, ==_refl d.user_id))
        (ground (arith, passed, early))

-- A carrier row makes its user known.
known_users :
    (rows : List UserEntitlement)
    → All (λ r. (r.source == "CARRIER") ≡ true → any (is_key r.user_id "CARRIER") rows ≡ true) rows
known_users [] = tt
known_users (r ∷ rows) = (
  λ e. ground (arith, e, ==_refl r.user_id),
  All-map (λ d. (d.source == "CARRIER") ≡ true → any (is_key d.user_id "CARRIER") rows ≡ true)
      (λ d. (d.source == "CARRIER") ≡ true → any (is_key d.user_id "CARRIER") (r ∷ rows) ≡ true)
      (λ d k e. ground (arith, k e)) rows (known_users rows),
)

abbrev pub AreKnown : Db → List Entitlement → Type 0
AreKnown db ents = All (λ e. has_carrier_row e.user_id db ≡ true) ents

converted :
    (db : Db) (rows : List UserEntitlement)
    → All (λ r. has_carrier_row r.user_id db ≡ true) rows
    → AreKnown db (map entitlement_from_gen rows)
converted db [] a = tt
converted db (r ∷ rows) (h, a) = (h, converted db rows a)

-- What a claim hands out are users with a carrier row.
pub claimed-AreKnown :
    (now : Time) (due : List UserEntitlement) (db : Db)
    → AreKnown (claim_rows now db due).1 (map entitlement_from_gen (claim_rows now db due).0)
claimed-AreKnown now due db =
    let rows = update_where (is_claimed due) (polled_at now) db.user_entitlements in
    converted (claim_rows now db due).1 (filter (is_claimed due) rows) (
      All-map _ _ (λ r (known, claimed). known (ground (arith, claimed)))
        (filter (is_claimed due) rows) (filter-Passed (is_claimed due) _ rows (known_users rows)))
