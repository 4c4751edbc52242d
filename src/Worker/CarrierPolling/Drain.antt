-- ===== src/Worker/CarrierPolling/Drain.antt =====
-- A polling cycle ends.
use subscription_reconciler.Application.CarrierPolling.{
  CarrierClient, after_claim, carrier_change, poll_carriers_for_users, poll_users,
}
use subscription_reconciler.Base.{
  ℕ, zero, suc, ◌+◌, ◌-◌, ◌≤◌, ◌<◌, ◌≡◌, ◌≢◌, ◌∙◌, String, refl, ap, sym, subst, Bool, true, Option,
  none, some, List, [], ◌∷◌, map, inl, inr, Bool-cases, arith,
}
use subscription_reconciler.Base.Int.{pos, ltb_ℤ}
use subscription_reconciler.Clock.{Time}
use subscription_reconciler.Domain.Error.{Error}
use subscription_reconciler.Invariant.Polling.{
  after_poll-Keeps, apply_change-Keeps, poll_user-Keeps,
}
use subscription_reconciler.Invariant.Preserves.{upsert_alone-Keeps}
use subscription_reconciler.Invariant.Statements.{KeepsOk-upsert}
use subscription_reconciler.Postgres.Client.Entitlements.{claim_due_carrier_entitlements}
use subscription_reconciler.Postgres.Client.Entitlements.Claims.{
  AreKnown, claim_due-ran, claimed-AreKnown, claimed_fewer, due_rows,
}
use subscription_reconciler.Postgres.Client.Upsert.{upsert_entitlement}
use subscription_reconciler.Postgres.Models.{Db}
use subscription_reconciler.Postgres.Queries.CarrierClaims.{claim_rows}
use subscription_reconciler.Postgres.Queries.CarrierClaims.Stale.{
  has_carrier_row, stale-upsert_effect, stale_rows,
}
use subscription_reconciler.Postgres.Session.{Env, World, Result, ok, err, ◌>>◌, ctx_err, next}
use subscription_reconciler.Postgres.Session.Implements.{Implements-ctx_err, bind-ran}
use subscription_reconciler.Postgres.Session.Keeps.{Keeps}
use subscription_reconciler.Postgres.Types.{Entitlement, entitlement_from_gen}
use subscription_reconciler.Worker.CarrierPolling.{
  after_batch, carrier_polling_batch_size, carrier_polling_staleness, poll_once,
}
use subscription_reconciler.Worker.Expiration.Drain.{checked}
use subscription_reconciler.Worker.Notifications.{Cycle, out_of_fuel}

-- No more than m stale rows, and no user has lost the carrier row of `before`.
abbrev Bounded : Time → ℕ → Db → Db → Type 0
Bounded cut m before db =
    (stale_rows cut db ≤ m)
    × ((u : String) → has_carrier_row u before ≡ true → has_carrier_row u db ≡ true)

change-Bounded :
    (cut : Time) (m : ℕ) (before : Db) (ent : Entitlement)
    → has_carrier_row ent.user_id before ≡ true
    → (active : Bool) (now : Time)
    → Keeps
        (Bounded cut m before)
        (upsert_entitlement none (carrier_change ent.user_id active now) none)
unfolding carrier_change
change-Bounded cut m before ent there active now = upsert_alone-Keeps _ none (
    KeepsOk-upsert none _ none λ at db (few, known).
      let (same, users) =
        stale-upsert_effect at cut (carrier_change ent.user_id active now) none db refl
          (known ent.user_id there) in
      (omega (arith, same, few), λ u h. users u ∙ known u h))

poll_users-Bounded :
    (client : CarrierClient) (cut : Time) (m : ℕ) (before : Db) (ents : List Entitlement) (n : ℕ)
    (env : Env) (w : World)
    → AreKnown before ents
    → Bounded cut m before w.db
    → Bounded cut m before (poll_users client ents n env w).1.db
unfolding poll_users
poll_users-Bounded client cut m before [] n env w a h = h
poll_users-Bounded client cut m before (ent ∷ ents) n env w (there, a) h =
    after_poll-Keeps (Bounded cut m before) _ n _
      ((poll_user-Keeps client ent
          (apply_change-Keeps ent (change-Bounded cut m before ent there))).at
        env w h)
      (λ v. poll_users-Bounded client cut m before ents (n + 1) env v a)

cons_not_nil : {e : Entitlement} {es : List Entitlement} → (e ∷ es) ≢ []
cons_not_nil h = cc

goes_on :
    (n : ℕ) (failed : Option Error) (w : World) (k : World → Cycle × World)
    → (k w).0 ≢ out_of_fuel
    → (after_batch (record { processed = n; error = failed }, w) k).0 ≢ out_of_fuel
goes_on n (some e) w k more = cc
goes_on n none w k more = elim (Bool-cases (ltb_ℤ (pos n) carrier_polling_batch_size)) [
  | inl last ↦ rw (last, after_batch) (λ h. cc)
  | inr full ↦ rw (full, after_batch) more
]

-- Only a claim that has handed out rows leads to a further one.
claims_more :
    (client : CarrierClient) (env : Env) (x : Result (List Entitlement) × World)
    (k : World → Cycle × World)
    → ((e : Entitlement) (es : List Entitlement) (v : World)
        → x ≡ (ok (e ∷ es), v)
        → (k (poll_users client (e ∷ es) 0 env v).1).0 ≢ out_of_fuel)
    → (after_batch (after_claim x (λ ents w. poll_users client ents 0 env w)) k).0 ≢ out_of_fuel
unfolding poll_users
claims_more client env (err e, v) k more = cc
claims_more client env (ok [], v) k more = cc
claims_more client env (ok (e ∷ es), v) k more =
    let (polled, w) = poll_users client (e ∷ es) 0 env v in
    goes_on polled.processed polled.error w k (more e es v refl)

module _ (client : CarrierClient) (env : Env) (cut : Time)
    (behind : (k : ℕ) → env.wall k - carrier_polling_staleness ≤ cut)
    (ahead : (k : ℕ) → cut < env.db_clock k) where
  -- A claim that hands out rows takes a stale one off, and they belong to users with a row.
  claim_fewer :
      (due_before : Time) (w v : World) (e : Entitlement) (es : List Entitlement)
      → due_before ≤ cut
      → (do ctx_err; claim_due_carrier_entitlements carrier_polling_batch_size due_before) env w
        ≡ (ok (e ∷ es), v)
      → (stale_rows cut v.db < stale_rows cut w.db) × AreKnown v.db (e ∷ es)
  claim_fewer due_before w v e es early h =
      let (u, v1, passed, claimed) = bind-ran _ _ env w v (e ∷ es) h in
      let same : w.db ≡ v1.db =
        ap (λ (x : Unit {0} × Db). x.1) (Implements-ctx_err.at env w v1 u passed) in
      let (locked, due, found, handed, done) =
        claim_due-ran carrier_polling_batch_size due_before env v1 v (e ∷ es) claimed in
      let now = env.db_clock v1.tick in
      let some_row : (claim_rows now v1.db due).0 ≢ [] =
        (λ none_left. cons_not_nil (handed ∙ ap (map entitlement_from_gen) none_left)) in
      let fewer =
        claimed_fewer now cut due_before locked v1.db (ahead v1.tick) early due
          (due_rows now cut due_before locked v1.db (ahead v1.tick) early carrier_polling_batch_size
            due found)
          some_row in
      (
        omega (arith, fewer, ap (stale_rows cut) done, ap (stale_rows cut) same),
        subst (AreKnown v.db) (sym handed) (
            subst (λ (db : Db). AreKnown db (map entitlement_from_gen (claim_rows now v1.db due).0))
              (sym done) (claimed-AreKnown now due v1.db)),
      )

  -- A polling cycle ends: where an instant lies before every time that the clock of the database
  -- shows and no earlier than five minutes before any time that the worker's clock shows, so that
  -- no row goes stale again, with more fuel than there are stale carrier rows at that instant, it
  -- comes down to a short batch or stops at an error, and never runs out of fuel, whatever the
  -- carrier answers.
  pub poll_once_ends :
      (fuel : ℕ) (w : World)
      → stale_rows cut w.db < fuel
      → (poll_once client fuel env w).0 ≢ out_of_fuel
  unfolding poll_once poll_carriers_for_users
  poll_once_ends zero w h = absurd (omega (arith, h))
  poll_once_ends (suc fuel) w h = checked (ctx_err env w) _ λ v passed.
      let same : w.db ≡ v.db =
        ap (λ (x : Unit {0} × Db). x.1) (Implements-ctx_err.at env w v tt passed) in
      claims_more client env _ (λ w'. poll_once client fuel env w')
        λ e es u claimed.
          let (fewer, known) = claim_fewer _ (next v) u e es (behind v.tick) claimed in
          let (few, users) =
            poll_users-Bounded client cut (stale_rows cut u.db) u.db (e ∷ es) 0 env u known
              (omega arith, λ user there. there) in
          poll_once_ends fuel (poll_users client (e ∷ es) 0 env u).1
            (omega (arith, few, fewer, h, ap (stale_rows cut) same))
