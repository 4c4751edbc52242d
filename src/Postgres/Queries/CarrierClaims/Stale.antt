-- ===== src/Postgres/Queries/CarrierClaims/Stale.antt =====
-- The carrier rows that a claim finds stale, and how claims and upserts move their number.
use subscription_reconciler.Base.{
  ℕ, String, ◌≡◌, refl, ◌≤◌, ◌<◌, Bool, true, false, Option, none, some, List, [], ◌∷◌, ◌&&◌, ◌==◌,
  if◌then◌else◌, arith,
}
use subscription_reconciler.Base.Lists.{All, All-map, any, count_where, filter, find?, update_where}
use subscription_reconciler.Clock.{Time}
use subscription_reconciler.Postgres.Client.Upsert.Effect.{upsert_effect, effect_on}
use subscription_reconciler.Postgres.Models.{Db, UserEntitlement}
use subscription_reconciler.Postgres.Queries.CarrierClaims.{is_stale, polled_at}
use subscription_reconciler.Postgres.Queries.Entitlements.{
  UpsertEntitlementParams, is_key, overwrite,
}

abbrev pub is_stale_carrier : Time → UserEntitlement → Bool
is_stale_carrier cut r = r.source == "CARRIER" && is_stale (some cut) r

-- The carrier rows that were not polled after `cut`, whether they give access or not.
abbrev pub stale_rows : Time → Db → ℕ
stale_rows cut db = count_where (is_stale_carrier cut) db.user_entitlements

-- The user has a carrier row.
abbrev pub has_carrier_row : String → Db → Bool
has_carrier_row user db = any (is_key user "CARRIER") db.user_entitlements

module _ (cut now : Time) (later : cut < now) where
  -- Marking rows as polled makes none stale.
  pub stale_polled :
      (c : UserEntitlement → Bool) (rows : List UserEntitlement)
      → count_where (is_stale_carrier cut) (update_where c (polled_at now) rows)
        ≤ count_where (is_stale_carrier cut) rows
  stale_polled c [] = omega arith
  stale_polled c (r ∷ rows) = ground (arith, stale_polled c rows, later)

  abbrev pub Counts : List UserEntitlement → UserEntitlement → Type 0
  Counts rows d =
      (c : UserEntitlement → Bool)
      → c d ≡ true
      → is_stale_carrier cut d ≡ true
      → count_where (is_stale_carrier cut) (update_where c (polled_at now) rows)
        < count_where (is_stale_carrier cut) rows

  -- Marking a stale row takes it off them.
  pub stale-Counts : (rows : List UserEntitlement) → All (Counts rows) rows
  stale-Counts [] = tt
  stale-Counts (r ∷ rows) = (
    λ c h s. ground (arith, stale_polled c rows, later, h, s),
    All-map (Counts rows) (Counts (r ∷ rows)) (λ d k c h s. ground (arith, k c h s, later)) rows
        (stale-Counts rows),
  )

-- What a filter lets through has passed its test.
module _ (t : UserEntitlement → Bool) (P : UserEntitlement → Type 0) where
  abbrev pub Passed : UserEntitlement → Type 0
  Passed r = P r × (t r ≡ true)

  Passed-if :
      (b : Bool) (r : UserEntitlement) (rows : List UserEntitlement)
      → t r ≡ b
      → P r
      → All Passed rows
      → All Passed (if b then r ∷ rows else rows)
  Passed-if true r rows e p a = ((p, e), a)
  Passed-if false r rows e p a = a

  pub filter-Passed : (rows : List UserEntitlement) → All P rows → All Passed (filter t rows)
  filter-Passed [] a = tt
  filter-Passed (r ∷ rows) (p, a) = Passed-if (t r) r (filter t rows) refl p (filter-Passed rows a)

module _ (now : Time) (p : UpsertEntitlementParams) where
  stale_overwrite :
      (cut : Time) (u s : String) (rows : List UserEntitlement)
      → count_where (is_stale_carrier cut) (update_where (is_key u s) (overwrite now p) rows)
        ≡ count_where (is_stale_carrier cut) rows
  stale_overwrite cut u s [] = refl
  stale_overwrite cut u s (r ∷ rows) = ground (arith, stale_overwrite cut u s rows)

  carrier_overwrite :
      (v u s : String) (rows : List UserEntitlement)
      → any (is_key v "CARRIER") (update_where (is_key u s) (overwrite now p) rows)
        ≡ any (is_key v "CARRIER") rows
  carrier_overwrite v u s [] = refl
  carrier_overwrite v u s (r ∷ rows) = ground (arith, carrier_overwrite v u s rows)

found :
    (u s : String) (rows : List UserEntitlement)
    → any (is_key u s) rows ≡ true
    → find? (is_key u s) rows ≡ none
    → ⊥
found u s [] h e = cc
found u s (r ∷ rows) h e = ground (arith, found u s rows, h, e)

effect_on-stale :
    (o : Option UserEntitlement) (now cut : Time) (p : UpsertEntitlementParams)
    (trigger : Option String) (db : Db)
    → (o ≡ none → ⊥)
    → (stale_rows cut (effect_on o now p trigger db).1 ≡ stale_rows cut db)
      × ((u : String) → has_carrier_row u (effect_on o now p trigger db).1 ≡ has_carrier_row u db)
effect_on-stale none now cut p trigger db there = absurd (there refl)
effect_on-stale (some r) now cut p trigger db there = (
  ground (arith, stale_overwrite now p cut p.user_id p.source db.user_entitlements),
  λ u. ground (arith, carrier_overwrite now p u p.user_id p.source db.user_entitlements),
)

-- A change of a user's carrier row that is there leaves the stale rows and the users as they are.
pub stale-upsert_effect :
    (now cut : Time) (p : UpsertEntitlementParams) (trigger : Option String) (db : Db)
    → p.source ≡ "CARRIER"
    → has_carrier_row p.user_id db ≡ true
    → (stale_rows cut (upsert_effect now p trigger db).1 ≡ stale_rows cut db)
      × ((u : String) → has_carrier_row u (upsert_effect now p trigger db).1 ≡ has_carrier_row u db)
unfolding upsert_effect
stale-upsert_effect now cut p trigger db same there =
    effect_on-stale _ now cut p trigger db
      (found p.user_id p.source db.user_entitlements (rw same there))
