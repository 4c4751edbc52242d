-- ===== src/Postgres/Queries/Entitlements/Keyed.antt =====
-- PRIMARY KEY (user_id, source), and what the expiration statement does under it.
use subscription_reconciler.Base.{
  ℕ, ◌+◌, String, ◌≡◌, refl, true, false, Bool, Option, none, some, List, [], ◌∷◌, ◌&&◌, ◌==◌,
  ==_iff, ==_refl, if◌then◌else◌, arith,
}
use subscription_reconciler.Base.Lists.{find?, update_where, count_where, All, All-map}
use subscription_reconciler.Clock.{Time}
use subscription_reconciler.Postgres.Models.{UserEntitlement}
use subscription_reconciler.Postgres.Queries.Entitlements.{
  is_key, is_expired, expire_row, ExpireEntitlementParams,
}

abbrev pub IsKeyed : List UserEntitlement → Type 0
IsKeyed [] = Unit {0}
IsKeyed (r ∷ rows) = (find? (is_key r.user_id r.source) rows ≡ none) × IsKeyed rows

-- Each row is the one that its key finds.
pub found_by_key :
    (rows : List UserEntitlement)
    → IsKeyed rows
    → All (λ r. find? (is_key r.user_id r.source) rows ≡ some r) rows
found_by_key [] k = tt
found_by_key (r ∷ rows) (fresh, k) = (
  ground (arith, ==_refl r.user_id, ==_refl r.source),
  All-map _ _ below rows (found_by_key rows k),
)
  where
    below :
        (x : UserEntitlement)
        → find? (is_key x.user_id x.source) rows ≡ some x
        → find? (is_key x.user_id x.source) (r ∷ rows) ≡ some x
    below x h = ground (arith, h, fresh, ==_iff r.user_id x.user_id, ==_iff r.source x.source)

-- The rows that ExpireEntitlement hits.
abbrev pub is_hit : Time → String → String → UserEntitlement → Bool
is_hit now u s r = is_key u s r && is_expired now r

none_hit :
    (now : Time) (u s : String) (rows : List UserEntitlement)
    → find? (is_key u s) rows ≡ none
    → count_where (is_hit now u s) rows ≡ 0
none_hit now u s [] h = refl
none_hit now u s (r ∷ rows) h = ground (arith, h, none_hit now u s rows)

abbrev pub hits : Time → Option UserEntitlement → ℕ
hits now none = 0
hits now (some r) = if is_expired now r then 1 else 0

-- It hits the row of the key, if that has expired, and no other.
pub count_hits :
    (now : Time) (u s : String) (rows : List UserEntitlement)
    → IsKeyed rows
    → count_where (is_hit now u s) rows ≡ hits now (find? (is_key u s) rows)
count_hits now u s [] k = refl
count_hits now u s (r ∷ rows) (fresh, k) =
    ground (
      arith,
      ==_iff r.user_id u,
      ==_iff r.source s,
      none_hit now u s rows,
      count_hits now u s rows k,
    )

-- Every row that it hits leaves the rows of a kind that the expired ones are of and that no
-- inactive one is of.
module _ (now : Time) (kind : UserEntitlement → Bool)
    (covers : (r : UserEntitlement) → is_expired now r ≡ true → kind r ≡ true)
    (cleared : (p : ExpireEntitlementParams) (r : UserEntitlement)
      → kind (expire_row now p r) ≡ false) where
  pub hit_accounts :
      (p : ExpireEntitlementParams) (u s : String) (rows : List UserEntitlement)
      → count_where kind (update_where (is_hit now u s) (expire_row now p) rows)
          + count_where (is_hit now u s) rows
        ≡ count_where kind rows
  hit_accounts p u s [] = refl
  hit_accounts p u s (r ∷ rows) = ground (arith, covers r, cleared p r, hit_accounts p u s rows)

abbrev pub expired_if_hit :
    Time → ExpireEntitlementParams → Option UserEntitlement → Option UserEntitlement
expired_if_hit now p none = none
expired_if_hit now p (some r) = if is_expired now r then some (expire_row now p r) else some r

pub find?-expire :
    (now : Time) (p : ExpireEntitlementParams) (u s u' s' : String) (rows : List UserEntitlement)
    → find? (is_key u' s') (update_where (is_hit now u s) (expire_row now p) rows) ≡ (
        if u == u' && s == s'
        then expired_if_hit now p (find? (is_key u' s') rows)
        else find? (is_key u' s') rows)
find?-expire now p u s u' s' [] = ground arith
find?-expire now p u s u' s' (r ∷ rows) = ground (
  arith,
  ==_iff r.user_id u,
  ==_iff r.user_id u',
  ==_iff r.source s,
  ==_iff r.source s',
  ==_iff u u',
  ==_iff s s',
  find?-expire now p u s u' s' rows,
)

pub IsKeyed-expire :
    (now : Time) (p : ExpireEntitlementParams) (u s : String) (rows : List UserEntitlement)
    → IsKeyed rows
    → IsKeyed (update_where (is_hit now u s) (expire_row now p) rows)
IsKeyed-expire now p u s [] k = tt
IsKeyed-expire now p u s (r ∷ rows) (fresh, k) =
    ground (arith, find?-expire now p u s r.user_id r.source rows, IsKeyed-expire now p u s rows k)
