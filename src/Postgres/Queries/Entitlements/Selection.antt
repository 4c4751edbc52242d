-- ===== src/Postgres/Queries/Entitlements/Selection.antt =====
-- Selections by WHERE, ORDER BY and LIMIT: their keys and their length.
use subscription_reconciler.Base.{
  ℕ, zero, suc, ◌<◌, ◌≡◌, refl, Bool, false, none, List, [], ◌∷◌, ==_iff, arith,
}
use subscription_reconciler.Base.Lists.{
  count_where, filter, find?, insert_by, length, sort_by, take,
}
use subscription_reconciler.Postgres.Models.{UserEntitlement}
use subscription_reconciler.Postgres.Queries.Entitlements.{is_key}
use subscription_reconciler.Postgres.Queries.Entitlements.Keyed.{IsKeyed}

-- The rows of a selection have keys of their own.
find?-filter :
    (p t : UserEntitlement → Bool) (rows : List UserEntitlement)
    → find? p rows ≡ none
    → find? p (filter t rows) ≡ none
find?-filter p t [] h = refl
find?-filter p t (r ∷ rows) h = ground (arith, find?-filter p t rows, h)

pub IsKeyed-filter :
    (t : UserEntitlement → Bool) (rows : List UserEntitlement)
    → IsKeyed rows
    → IsKeyed (filter t rows)
IsKeyed-filter t [] k = tt
IsKeyed-filter t (r ∷ rows) (fresh, k) =
    ground (arith, find?-filter (is_key r.user_id r.source) t rows fresh, IsKeyed-filter t rows k)

find?-take :
    (p : UserEntitlement → Bool) (n : ℕ) (rows : List UserEntitlement)
    → find? p rows ≡ none
    → find? p (take n rows) ≡ none
find?-take p zero rows h = refl
find?-take p (suc n) [] h = refl
find?-take p (suc n) (r ∷ rows) h = ground (arith, find?-take p n rows, h)

pub IsKeyed-take : (n : ℕ) (rows : List UserEntitlement) → IsKeyed rows → IsKeyed (take n rows)
IsKeyed-take zero rows k = tt
IsKeyed-take (suc n) [] k = tt
IsKeyed-take (suc n) (r ∷ rows) (fresh, k) =
    (find?-take (is_key r.user_id r.source) n rows fresh, IsKeyed-take n rows k)

module _ (le : UserEntitlement → UserEntitlement → Bool) where
  find?-insert_by :
      (p : UserEntitlement → Bool) (x : UserEntitlement) (rows : List UserEntitlement)
      → p x ≡ false
      → find? p rows ≡ none
      → find? p (insert_by le x rows) ≡ none
  find?-insert_by p x [] e h = ground (arith, e)
  find?-insert_by p x (r ∷ rows) e h = ground (arith, e, h, find?-insert_by p x rows)

  IsKeyed-insert_by :
      (x : UserEntitlement) (rows : List UserEntitlement)
      → find? (is_key x.user_id x.source) rows ≡ none
      → IsKeyed rows
      → IsKeyed (insert_by le x rows)
  IsKeyed-insert_by x [] h k = (refl, tt)
  IsKeyed-insert_by x (r ∷ rows) h (fresh, k) = ground (
    arith,
    h,
    fresh,
    k,
    ==_iff r.user_id x.user_id,
    ==_iff r.source x.source,
    ==_iff x.user_id r.user_id,
    ==_iff x.source r.source,
    find?-insert_by (is_key r.user_id r.source) x rows,
    IsKeyed-insert_by x rows,
  )

  find?-sort_by :
      (p : UserEntitlement → Bool) (rows : List UserEntitlement)
      → find? p rows ≡ none
      → find? p (sort_by le rows) ≡ none
  find?-sort_by p [] h = refl
  find?-sort_by p (r ∷ rows) h =
      ground (arith, h, find?-sort_by p rows, find?-insert_by p r (sort_by le rows))

  pub IsKeyed-sort_by : (rows : List UserEntitlement) → IsKeyed rows → IsKeyed (sort_by le rows)
  IsKeyed-sort_by [] k = tt
  IsKeyed-sort_by (r ∷ rows) (fresh, k) =
      IsKeyed-insert_by r (sort_by le rows) (find?-sort_by (is_key r.user_id r.source) rows fresh)
        (IsKeyed-sort_by rows k)

  length-insert_by :
      (x : UserEntitlement) (rows : List UserEntitlement)
      → length (insert_by le x rows) ≡ suc (length rows)
  length-insert_by x [] = refl
  length-insert_by x (r ∷ rows) = ground (arith, length-insert_by x rows)

  pub length-sort_by : (rows : List UserEntitlement) → length (sort_by le rows) ≡ length rows
  length-sort_by [] = refl
  length-sort_by (r ∷ rows) =
      omega (arith, length-insert_by r (sort_by le rows), length-sort_by rows)

pub length-filter :
    (t : UserEntitlement → Bool) (rows : List UserEntitlement)
    → length (filter t rows) ≡ count_where t rows
length-filter t [] = refl
length-filter t (r ∷ rows) = ground (arith, length-filter t rows)

pub length-take :
    (n : ℕ) (rows : List UserEntitlement)
    → length (take n rows) < n
    → length (take n rows) ≡ length rows
length-take zero rows h = absurd (omega (arith, h))
length-take (suc n) [] h = refl
length-take (suc n) (r ∷ rows) h = omega (arith, h, length-take n rows)
