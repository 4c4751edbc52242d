-- ===== src/Invariant/Keyed.antt =====
-- PRIMARY KEY (user_id, source) of `user_entitlements`, kept by every operation on the table.
use subscription_reconciler.Base.{String, ◌≡◌, refl, Bool, Option, none, some, List, [], ◌∷◌, arith}
use subscription_reconciler.Base.Lists.{find?, update_where}
use subscription_reconciler.Clock.{Time}
use subscription_reconciler.Invariant.Preserves.{Preserves}
use subscription_reconciler.Invariant.Statements.{Preserves-of}
use subscription_reconciler.Postgres.Client.Upsert.Effect.{upsert_effect, effect_on}
use subscription_reconciler.Postgres.Models.{Db, UserEntitlement}
use subscription_reconciler.Postgres.Queries.CarrierClaims.{is_claimed, polled_at}
use subscription_reconciler.Postgres.Queries.Entitlements.{
  UpsertEntitlementParams, find_entitlement, is_key, overwrite,
}
use subscription_reconciler.Postgres.Queries.Entitlements.Keyed.{IsKeyed}

abbrev pub HasKeys : Db → Type 0
HasKeys db = IsKeyed db.user_entitlements

-- An update that keeps the keys of the rows finds none where none was.
module _ (hit : UserEntitlement → Bool) (f : UserEntitlement → UserEntitlement)
    (same_user : (r : UserEntitlement) → (f r).user_id ≡ r.user_id)
    (same_source : (r : UserEntitlement) → (f r).source ≡ r.source) where
  absent-update_where :
      (u s : String) (rows : List UserEntitlement)
      → find? (is_key u s) rows ≡ none
      → find? (is_key u s) (update_where hit f rows) ≡ none
  absent-update_where u s [] h = refl
  absent-update_where u s (r ∷ rows) h =
      ground (arith, same_user r, same_source r, absent-update_where u s rows)

  pub IsKeyed-update_where :
      (rows : List UserEntitlement) → IsKeyed rows → IsKeyed (update_where hit f rows)
  IsKeyed-update_where [] k = tt
  IsKeyed-update_where (r ∷ rows) (fresh, k) = ground (
    arith,
    same_user r,
    same_source r,
    absent-update_where r.user_id r.source rows fresh,
    IsKeyed-update_where rows k,
  )

effect_on-HasKeys :
    (o : Option UserEntitlement) (now : Time) (p : UpsertEntitlementParams)
    (trigger : Option String) (db : Db)
    → find_entitlement p.user_id p.source db ≡ o
    → HasKeys db
    → HasKeys (effect_on o now p trigger db).1
effect_on-HasKeys none now p trigger db e k = (e, k)
effect_on-HasKeys (some r) now p trigger db e k = ground (
  arith,
  IsKeyed-update_where (is_key p.user_id p.source) (overwrite now p) (λ r. refl) (λ r. refl)
      db.user_entitlements k,
)

upsert_effect-HasKeys :
    (now : Time) (p : UpsertEntitlementParams) (trigger : Option String) (db : Db)
    → HasKeys db
    → HasKeys (upsert_effect now p trigger db).1
unfolding upsert_effect
upsert_effect-HasKeys now p trigger db k = effect_on-HasKeys _ now p trigger db refl k

pub Preserves-HasKeys : (source : String) → Preserves HasKeys source
Preserves-HasKeys source =
    Preserves-of (λ db db' rows logs k. rw rows k) source
      (λ now p trigger db same k. upsert_effect-HasKeys now p trigger db k)
      (λ due now db k.
        IsKeyed-update_where (is_claimed due) (polled_at now) (λ r. refl) (λ r. refl)
          db.user_entitlements k)
