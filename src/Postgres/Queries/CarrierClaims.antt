-- ===== src/Postgres/Queries/CarrierClaims.antt =====
-- internal/infrastructure/postgres/gen/entitlements.sql.go: ClaimDueCarrierEntitlements.
pub mod Stale
use Prim.Native.Nat.{Ordering}
use Prim.Native.String
use subscription_reconciler.Base.{
  String, Bool, true, false, not, Option, none, some, List, ◌&&◌, ◌||◌, ◌==◌, ltb, leb, eqb,
}
use subscription_reconciler.Base.Int.{ℤ}
use subscription_reconciler.Base.Lists.{filter, any, sort_by, update_where}
use subscription_reconciler.Clock.{Time}
use subscription_reconciler.Postgres.Models.{Db, UserEntitlement}
use subscription_reconciler.Postgres.Session.{Result, ok}
use subscription_reconciler.Postgres.Queries.Limits.{limit_rows, with_rows}

pub record ClaimDueCarrierEntitlementsParams : Type 0 where
  pub due_before : Option Time
  pub batch_limit : ℤ

-- carrier_polled_at IS NULL OR carrier_polled_at <= $1
abbrev pub is_stale : Option Time → UserEntitlement → Bool
is_stale none r = elim r.carrier_polled_at [ none ↦ true | some t ↦ false ]
is_stale (some cut) r = elim r.carrier_polled_at [ none ↦ true | some t ↦ leb t cut ]

abbrev pub is_due : ClaimDueCarrierEntitlementsParams → UserEntitlement → Bool
is_due p r = r.source == "CARRIER" && (r.active && is_stale p.due_before r)

string_le : String → String → Bool
string_le s t = elim (String.compare s t) [ Ordering.gt ↦ false | _ ↦ true ]

-- NULLS FIRST, then by the time, then by the user.
pub polled_le : Option Time → Option Time → String → String → Bool
unfolding string_le
polled_le none none u v = string_le u v
polled_le none (some b) u v = true
polled_le (some a) none u v = false
polled_le (some a) (some b) u v = ltb a b || (eqb a b && string_le u v)

-- The rows of `user_entitlements` that the UPDATE joins with `due`.
abbrev pub is_claimed : List UserEntitlement → UserEntitlement → Bool
is_claimed due r = any (λ d. r.user_id == d.user_id) due && r.source == "CARRIER"

abbrev pub polled_at : Time → UserEntitlement → UserEntitlement
polled_at now r = record r { carrier_polled_at = some now }

abbrev pub claim_rows : Time → Db → List UserEntitlement → List UserEntitlement × Db
claim_rows now db due =
    let rows = update_where (is_claimed due) (polled_at now) db.user_entitlements in
    (filter (is_claimed due) rows, record db { user_entitlements = rows })

unfoldable pub claim_due_carrier_entitlements :
    (UserEntitlement → Bool)
    → ClaimDueCarrierEntitlementsParams
    → Time
    → Db
    → Result (List UserEntitlement × Db)
unfolding polled_le
claim_due_carrier_entitlements locked p now db =
    with_rows
      (limit_rows p.batch_limit (
        sort_by (λ a b. polled_le a.carrier_polled_at b.carrier_polled_at a.user_id b.user_id)
          (filter (λ r. is_due p r && not (locked r)) db.user_entitlements)))
      (λ due. ok (claim_rows now db due))
