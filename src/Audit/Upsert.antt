-- ===== src/Audit/Upsert.antt =====
-- `UpsertEntitlement` keeps the audit trail truthful.
use subscription_reconciler.Base.{String, ◌≡◌, refl, Option, none, some, ==_iff, arith}
use subscription_reconciler.Audit.Trail.{IsTruthful, Agrees, IsChained, latest}
use subscription_reconciler.Clock.{Time}
use subscription_reconciler.Postgres.Client.Upsert.Effect.{upsert_effect, effect_on}
use subscription_reconciler.Postgres.Models.{Db, UserEntitlement}
use subscription_reconciler.Postgres.Queries.Entitlements.{
  UpsertEntitlementParams, find_entitlement, overwrite,
}
use subscription_reconciler.Postgres.Queries.Entitlements.Lookup.{find?-update_where}
use subscription_reconciler.Postgres.Types.Expirations.{micros-timestamptz, same_expiration-micros}

module _ (now : Time) (p : UpsertEntitlementParams) (trigger : Option String) (db : Db) where
  -- Two names for the row that the call reads: `o` is computed with, `e` says which it is.
  effect_on-Agrees :
      (o : Option UserEntitlement) (u s : String)
      → find_entitlement p.user_id p.source db ≡ o
      → Agrees (find_entitlement u s db) (latest u s db.audit_logs)
      → let db' = (effect_on o now p trigger db).1 in
        Agrees (find_entitlement u s db') (latest u s db'.audit_logs)
  effect_on-Agrees none u s e h =
      ground (arith, ==_iff p.user_id u, ==_iff p.source s, micros-timestamptz p.expires_at)
  effect_on-Agrees (some r) u s e h = ground (
    arith,
    ==_iff p.user_id u,
    ==_iff p.source s,
    micros-timestamptz p.expires_at,
    same_expiration-micros r.expires_at p.expires_at,
    find?-update_where (overwrite now p) (λ r. refl) (λ r. refl) p.user_id p.source u s
        db.user_entitlements,
  )

  effect_on-IsChained :
      (o : Option UserEntitlement)
      → find_entitlement p.user_id p.source db ≡ o
      → Agrees (find_entitlement p.user_id p.source db) (latest p.user_id p.source db.audit_logs)
      → IsChained db.audit_logs
      → IsChained (effect_on o now p trigger db).1.audit_logs
  effect_on-IsChained none e h c = ground arith
  effect_on-IsChained (some r) e h c = ground (
    arith,
    micros-timestamptz p.expires_at,
    micros-timestamptz r.expires_at,
    same_expiration-micros r.expires_at p.expires_at,
  )

  pub effect-IsTruthful : IsTruthful db → IsTruthful (upsert_effect now p trigger db).1
  unfolding upsert_effect
  effect-IsTruthful t = record {
    agrees = λ u s. effect_on-Agrees _ u s refl (t.agrees u s);
    chained = effect_on-IsChained _ refl (t.agrees p.user_id p.source) t.chained;
  }
