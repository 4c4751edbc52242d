-- ===== src/Audit/Interleaved.antt =====
-- When a call of `UpsertEntitlement` that others interrupt keeps the audit trail truthful.
use subscription_reconciler.Audit.Trail.{IsTruthful, Agrees, IsChained, latest}
use subscription_reconciler.Base.{
  String, ◌≡◌, ◌↔◌, refl, subst, sym, ap, ◌∙◌, Bool, true, Option, none, some, ==_iff, arith,
}
use subscription_reconciler.Clock.{Time}
use subscription_reconciler.Postgres.Client.Upsert.Interleaved.{
  interleaved_upsert, write_effect, guarded, interleaved_upsert-Implements,
}
use subscription_reconciler.Postgres.Models.{Db, UserEntitlement}
use subscription_reconciler.Postgres.Queries.Entitlements.{
  UpsertEntitlementParams, find_entitlement, overwrite,
}
use subscription_reconciler.Postgres.Queries.Entitlements.Lookup.{find?-update_where}
use subscription_reconciler.Postgres.Session.{Env, World, ok}
use subscription_reconciler.Postgres.Types.{entitlement_from_gen}
use subscription_reconciler.Postgres.Types.Expirations.{micros-timestamptz, same_expiration-micros}
use mathlib.Core.Option

module _ (now : Time) (p : UpsertEntitlementParams) (trigger : Option String) (db : Db) where
  guarded-Agrees :
      (o row : Option UserEntitlement) (u s : String)
      → find_entitlement p.user_id p.source db ≡ o
      → (guarded o (Option.map entitlement_from_gen row) now p trigger db).0 ≡ true
      → Agrees (find_entitlement u s db) (latest u s db.audit_logs)
      → let db' = (guarded o (Option.map entitlement_from_gen row) now p trigger db).1 in
        Agrees (find_entitlement u s db') (latest u s db'.audit_logs)
  guarded-Agrees none row u s e wrote h =
      ground (arith, ==_iff p.user_id u, ==_iff p.source s, micros-timestamptz p.expires_at)
  guarded-Agrees (some r) row u s e wrote h = ground (
    arith,
    ==_iff p.user_id u,
    ==_iff p.source s,
    micros-timestamptz p.expires_at,
    find?-update_where (overwrite now p) (λ r. refl) (λ r. refl) p.user_id p.source u s
        db.user_entitlements,
  )

  guarded-IsChained :
      (o row : Option UserEntitlement)
      → (guarded o (Option.map entitlement_from_gen row) now p trigger db).0 ≡ true
      → Agrees row (latest p.user_id p.source db.audit_logs)
      → IsChained db.audit_logs
      → IsChained (guarded o (Option.map entitlement_from_gen row) now p trigger db).1.audit_logs
  guarded-IsChained none none wrote a c = ground arith
  guarded-IsChained none (some r) wrote a c = ground (
    arith,
    micros-timestamptz p.expires_at,
    micros-timestamptz r.expires_at,
    same_expiration-micros r.expires_at p.expires_at,
  )
  guarded-IsChained (some q) none wrote a c = ground arith
  guarded-IsChained (some q) (some r) wrote a c = ground (
    arith,
    micros-timestamptz p.expires_at,
    micros-timestamptz r.expires_at,
    same_expiration-micros r.expires_at p.expires_at,
  )

  guarded_read :
      (o row : Option UserEntitlement)
      → (guarded o (Option.map entitlement_from_gen row) now p trigger db).0 ≡ true
      → IsChained (guarded o (Option.map entitlement_from_gen row) now p trigger db).1.audit_logs
      → Agrees row (latest p.user_id p.source db.audit_logs)
  guarded_read none none wrote c = ground (arith, micros-timestamptz p.expires_at)
  guarded_read none (some r) wrote c = ground (arith, micros-timestamptz r.expires_at)
  guarded_read (some q) none wrote c = ground (arith, micros-timestamptz p.expires_at)
  guarded_read (some q) (some r) wrote c = ground (arith, micros-timestamptz r.expires_at)

  written-IsTruthful_iff :
      (row : Option UserEntitlement)
      → IsTruthful db
      → (guarded
          (find_entitlement p.user_id p.source db)
          (Option.map entitlement_from_gen row)
          now
          p
          trigger
          db).0
        ≡ true
      → IsTruthful
          (guarded
            (find_entitlement p.user_id p.source db)
            (Option.map entitlement_from_gen row)
            now
            p
            trigger
            db).1
        ↔ Agrees row (latest p.user_id p.source db.audit_logs)
  written-IsTruthful_iff row t wrote = (
    λ after. guarded_read _ row wrote after.chained,
    λ same. record {
      agrees = λ u s. guarded-Agrees _ row u s refl wrote (t.agrees u s);
      chained = guarded-IsChained _ row wrote same t.chained;
    },
  )

  -- A call that reports a change was not refused at its read.
  write_effect-guarded :
      (row : Option UserEntitlement)
      → (write_effect row now p trigger db).0 ≡ true
      → write_effect row now p trigger db
        ≡ guarded
            (find_entitlement p.user_id p.source db)
            (Option.map entitlement_from_gen row)
            now
            p
            trigger
            db
  unfolding write_effect
  write_effect-guarded row wrote = ground (arith, wrote)

-- A call inside a transaction that returns and reports a change, while others have committed
-- between its read and its write and have left a truthful audit trail, keeps the trail truthful
-- exactly if the row that it has read is what the newest audit row of its user and source still
-- states.
pub interleaved_upsert-IsTruthful_iff :
    (others : Db → Db) (now : Time) (p : UpsertEntitlementParams) (trigger : Option String)
    (env : Env) (w w' : World)
    → IsTruthful (others w.db)
    → interleaved_upsert others (some now) p trigger env w ≡ (ok true, w')
    → IsTruthful w'.db
      ↔ Agrees
          (find_entitlement p.user_id p.source w.db)
          (latest p.user_id p.source (others w.db).audit_logs)
interleaved_upsert-IsTruthful_iff others now p trigger env w w' t h =
    let row = find_entitlement p.user_id p.source w.db in
    let ran : write_effect row now p trigger (others w.db) ≡ (true, w'.db) =
      (interleaved_upsert-Implements others now p trigger).at env w w' true h in
    let wrote =
      sym (write_effect-guarded now p trigger (others w.db) row (ap (λ (r : Bool × Db). r.0) ran))
      ∙ ran in
    subst
      (λ (db : Db). IsTruthful db ↔ Agrees row (latest p.user_id p.source (others w.db).audit_logs))
      (ap (λ (r : Bool × Db). r.1) wrote)
      (written-IsTruthful_iff now p trigger (others w.db) row t (ap (λ (r : Bool × Db). r.0) wrote))
