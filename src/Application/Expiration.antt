-- ===== src/Application/Expiration.antt =====
-- internal/application/expiration.go.
use subscription_reconciler.Base.{
  ℕ, ◌+◌, Bool, true, false, not, Option, none, some, List, [], ◌∷◌, ◌||◌, if◌then◌else◌,
}
use subscription_reconciler.Base.Int.{ℤ, pos, leb_ℤ}
use subscription_reconciler.Clock.{Time, unix_milli}
use subscription_reconciler.Domain.Entitlement.{is_active}
use subscription_reconciler.Domain.Error.{Error}
use subscription_reconciler.Postgres.Client.Entitlements.{
  reconcile_expired_entitlements as reconcile_rows, get_expired_entitlements_for_reconciliation,
}
use subscription_reconciler.Postgres.Client.Upsert.{upsert_entitlement}
use subscription_reconciler.Postgres.Queries.Entitlements.{UpsertEntitlementParams}
use subscription_reconciler.Postgres.Session.{
  Env, World, Result, ok, err, Action, pure, ◌>>=◌, time_now,
}
use subscription_reconciler.Postgres.Types.{Entitlement}

abbrev pub default_expiration_batch_size : ℤ
default_expiration_batch_size = pos 1000

-- The pair `(int32, error)`.
pub record Swept : Type 0 where
  pub processed : ℕ
  pub error : Option Error

abbrev pub swept_of : Result ℕ × World → Swept × World
swept_of (ok n, w) = (record { processed = n; error = none }, w)
swept_of (err e, w) = (record { processed = 0; error = some e }, w)

unfoldable pub expiration_change : Entitlement → Time → UpsertEntitlementParams
expiration_change ent t = record {
  user_id = ent.user_id;
  source = ent.source;
  active = false;
  expires_at = none;
  reason = some "EXPIRATION";
  last_event_time = unix_milli t;
}

-- One round of the fallback: whether it counts.
unfoldable pub expire_candidate : Time → Entitlement → Option Time → Action Bool
expire_candidate now ent none = pure false
expire_candidate now ent (some t) =
    if is_active (record { active = ent.active; expires_at = some t }) now || not ent.active
    then pure false
    else upsert_entitlement none (expiration_change ent t) none

abbrev after_candidate : Result Bool × World → ℕ → (ℕ → World → Swept × World) → Swept × World
after_candidate (ok changed, w) n rest = rest (if changed then n + 1 else n) w
after_candidate (err e, w) n rest = (record { processed = n; error = some e }, w)

unfoldable pub expire_candidates : Time → List Entitlement → ℕ → Env → World → Swept × World
expire_candidates now [] n env w = (record { processed = n; error = none }, w)
expire_candidates now (ent ∷ ents) n env w =
    after_candidate (expire_candidate now ent ent.expires_at env w) n
      (λ n' w'. expire_candidates now ents n' env w')

abbrev after_list :
    Result (Time × List Entitlement) × World
    → (Time → List Entitlement → World → Swept × World)
    → Swept × World
after_list (ok (now, ents), w) rest = rest now ents w
after_list (err e, w) rest = (record { processed = 0; error = some e }, w)

-- The path for a repository that is no `ExpirationReconciler`.
unfoldable pub reconcile_by_upserts : ℤ → Env → World → Swept × World
reconcile_by_upserts batch_size env w =
    after_list
      ((do
        ents ← get_expired_entitlements_for_reconciliation none batch_size
        now ← time_now
        pure (now, ents))
        env w)
      (λ now ents w'. expire_candidates now ents 0 env w')

abbrev pub effective_batch : ℤ → ℤ
effective_batch n = if leb_ℤ n (pos 0) then default_expiration_batch_size else n

-- `ReconcileExpiredEntitlements`; the flag is the type assertion on the repository, which the
-- PostgreSQL client satisfies.
unfoldable pub reconcile_expired_entitlements : Bool → ℤ → Env → World → Swept × World
reconcile_expired_entitlements true batch_size env w =
    swept_of (reconcile_rows (effective_batch batch_size) env w)
reconcile_expired_entitlements false batch_size env w =
    reconcile_by_upserts (effective_batch batch_size) env w
