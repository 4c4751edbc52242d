-- ===== src/Application/CarrierPolling.antt =====
-- internal/application/carrier_polling.go.
use subscription_reconciler.Base.{
  ℕ, ◌+◌, String, Bool, true, false, Option, none, some, List, [], ◌∷◌, ◌==◌, if◌then◌else◌,
}
use subscription_reconciler.Base.Int.{ℤ}
use subscription_reconciler.Clock.{Time, unix_milli}
use subscription_reconciler.Domain.Carrier.{
  CarrierPlanStatus, carrier_status_active, carrier_status_inactive, carrier_status_api_error,
}
use subscription_reconciler.Domain.Error.{Error}
use subscription_reconciler.Postgres.Client.Entitlements.{claim_due_carrier_entitlements}
use subscription_reconciler.Postgres.Client.Upsert.{upsert_entitlement, differs}
use subscription_reconciler.Postgres.Queries.Entitlements.{UpsertEntitlementParams}
use subscription_reconciler.Postgres.Session.{
  Env, World, Result, ok, err, Action, pure, ◌>>=◌, ◌>>◌, next, time_now, ctx_err,
}
use subscription_reconciler.Postgres.Types.{Entitlement}

-- `domain.CarrierClient`: what call k answers for a user; `none` is an error. No table changes.
abbrev pub CarrierClient : Type 0
CarrierClient = ℕ → String → Option CarrierPlanStatus

unfoldable pub get_plan_status : CarrierClient → String → Action (Option CarrierPlanStatus)
get_plan_status client user env w = (ok (client w.tick user), next w)

unfoldable pub carrier_change : String → Bool → Time → UpsertEntitlementParams
carrier_change user active now = record {
  user_id = user;
  source = "CARRIER";
  active = active;
  expires_at = none;
  reason = some "CARRIER_POLL";
  last_event_time = unix_milli now;
}

unfoldable pub set_active : Entitlement → Bool → Action (Unit {0})
set_active ent active = do
  now ← time_now
  changed ← upsert_entitlement none (carrier_change ent.user_id active now) none
  pure tt

unfoldable pub reconcile_active : Entitlement → Bool → Action (Unit {0})
reconcile_active ent active = if differs active ent.active then set_active ent active else pure tt

-- An error, `api_error` and an unknown status leave the entitlement alone.
unfoldable pub apply_status : Entitlement → Option CarrierPlanStatus → Action (Unit {0})
apply_status ent none = pure tt
apply_status ent (some status) =
    if status == carrier_status_api_error
    then pure tt
    else if status == carrier_status_active
    then reconcile_active ent true
    else if status == carrier_status_inactive
    then reconcile_active ent false
    else pure tt

-- One round of the loop; it counts unless it raises.
unfoldable pub poll_user : CarrierClient → Entitlement → Action (Unit {0})
poll_user client ent = do
  ctx_err
  status ← get_plan_status client ent.user_id
  ctx_err
  apply_status ent status

-- The pair `(int32, error)`.
pub record Polled : Type 0 where
  pub processed : ℕ
  pub error : Option Error

abbrev pub after_poll : Result (Unit {0}) × World → ℕ → (World → Polled × World) → Polled × World
after_poll (ok u, w) n rest = rest w
after_poll (err e, w) n rest = (record { processed = n; error = some e }, w)

unfoldable pub poll_users : CarrierClient → List Entitlement → ℕ → Env → World → Polled × World
poll_users client [] n env w = (record { processed = n; error = none }, w)
poll_users client (ent ∷ ents) n env w =
    after_poll (poll_user client ent env w) n (λ w'. poll_users client ents (n + 1) env w')

abbrev pub after_claim :
    Result (List Entitlement) × World → (List Entitlement → World → Polled × World) → Polled × World
after_claim (ok ents, w) rest = rest ents w
after_claim (err e, w) rest = (record { processed = 0; error = some e }, w)

-- `PollCarriersForUsers`.
unfoldable pub poll_carriers_for_users : CarrierClient → ℤ → Time → Env → World → Polled × World
poll_carriers_for_users client batch_size due_before env w =
    after_claim ((do ctx_err; claim_due_carrier_entitlements batch_size due_before) env w)
      (λ ents w'. poll_users client ents 0 env w')
