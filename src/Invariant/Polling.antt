-- ===== src/Invariant/Polling.antt =====
-- What a polling batch keeps.
use subscription_reconciler.Application.CarrierPolling.{
  CarrierClient, Polled, poll_carriers_for_users, poll_users, poll_user, apply_status,
  reconcile_active, set_active, carrier_change, get_plan_status, after_poll, after_claim,
}
use subscription_reconciler.Base.{refl}
use subscription_reconciler.Invariant.Preserves.{Preserves, upsert_alone-Keeps}
use subscription_reconciler.Base.{
  ℕ, ◌+◌, String, Bool, true, false, Option, none, some, List, [], ◌∷◌,
}
use subscription_reconciler.Base.Int.{ℤ}
use subscription_reconciler.Clock.{Time}
use subscription_reconciler.Domain.Carrier.{CarrierPlanStatus}
use subscription_reconciler.Postgres.Client.Upsert.{differs, upsert_entitlement}
use subscription_reconciler.Postgres.Client.Entitlements.{claim_due_carrier_entitlements}
use subscription_reconciler.Postgres.Models.{Db}
use subscription_reconciler.Postgres.Session.{Env, World, Result, ok, err, ◌>>◌, ctx_err}
use subscription_reconciler.Postgres.Session.Keeps.{
  Keeps, Keeps-bind, Keeps-pure, Keeps-if, Keeps-time_now, Keeps-ctx_err,
}
use subscription_reconciler.Postgres.Types.{Entitlement}

pub after_poll-Keeps :
    (P : Db → Type 0) (r : Result (Unit {0}) × World) (n : ℕ) (rest : World → Polled × World)
    → P r.1.db
    → ((v : World) → P v.db → P (rest v).1.db)
    → P (after_poll r n rest).1.db
after_poll-Keeps P (ok u, v) n rest h k = k v h
after_poll-Keeps P (err e, v) n rest h k = h

after_claim-Keeps :
    (P : Db → Type 0) (r : Result (List Entitlement) × World)
    (rest : List Entitlement → World → Polled × World)
    → P r.1.db
    → ((ents : List Entitlement) (v : World) → P v.db → P (rest ents v).1.db)
    → P (after_claim r rest).1.db
after_claim-Keeps P (ok ents, v) rest h k = k ents v h
after_claim-Keeps P (err e, v) rest h k = h

-- The step for one entitlement, from what the two changes that it may ask for keep.
module _ {P : Db → Type 0} (ent : Entitlement)
    (upsert : (active : Bool) (now : Time)
      → Keeps P (upsert_entitlement none (carrier_change ent.user_id active now) none)) where
  reconcile_active-Keeps : (active : Bool) → Keeps P (reconcile_active ent active)
  unfolding reconcile_active set_active
  reconcile_active-Keeps active =
      Keeps-if (differs active ent.active) _ _
        (Keeps-bind _ _ Keeps-time_now
          λ now. Keeps-bind _ _ (upsert active now) λ changed. Keeps-pure tt)
        (Keeps-pure tt)

  pub apply_change-Keeps : (o : Option CarrierPlanStatus) → Keeps P (apply_status ent o)
  unfolding apply_status
  apply_change-Keeps none = Keeps-pure tt
  apply_change-Keeps (some status) = Keeps-if _ _ _ (Keeps-pure tt) (
      Keeps-if _ _ _ (reconcile_active-Keeps true)
        (Keeps-if _ _ _ (reconcile_active-Keeps false) (Keeps-pure tt)))

pub apply_status-Keeps :
    {P : Db → Type 0}
    → Preserves P "CARRIER"
    → (ent : Entitlement) (o : Option CarrierPlanStatus) → Keeps P (apply_status ent o)
unfolding carrier_change
apply_status-Keeps k ent = apply_change-Keeps ent λ active now.
    upsert_alone-Keeps (carrier_change ent.user_id active now) none (k.upsert none _ none refl)

get_plan_status-Keeps :
    {P : Db → Type 0} (client : CarrierClient) (user : String)
    → Keeps P (get_plan_status client user)
unfolding get_plan_status
get_plan_status-Keeps client user = record { at = λ env w t. t }

pub poll_user-Keeps :
    {P : Db → Type 0} (client : CarrierClient) (ent : Entitlement)
    → ((o : Option CarrierPlanStatus) → Keeps P (apply_status ent o))
    → Keeps P (poll_user client ent)
unfolding poll_user
poll_user-Keeps client ent apply = Keeps-bind _ _ Keeps-ctx_err λ u.
    Keeps-bind _ _ (get_plan_status-Keeps client ent.user_id)
      λ status. Keeps-bind _ _ Keeps-ctx_err λ u. apply status

-- A batch keeps what the claim and the step for each entitlement keep, whatever the carrier answers
-- and whatever fails.
module _ {P : Db → Type 0}
    (claim : (limit : ℤ) (due_before : Time)
      → Keeps P (claim_due_carrier_entitlements limit due_before))
    (apply : (ent : Entitlement) (o : Option CarrierPlanStatus)
      → Keeps P (apply_status ent o)) where
  poll_users-Keeps :
      (client : CarrierClient) (ents : List Entitlement) (n : ℕ) (env : Env) (w : World)
      → P w.db
      → P (poll_users client ents n env w).1.db
  unfolding poll_users
  poll_users-Keeps client [] n env w t = t
  poll_users-Keeps client (ent ∷ ents) n env w t =
      after_poll-Keeps P (poll_user client ent env w) n _
        ((poll_user-Keeps client ent (apply ent)).at env w t)
        (λ v. poll_users-Keeps client ents (n + 1) env v)

  claim-Keeps :
      (batch_size : ℤ) (due_before : Time)
      → Keeps P (do ctx_err; claim_due_carrier_entitlements batch_size due_before)
  claim-Keeps batch_size due_before = Keeps-bind _ _ Keeps-ctx_err λ u. claim batch_size due_before

  pub poll_batch-Keeps :
      (client : CarrierClient) (batch_size : ℤ) (due_before : Time) (env : Env) (w : World)
      → P w.db
      → P (poll_carriers_for_users client batch_size due_before env w).1.db
  unfolding poll_carriers_for_users
  poll_batch-Keeps client batch_size due_before env w t =
      after_claim-Keeps P _ _ ((claim-Keeps batch_size due_before).at env w t)
        (λ ents v. poll_users-Keeps client ents 0 env v)

pub poll_carriers_for_users-Keeps :
    {P : Db → Type 0}
    → Preserves P "CARRIER"
    → (client : CarrierClient) (batch_size : ℤ) (due_before : Time) (env : Env) (w : World) → P w.db
    → P (poll_carriers_for_users client batch_size due_before env w).1.db
poll_carriers_for_users-Keeps k = poll_batch-Keeps k.claim (apply_status-Keeps k)
