-- ===== src/Invariant/Services.antt =====
-- What the store webhook and the marketplace revocation keep, whatever fails.
use subscription_reconciler.Application.MarketplaceRevoke.{
  revocation_change, revoke_marketplace_access, revoke_valid, revoke_users, revoke_user,
  ingest_revocation, apply_revocation, validated as revoke_validated,
}
use subscription_reconciler.Application.StoreWebhook.{
  Transition, store_change, process_store_webhook, process_valid, ingest_event, apply_event,
  schedule_expiry, validated,
}
use subscription_reconciler.Invariant.Preserves.{Preserves}
use subscription_reconciler.Postgres.Models.{Db}
use subscription_reconciler.Base.{
  refl, ℕ, String, Bool, true, false, Option, none, some, List, [], ◌∷◌,
}
use subscription_reconciler.Clock.{Time}
use subscription_reconciler.Domain.Error.{domain, DomainError}
use subscription_reconciler.Domain.Revoke.{MarketplaceRevokeRequest, validate as validate_revoke}
use subscription_reconciler.Domain.Webhook.{StoreWebhookPayload, validate}
use subscription_reconciler.Postgres.Client.Events.{
  with_store_webhook_transaction, with_marketplace_revocation_transaction,
}
use subscription_reconciler.Postgres.Session.{Queries}
use subscription_reconciler.Postgres.Session.Keeps.{
  Keeps, Keeps-bind, Keeps-pure, Keeps-if, Keeps-wrap, Keeps-ask, Keeps-raise, Keeps-time_now,
  Keeps-ctx_err, Keeps-begin, Keeps-commit,
}
use subscription_reconciler.Postgres.Session.KeepsOk.{
  KeepsOk, KeepsOk-bind, KeepsOk-of_Keeps, KeepsOk-if, KeepsOk-wrap, Keeps-atomically_ok,
  Keeps-in_transaction_ok,
}

module _ {P : Db → Type 0} (k : Preserves P "STORE") where
  schedule_expiry-Keeps :
      (q : Queries) (user : String) (wanted : Bool) (o : Option Time)
      → Keeps P (schedule_expiry q user wanted o)
  unfolding schedule_expiry
  schedule_expiry-Keeps q user wanted none = Keeps-pure tt
  schedule_expiry-Keeps q user wanted (some t) =
      Keeps-if wanted _ _ (Keeps-wrap _ _ (k.schedule q user _ _)) (Keeps-pure tt)

  ingest_event-Keeps :
      (p : StoreWebhookPayload) (t : Transition) (q : Queries) → KeepsOk P (ingest_event p t q)
  unfolding ingest_event apply_event store_change
  ingest_event-Keeps p t q =
      KeepsOk-bind _ _ (KeepsOk-of_Keeps _ (Keeps-wrap _ _ (k.store_event q _))) λ inserted.
        KeepsOk-if inserted _ _
          (KeepsOk-bind _ _
            (KeepsOk-bind _ _
              (KeepsOk-wrap _ _ (k.upsert q (store_change p t) (some p.event_id) refl))
              λ changed. KeepsOk-of_Keeps _ (
                Keeps-bind _ _ (schedule_expiry-Keeps q p.user_id _ t.expires_at)
                  λ u. Keeps-wrap _ _ (k.mark q p.event_id "STORE")))
            λ u. KeepsOk-of_Keeps _ (Keeps-pure true))
          (KeepsOk-of_Keeps _ (Keeps-pure false))

  validated-Keeps :
      (p : StoreWebhookPayload) (o : Option DomainError) → Keeps P (validated o (process_valid p))
  unfolding process_valid with_store_webhook_transaction
  validated-Keeps p (some e) = Keeps-raise (domain e)
  validated-Keeps p none = Keeps-bind _ _ Keeps-ask λ env. Keeps-bind _ _ Keeps-time_now λ now.
      Keeps-bind _ _ (Keeps-in_transaction_ok _ (λ t. ingest_event-Keeps p _ (some t)))
        λ b. Keeps-pure _

  pub process_store_webhook-Keeps : (p : StoreWebhookPayload) → Keeps P (process_store_webhook p)
  unfolding process_store_webhook
  process_store_webhook-Keeps p = validated-Keeps p (validate p)

module _ {P : Db → Type 0} (k : Preserves P "MARKETPLACE") where
  ingest_revocation-Keeps :
      (event user : String) (batch_time : Time) (q : Queries)
      → KeepsOk P (ingest_revocation event user batch_time q)
  unfolding ingest_revocation apply_revocation revocation_change
  ingest_revocation-Keeps event user batch_time q =
      KeepsOk-bind _ _ (KeepsOk-of_Keeps _ Keeps-ctx_err) λ u.
        KeepsOk-bind _ _ (KeepsOk-of_Keeps _ (Keeps-wrap _ _ (k.revocation q event user)))
          λ inserted.
            KeepsOk-if inserted _ _
              (KeepsOk-bind _ _
                (KeepsOk-bind _ _ (KeepsOk-of_Keeps _ Keeps-ctx_err) λ u.
                  KeepsOk-bind _ _
                    (KeepsOk-wrap _ _
                      (k.upsert q (revocation_change user batch_time) (some event) refl))
                    λ changed. KeepsOk-of_Keeps _ (
                      Keeps-bind _ _ Keeps-ctx_err
                        λ u. Keeps-wrap _ _ (k.mark q event "MARKETPLACE")))
                λ u. KeepsOk-of_Keeps _ (Keeps-pure true))
              (KeepsOk-of_Keeps _ (Keeps-pure false))

  pub revoke_user-Keeps :
      (event user : String) (batch_time : Time) → Keeps P (revoke_user event user batch_time)
  unfolding revoke_user with_marketplace_revocation_transaction
  revoke_user-Keeps event user batch_time = Keeps-bind _ _ (Keeps-wrap _ _ Keeps-ctx_err) λ u.
      Keeps-wrap _ _ (
        Keeps-atomically_ok _ (
          KeepsOk-bind _ _ (KeepsOk-of_Keeps _ (Keeps-wrap _ _ Keeps-begin)) λ tx.
            KeepsOk-bind _ _ (ingest_revocation-Keeps event user batch_time tx) λ b.
              KeepsOk-of_Keeps _ (
                Keeps-bind _ _ (Keeps-wrap _ _ Keeps-ctx_err)
                  λ u. Keeps-bind _ _ (Keeps-wrap _ _ Keeps-commit) λ u. Keeps-pure b)))

-- A batch keeps what the call for each user keeps.
module _ {P : Db → Type 0}
    (one : (event user : String) (batch_time : Time)
      → Keeps P (revoke_user event user batch_time)) where
  revoke_users-Keeps :
      (year_month : Time → String) (batch_time : Time) (users : List String) (n : ℕ)
      → Keeps P (revoke_users year_month batch_time users n)
  unfolding revoke_users
  revoke_users-Keeps year_month batch_time [] n = Keeps-pure n
  revoke_users-Keeps year_month batch_time (user ∷ users) n =
      Keeps-bind _ _ (one _ user batch_time)
        λ inserted. revoke_users-Keeps year_month batch_time users _

  revoke_validated-Keeps :
      (r : MarketplaceRevokeRequest) (o : Option DomainError)
      → Keeps P (revoke_validated o (revoke_valid r))
  unfolding revoke_valid
  revoke_validated-Keeps r (some e) = Keeps-raise (domain e)
  revoke_validated-Keeps r none = Keeps-bind _ _ Keeps-ask λ env.
      Keeps-bind _ _ Keeps-time_now
        λ now. Keeps-bind _ _ (revoke_users-Keeps env.year_month now r.user_ids 0) λ n. Keeps-pure _

  pub revoke_batch-Keeps : (r : MarketplaceRevokeRequest) → Keeps P (revoke_marketplace_access r)
  unfolding revoke_marketplace_access
  revoke_batch-Keeps r = revoke_validated-Keeps r (validate_revoke r)

pub revoke_marketplace_access-Keeps :
    {P : Db → Type 0}
    → Preserves P "MARKETPLACE"
    → (r : MarketplaceRevokeRequest) → Keeps P (revoke_marketplace_access r)
revoke_marketplace_access-Keeps k = revoke_batch-Keeps (revoke_user-Keeps k)
