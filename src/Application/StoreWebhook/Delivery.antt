-- ===== src/Application/StoreWebhook/Delivery.antt =====
-- What a delivery to `ProcessStoreWebhook` does, on every way that it can end.
use subscription_reconciler.Base.{
  ◌+◌, ◌≡◌, ◌∙◌, Bool, not, Option, none, some, arith, inl, inr, Option-cases,
}
use subscription_reconciler.Application.StoreWebhook.{
  Transition, compute_state_transition, ingest_event, process_valid, process_store_webhook, respond,
  validated,
}
use subscription_reconciler.Application.StoreWebhook.Effect.{ingest_effect, ingest-Implements}
use subscription_reconciler.Domain.Error.{Error, domain, DomainError}
use subscription_reconciler.Domain.Webhook.{StoreWebhookPayload, StoreWebhookResponse, validate}
use subscription_reconciler.Postgres.Client.Events.{with_store_webhook_transaction}
use subscription_reconciler.Postgres.Session.{
  Env, World, Result, ok, err, ◌>>=◌, ask, time_now, pure, raise, in_transaction, next, proceed,
}
use subscription_reconciler.Postgres.Session.Keeps.{Keeps-ask, Keeps-time_now}
use subscription_reconciler.Postgres.Session.RollsBack.{
  RollsBack, RollsBack-raise, RollsBack-after_read, RollsBack-then_pure,
}
use subscription_reconciler.Postgres.Session.Transaction.{
  RollsBack-in_transaction, in_transaction-effect,
}

validated-RollsBack :
    (p : StoreWebhookPayload) (o : Option DomainError) → RollsBack (validated o (process_valid p))
unfolding process_valid with_store_webhook_transaction
validated-RollsBack p (some e) = RollsBack-raise (domain e)
validated-RollsBack p none =
    RollsBack-after_read _ _ (λ db. Keeps-ask)
      λ env.
        RollsBack-after_read _ _ (λ db. Keeps-time_now)
          λ now. RollsBack-then_pure _ (respond p) (RollsBack-in_transaction _)

-- Whatever fails, and wherever, a delivery that returns an error has changed no table: the event
-- is not recorded either, so a retry is no duplicate.
pub process_store_webhook_atomic :
    (p : StoreWebhookPayload) (env : Env) (w w' : World) (e : Error)
    → process_store_webhook p env w ≡ (err e, w')
    → w'.db ≡ w.db
unfolding process_store_webhook
process_store_webhook_atomic p env w w' e h = (validated-RollsBack p (validate p)).at env w w' e h

-- The state that an event asks for, by the clock of the call.
abbrev pub transition_at : StoreWebhookPayload → Env → World → Transition
transition_at p env w =
    compute_state_transition env.add_month (env.wall w.tick) p.event_type p.event_time_ms

responded :
    (p : StoreWebhookPayload) (x : Result Bool × World) (env : Env) (w' : World)
    (r : StoreWebhookResponse)
    → proceed x (λ inserted. pure (respond p inserted) env) ≡ (ok r, w')
    → (b : Bool) × (x ≡ (ok b, w')) × (r ≡ respond p b)
unfolding pure
responded p (ok b, v) env w' r h = (b, ground arith, ground arith)
responded p (err e, v) env w' r h = cc

-- A delivery that returns came with a valid payload, says in `isDuplicate` whether the event was
-- known, and did exactly the writes of `ingest_effect`.
pub process_store_webhook-effect :
    (p : StoreWebhookPayload) (env : Env) (w w' : World) (r : StoreWebhookResponse)
    → process_store_webhook p env w ≡ (ok r, w')
    → (validate p ≡ none)
      × (r ≡ respond p (not r.is_duplicate))
      × (ingest_effect (env.db_clock (w.tick + 1)) p (transition_at p env w) w.db
          ≡ (not r.is_duplicate, w'.db))
unfolding process_store_webhook process_valid with_store_webhook_transaction ◌>>=◌ ask time_now
    raise respond
process_store_webhook-effect p env w w' r h = elim (Option-cases (validate p)) [
  | inr (e, bad) ↦ absurd (ground (arith, bad))
  | inl good ↦
      let (b, ran, answered) =
        responded p (in_transaction (ingest_event p (transition_at p env w)) env (next w)) env w' r
          (ground (arith, good)) in
      (
        good,
        ground arith,
        in_transaction-effect (ingest_event p (transition_at p env w)) _ env (next w) w' b
              (ingest-Implements (env.db_clock (w.tick + 1)) p (transition_at p env w)) ran
            ∙ ground arith,
      )
]
