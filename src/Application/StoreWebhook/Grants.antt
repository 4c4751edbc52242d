-- ===== src/Application/StoreWebhook/Grants.antt =====
-- Which events give access (README.md, "Late-Arriving Events").
use subscription_reconciler.Application.StoreWebhook.{
  compute_state_transition, is_grant, process_store_webhook, store_change,
}
use subscription_reconciler.Application.StoreWebhook.Delivery.{transition_at}
use subscription_reconciler.Application.StoreWebhook.Projection.{process_store_webhook-view}
use subscription_reconciler.Base.{
  ◌<◌, String, ◌≡◌, ◌∙◌, ◌↔◌, ◌⊎◌, refl, true, false, Option, none, some, ==_iff, ==_refl, arith,
}
use subscription_reconciler.Base.Int.{ℤ, ◌<ℤ◌}
use subscription_reconciler.Clock.{Time, of_unix_milli, timestamptz}
use subscription_reconciler.Domain.Webhook.{StoreWebhookPayload, StoreWebhookResponse}
use subscription_reconciler.Postgres.Client.Upsert.Refinement.{view, change_of}
use subscription_reconciler.Postgres.Session.{Env, World, ok}
use subscription_reconciler.Spec.Register.{Snapshot, merge}

abbrev pub IsGrant : String → Type 0
IsGrant t = (t ≡ "INITIAL_PURCHASE") ⊎ ((t ≡ "RENEWAL") ⊎ (t ≡ "UN_CANCELLATION"))

is_grant_iff : (t : String) → (is_grant t ≡ true) ↔ IsGrant t
is_grant_iff t =
    ground (arith, ==_iff t "INITIAL_PURCHASE", ==_iff t "RENEWAL", ==_iff t "UN_CANCELLATION")

compute_state_transition-active_iff :
    (add_month : Time → Time) (now : Time) (event_type : String) (event_time_ms : ℤ)
    → ((compute_state_transition add_month now event_type event_time_ms).active ≡ true)
      ↔ (IsGrant event_type × (now < add_month (of_unix_milli event_time_ms)))
unfolding compute_state_transition
compute_state_transition-active_iff add_month now event_type event_time_ms =
    let (named, types) = is_grant_iff event_type in
    (λ a. (named (ground (arith, a)), ground (arith, a)), λ (g, l). ground (arith, types g, l))

compute_state_transition-expires_at :
    (add_month : Time → Time) (now : Time) (event_type : String) (event_time_ms : ℤ)
    → (compute_state_transition add_month now event_type event_time_ms).active ≡ true
    → (compute_state_transition add_month now event_type event_time_ms).expires_at
      ≡ some (add_month (of_unix_milli event_time_ms))
unfolding compute_state_transition
compute_state_transition-expires_at add_month now event_type event_time_ms a = ground (arith, a)

-- No event of that time or a later one is in the register.
abbrev pub IsNews : Option Snapshot → ℤ → Type 0
IsNews none t = Unit {0}
IsNews (some s) t = s.time <ℤ t

merge_news : (o : Option Snapshot) (c : Snapshot) → IsNews o c.time → merge o c ≡ some c
unfolding merge
merge_news none c h = refl
merge_news (some s) c h = ground (arith, h)

-- After a delivery that returns, is no duplicate and is newer than the STORE register of its user,
-- the register is at the time of the event, and it gives access exactly if the event is an initial
-- purchase, a renewal or an un-cancellation and a month after it had not passed by the clock of
-- the call; then it gives access until the end of that month.
pub process_store_webhook-grants :
    (p : StoreWebhookPayload) (env : Env) (w w' : World) (r : StoreWebhookResponse)
    → IsNews (view p.user_id "STORE" w.db) p.event_time_ms
    → process_store_webhook p env w ≡ (ok r, w')
    → r.is_duplicate ≡ false
    → let expiry = env.add_month (of_unix_milli p.event_time_ms) in
      (s : Snapshot) × (view p.user_id "STORE" w'.db ≡ some s)
      × (s.time ≡ p.event_time_ms)
      × ((s.active ≡ true) ↔ (IsGrant p.event_type × (env.wall w.tick < expiry)))
      × (s.active ≡ true → s.expires_at ≡ some (timestamptz expiry))
unfolding store_change
process_store_webhook-grants p env w w' r news ran fresh =
    let c = change_of (store_change p (transition_at p env w)) in
    let merged : view p.user_id "STORE" w'.db ≡ merge (view p.user_id "STORE" w.db) c = ground (
      arith,
      process_store_webhook-view p env w w' r p.user_id "STORE" ran,
      fresh,
      ==_refl p.user_id,
      ==_refl "STORE",
    ) in
    (
      c,
      merged ∙ merge_news (view p.user_id "STORE" w.db) c news,
      refl,
      compute_state_transition-active_iff env.add_month (env.wall w.tick) p.event_type
          p.event_time_ms,
      λ a. ground (
        arith,
        compute_state_transition-expires_at env.add_month (env.wall w.tick) p.event_type
            p.event_time_ms a,
      ),
    )
