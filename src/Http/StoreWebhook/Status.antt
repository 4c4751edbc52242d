-- ===== src/Http/StoreWebhook/Status.antt =====
-- What the status of an answer to the store tells it.
use subscription_reconciler.Application.StoreWebhook.{process_store_webhook, respond}
use subscription_reconciler.Application.StoreWebhook.Delivery.{
  process_store_webhook-effect, process_store_webhook_atomic,
}
use subscription_reconciler.Application.StoreWebhook.Internal.{process_store_webhook-IsInternal}
use subscription_reconciler.Application.StoreWebhook.Redelivery.{
  has_store_event-process_store_webhook,
}
use subscription_reconciler.Base.{
  String, ◌≡◌, ◌≢◌, ◌↔◌, ap, refl, true, Option, none, some, arith, Option-cases, inl, inr,
}
use subscription_reconciler.Domain.Error.{DomainError, as_domain}
use subscription_reconciler.Domain.Webhook.{StoreWebhookPayload, StoreWebhookResponse, validate}
use subscription_reconciler.Http.Message.{Request, Response, Decoded, value, invalid, Json, webhook}
use subscription_reconciler.Http.StoreWebhook.{
  handle_store_webhook, webhook_response, webhook_decoded, webhook_read, webhook_error,
}
use subscription_reconciler.Postgres.Queries.Events.{has_store_event}
use subscription_reconciler.Postgres.Session.{Env, World, Result, ok, err, raise}
use subscription_reconciler.Postgres.Session.Internal.{IsInternalResult}

abbrev decoded : Decoded StoreWebhookPayload → Option StoreWebhookPayload
decoded (value p) = some p
decoded (invalid text) = none

abbrev payload_in : Json → Option String → Option StoreWebhookPayload
payload_in json none = none
payload_in json (some body) = decoded (json.store_webhook body)

-- The payload that a request carries, if its body can be read and decoded.
abbrev pub payload_of : Json → Request → Option StoreWebhookPayload
payload_of json r = payload_in json r.body

decoded_answer :
    (x : Decoded StoreWebhookPayload) (p : StoreWebhookPayload) (env : Env) (w : World)
    → decoded x ≡ some p
    → webhook_decoded x env w ≡ webhook_response (process_store_webhook p env w)
decoded_answer (value q) p env w e = ground arith
decoded_answer (invalid text) p env w e = cc

read_answer :
    (json : Json) (body : Option String) (p : StoreWebhookPayload) (env : Env) (w : World)
    → payload_in json body ≡ some p
    → webhook_read json body env w ≡ webhook_response (process_store_webhook p env w)
read_answer json none p env w e = cc
read_answer json (some body) p env w e = decoded_answer (json.store_webhook body) p env w e

-- A request with a payload is answered as the service answers.
pub handle_store_webhook_lem :
    (json : Json) (r : Request) (p : StoreWebhookPayload) (env : Env) (w : World)
    → payload_of json r ≡ some p
    → handle_store_webhook json r env w ≡ webhook_response (process_store_webhook p env w)
unfolding handle_store_webhook
handle_store_webhook_lem json r p env w e = read_answer json r.body p env w e

abbrev pub IsRefused : Option StoreWebhookPayload → Type 0
IsRefused none = Unit {0}
IsRefused (some p) = validate p ≢ none

internal_error : (o : Option DomainError) → o ≡ none → (webhook_error o).status ≢ 400
internal_error none h e = absurd (omega arith)
internal_error (some d) h e = cc

status_internal :
    (x : Result StoreWebhookResponse × World)
    → IsInternalResult x.0
    → (webhook_response x).0.status ≢ 400
status_internal (ok r, w) h e = absurd (omega arith)
status_internal (err x, w) h e = internal_error (as_domain x) h e

refused_status :
    (p : StoreWebhookPayload) (env : Env) (w : World) (d : DomainError)
    → validate p ≡ some d
    → (webhook_response (process_store_webhook p env w)).0.status ≡ 400
unfolding process_store_webhook raise as_domain
refused_status p env w d bad = rw bad

decoded_bad_request :
    (x : Decoded StoreWebhookPayload) (env : Env) (w : World)
    → ((webhook_decoded x env w).0.status ≡ 400) ↔ IsRefused (decoded x)
decoded_bad_request (invalid text) env w = (λ h. tt, λ h. refl)
decoded_bad_request (value p) env w = elim (Option-cases (validate p)) [
  | inl good ↦ (
    λ h. absurd (
        status_internal (process_store_webhook p env w)
          (process_store_webhook-IsInternal p env w good) h),
    λ h. absurd (h good),
  )
  | inr (d, bad) ↦ (λ h good. cc, λ h. refused_status p env w d bad)
]

read_bad_request :
    (json : Json) (body : Option String) (env : Env) (w : World)
    → ((webhook_read json body env w).0.status ≡ 400) ↔ IsRefused (payload_in json body)
read_bad_request json none env w = (λ h. tt, λ h. refl)
read_bad_request json (some body) env w = decoded_bad_request (json.store_webhook body) env w

-- The store is told 400 exactly if the body of its request cannot be read or decoded or its
-- payload is invalid: no failure of the database, however wrapped, is put down to the store.
pub handle_store_webhook-bad_request_iff :
    (json : Json) (r : Request) (env : Env) (w : World)
    → ((handle_store_webhook json r env w).0.status ≡ 400) ↔ IsRefused (payload_of json r)
unfolding handle_store_webhook
handle_store_webhook-bad_request_iff json r env w = read_bad_request json r.body env w

response_unchanged :
    (p : StoreWebhookPayload) (env : Env) (w : World) (x : Result StoreWebhookResponse × World)
    → process_store_webhook p env w ≡ x
    → (webhook_response x).0.status ≢ 202
    → (webhook_response x).1.db ≡ w.db
response_unchanged p env w (ok r, w') e h = absurd (h refl)
response_unchanged p env w (err x, w') e h = process_store_webhook_atomic p env w w' x e

decoded_unchanged :
    (x : Decoded StoreWebhookPayload) (env : Env) (w : World)
    → (webhook_decoded x env w).0.status ≢ 202
    → (webhook_decoded x env w).1.db ≡ w.db
decoded_unchanged (invalid text) env w h = refl
decoded_unchanged (value p) env w h =
    response_unchanged p env w (process_store_webhook p env w) refl h

read_unchanged :
    (json : Json) (body : Option String) (env : Env) (w : World)
    → (webhook_read json body env w).0.status ≢ 202
    → (webhook_read json body env w).1.db ≡ w.db
read_unchanged json none env w h = refl
read_unchanged json (some body) env w h = decoded_unchanged (json.store_webhook body) env w h

-- A request that is not answered 202 has changed no table, so the store can send it again.
pub handle_store_webhook-unchanged :
    (json : Json) (r : Request) (env : Env) (w : World)
    → (handle_store_webhook json r env w).0.status ≢ 202
    → (handle_store_webhook json r env w).1.db ≡ w.db
unfolding handle_store_webhook
handle_store_webhook-unchanged json r env w h = read_unchanged json r.body env w h

-- What an answer of 202 stands for.
abbrev pub IsAccepted : Option StoreWebhookPayload → Env → World → Response → World → Type 0
IsAccepted none env w answer w' = ⊥
IsAccepted (some p) env w answer w' =
    (r : StoreWebhookResponse) × (process_store_webhook p env w ≡ (ok r, w'))
    × (answer.content ≡ webhook r)
    × (r.event_id ≡ p.event_id)
    × (validate p ≡ none)
    × (has_store_event p.event_id w'.db ≡ true)

response_error : (o : Option DomainError) → (webhook_error o).status ≢ 202
response_error none e = absurd (omega arith)
response_error (some d) e = absurd (omega arith)

response-IsAccepted :
    (p : StoreWebhookPayload) (env : Env) (w : World) (x : Result StoreWebhookResponse × World)
    → process_store_webhook p env w ≡ x
    → (webhook_response x).0.status ≡ 202
    → IsAccepted (some p) env w (webhook_response x).0 (webhook_response x).1
unfolding respond
response-IsAccepted p env w (ok r, w') e h =
    let (good, same, effect) = process_store_webhook-effect p env w w' r e in
    (
      r,
      e,
      refl,
      ap (λ (x : StoreWebhookResponse). x.event_id) same,
      good,
      has_store_event-process_store_webhook p env w w' r e,
    )
response-IsAccepted p env w (err x, w') e h = absurd (response_error (as_domain x) h)

decoded-IsAccepted :
    (x : Decoded StoreWebhookPayload) (env : Env) (w : World)
    → (webhook_decoded x env w).0.status ≡ 202
    → IsAccepted (decoded x) env w (webhook_decoded x env w).0 (webhook_decoded x env w).1
decoded-IsAccepted (invalid text) env w h = absurd (omega arith)
decoded-IsAccepted (value p) env w h =
    response-IsAccepted p env w (process_store_webhook p env w) refl h

read-IsAccepted :
    (json : Json) (body : Option String) (env : Env) (w : World)
    → (webhook_read json body env w).0.status ≡ 202
    → IsAccepted
        (payload_in json body)
        env
        w
        (webhook_read json body env w).0
        (webhook_read json body env w).1
read-IsAccepted json none env w h = absurd (omega arith)
read-IsAccepted json (some body) env w h = decoded-IsAccepted (json.store_webhook body) env w h

-- An answer of 202 means that the request carried a valid payload, that the service returned, that
-- the answer holds its response, about that event, and that the event is in the store's log.
pub handle_store_webhook-IsAccepted :
    (json : Json) (r : Request) (env : Env) (w : World)
    → (handle_store_webhook json r env w).0.status ≡ 202
    → IsAccepted
        (payload_of json r)
        env
        w
        (handle_store_webhook json r env w).0
        (handle_store_webhook json r env w).1
unfolding handle_store_webhook
handle_store_webhook-IsAccepted json r env w h = read-IsAccepted json r.body env w h
