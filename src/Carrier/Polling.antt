-- ===== src/Carrier/Polling.antt =====
-- An entitlement is polled through the HTTP client: what has to happen before a table changes.
use subscription_reconciler.Application.CarrierPolling.{
  CarrierClient, apply_status, poll_user, get_plan_status as ask_carrier,
}
use subscription_reconciler.Base.{
  ℕ, ◌+◌, String, ◌≡◌, ◌≢◌, ◌⊎◌, inl, inr, refl, Option, none, some, ◌==◌, ==_iff, Bool-cases,
  Option-cases, eqb, arith,
}
use subscription_reconciler.Carrier.{
  HttpResponse, Transport, answer_to, decoded_answer, http_client, get_plan_status, request_url,
  status_or_none, known_status,
}
use subscription_reconciler.Domain.Carrier.{CarrierPlanStatus, MockCarrierResponse}
use subscription_reconciler.Postgres.Session.{Env, World, ◌>>=◌, ctx_err, next, pure}
use subscription_reconciler.Postgres.Types.{Entitlement}

abbrev pub IsDefinite : CarrierPlanStatus → Type 0
IsDefinite s = (s ≡ "active") ⊎ (s ≡ "inactive")

abbrev Heard : Transport → Option HttpResponse → Type 0
Heard t o =
    (r : HttpResponse) × (m : MockCarrierResponse) × (o ≡ some r)
    × (r.status_code ≡ 200)
    × (t.decode r.body ≡ some m)
    × IsDefinite m.status

-- Call k asked for the user and got an answer 200 whose body decodes to one of the two definite
-- statuses.
abbrev pub Confirmed : Transport → String → ℕ → String → Type 0
Confirmed t base_url k user =
    (base : t.Url) × (t.parse base_url ≡ some base)
    × (r : HttpResponse) × (m : MockCarrierResponse) × (t.send k (request_url t base user) ≡ some r)
    × (r.status_code ≡ 200)
    × (t.decode r.body ≡ some m)
    × IsDefinite m.status

-- An error, or `api_error`.
abbrev IsIdle : Option CarrierPlanStatus → Type 0
IsIdle o = (o ≡ none) ⊎ (o ≡ some "api_error")

status_cases : (s : CarrierPlanStatus) → IsDefinite s ⊎ IsIdle (status_or_none (known_status s))
status_cases s = elim (Bool-cases (s == "active")) [
  | inl e ↦ inl (inl ((==_iff s "active").0 e))
  | inr e ↦ elim (Bool-cases (s == "inactive")) [
    | inl f ↦ inl (inr ((==_iff s "inactive").0 f))
    | inr f ↦ inr (inr (rw (e, f)))
  ]
]

decoded_cases :
    (o : Option MockCarrierResponse)
    → ((m : MockCarrierResponse) × (o ≡ some m) × IsDefinite m.status)
      ⊎ IsIdle (status_or_none (decoded_answer o))
decoded_cases none = inr (inl refl)
decoded_cases (some m) = elim (status_cases m.status) [
  | inl d ↦ inl (m, refl, d)
  | inr idle ↦ inr idle
]

answer_cases :
    (t : Transport) (o : Option HttpResponse) → Heard t o ⊎ IsIdle (status_or_none (answer_to t o))
answer_cases t none = inr (inl refl)
answer_cases t (some r) = elim (Bool-cases (eqb r.status_code 200)) [
  | inr e ↦ inr (inr (rw e))
  | inl e ↦ elim (decoded_cases (t.decode r.body)) [
    | inl (m, read, d) ↦ inl (r, m, refl, ground (arith, e), read, d)
    | inr idle ↦ inr (rw e idle)
  ]
]

-- What the service hears from the client: a confirmed status, or one that it passes over.
http_client_cases :
    (t : Transport) (base_url : String) (k : ℕ) (user : String)
    → Confirmed t base_url k user ⊎ IsIdle (http_client t base_url k user)
unfolding http_client get_plan_status
http_client_cases t base_url k user = elim (Option-cases (t.parse base_url)) [
  | inl e ↦ inr (inl (rw e))
  | inr (base, e) ↦ elim (Bool-cases (t.accepts (request_url t base user))) [
    | inr refused ↦ inr (inl (rw (e, refused)))
    | inl accepted ↦ elim (answer_cases t (t.send k (request_url t base user))) [
      | inl (r, m, sent, good, read, d) ↦ inl (base, e, r, m, sent, good, read, d)
      | inr idle ↦ inr (rw (e, accepted) idle)
    ]
  ]
]

apply_status_idle :
    (ent : Entitlement) (o : Option CarrierPlanStatus) (env : Env) (w : World)
    → IsIdle o
    → (apply_status ent o env w).1.db ≡ w.db
unfolding apply_status pure ◌==◌
apply_status_idle ent o env w (inl e) = rw e
apply_status_idle ent o env w (inr e) = rw e

poll_user_idle :
    (client : CarrierClient) (ent : Entitlement) (env : Env) (w : World)
    → IsIdle (client (w.tick + 1) ent.user_id)
    → (poll_user client ent env w).1.db ≡ w.db
unfolding poll_user ask_carrier ctx_err ◌>>=◌
poll_user_idle client ent env w idle =
    ground (
      arith,
      apply_status_idle ent (client (w.tick + 1) ent.user_id) env (next (next (next w))) idle,
    )

-- A round of polling that changes a table has asked the carrier for that user and got an answer 200
-- whose body decodes to `active` or `inactive`: no error of the network or of the carrier, no other
-- status code and no unknown status ever takes access away or gives it.
pub poll_user-Confirmed :
    (t : Transport) (base_url : String) (ent : Entitlement) (env : Env) (w : World)
    → (poll_user (http_client t base_url) ent env w).1.db ≢ w.db
    → Confirmed t base_url (w.tick + 1) ent.user_id
poll_user-Confirmed t base_url ent env w changed =
    elim (http_client_cases t base_url (w.tick + 1) ent.user_id) [
      | inl confirmed ↦ confirmed
      | inr idle ↦ absurd (changed (poll_user_idle (http_client t base_url) ent env w idle))
    ]
