-- ===== src/Http/MockCarrier.antt =====
-- internal/infrastructure/http/mock_carrier.go. The generator of math/rand is a parameter.
pub mod Hash
use subscription_reconciler.Base.{
  ℕ, zero, suc, ◌+◌, ◌-◌, ◌*◌, ◌/◌, ◌%◌, ◌^◌, String, List, [], ◌∷◌, ◌==◌, ltb, if◌then◌else◌,
}
use subscription_reconciler.Base.Decimal.{codes}
use subscription_reconciler.Base.Int.{ℤ, pos, negsuc}
use subscription_reconciler.Clock.{Time, unix_seconds}
use subscription_reconciler.Domain.Carrier.{
  CarrierPlanStatus, MockCarrierResponse, carrier_status_active, carrier_status_inactive,
  carrier_status_api_error,
}
use subscription_reconciler.Http.Message.{
  Request, plan, carrier_failure, Response, reply, respond_error, status_ok, status_bad_request,
  status_internal_server_error,
}
use subscription_reconciler.Postgres.Session.{Env, World, next}

-- `rand.New(rand.NewSource(seed)).Intn(n)`: the first draw below n from a source with this seed.
abbrev pub Rand : Type 0
Rand = ℤ → ℕ → ℕ

abbrev pub word : ℕ
word = 2 ^ 64

-- The loop of `hashUserID`, over the code points, in uint64.
unfoldable pub hash_from : ℕ → List ℕ → ℕ
hash_from h [] = h
hash_from h (c ∷ cs) = hash_from (((h * 2 ^ 5 % word + h) % word + c) % word) cs

unfoldable pub hash_user_id : String → ℕ
unfolding hash_from
hash_user_id user = hash_from 5381 (codes user)

-- `int64(h)` of a uint64, and the bits of an int64.
abbrev pub int64_of : ℕ → ℤ
int64_of h = if ltb h (2 ^ 63) then pos h else negsuc (word - 1 - h)

abbrev pub bits_of : ℤ → ℕ
bits_of (pos n) = n % word
bits_of (negsuc n) = word - 1 - n % word

-- Go's `t.Unix() / 60`, which rounds towards zero.
abbrev minutes_of : ℤ → ℤ
minutes_of (pos n) = pos (n / 60)
minutes_of (negsuc n) = elim ((n + 1) / 60) [ zero ↦ pos 0 | suc m ↦ negsuc m ]

unfoldable pub mock_carrier_seed : String → Time → ℤ
unfolding hash_user_id
mock_carrier_seed user now =
    int64_of ((hash_user_id user + bits_of (minutes_of (unix_seconds now))) % word)

abbrev pub status_of_roll : ℕ → CarrierPlanStatus
status_of_roll roll =
    if ltb roll 85
    then carrier_status_active
    else if ltb roll 95
    then carrier_status_inactive
    else carrier_status_api_error

unfoldable pub mock_carrier_status : Rand → String → Time → CarrierPlanStatus
unfolding mock_carrier_seed
mock_carrier_status rand user now = status_of_roll (rand (mock_carrier_seed user now) 100)

abbrev pub plan_response : CarrierPlanStatus → Response
plan_response status =
    if status == carrier_status_api_error
    then reply status_internal_server_error (carrier_failure "api_error")
    else reply status_ok (plan (record { status = status }))

-- `HandleGetPlan`.
unfoldable pub handle_get_plan : Rand → Request → Env → World → Response × World
unfolding mock_carrier_status
handle_get_plan rand r env w =
    let user = r.query "userId" in
    if user == ""
    then (
      respond_error status_bad_request "MISSING_USER_ID" "userId query parameter is required",
      w,
    )
    else (plan_response (mock_carrier_status rand user (env.wall w.tick)), next w)
