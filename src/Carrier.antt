-- ===== src/Carrier.antt =====
-- internal/infrastructure/carrier/client.go, the HTTP client of the carrier. net/url, net/http and
-- the decoder of encoding/json are parameters.
pub mod Polling
pub mod Mock
use Prim.Native.Char.{Char, code}
use Prim.Native.String
use subscription_reconciler.Application.CarrierPolling.{CarrierClient}
use subscription_reconciler.Base.{
  ℕ, String, Bool, Option, none, some, ◌==◌, eqb, ◌&&◌, ◌||◌, not, if◌then◌else◌,
}
use subscription_reconciler.Domain.Carrier.{
  CarrierPlanStatus, MockCarrierResponse, carrier_status_active, carrier_status_inactive,
  carrier_status_api_error,
}
use subscription_reconciler.Http.Message.{status_ok}

-- What the client reads of an answer.
pub record HttpResponse : Type 0 where
  pub status_code : ℕ
  pub body : String

-- `url.Parse`; the path of a URL; that URL with another path, and with a key of its query set;
-- `String()`; `http.NewRequestWithContext`, whether it accepts the URL; `Do` as call k, `none` for
-- an error; the decoder.
pub record Transport : Type 1 where
  pub Url : Type 0
  pub parse : String → Option Url
  pub path : Url → String
  pub with_path : Url → String → Url
  pub with_query : Url → String → String → Url
  pub to_string : Url → String
  pub accepts : String → Bool
  pub send : ℕ → String → Option HttpResponse
  pub decode : String → Option MockCarrierResponse

-- strings.TrimRight(s, "/")
trim_cons : Char → String → String
trim_cons c rest = if rest == "" && eqb (code c) b'/' then "" else String.◌∷◌ c rest

unfoldable pub trim_slashes : String → String
unfolding trim_cons
trim_slashes String.[] = String.[]
trim_slashes (String.◌∷◌ c s) = trim_cons c (trim_slashes s)

-- The pair `(CarrierPlanStatus, error)`, with the step of the error.
pub data Failure : Type 0 where
  parse_base_url : Failure
  create_request : Failure
  get : Failure
  decode_response : Failure

pub record Answer : Type 0 where
  pub status : CarrierPlanStatus
  pub error : Option Failure

abbrev pub failed : Failure → Answer
failed f = record { status = carrier_status_api_error; error = some f }

abbrev pub answered : CarrierPlanStatus → Answer
answered s = record { status = s; error = none }

abbrev pub known_status : CarrierPlanStatus → Answer
known_status s =
    if s == carrier_status_active || s == carrier_status_inactive
    then answered s
    else answered carrier_status_api_error

abbrev pub decoded_answer : Option MockCarrierResponse → Answer
decoded_answer none = failed decode_response
decoded_answer (some body) = known_status body.status

abbrev pub answer_to : Transport → Option HttpResponse → Answer
answer_to t none = failed get
answer_to t (some r) =
    if not (eqb r.status_code status_ok)
    then answered carrier_status_api_error
    else decoded_answer (t.decode r.body)

unfoldable pub request_url : (t : Transport) → t.Url → String → String
unfolding trim_slashes
request_url t base user = t.to_string (
    t.with_query (t.with_path base (String.◌++◌ (trim_slashes (t.path base)) "/mock/carrier/plan"))
      "userId" user)

abbrev request : Transport → ℕ → String → Answer
request t k url = if t.accepts url then answer_to t (t.send k url) else failed create_request

abbrev parsed : (t : Transport) → Option t.Url → ℕ → String → Answer
parsed t none k user = failed parse_base_url
parsed t (some base) k user = request t k (request_url t base user)

-- `GetPlanStatus`, as call k of the program.
unfoldable pub get_plan_status : Transport → String → ℕ → String → Answer
unfolding request_url
get_plan_status t base_url k user = parsed t (t.parse base_url) k user

abbrev pub status_or_none : Answer → Option CarrierPlanStatus
status_or_none a = elim a.error [ none ↦ some a.status | some f ↦ none ]

-- The client as the polling service uses it, which looks at the status only if there is no error.
unfoldable pub http_client : Transport → String → CarrierClient
unfolding get_plan_status
http_client t base_url k user = status_or_none (get_plan_status t base_url k user)
