-- ===== src/Http/Timeline/Page.antt =====
-- Which page of a timeline a request is answered with.
use subscription_reconciler.Application.Timeline.{get_entitlement_timeline}
use subscription_reconciler.Base.{
  ℕ, ◌≤◌, String, ◌≡◌, ◌≢◌, ap, ◌==◌, ==_iff, arith, Bool-cases, inl, inr,
}
use subscription_reconciler.Base.Decimal.{codes}
use subscription_reconciler.Base.Decimal.RoundTrip.{decimal, parse_int32-decimal, decimal-ne-nil}
use subscription_reconciler.Base.Int.{ℤ, pos, negsuc, ◌≤ℤ◌}
use subscription_reconciler.Http.Message.{Request}
use subscription_reconciler.Http.Timeline.{
  int_param, or_default, timeline_response, handle_get_timeline,
}
use subscription_reconciler.Postgres.Session.{Env, World}

-- Every 32-bit integer that is sent as its decimal numeral is read back, whatever the default.
pub int_param-decimal :
    (d z : ℤ) (s : String)
    → negsuc 2_147_483_647 ≤ℤ z
    → z ≤ℤ pos 2_147_483_647
    → codes s ≡ decimal z
    → int_param d s ≡ z
unfolding int_param
int_param-decimal d z s low high sent = elim (Bool-cases (s == "")) [
  | inl empty ↦ absurd (decimal-ne-nil z (rw (← sent) (ap codes ((==_iff s "").0 empty))))
  | inr given ↦ rw (given, sent) (ap (or_default d) (parse_int32-decimal z low high))
]

-- A request for a user, a limit from 1 to 1000 and an offset that fits 32 bits, both sent as decimal
-- numerals, is answered with the service's page at that limit and that offset.
pub handle_get_timeline-page :
    (r : Request) (limit offset : ℕ) (env : Env) (w : World)
    → r.url_param "userId" ≢ ""
    → 1 ≤ limit
    → limit ≤ 1000
    → offset ≤ 2_147_483_647
    → codes (r.query "limit") ≡ decimal (pos limit)
    → codes (r.query "offset") ≡ decimal (pos offset)
    → handle_get_timeline r env w
      ≡ timeline_response
          (get_entitlement_timeline (r.url_param "userId") (pos limit) (pos offset) env w)
unfolding handle_get_timeline
handle_get_timeline-page r limit offset env w named one thousand fits asked from =
    elim (Bool-cases (r.url_param "userId" == "")) [
      | inl empty ↦ absurd (named ((==_iff _ "").0 empty))
      | inr given ↦
          rw
            (
              given,
              int_param-decimal (pos 100) (pos limit) (r.query "limit") (omega arith) (omega arith)
                  asked,
              int_param-decimal (pos 0) (pos offset) (r.query "offset") (omega arith) (omega arith)
                  from,
            )
            (ground arith)
    ]
