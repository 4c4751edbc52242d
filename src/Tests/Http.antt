-- ===== src/Tests/Http.antt =====
-- Instances for the handlers of the two webhooks and of the timeline.
use subscription_reconciler.Application.StoreWebhook.{respond}
use subscription_reconciler.Application.Timeline.{get_entitlement_timeline}
use subscription_reconciler.Base.{
  ◌≡◌, ◌≢◌, ◌↔◌, ◌∙◌, ap, refl, String, ◌==◌, ==_iff, false, some, if◌then◌else◌, arith,
}
use subscription_reconciler.Base.Decimal.RoundTrip.{decimal}
use subscription_reconciler.Base.Int.{pos, negsuc}
use subscription_reconciler.Http.MarketplaceRevoke.Status.{
  IsRefused as IsRefusedBatch, IsAccepted as IsAcceptedBatch,
}
use subscription_reconciler.Http.Message.{
  Request, Response, Json, value, invalid, webhook, reply, status_accepted,
}
use subscription_reconciler.Http.StoreWebhook.{handle_store_webhook, webhook_response}
use subscription_reconciler.Http.StoreWebhook.Retry.{handle_store_webhook_retried}
use subscription_reconciler.Http.StoreWebhook.Status.{
  payload_of, IsRefused, IsAccepted, handle_store_webhook_lem, handle_store_webhook-bad_request_iff,
  handle_store_webhook-unchanged, handle_store_webhook-IsAccepted,
}
use subscription_reconciler.Http.Timeline.{int_param, handle_get_timeline, timeline_response}
use subscription_reconciler.Http.Timeline.Page.{int_param-decimal, handle_get_timeline-page}
use subscription_reconciler.Postgres.Models.{empty_db}
use subscription_reconciler.Postgres.Session.{World}
use subscription_reconciler.Domain.Error.{as_domain}
use subscription_reconciler.System.History.{History, perform, sweep}
use subscription_reconciler.Tests.Revocation.{request}
use subscription_reconciler.Tests.Webhook.{delivers, fails, quiet-IsQuiet}
use subscription_reconciler.Tests.World.{quiet, broken, fresh, purchase}

-- Two bodies and what they decode to.
abbrev pub codec : Json
codec = record {
  store_webhook =
      λ body. if body == "purchase" then value purchase else invalid "unexpected end of JSON input";
  marketplace_revoke =
      λ body. if body == "batch" then value request else invalid "unexpected end of JSON input";
}

abbrev pub request_with : String → Request
request_with body = record {
  body = some body;
  url_param = λ name. "alice";
  query = λ name. if name == "limit" then "50" else "7";
}

abbrev posted : Request
posted = request_with "purchase"

purchase_carried : payload_of codec posted ≡ some purchase
unfolding ◌==◌
purchase_carried = refl

answered : (handle_store_webhook codec posted quiet fresh).0.status ≡ 202
answered =
    ap (λ (x : Response × World). x.0.status)
      (handle_store_webhook_lem codec posted purchase quiet fresh purchase_carried
        ∙ ap webhook_response delivers)

refused : (handle_store_webhook codec posted broken fresh).0.status ≡ 500
unfolding as_domain
refused =
    ap (λ (x : Response × World). x.0.status)
      (handle_store_webhook_lem codec posted purchase broken fresh purchase_carried
        ∙ ap webhook_response fails)

handle_store_webhook-bad_request_iff_example :
    ((handle_store_webhook codec posted broken fresh).0.status ≡ 400)
    ↔ IsRefused (payload_of codec posted)
handle_store_webhook-bad_request_iff_example =
    handle_store_webhook-bad_request_iff codec posted broken fresh

handle_store_webhook-unchanged_example :
    (handle_store_webhook codec posted broken fresh).1.db ≡ empty_db
handle_store_webhook-unchanged_example =
    handle_store_webhook-unchanged codec posted broken fresh
      (λ e. absurd (omega (arith, e, refused)))

handle_store_webhook-IsAccepted_example :
    IsAccepted
      (payload_of codec posted)
      quiet
      fresh
      (handle_store_webhook codec posted quiet fresh).0
      (handle_store_webhook codec posted quiet fresh).1
handle_store_webhook-IsAccepted_example =
    handle_store_webhook-IsAccepted codec posted quiet fresh answered

abbrev after : World
after = (handle_store_webhook codec posted quiet fresh).1

-- A sweep has run since.
abbrev later_on : World
later_on = perform (sweep (pos 9)) quiet after

handle_store_webhook_retried_example :
    ((handle_store_webhook codec posted quiet later_on).0
      ≡ reply status_accepted (webhook (respond purchase false)))
    × ((handle_store_webhook codec posted quiet later_on).1.db ≡ later_on.db)
handle_store_webhook_retried_example =
    handle_store_webhook_retried codec posted purchase quiet quiet fresh later_on purchase_carried
      answered
      (History.also (sweep (pos 9)) quiet after later_on.db (History.start after.db refl) refl)
      quiet-IsQuiet

abbrev batch : Request
batch = request_with "batch"

minus_seven : int_param (pos 100) "-7" ≡ negsuc 6
unfolding int_param ◌==◌
minus_seven = refl

not_a_number : int_param (pos 100) "12x" ≡ pos 100
unfolding int_param ◌==◌
not_a_number = refl

too_large : int_param (pos 100) "2147483648" ≡ pos 100
unfolding int_param ◌==◌
too_large = refl

int_param-decimal_example : int_param (pos 100) "-7" ≡ negsuc 6
unfolding decimal
int_param-decimal_example =
    int_param-decimal (pos 100) (negsuc 6) "-7" (omega arith) (omega arith) refl

alice_named : ◌≢◌ {A = String} "alice" ""
unfolding ◌==◌
alice_named e = ground (arith, ==_iff "alice" "")

handle_get_timeline-page_example :
    handle_get_timeline posted quiet fresh
    ≡ timeline_response (get_entitlement_timeline "alice" (pos 50) (pos 7) quiet fresh)
unfolding decimal ◌==◌
handle_get_timeline-page_example =
    handle_get_timeline-page posted 50 7 quiet fresh alice_named (omega arith) (omega arith)
      (omega arith) refl refl
