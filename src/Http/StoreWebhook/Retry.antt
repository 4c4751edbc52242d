-- ===== src/Http/StoreWebhook/Retry.antt =====
-- A store that repeats its request.
use subscription_reconciler.Application.StoreWebhook.{respond}
use subscription_reconciler.Application.StoreWebhook.Redelivery.{process_store_webhook_known}
use subscription_reconciler.Application.StoreWebhook.Success.{process_store_webhook_accepts}
use subscription_reconciler.Base.{◌≡◌, ◌∙◌, ap, not, subst, true, false, some}
use subscription_reconciler.Domain.Webhook.{StoreWebhookPayload}
use subscription_reconciler.Http.Message.{Request, Response, Json, webhook, reply, status_accepted}
use subscription_reconciler.Http.StoreWebhook.{handle_store_webhook, webhook_response}
use subscription_reconciler.Http.StoreWebhook.Status.{
  payload_of, IsAccepted, handle_store_webhook-IsAccepted, handle_store_webhook_lem,
}
use subscription_reconciler.Postgres.Queries.Events.{has_store_event}
use subscription_reconciler.Postgres.Session.{Env, World, ok}
use subscription_reconciler.Postgres.Session.Succeeds.{IsQuiet}
use subscription_reconciler.System.Deduplication.{History-Records}
use subscription_reconciler.System.History.{History}

-- What was answered 202 and is sent again, after any history of the system, where no call of the
-- database fails then, is answered 202 again, as a duplicate, and changes no table.
pub handle_store_webhook_retried :
    (json : Json) (r : Request) (p : StoreWebhookPayload) (env env' : Env) (w v : World)
    → payload_of json r ≡ some p
    → (handle_store_webhook json r env w).0.status ≡ 202
    → History (handle_store_webhook json r env w).1.db v.db
    → IsQuiet env'
    → ((handle_store_webhook json r env' v).0 ≡ reply status_accepted (webhook (respond p false)))
      × ((handle_store_webhook json r env' v).1.db ≡ v.db)
handle_store_webhook_retried json r p env env' w v carried accepted between quiet =
    let first : IsAccepted (some p) env w (handle_store_webhook json r env w).0
        (handle_store_webhook json r env w).1 =
      subst
        (λ o.
          IsAccepted o env w (handle_store_webhook json r env w).0
            (handle_store_webhook json r env w).1)
        carried (handle_store_webhook-IsAccepted json r env w accepted) in
    let (a, ran, content, about, good, known) = first in
    let (v', again) = process_store_webhook_accepts p env' v quiet good in
    let stored : has_store_event p.event_id v.db ≡ true =
      History-Records p.event_id (handle_store_webhook json r env w).1.db v.db between known in
    let (duplicate, kept) = process_store_webhook_known p env' v v' _ stored again in
    let answered : handle_store_webhook json r env' v
        ≡ webhook_response (ok (respond p (not (has_store_event p.event_id v.db))), v') =
      handle_store_webhook_lem json r p env' v carried ∙ ap webhook_response again in
    (
      ap (λ (x : Response × World). x.0) answered ∙ rw stored,
      ap (λ (x : Response × World). x.1.db) answered ∙ kept,
    )
