-- ===== src/Tests/Carrier.antt =====
-- Instances for the carrier's client and the mock endpoint.
use Prim.Native.String
use subscription_reconciler.Application.CarrierPolling.{
  poll_user, get_plan_status as ask_carrier, apply_status, reconcile_active, set_active,
  carrier_change,
}
use subscription_reconciler.Base.{
  ◌≡◌, ◌≢◌, ap, refl, ◌%◌, ◌^◌, String, ◌==◌, true, false, none, some, [], ◌∷◌, arith,
}
use subscription_reconciler.Base.Decimal.{codes}
use subscription_reconciler.Base.Int.{pos}
use subscription_reconciler.Base.Lists.{length}
use subscription_reconciler.Carrier.{
  HttpResponse, Transport, http_client, get_plan_status, request_url, trim_slashes,
}
use subscription_reconciler.Carrier.Polling.{Confirmed, poll_user-Confirmed}
use subscription_reconciler.Clock.{timestamptz, unix_micro, unix_milli}
use subscription_reconciler.Http.Message.{Request, Content, plan}
use subscription_reconciler.Http.MockCarrier.{Rand, hash_user_id}
use subscription_reconciler.Http.MockCarrier.Hash.{djb2, hash_user_id-djb2}
use subscription_reconciler.Postgres.Client.Upsert.{
  lock_entitlement_user, optional, record_change, upsert_entitlement, upsert_entitlement_in,
  write_projection,
}
use subscription_reconciler.Postgres.Models.{Db, UserEntitlement, empty_db}
use subscription_reconciler.Postgres.Queries.AuditLogs
use subscription_reconciler.Postgres.Queries.CarrierClaims.Stale.{stale_rows}
use subscription_reconciler.Postgres.Queries.Entitlements
use subscription_reconciler.Postgres.Queries.Entitlements.{is_source}
use subscription_reconciler.Postgres.Session.{
  World, ◌>>=◌, time_now, ctx_err, in_transaction, atomically, begin, statement, commit, pure,
}
use subscription_reconciler.Postgres.Types.{Entitlement, same_expiration}
use subscription_reconciler.Tests.World.{quiet, fresh, start}
use subscription_reconciler.Worker.CarrierPolling.{poll_once}
use subscription_reconciler.Worker.CarrierPolling.Drain.{poll_once_ends}
use subscription_reconciler.Worker.Notifications.{out_of_fuel}

trims : trim_slashes "/base//" ≡ "/base"
unfolding trim_slashes ◌==◌
trims = refl

hash_of_ab : hash_user_id "ab" ≡ 5863208
unfolding hash_user_id
hash_of_ab = refl

hash_user_id-djb2_example : hash_user_id "alice" ≡ djb2 5381 (codes "alice") % 2 ^ 64
hash_user_id-djb2_example = hash_user_id-djb2 "alice"

-- A network that answers every request alike, and a codec that writes the bare status.
abbrev network : HttpResponse → Transport
network r = record {
  Url = String;
  parse = λ text. some text;
  path = λ url. "";
  with_path = λ url path. String.◌++◌ url path;
  with_query = λ url key text. String.◌++◌ url (String.◌++◌ "?userId=" text);
  to_string = λ url. url;
  accepts = λ url. true;
  send = λ k url. some r;
  decode = λ body. some (record { status = body });
}

encode : Content → String
encode (plan m) = m.status
encode _ = ""

abbrev rand_90 : Rand
rand_90 seed n = 90

abbrev asked : Request
asked = record { body = some ""; url_param = λ name. ""; query = λ name. "alice" }

abbrev carrier_plan : Entitlement
carrier_plan = record {
  user_id = "alice";
  source = "CARRIER";
  active = false;
  expires_at = none;
  reason = none;
  updated_at = start;
  last_event_time = pos 100;
  carrier_polled_at = none;
}

abbrev says_active : Transport
says_active = network (record { status_code = 200; body = "active" })

abbrev polled : Db
polled = (poll_user (http_client says_active "http://carrier") carrier_plan quiet fresh).1.db

one_row : length polled.user_entitlements ≡ 1
unfolding poll_user ask_carrier apply_status reconcile_active set_active carrier_change http_client
    get_plan_status request_url ◌==◌ ◌>>=◌ time_now ctx_err in_transaction atomically begin
    statement commit pure lock_entitlement_user optional record_change upsert_entitlement
    upsert_entitlement_in write_projection AuditLogs.insert_audit_log
    Entitlements.get_entitlement_by_user_and_source is_source Entitlements.upsert_entitlement
    same_expiration timestamptz unix_micro unix_milli
one_row = refl

changed : polled ≢ fresh.db
changed e =
    let same = ap (λ (db : Db). length db.user_entitlements) e in
    absurd (omega (arith, one_row, same))

poll_user-Confirmed_example : Confirmed says_active "http://carrier" 1 "alice"
poll_user-Confirmed_example =
    poll_user-Confirmed says_active "http://carrier" carrier_plan quiet fresh changed

-- A carrier row that was never polled.
abbrev unpolled : UserEntitlement
unpolled = record {
  user_id = "alice";
  source = "CARRIER";
  active = true;
  expires_at = none;
  reason = none;
  updated_at = start;
  last_event_time = pos 100;
  carrier_polled_at = none;
}

abbrev with_unpolled : World
with_unpolled = record fresh { db = record empty_db { user_entitlements = unpolled ∷ [] } }

one_stale : stale_rows start with_unpolled.db ≡ 1
unfolding ◌==◌
one_stale = refl

poll_once_ends_example :
    (poll_once (http_client says_active "http://carrier") 2 quiet with_unpolled).0 ≢ out_of_fuel
poll_once_ends_example =
    poll_once_ends (http_client says_active "http://carrier") quiet start (λ k. omega arith)
      (λ k. omega arith) 2 with_unpolled (omega (arith, one_stale))
