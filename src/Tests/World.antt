-- ===== src/Tests/World.antt =====
-- An environment in which nothing fails, and the tables of a small run.
use subscription_reconciler.Audit.Trail.{IsTruthful}
use subscription_reconciler.Base.{ℕ, ◌+◌, false, true, none, some}
use subscription_reconciler.Base.Int.{pos}
use subscription_reconciler.Clock.{Time}
use subscription_reconciler.Domain.Webhook.{StoreWebhookPayload}
use subscription_reconciler.Postgres.Models.{empty_db}
use subscription_reconciler.Postgres.Queries.Entitlements.{UpsertEntitlementParams}
use subscription_reconciler.Postgres.Session.{Env, World}

-- 2025-01-01 00:00 UTC, and the same instant in Unix milliseconds.
abbrev pub start : Time
start = 63_871_286_400_000_000_000

abbrev pub start_ms : ℕ
start_ms = 1_735_689_600_000

-- Thirty days, in the place of a calendar month.
abbrev pub days_30 : ℕ
days_30 = 2_592_000_000_000_000

abbrev pub quiet : Env
quiet = record {
  fault = λ k. none;
  canceled = λ k. none;
  wall = λ k. start + 1_000_000_000;
  db_clock = λ k. start + 2_000_000_000;
  entitlement_locked = λ k r. false;
  notification_locked = λ k n. false;
  add_month = λ t. t + days_30;
  year_month = λ t. "2025-01";
}

-- The first call of the database fails.
abbrev pub broken : Env
broken = record quiet { fault = λ k. some 7 }

abbrev pub fresh : World
fresh = record { db = empty_db; tick = 0 }

abbrev pub purchase : StoreWebhookPayload
purchase = record {
  event_id = "evt-1";
  user_id = "alice";
  event_type = "INITIAL_PURCHASE";
  event_time_ms = pos start_ms;
  product_id = "premium";
}

abbrev pub grant_of : ℕ → UpsertEntitlementParams
grant_of t = record {
  user_id = "alice";
  source = "STORE";
  active = true;
  expires_at = some (start + days_30);
  reason = some "RENEWAL";
  last_event_time = pos t;
}

abbrev pub cancel_of : ℕ → UpsertEntitlementParams
cancel_of t = record {
  user_id = "alice";
  source = "STORE";
  active = false;
  expires_at = none;
  reason = some "CANCELLATION";
  last_event_time = pos t;
}

abbrev pub renewal_copy : StoreWebhookPayload
renewal_copy = record purchase { event_type = "RENEWAL" }

-- Empty tables have nothing to state.
pub empty-IsTruthful : IsTruthful empty_db
empty-IsTruthful = record { agrees = λ u s. tt; chained = tt }
