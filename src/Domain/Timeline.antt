-- ===== src/Domain/Timeline.antt =====
-- internal/domain/timeline.go.
use subscription_reconciler.Base.{ℕ, String, Bool, Option, List}
use subscription_reconciler.Base.Int.{ℤ}
use subscription_reconciler.Clock.{Time}

pub record TimelineEntry : Type 0 where
  pub timestamp : Time
  pub source : String
  pub active : Bool
  pub reason : Option String
  pub expires_at : Option Time
  pub triggering_event_id : Option String

pub record TimelineResponse : Type 0 where
  pub user_id : String
  pub entries : List TimelineEntry
  pub total : ℕ
  pub limit : ℤ
  pub offset : ℤ
