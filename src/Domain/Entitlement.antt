-- ===== src/Domain/Entitlement.antt =====
-- internal/domain/entitlement.go and entitlement_response.go.
use subscription_reconciler.Base.{
  ℕ, String, Bool, true, false, Option, none, some, ◌==◌, if◌then◌else◌, not,
}
use subscription_reconciler.Clock.{Time, after}

-- The fields that `IsActive` reads.
pub record Entitlement : Type 0 where
  pub active : Bool
  pub expires_at : Option Time

is_after : Option Time → Time → Bool
is_after none at = true
is_after (some t) at = after t at

-- Access ends at `expires_at` itself.
unfoldable pub is_active : Entitlement → Time → Bool
unfolding is_after
is_active e at = if not e.active then false else is_after e.expires_at at

pub record EntitlementResponse : Type 0 where
  pub active : Bool
  pub source : String
  pub expires_at : Option Time
  pub last_changed_at : Time
  pub reason : Option String

-- `SourcePriority[source]`: a missing key reads as 0.
unfoldable pub source_priority : String → ℕ
source_priority source =
    if source == "STORE"
    then 3
    else if source == "CARRIER"
    then 2
    else if source == "MARKETPLACE"
    then 1
    else 0

abbrev pub premium_expires_soon : String
premium_expires_soon = "PREMIUM_EXPIRES_SOON"
