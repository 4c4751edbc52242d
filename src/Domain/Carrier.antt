-- ===== src/Domain/Carrier.antt =====
-- internal/domain/carrier.go.
use subscription_reconciler.Base.{String}

abbrev pub CarrierPlanStatus : Type 0
CarrierPlanStatus = String

abbrev pub carrier_status_active : CarrierPlanStatus
carrier_status_active = "active"

abbrev pub carrier_status_inactive : CarrierPlanStatus
carrier_status_inactive = "inactive"

abbrev pub carrier_status_api_error : CarrierPlanStatus
carrier_status_api_error = "api_error"

pub record MockCarrierResponse : Type 0 where
  pub status : String
