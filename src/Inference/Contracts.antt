-- ===== src/Inference/Contracts.antt =====
-- backend/app/inference/contracts.py: requests, answers, what is known of a model, and the errors.
-- A score is a whole number of parts of the unit, a time a whole number of ticks; an error is its
-- class with the fields that the router reads, without its message.
use the_creation_os.Prelude.{ℕ, String, Bool, true, false, List, Option, none, Dict}
use the_creation_os.Prelude.Json.{Json, Fields}

pub data CostTier : Type 0 where
  unknown free low premium frontier : CostTier

-- The values of the `IntEnum`, each one higher.
abbrev pub tier_order : CostTier → ℕ
tier_order unknown = 0
tier_order free = 1
tier_order low = 2
tier_order premium = 3
tier_order frontier = 4

pub data RoutingStrategy : Type 0 where
  ordered benchmark : RoutingStrategy

pub record ModelRequirements : Type 0 where
  pub preferred_provider : Option String
  pub fallback_providers : List String
  pub required_capabilities : List String
  pub max_cost_tier : Option CostTier
  pub routing_strategy : RoutingStrategy
  pub requires_streaming : Bool
  pub max_output_tokens : Option ℕ

pub record ProviderModelProfile : Type 0 where
  pub provider : String
  pub model : String
  pub capabilities : List String
  pub cost_tier : CostTier
  pub is_default : Bool

pub record ProviderBenchmarkEvidence : Type 0 where
  pub provider : String
  pub model : String
  pub suite_id : String
  pub score : ℕ
  pub sample_count : ℕ
  pub observed_at : ℕ

pub record InferenceRequest : Type 0 where
  pub messages : List Fields
  pub model : Option String
  pub requirements : ModelRequirements
  pub metadata : Fields

pub record InferenceResponse : Type 0 where
  pub provider : String
  pub model : String
  pub content : String
  pub finish_reason : Option String
  pub usage : Dict String ℕ
  pub metadata : Dict String Json

pub record ProviderHealth : Type 0 where
  pub provider : String
  pub available : Bool
  pub detail : Option String

pub data ErrorClass : Type 0 where
  inference configuration authentication unavailable budget rate_limit timeout upstream_response :
      ErrorClass

pub record InferenceError : Type 0 where
  pub class : ErrorClass
  pub provider : String
  pub upstream_code : Option String

abbrev pub error_of : ErrorClass → String → InferenceError
error_of class provider = record { class = class; provider = provider; upstream_code = none }

-- The class attribute `code`.
abbrev pub code : ErrorClass → String
code inference = "INFERENCE_ERROR"
code configuration = "INFERENCE_CONFIGURATION_ERROR"
code authentication = "INFERENCE_AUTHENTICATION_ERROR"
code unavailable = "PROVIDER_UNAVAILABLE"
code budget = "INFERENCE_BUDGET_ERROR"
code rate_limit = "INFERENCE_RATE_LIMIT"
code timeout = "INFERENCE_TIMEOUT"
code upstream_response = "INFERENCE_UPSTREAM_RESPONSE_ERROR"

-- The subclasses of `ProviderUnavailable`.
abbrev pub is_unavailable : ErrorClass → Bool
is_unavailable inference = false
is_unavailable configuration = false
is_unavailable authentication = false
is_unavailable _ = true
