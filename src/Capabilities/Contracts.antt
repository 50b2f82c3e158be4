-- ===== src/Capabilities/Contracts.antt =====
-- backend/app/capabilities/contracts.py: what an Agent asks for, and what the Creator allows. The
-- bounds that the schema library checks on the lengths of the texts are not modelled.
use the_creation_os.Prelude.{ℕ, String, Bool, Option, List}
use the_creation_os.Prelude.Json.{Fields}

pub data IdempotencyClass : Type 0 where
  safe idempotent at_most_once : IdempotencyClass

pub record CapabilityIntent : Type 0 where
  pub capability : String
  pub action : String
  pub resource : Option String
  pub arguments : Fields
  pub external_effect : Bool
  pub idempotency_class : IdempotencyClass
  pub idempotency_key : Option String
  pub economic : Fields

pub record MissionAuthorization : Type 0 where
  pub allowed_capabilities : List String
  pub denied_capabilities : List String
  pub scope : Fields
  pub external_effects_allowed : Bool
  pub risk_level : String
  pub budget : Fields
  pub expires_at : Option String
  pub version : ℕ
  pub authorized_by : String
  pub authorized_at : String

pub record CapabilityContext : Type 0 where
  pub mission_id : String
  pub task_id : Option String
  pub authorization : MissionAuthorization

pub record CapabilityResult : Type 0 where
  pub capability : String
  pub action : String
  pub ok : Bool
  pub payload : Fields
  pub error : Fields
