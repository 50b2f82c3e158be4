-- ===== src/Capabilities/Grant.antt =====
-- backend/app/capabilities/mission_authorization.py: the Creator writes a Mission's authorization.
-- Missions stand in a dict by their ids; the payload is what the request's schema leaves of it, with
-- `none` for a missing key. `instant_of` reads a timestamp as in capabilities/policy.py.
pub mod Versions
use the_creation_os.Prelude.{
  ℕ, ◌+◌, String, Bool, true, false, Option, none, some, List, [], ◌∷◌, Result, ok, err, guard,
  ◌>>=◌, ◌>>◌, ltb, if◌then◌else◌, ◌==◌, string_eq, Dict, lookup, insert, or_else,
}
use the_creation_os.Prelude.Json.{Fields, done}
use the_creation_os.Domain.{
  MissionStatus, mission_status_eq, authorized, DomainError, invalid_origin, not_found, Actor,
  require_creator,
}
use the_creation_os.Capabilities.Contracts.{MissionAuthorization}

-- `authorization_json` with its correlation id.
pub record Granted : Type 0 where
  pub authorization : MissionAuthorization
  pub correlation_id : String

-- The columns of a Mission that are read or written here.
pub record Mission : Type 0 where
  pub id : String
  pub creator_id : String
  pub status : MissionStatus
  pub granted : Option Granted

pub record GrantRequest : Type 0 where
  pub allowed_capabilities : Option (List String)
  pub denied_capabilities : Option (List String)
  pub scope : Option Fields
  pub external_effects_allowed : Option Bool
  pub risk_level : Option String
  pub budget : Option Fields
  pub expires_at : Option String
  pub version : Option ℕ

-- The event `mission_authorization_scoped`, with the five parts of the grant that its payload has.
pub record GrantEvent : Type 0 where
  pub mission_id : String
  pub actor_id : String
  pub actor_role : String
  pub correlation_id : String
  pub version : ℕ
  pub allowed_capabilities : List String
  pub denied_capabilities : List String
  pub external_effects_allowed : Bool
  pub risk_level : String

pub record Missions : Type 0 where
  pub rows : Dict String Mission
  pub events : List GrantEvent

abbrev pub version_of : Option Granted → ℕ
version_of none = 0
version_of (some g) = g.authorization.version

abbrev pub owned_by : Actor → Option Mission → Result DomainError Mission
owned_by actor none = err not_found
owned_by actor (some m) = if m.creator_id == actor.id then ok m else err not_found

abbrev pub check_instant : ℕ → Option ℕ → Result DomainError (Unit {0})
check_instant now none = err invalid_origin
check_instant now (some end) = guard (ltb now end) invalid_origin

abbrev pub check_end : (String → Option ℕ) → ℕ → Option String → Result DomainError (Unit {0})
check_end instant_of now none = ok tt
check_end instant_of now (some expires_at) = check_instant now (instant_of expires_at)

-- The time of the call, as an instant and as it is written down.
pub record Moment : Type 0 where
  pub instant : ℕ
  pub written : String

abbrev pub granted_as : Actor → Moment → GrantRequest → String → Granted
granted_as actor now request correlation_id = record {
  authorization = record {
    allowed_capabilities = or_else request.allowed_capabilities [];
    denied_capabilities = or_else request.denied_capabilities [];
    scope = or_else request.scope done;
    external_effects_allowed = or_else request.external_effects_allowed false;
    risk_level = or_else request.risk_level "low";
    budget = or_else request.budget done;
    expires_at = request.expires_at;
    version = or_else request.version 1;
    authorized_by = actor.id;
    authorized_at = now.written;
  };
  correlation_id = correlation_id;
}

abbrev pub grant_event : Mission → Actor → Granted → GrantEvent
grant_event mission actor g = record {
  mission_id = mission.id;
  actor_id = actor.id;
  actor_role = actor.role;
  correlation_id = g.correlation_id;
  version = g.authorization.version;
  allowed_capabilities = g.authorization.allowed_capabilities;
  denied_capabilities = g.authorization.denied_capabilities;
  external_effects_allowed = g.authorization.external_effects_allowed;
  risk_level = g.authorization.risk_level;
}

abbrev pub store_grant : Missions → String → Mission → Actor → Granted → Missions
store_grant missions mission_id mission actor g = record {
  rows = insert mission_id (record mission { granted = some g }) missions.rows;
  events = grant_event mission actor g ∷ missions.events;
}

unfoldable pub set_mission_authorization :
    (String → Option ℕ)
    → Moment
    → Missions
    → Actor
    → String
    → GrantRequest
    → String
    → Result DomainError Missions
set_mission_authorization instant_of now missions actor mission_id request correlation_id = do
  require_creator actor
  mission ← owned_by actor (lookup mission_id missions.rows)
  guard (mission.status == authorized) invalid_origin
  guard (ltb (version_of mission.granted) (or_else request.version 1)) invalid_origin
  check_end instant_of now.instant request.expires_at
  ok (store_grant missions mission_id mission actor (granted_as actor now request correlation_id))
