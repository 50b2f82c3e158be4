-- ===== src/Capabilities/Tests.antt =====
-- Witnesses for capabilities/policy.py, gateway.py and mission_authorization.py.
use the_creation_os.Prelude.{
  ℕ, String, ◌≡◌, refl, true, false, [], ◌∷◌, Option, none, some, Result, ok, if◌then◌else◌, ◌==◌,
  string_eq, lookup,
}
use the_creation_os.Prelude.Json
use the_creation_os.Prelude.Json.{Fields, done, field, object, array, text, item, end}
use the_creation_os.Domain.{Actor, authorized, require_creator, MissionStatus-discrete}
use the_creation_os.Capabilities.Contracts.{
  at_most_once, safe, CapabilityIntent, MissionAuthorization, CapabilityContext, CapabilityResult,
}
use the_creation_os.Capabilities.Policy.{
  CapabilityDeclaration, authorize_capability, check_scope, effective_idempotency_class,
}
use the_creation_os.Capabilities.Policy.Decision.{Allows, authorize_iff}
use the_creation_os.Capabilities.Gateway.{Adapter, AdapterCall, GatewayError, execute}
use the_creation_os.Capabilities.Gateway.Calls.{register_all, CallsAllowed, execute-CallsAllowed}
use the_creation_os.Capabilities.Grant.{
  Mission, Missions, Moment, GrantRequest, granted_as, store_grant, set_mission_authorization,
}
use the_creation_os.Capabilities.Grant.Versions.{
  IsGranted, set-IsGranted, Call, run, KeepsOrRaises, run-KeepsOrRaises,
}

abbrev instant_of : String → Option ℕ
instant_of t = if t == "2030-01-01T00:00:00Z" then some 1000 else none

abbrev narrowed : Fields
narrowed =
    field "actions" (object (field "mail" (array (item (text "send") end)) done))
      (field "resources" (text "inbox") done)

abbrev send : CapabilityIntent
send = record {
  capability = "mail";
  action = "send";
  resource = some "inbox";
  arguments = done;
  external_effect = false;
  idempotency_class = safe;
  idempotency_key = some "k1";
  economic = done;
}

abbrev leave : MissionAuthorization
leave = record {
  allowed_capabilities = "mail" ∷ [];
  denied_capabilities = [];
  scope = narrowed;
  external_effects_allowed = true;
  risk_level = "low";
  budget = done;
  expires_at = some "2030-01-01T00:00:00Z";
  version = 1;
  authorized_by = "c";
  authorized_at = "now";
}

abbrev sends_mail : CapabilityDeclaration
sends_mail = record { external_effect = true; minimum_idempotency_class = at_most_once }

allowed : authorize_capability instant_of 999 send leave (some sends_mail) ≡ ok tt
unfolding authorize_capability check_scope effective_idempotency_class Json.get
allowed = refl

authorize_iff_example :
    (authorize_capability instant_of 999 send leave (some sends_mail) ≡ ok tt
      → Allows instant_of 999 send leave sends_mail)
    × (Allows instant_of 999 send leave sends_mail
        → authorize_capability instant_of 999 send leave (some sends_mail) ≡ ok tt)
authorize_iff_example = authorize_iff instant_of 999 send leave sends_mail

abbrev mail : Adapter
mail = record { name = "mail"; external_effect = none; minimum_idempotency_class = none }

abbrev sent : AdapterCall → Result GatewayError CapabilityResult
sent c =
    ok (record { capability = "mail"; action = "send"; ok = true; payload = done; error = done })

abbrev context : CapabilityContext
context = record { mission_id = "m"; task_id = none; authorization = leave }

execute-CallsAllowed_example :
    CallsAllowed instant_of 999 send context
      (execute sent instant_of 999
        (register_all (record { adapters = [] }) (mail ∷ mail ∷ []))
        send
        context).1
execute-CallsAllowed_example =
    execute-CallsAllowed sent instant_of 999 (mail ∷ mail ∷ []) send context

abbrev mission : Mission
mission = record { id = "m"; creator_id = "c"; status = authorized; granted = none }

abbrev missions : Missions
missions = record { rows = ("m", mission) ∷ []; events = [] }

abbrev creator : Actor
creator = record { id = "c"; role = "creator" }

abbrev now : Moment
now = record { instant = 5; written = "now" }

abbrev request : GrantRequest
request = record {
  allowed_capabilities = some ("mail" ∷ []);
  denied_capabilities = none;
  scope = none;
  external_effects_allowed = none;
  risk_level = none;
  budget = none;
  expires_at = some "2030-01-01T00:00:00Z";
  version = none;
}

abbrev stored : Missions
stored = store_grant missions "m" mission creator (granted_as creator now request "x")

accepted : set_mission_authorization instant_of now missions creator "m" request "x" ≡ ok stored
unfolding set_mission_authorization require_creator lookup MissionStatus-discrete
accepted = refl

set-IsGranted_example : IsGranted instant_of now missions creator "m" request "x" stored
set-IsGranted_example =
    set-IsGranted instant_of now missions creator "m" request "x" stored accepted

abbrev grant : Call
grant = record {
  now = now;
  actor = creator;
  mission_id = "m";
  request = request;
  correlation_id = "x";
}

run-KeepsOrRaises_example :
    KeepsOrRaises missions (run instant_of missions (grant ∷ grant ∷ [])) "m"
run-KeepsOrRaises_example = run-KeepsOrRaises instant_of missions (grant ∷ grant ∷ []) "m"
