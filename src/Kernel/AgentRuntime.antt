-- ===== src/Kernel/AgentRuntime.antt =====
-- backend/app/kernel/agent_runtime.py: `run_next` has an Agent answer the
-- next Task of a Mission, and run the capability that the answer asks for. What the schema library makes
-- of a payload, how a Task is rendered, how a value that is no text is written by `str`, and the configured
-- chain of providers, which is never empty, are given. The payload of an output is not modelled.
pub mod Attempt
pub mod Ended
mod Tests
use the_creation_os.Prelude.{
  ℕ, String, Bool, true, false, not, ◌&&◌, ◌||◌, Option, none, some, List, [], ◌∷◌, Result, ok, err,
  if◌then◌else◌, ◌==◌, string_eq, codes_eq, codes, normalize, characters, Dict, lookup, is_some,
}
use the_creation_os.Prelude.Json
use the_creation_os.Prelude.Json.{
  Json, Items, Fields, null, bool, number, negative, text, array, object, end, item, done, field,
  truthy,
}
use the_creation_os.Capabilities.Contracts.{
  CapabilityIntent, MissionAuthorization, CapabilityResult,
}
use the_creation_os.Capabilities.Gateway.{AdapterCall, GatewayError, CapabilityGateway}
use the_creation_os.Capabilities.Spending.{Readings, Place, present}
use the_creation_os.Capabilities.Runtime
use the_creation_os.Capabilities.Runtime.{Database, Call, RuntimeError, execute_capability}
use the_creation_os.Economy.Ledger.{Settings}
use the_creation_os.Inference.Contracts.{
  ordered, ModelRequirements, InferenceRequest, InferenceResponse, InferenceError, is_unavailable,
  code,
}
use the_creation_os.Inference.Router
use the_creation_os.Inference.Router.{
  ModelRouter, World, State, Failure, raised, timeout_error, other_error, Raised, generate,
}
use the_creation_os.Domain.{MissionStatus}
use the_creation_os.Kernel.Tasks.{ErrorCode, reported, Task, Execution, Store}
use the_creation_os.Kernel.Orchestrator.{
  KernelError, claim_next_ready_task, Ending, success, failure, finish_task_attempt,
}
use the_creation_os.Kernel.Completion.{CompletionError, evaluate}
use the_creation_os.Kernel.AgentProfile.{
  no_names, items_of, set_field, is_configured, is_none, effective_agent_capabilities, shown,
  names_in, keys_of, fallback_names, model_of, text_of,
}

pub record AgentRow : Type 0 where
  pub active : Bool
  pub capabilities : Fields

-- What a Mission's row gives: its creator and `authorization_json`.
pub record MissionPlace : Type 0 where
  pub creator_id : String
  pub authorization : Fields

pub record CapabilityRuntime : Type 0 where
  pub run : AdapterCall → Result GatewayError CapabilityResult
  pub instant_of : String → Option ℕ
  pub reads : Readings
  pub settings : Settings
  pub gateway : CapabilityGateway

pub record AgentRuntime : Type 0 where
  pub router : ModelRouter
  pub world : World
  pub capability_runtime : Option CapabilityRuntime
  pub has_completion_engine : Bool
  pub first_provider : String
  pub more_providers : List String
  pub written : Json → String
  pub render : Task → String
  pub read_intent : Json → Option CapabilityIntent
  pub read_authorization : Fields → Option MissionAuthorization

-- All that `run_next` reads and writes.
pub record Site : Type 0 where
  pub store : Store
  pub agents : Dict String AgentRow
  pub missions : Dict String MissionPlace
  pub routing : State
  pub database : Database

-- The new execution's id, and what a capability call may need: the ids of its rows, and the time.
pub record Turn : Type 0 where
  pub mission_id : String
  pub execution_id : String
  pub place : Place
  pub now : ℕ

pub data AgentError : Type 0 where
  kernel : KernelError → AgentError
  active_agent_not_found mission_not_found invalid_profile : AgentError
  completion : CompletionError → AgentError

-- The chain behind the Agent's provider, where the Agent pins nothing.
abbrev pub fallbacks_for : AgentRuntime → Fields → List String → List String
fallbacks_for a fs names =
    if (no_names names && is_none (Json.get "model" fs))
      && (normalize (text_of a.written (Json.get "inference_provider" fs))
          == codes a.first_provider)
    then a.more_providers
    else names

abbrev pub messages_for : String → List Fields
messages_for content =
    field "role" (text "system") (
      field "content"
        (text
          "Execute the authorized task within its supplied scope. Do not perform external actions directly. If a capability is needed, emit a normalized capability_intent through the provider tool-call metadata.")
        done)
    ∷ field "role" (text "user") (field "content" (text content) done)
    ∷ []

abbrev pub inference_request :
    AgentRuntime
    → Turn
    → Task
    → MissionPlace
    → Fields
    → List String
    → Option String
    → InferenceRequest
inference_request a turn t m fs names model = record {
  messages = messages_for (a.render t);
  model = model;
  requirements = record {
    preferred_provider = some (text_of a.written (Json.get "inference_provider" fs));
    fallback_providers = fallbacks_for a fs names;
    required_capabilities = [];
    max_cost_tier = none;
    routing_strategy = ordered;
    requires_streaming = false;
    max_output_tokens = none;
  };
  metadata = field "task_id" (text t.id) (
      field "mission_id" (text turn.mission_id) (
        field "creator_id" (text m.creator_id) (
          field "enable_capability_intents" (bool (is_some a.capability_runtime)) (
            field "cache_policy" (text "bypass") (
              field "cache_intent" (text "SYSTEM_COMMAND") (
                field "cache_sensitivity" (text "PRIVATE")
                  (field "tool_state_class" (text "action_capable") done)))))));
}

abbrev pub RunResult : Type 0
RunResult = Result AgentError Bool × Site

-- `_evaluate_completion`
abbrev pub evaluated : Site → Result CompletionError (Option MissionStatus × Store) → RunResult
evaluated w (err e) = (err (completion e), w)
evaluated w (ok (target, s)) = (ok true, record w { store = s })

abbrev pub evaluate_completion : AgentRuntime → Turn → Site → RunResult
evaluate_completion a turn w =
    if a.has_completion_engine then evaluated w (evaluate turn.mission_id w.store) else (ok true, w)

abbrev pub after_finish : AgentRuntime → Turn → Site → Result KernelError Store → RunResult
after_finish a turn w (err e) = (err (kernel e), w)
after_finish a turn w (ok s) = evaluate_completion a turn (record w { store = s })

-- The end of an attempt, in a transaction of its own, then the verdict on the Mission.
abbrev pub finish_run : AgentRuntime → Turn → Task → Ending → Site → RunResult
finish_run a turn t ending w =
    after_finish a turn w (finish_task_attempt t.id turn.execution_id ending w.store)

-- `_finish_failure`
abbrev pub finish_failure : AgentRuntime → Turn → Task → String → Bool → Site → RunResult
finish_failure a turn t error_code terminal w =
    finish_run a turn t (failure none none (some (reported error_code)) terminal) w

abbrev pub finish_success : AgentRuntime → Turn → Task → InferenceResponse → Site → RunResult
finish_success a turn t response w =
    finish_run a turn t (success (some response.provider) (some response.model)) w

abbrev pub after_capability :
    AgentRuntime → Turn → Task → InferenceResponse → Site → Runtime.Outcome → RunResult
after_capability a turn t response w (err e, db, calls) =
    finish_failure a turn t "CAPABILITY_EXECUTION_REJECTED" false (record w { database = db })
after_capability a turn t response w (ok result, db, calls) =
    if result.ok
    then finish_success a turn t response (record w { database = db })
    else finish_failure a turn t "CAPABILITY_RESULT_FAILED" true (record w { database = db })

abbrev pub agent_call : Turn → Task → CapabilityIntent → MissionAuthorization → Call
agent_call turn t intent authorization = record {
  place = record turn.place { mission_id = turn.mission_id; task_id = some t.id };
  agent_execution_id = some turn.execution_id;
  intent = intent;
  authorization = authorization;
}

-- `_mission_authorization`, read anew.
abbrev pub mission_authorization : AgentRuntime → Option MissionPlace → Option MissionAuthorization
mission_authorization a none = none
mission_authorization a (some m) = a.read_authorization m.authorization

abbrev pub run_capability :
    AgentRuntime
    → Turn
    → Task
    → InferenceResponse
    → Site
    → CapabilityRuntime
    → Option CapabilityIntent
    → Option MissionAuthorization
    → RunResult
run_capability a turn t response w c (some intent) (some authorization) =
    after_capability a turn t response w (
      execute_capability c.run c.instant_of c.reads c.settings c.gateway turn.now
        (agent_call turn t intent authorization) w.database)
run_capability a turn t response w c _ _ =
    finish_failure a turn t "CAPABILITY_EXECUTION_REJECTED" false w

abbrev pub with_capability :
    AgentRuntime
    → Turn
    → Task
    → InferenceResponse
    → Site
    → Json
    → Option CapabilityRuntime
    → RunResult
with_capability a turn t response w payload none =
    finish_failure a turn t "CAPABILITY_GATEWAY_UNAVAILABLE" false w
with_capability a turn t response w payload (some c) =
    run_capability a turn t response w c (a.read_intent payload)
      (mission_authorization a (lookup turn.mission_id w.missions))

-- `response.metadata.get("capability_intent")`, where a null is `None`
abbrev pub after_intent :
    AgentRuntime → Turn → Task → InferenceResponse → Site → Option Json → RunResult
after_intent a turn t response w none = finish_success a turn t response w
after_intent a turn t response w (some payload) =
    with_capability a turn t response w payload a.capability_runtime

abbrev pub failure_code : Failure → String
failure_code (raised e) = if is_unavailable e.class then code e.class else "INFERENCE_ERROR"
failure_code timeout_error = "INFERENCE_ERROR"
failure_code other_error = "INFERENCE_ERROR"

abbrev pub after_answer :
    AgentRuntime → Turn → Task → Site → Result Raised InferenceResponse × State → RunResult
after_answer a turn t w (err e, routing) =
    finish_failure a turn t (failure_code e.failure) false (record w { routing = routing })
after_answer a turn t w (ok response, routing) =
    after_intent a turn t response (record w { routing = routing })
      (present (lookup "capability_intent" response.metadata))

-- The request is built outside any `try`: a model that it refuses raises.
abbrev pub ask_provider :
    AgentRuntime
    → Turn
    → Task
    → Site
    → MissionPlace
    → Fields
    → List String
    → Option (Option String)
    → RunResult
ask_provider a turn t w m fs names none = (err invalid_profile, w)
ask_provider a turn t w m fs names (some model) =
    after_answer a turn t w
      (generate a.router a.world (inference_request a turn t m fs names model) w.routing)

-- So does a value that is not iterable.
abbrev pub with_names :
    AgentRuntime → Turn → Task → Site → MissionPlace → Fields → Option (List String) → RunResult
with_names a turn t w m fs none = (err invalid_profile, w)
with_names a turn t w m fs (some names) =
    if truthy (Json.get "inference_provider" fs)
    then ask_provider a turn t w m fs names (model_of (Json.get "model" fs))
    else finish_failure a turn t "PROVIDER_UNAVAILABLE" false w

-- The Agent and the Mission of a claimed Task; without them the claim is rolled back.
abbrev pub run_claimed :
    AgentRuntime → Turn → Task → Site → Store → Option AgentRow → Option MissionPlace → RunResult
run_claimed a turn t w s none m = (err active_agent_not_found, w)
run_claimed a turn t w s (some agent) none =
    if agent.active then (err mission_not_found, w) else (err active_agent_not_found, w)
run_claimed a turn t w s (some agent) (some m) =
    if agent.active
    then (let fs =
          effective_agent_capabilities a.first_provider a.more_providers agent.capabilities in
        with_names a turn t (record w { store = s }) m fs
          (fallback_names a.written (Json.get "fallback_providers" fs)))
    else (err active_agent_not_found, w)

abbrev pub after_work :
    AgentRuntime → Turn → Site → Result KernelError (Option (Task × Execution) × Store) → RunResult
after_work a turn w (err e) = (err (kernel e), w)
after_work a turn w (ok (none, s)) = (ok false, record w { store = s })
after_work a turn w (ok (some (t, e), s)) =
    run_claimed a turn t w s (lookup t.agent_id w.agents) (lookup turn.mission_id w.missions)

unfoldable pub run_next : AgentRuntime → Turn → Site → RunResult
run_next a turn w =
    after_work a turn w (claim_next_ready_task turn.execution_id turn.mission_id w.store)
