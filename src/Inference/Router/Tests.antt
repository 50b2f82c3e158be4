-- ===== src/Inference/Router/Tests.antt =====
-- Witnesses for inference/router.py: a plan provider whose fallback is not disclosed, a free local
-- provider, and a probe that ends in a rate limit.
use the_creation_os.Prelude.{
  ℕ, String, ◌≡◌, refl, true, false, List, [], ◌∷◌, ◌++◌, Option, none, some, Result, ok, err, All,
  if◌then◌else◌, ◌==◌, insert, string_eq, lookup, codes_eq, normalize, inl, codes,
}
use the_creation_os.Prelude.Json
use the_creation_os.Prelude.Json.{done}
use the_creation_os.Inference.Contracts.{
  ordered, InferenceRequest, InferenceResponse, InferenceError, ProviderHealth, error_of,
  rate_limit, unavailable,
}
use the_creation_os.Inference.Health
use the_creation_os.Inference.Health.{
  half_open, opened, CircuitBreaker, CircuitRecord, new_cooldown,
}
use the_creation_os.Inference.Registry.{ProviderRegistry}
use the_creation_os.Inference.Router.{
  ModelRouter, World, State, Event, Failure, raised, must_stop_after_provider_failure, is_excluded,
  route, generate, try_provider, call_provider, call_generate, attempt_timeout, candidate_names,
  disclose, admitted, visit_candidate, admit, admit_capabilities, admit_budget, request_for,
}
use the_creation_os.Inference.Router.Stops.{undisclosed_stop}
use the_creation_os.Inference.Router.Gates.{Permitted, generate-Permitted}
use the_creation_os.Inference.Router.Fallback.{Discloses, is_shut, fallback_disclosed}
use the_creation_os.Inference.Router.Wedge.{IsWedged, serve, half_open_forever}
use the_creation_os.Inference.Router.Unrecorded.{unrecorded_probe_wedges}

abbrev providers : ProviderRegistry
providers = record {
  providers = "chatgpt" ∷ "local" ∷ [];
  model_profiles = [];
  default_models = [];
  benchmark_evidence = [];
}

abbrev router : ModelRouter
router = record {
  registry = providers;
  rate_limit_cooldown_seconds = 60;
  fallback_providers = "local" ∷ [];
  disclosed_fallback_after = [];
  excluded_providers = [];
}

abbrev request : InferenceRequest
request = record {
  messages = [];
  model = none;
  requirements = record {
    preferred_provider = some "chatgpt";
    fallback_providers = [];
    required_capabilities = [];
    max_cost_tier = none;
    routing_strategy = ordered;
    requires_streaming = false;
    max_output_tokens = none;
  };
  metadata = done;
}

abbrev answer : String → InferenceResponse
answer p = record {
  provider = p;
  model = "m";
  content = "yes";
  finish_reason = none;
  usage = [];
  metadata = [];
}

abbrev limited : InferenceError
limited = error_of rate_limit "chatgpt"

abbrev healthy : List Event → String → Result Failure ProviderHealth
healthy before p = ok (record { provider = p; available = true; detail = none })

abbrev only_local :
    List Event → String → InferenceRequest → Option ℕ → Result Failure InferenceResponse
only_local before p a deadline = if p == "local" then ok (answer p) else err (raised limited)

-- At time 100 every provider is healthy; the plan's answers with a rate limit.
abbrev world : World
world = record { clock = λ before. 100; health = healthy; generate = only_local }

abbrev with_circuit : CircuitBreaker → State
with_circuit b = record { circuit = b; cooldown = new_cooldown; events = [] }

abbrev breaker_in : CircuitRecord → CircuitBreaker
breaker_in c = record {
  failure_threshold = 3;
  cooldown_seconds = 30;
  records = insert "chatgpt" c [];
}

abbrev start : State
start = with_circuit (record { failure_threshold = 3; cooldown_seconds = 30; records = [] })

abbrev waiting : State
waiting =
    with_circuit (breaker_in (record { state = half_open; failures = 3; opened_at = some 10 }))

abbrev due : State
due = with_circuit (breaker_in (record { state = opened; failures = 3; opened_at = some 10 }))

stops : must_stop_after_provider_failure router "chatgpt" ≡ true
unfolding must_stop_after_provider_failure normalize
stops = refl

allowed : is_excluded router "chatgpt" ≡ false
unfolding is_excluded
allowed = refl

undisclosed_stop_example :
    route router world request ("chatgpt" ∷ "local" ∷ []) none none start
    ≡ route router world request ("chatgpt" ∷ []) none none start
undisclosed_stop_example =
    undisclosed_stop router world request "chatgpt" ("local" ∷ []) none none start stops allowed

generate-Permitted_example :
    All (Permitted router request) (generate router world request start).1.events
generate-Permitted_example = generate-Permitted router world request start refl

-- The plan's fallback to the local provider is disclosed, and the plan's circuit is open.
abbrev disclosing : ModelRouter
disclosing = record router {
  excluded_providers = codes "gone" ∷ [];
  disclosed_fallback_after = codes "chatgpt" ∷ [];
  fallback_providers = "gone" ∷ "chatgpt" ∷ "local" ∷ [];
}

abbrev asks_gone : InferenceRequest
asks_gone = record request {
  requirements = record request.requirements { preferred_provider = some "gone" };
}

names : candidate_names disclosing asks_gone ≡ ("gone" ∷ []) ++ "chatgpt" ∷ "local" ∷ []
unfolding candidate_names
names = refl

gone : is_excluded disclosing "gone" ≡ true
unfolding is_excluded normalize
gone = refl

kept : is_excluded disclosing "chatgpt" ≡ false
unfolding is_excluded normalize
kept = refl

always_fits : (Health.cooldown_can_attempt waiting.cooldown "chatgpt" 100).1 ≡ true
unfolding Health.cooldown_can_attempt lookup
always_fits = refl

no_probe : (Health.can_attempt waiting.circuit "chatgpt" 100).1 ≡ false
unfolding Health.can_attempt Health.record_of lookup insert
no_probe = refl

abbrev shut : InferenceError
shut = error_of unavailable "chatgpt"

disclosed :
    (generate disclosing world asks_gone waiting).0 ≡ ok (disclose (some shut) (answer "local"))
unfolding generate route visit_candidate try_provider admit admit_capabilities admit_budget
    is_excluded normalize must_stop_after_provider_failure candidate_names request_for call_provider
    call_generate attempt_timeout Json.get Health.cooldown_can_attempt Health.can_attempt
    Health.record_of lookup insert disclose
disclosed = refl

fallback_disclosed_example : Discloses shut (disclose (some shut) (answer "local"))
fallback_disclosed_example =
    fallback_disclosed disclosing world asks_gone ("gone" ∷ []) "chatgpt" ("local" ∷ []) shut
      waiting (disclose (some shut) (answer "local")) names (gone, tt) kept
      (is_shut always_fits no_probe) disclosed

is_waiting : Health.state waiting.circuit "chatgpt" ≡ half_open
unfolding Health.state Health.record_of lookup insert
is_waiting = refl

is_open : Health.state due.circuit "chatgpt" ≡ opened
unfolding Health.state Health.record_of lookup insert
is_open = refl

is_rested : (Health.cooldown_can_attempt due.cooldown "chatgpt" 100).1 ≡ true
unfolding Health.cooldown_can_attempt lookup
is_rested = refl

is_due : (Health.can_attempt due.circuit "chatgpt" 100).1 ≡ true
unfolding Health.can_attempt Health.record_of lookup insert
is_due = refl

is_limited :
    (call_provider world "chatgpt" request (admitted world "chatgpt" due)).0 ≡ err (raised limited)
unfolding call_provider call_generate Json.get attempt_timeout
is_limited = refl

half_open_forever_example :
    IsWedged "chatgpt" [] (serve ((router, request) ∷ (router, request) ∷ []) world waiting)
half_open_forever_example =
    half_open_forever "chatgpt" ((router, request) ∷ (router, request) ∷ []) world waiting
      is_waiting

unrecorded_probe_wedges_example :
    IsWedged "chatgpt"
      (call_provider world "chatgpt" request (admitted world "chatgpt" due)).1.events
      (serve
        ((router, request) ∷ [])
        world
        (try_provider disclosing world request "chatgpt" none
          (route disclosing world request ("local" ∷ []))
          due).1)
unrecorded_probe_wedges_example =
    unrecorded_probe_wedges disclosing world request request "chatgpt" ("local" ∷ []) none due
      (raised limited) ((router, request) ∷ []) is_open is_rested is_due is_limited (inl refl)
