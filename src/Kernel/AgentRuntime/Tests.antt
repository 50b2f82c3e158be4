-- ===== src/Kernel/AgentRuntime/Tests.antt =====
-- Witness for backend/app/kernel/agent_runtime.py: an Agent whose provider answers without a capability.
use the_creation_os.Prelude.{
  ℕ, String, refl, true, List, [], ◌∷◌, Option, none, Result, ok, Distinct, Distinct_of_distinct,
  string_eq, map,
}
use the_creation_os.Prelude.Json.{done, field, text}
use the_creation_os.Domain.{executing}
use the_creation_os.Inference.Contracts.{InferenceRequest, InferenceResponse}
use the_creation_os.Inference.Health.{new_cooldown}
use the_creation_os.Inference.Router.{Event, Failure}
use the_creation_os.Kernel.{Task, ready}
use the_creation_os.Kernel.AgentRuntime.{AgentRuntime, Turn, Site, run_next}
use the_creation_os.Kernel.AgentRuntime.Ended.{Concluded, run_next-Concluded}

abbrev answer : List Event → String → InferenceRequest → Option ℕ → Result Failure InferenceResponse
answer before p request deadline = ok (record {
  provider = p;
  model = "m";
  content = "done";
  finish_reason = none;
  usage = [];
  metadata = [];
})

abbrev runtime : AgentRuntime
runtime = record {
  router = record {
    registry = record {
      providers = "local" ∷ [];
      model_profiles = [];
      default_models = [];
      benchmark_evidence = [];
    };
    rate_limit_cooldown_seconds = 60;
    fallback_providers = [];
    disclosed_fallback_after = [];
    excluded_providers = [];
  };
  world = record {
    clock = λ events. 0;
    health = λ events p. ok (record { provider = p; available = true; detail = none });
    generate = answer;
  };
  capability_runtime = none;
  has_completion_engine = true;
  first_provider = "local";
  more_providers = [];
  written = λ v. "";
  render = λ t. t.step_key;
  read_intent = λ payload. none;
  read_authorization = λ fields. none;
}

abbrev task : String → Task
task id = record {
  id = id;
  mission_id = "m";
  agent_id = "a";
  step_key = id;
  depends_on = [];
  status = ready;
  attempt_count = 0;
  max_attempts = 3;
  error = none;
}

abbrev site : Site
site = record {
  store = record {
    missions = ("m", executing) ∷ [];
    tasks = task "t1" ∷ task "t2" ∷ [];
    executions = [];
    invocations = [];
  };
  agents =
      ("a", record { active = true; capabilities = field "inference_provider" (text "local") done })
      ∷ [];
  missions = ("m", record { creator_id = "c"; authorization = done }) ∷ [];
  routing = record {
    circuit = record { failure_threshold = 3; cooldown_seconds = 60; records = [] };
    cooldown = new_cooldown;
    events = [];
  };
  database = record {
    invocations = [];
    economy_rows = record {
      creators = [];
      universes = [];
      missions = [];
      opportunities = [];
      entries = [];
    };
    tasks = [];
  };
}

abbrev turn : Turn
turn = record {
  mission_id = "m";
  execution_id = "e";
  place = record {
    mission_id = "m";
    task_id = none;
    invocation_id = "i";
    reserve_id = "1";
    commit_id = "2";
    settling_id = "3";
    settle_id = "4";
    outcome_id = "5";
    suspension_id = "6";
    day = 1;
  };
  now = 7;
}

different_ids : Distinct (map (λ (t : Task). t.id) site.store.tasks)
different_ids = Distinct_of_distinct ("t1" ∷ "t2" ∷ []) refl

run_next-Concluded_example : Concluded runtime turn site (run_next runtime turn site)
run_next-Concluded_example = run_next-Concluded runtime turn site different_ids refl
