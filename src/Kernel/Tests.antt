-- ===== src/Kernel/Tests.antt =====
-- Witnesses and runs for backend/app/kernel.
use the_creation_os.Prelude.{
  String, ◌≡◌, refl, false, List, [], ◌∷◌, Option, none, some, ok, All, lookup, arith, string_eq,
}
use the_creation_os.Domain.{MissionStatus, executing}
use the_creation_os.Kernel.{TaskStatus, Task, Execution, Store, pending, ready, succeeded}
use the_creation_os.Kernel.Orchestrator.{
  refresh_task_readiness, next_ready, claim_next_ready_task, success, failure, is_run_running,
}
use the_creation_os.Kernel.Reconciler.{reconcile}
use the_creation_os.Kernel.Completion.{completion_target}
use the_creation_os.Kernel.Completion.Verdict.{Verdict, completion_target-Verdict}
use the_creation_os.Kernel.Recovery.{reconcile_stops}
use the_creation_os.Kernel.Attempts.{
  Call, claims, finishes, reconciles, run, AllBounded, IsClaimed, run-AllBounded, claim-IsClaimed,
}

abbrev task : String → List String → TaskStatus → Task
task key depends_on status = record {
  id = key;
  mission_id = "m";
  agent_id = "a";
  step_key = key;
  depends_on = depends_on;
  status = status;
  attempt_count = 0;
  max_attempts = 3;
  error = none;
}

abbrev store : Store
store = record {
  missions = ("m", executing) ∷ [];
  tasks = task "build" ("design" ∷ []) pending ∷ task "design" [] ready ∷ [];
  executions = [];
  invocations = [];
}

abbrev calls : List Call
calls =
    claims "e1" "m"
    ∷ finishes "design" "e1" (failure none none none false)
    ∷ claims "e2" "m"
    ∷ reconciles
    ∷ claims "e3" "m"
    ∷ finishes "design" "e3" (success none none)
    ∷ []

bounded_at_first : AllBounded store
bounded_at_first = (
  record { within = omega arith; left = λ o. omega arith },
  (record { within = omega arith; left = λ o. omega arith }, tt),
)

executes : lookup "m" store.missions ≡ some executing
unfolding lookup
executes = refl

run-AllBounded_example : AllBounded (run store calls)
run-AllBounded_example = run-AllBounded store calls bounded_at_first

claim-IsClaimed_example :
    (work : Option (Task × Execution)) × (s' : Store) × (claim_next_ready_task "e1" "m" store
      ≡ ok (work, s'))
    × IsClaimed "e1" (next_ready "m" (refresh_task_readiness "m" store).tasks) work
claim-IsClaimed_example = claim-IsClaimed "e1" "m" store bounded_at_first executes

completion_target-Verdict_example :
    (target : Option MissionStatus) × (completion_target (succeeded ∷ TaskStatus.blocked ∷ [])
      ≡ ok target)
    × Verdict (succeeded ∷ TaskStatus.blocked ∷ []) target
completion_target-Verdict_example = completion_target-Verdict succeeded (TaskStatus.blocked ∷ [])

reconcile_stops_example :
    All
      (λ (e : Execution). is_run_running e.status ≡ false)
      (reconcile (run store (claims "e1" "m" ∷ []))).0.executions
reconcile_stops_example = reconcile_stops (run store (claims "e1" "m" ∷ []))
