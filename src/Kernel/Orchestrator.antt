-- ===== src/Kernel/Orchestrator.antt =====
-- backend/app/kernel/orchestrator.py: which Tasks are ready, and how an attempt is claimed and ended.
-- Row locks make these functions run one after another on a Mission; the id of a new row is given.
use the_creation_os.Prelude.{
  ◌+◌, String, Bool, true, false, not, ◌&&◌, Option, none, some, List, [], ◌∷◌, ◌++◌, map, Result,
  ok, err, ltb, leb, if◌then◌else◌, ◌==◌, string_eq, any, all, is_some, or_else, lookup,
}
use the_creation_os.Domain.{MissionStatus, mission_status_eq, executing}
use the_creation_os.Kernel.Tasks.{
  TaskStatus, pending, ready, running, succeeded, failed, blocked, cancelled, ErrorCode,
  dependency_missing, dependency_failed, max_attempts_exceeded, execution_failed, Task, RunStatus,
  Execution, Store, task_by_id, execution_by_id, with_task, with_first, with_execution,
}

pub data KernelError : Type 0 where
  mission_not_found attempt_not_found attempt_not_running : KernelError

abbrev pub is_pending : TaskStatus → Bool
is_pending pending = true
is_pending _ = false

abbrev pub is_ready : TaskStatus → Bool
is_ready ready = true
is_ready _ = false

abbrev pub is_running : TaskStatus → Bool
is_running running = true
is_running _ = false

abbrev pub is_succeeded : TaskStatus → Bool
is_succeeded succeeded = true
is_succeeded _ = false

-- FAILED_DEPENDENCY_STATES
abbrev pub is_failed_dependency : TaskStatus → Bool
is_failed_dependency failed = true
is_failed_dependency blocked = true
is_failed_dependency cancelled = true
is_failed_dependency _ = false

-- `task_by_step_key`: of two Tasks with one key the later stands in the dict.
unfoldable pub task_by_step_key : String → String → List Task → Option Task
task_by_step_key mission_id key [] = none
task_by_step_key mission_id key (t ∷ ts) = elim (task_by_step_key mission_id key ts) [
  | some later ↦ some later
  | none ↦ if (t.mission_id == mission_id) && (t.step_key == key) then some t else none
]

abbrev pub status_holds : (TaskStatus → Bool) → Option Task → Bool
status_holds test none = false
status_holds test (some t) = test t.status

abbrev pub settled_by : Bool → Bool → Bool → Task → Task
settled_by present dead done t =
    if not present
    then record t { status = blocked; error = some dependency_missing }
    else if dead
    then record t { status = blocked; error = some dependency_failed }
    else if done
    then record t { status = ready }
    else t

abbrev pub settled : List (Option Task) → Task → Task
settled dependencies t =
    settled_by (all is_some dependencies) (any (status_holds is_failed_dependency) dependencies)
      (all (status_holds is_succeeded) dependencies) t

-- One turn of the loop, on the Tasks as they stand.
unfoldable pub settle : String → List Task → Task → Task
settle mission_id tasks t =
    if (t.mission_id == mission_id) && is_pending t.status
    then settled (map (λ key. task_by_step_key mission_id key tasks) t.depends_on) t
    else t

-- The loop changes the Tasks that it reads: `seen` are those that it has been through.
unfoldable pub refresh_from : String → List Task → List Task → List Task
refresh_from mission_id seen [] = seen
refresh_from mission_id seen (t ∷ ts) =
    refresh_from mission_id (seen ++ settle mission_id (seen ++ t ∷ ts) t ∷ []) ts

unfoldable pub refresh_task_readiness : String → Store → Store
refresh_task_readiness mission_id s = record s { tasks = refresh_from mission_id [] s.tasks }

abbrev pub is_ready_in : String → Task → Bool
is_ready_in mission_id t = (t.mission_id == mission_id) && is_ready t.status

abbrev pub next_ready : String → List Task → Option Task
next_ready mission_id [] = none
next_ready mission_id (t ∷ ts) =
    let rest = next_ready mission_id ts in if is_ready_in mission_id t then some t else rest

abbrev pub start_attempt : Task → Task
start_attempt t = record t { status = running; attempt_count = t.attempt_count + 1 }

abbrev pub execution_of : String → Task → Execution
execution_of id t = record {
  id = id;
  task_id = t.id;
  agent_id = t.agent_id;
  attempt = t.attempt_count + 1;
  status = RunStatus.running;
  provider = none;
  model = none;
  error = none;
}

abbrev pub give_up : Task → Task
give_up t = record t { status = failed; error = some max_attempts_exceeded }

-- The row that the query found is changed.
abbrev pub claim_task : String → String → Store → Option Task → Option (Task × Execution) × Store
claim_task id mission_id s none = (none, s)
claim_task id mission_id s (some t) =
    if leb t.max_attempts t.attempt_count
    then (none, record s { tasks = with_first (is_ready_in mission_id) give_up s.tasks })
    else (
      some (start_attempt t, execution_of id t),
      record s {
        tasks = with_first (is_ready_in mission_id) start_attempt s.tasks;
        executions = s.executions ++ execution_of id t ∷ [];
      },
    )

abbrev pub claim_in :
    String
    → String
    → Store
    → Option MissionStatus
    → Result KernelError (Option (Task × Execution) × Store)
claim_in id mission_id s none = err mission_not_found
claim_in id mission_id s (some status) =
    if status == executing
    then (let s' = refresh_task_readiness mission_id s in
        ok (claim_task id mission_id s' (next_ready mission_id s'.tasks)))
    else ok (none, s)

unfoldable pub claim_next_ready_task :
    String → String → Store → Result KernelError (Option (Task × Execution) × Store)
claim_next_ready_task id mission_id s = claim_in id mission_id s (lookup mission_id s.missions)

-- How an attempt ended, with its provider and model; the last `Bool` is `terminal_failure`.
pub data Ending : Type 0 where
  success : Option String → Option String → Ending
  failure : Option String → Option String → Option ErrorCode → Bool → Ending

abbrev pub end_task : Ending → Task → Task
end_task (success provider model) t = record t { status = succeeded; error = none }
end_task (failure provider model error terminal) t = record t {
  status = if not terminal && ltb t.attempt_count t.max_attempts then ready else failed;
  error = some (or_else error execution_failed);
}

abbrev pub end_execution : Ending → Execution → Execution
end_execution (success provider model) e = record e {
  status = RunStatus.succeeded;
  provider = provider;
  model = model;
  error = none;
}
end_execution (failure provider model error terminal) e = record e {
  status = RunStatus.failed;
  provider = provider;
  model = model;
  error = some (or_else error execution_failed);
}

abbrev pub is_run_running : RunStatus → Bool
is_run_running RunStatus.running = true
is_run_running RunStatus.succeeded = false
is_run_running RunStatus.failed = false

abbrev pub find_attempt :
    String → Option Task → Option Execution → Result KernelError (Task × Execution)
find_attempt task_id (some t) (some e) =
    if e.task_id == task_id then ok (t, e) else err attempt_not_found
find_attempt task_id _ _ = err attempt_not_found

abbrev pub end_attempt :
    String
    → String
    → Ending
    → Store
    → Result KernelError (Task × Execution)
    → Result KernelError Store
end_attempt task_id execution_id ending s (err x) = err x
end_attempt task_id execution_id ending s (ok (t, e)) =
    if is_running t.status && is_run_running e.status
    then ok (
        refresh_task_readiness t.mission_id (record s {
          tasks = with_task task_id (end_task ending) s.tasks;
          executions = with_execution execution_id (end_execution ending) s.executions;
        }))
    else err attempt_not_running

unfoldable pub finish_task_attempt : String → String → Ending → Store → Result KernelError Store
finish_task_attempt task_id execution_id ending s =
    end_attempt task_id execution_id ending s (
      find_attempt task_id (task_by_id task_id s.tasks) (execution_by_id execution_id s.executions))
