-- ===== src/Kernel/Reconciler.antt =====
-- backend/app/kernel/reconciler.py: what a restart makes of the attempts that it finds running.
use the_creation_os.Prelude.{
  ℕ, ◌+◌, String, Bool, true, false, ◌&&◌, Option, none, some, List, [], ◌∷◌, ltb, if◌then◌else◌,
  ◌==◌, string_eq, keep_if, any, map,
}
use the_creation_os.Capabilities.Contracts.{IdempotencyClass, safe, idempotent, at_most_once}
use the_creation_os.Kernel.Tasks.{
  TaskStatus, ready, blocked, ErrorCode, interrupted_by_restart, task_missing_during_reconciliation,
  at_most_once_reconciliation_required, max_attempts_exceeded_after_restart,
  interrupted_at_most_once_effect, interrupted_retryable_effect, Task, RunStatus, Execution,
  InvocationStatus, authorized, uncertain, Invocation, Store, task_by_id, with_task, with_execution,
}
use the_creation_os.Kernel.Orchestrator.{is_run_running}

pub record Counts : Type 0 where
  pub retried_tasks : ℕ
  pub failed_tasks : ℕ
  pub blocked_tasks : ℕ
  pub uncertain_capabilities : ℕ

abbrev pub no_counts : Counts
no_counts = record {
  retried_tasks = 0;
  failed_tasks = 0;
  blocked_tasks = 0;
  uncertain_capabilities = 0;
}

abbrev pub is_authorized : InvocationStatus → Bool
is_authorized authorized = true
is_authorized _ = false

abbrev pub is_once : IdempotencyClass → Bool
is_once at_most_once = true
is_once safe = false
is_once idempotent = false

abbrev pub belongs_to : String → Option String → Bool
belongs_to execution_id none = false
belongs_to execution_id (some id) = id == execution_id

-- The invocation belongs to the attempt and its outcome is not known.
abbrev pub is_interrupted : String → Invocation → Bool
is_interrupted execution_id i = belongs_to execution_id i.execution_id && is_authorized i.status

abbrev pub interrupt : String → Invocation → Invocation
interrupt execution_id i =
    if is_interrupted execution_id i
    then (if is_once i.idempotency_class
        then record i { status = uncertain; error = some interrupted_at_most_once_effect }
        else record i {
          status = InvocationStatus.failed;
          error = some interrupted_retryable_effect;
        })
    else i

abbrev pub is_uncertain_once : String → Invocation → Bool
is_uncertain_once execution_id i = is_interrupted execution_id i && is_once i.idempotency_class

abbrev pub count_uncertain : String → List Invocation → ℕ
count_uncertain execution_id [] = 0
count_uncertain execution_id (i ∷ is) =
    let rest = count_uncertain execution_id is in
    if is_uncertain_once execution_id i then rest + 1 else rest

-- The Task of an interrupted attempt; `uncertain` says that an effect may have happened that must not
-- happen twice.
abbrev pub recover : Bool → Task → Task
recover true t = record t { status = blocked; error = some at_most_once_reconciliation_required }
recover false t =
    if ltb t.attempt_count t.max_attempts
    then record t { status = ready; error = some interrupted_by_restart }
    else record t { status = TaskStatus.failed; error = some max_attempts_exceeded_after_restart }

abbrev pub counted : Bool → Task → ℕ → Counts → Counts
counted true t n c = record c {
  blocked_tasks = c.blocked_tasks + 1;
  uncertain_capabilities = c.uncertain_capabilities + n;
}
counted false t n c =
    if ltb t.attempt_count t.max_attempts
    then record c { retried_tasks = c.retried_tasks + 1 }
    else record c { failed_tasks = c.failed_tasks + 1 }

abbrev pub interrupted_as : ErrorCode → Execution → Execution
interrupted_as error e = record e { status = RunStatus.failed; error = some error }

abbrev pub reconcile_found : Execution → Option Task → Store × Counts → Store × Counts
reconcile_found e none (s, c) = (
  record s {
    executions =
        with_execution e.id (interrupted_as task_missing_during_reconciliation) s.executions;
  },
  c,
)
reconcile_found e (some t) (s, c) =
    let is_uncertain = any (is_uncertain_once e.id) s.invocations in
    (
      record s {
        tasks = with_task e.task_id (recover is_uncertain) s.tasks;
        executions = with_execution e.id (interrupted_as interrupted_by_restart) s.executions;
        invocations = map (interrupt e.id) s.invocations;
      },
      counted is_uncertain t (count_uncertain e.id s.invocations) c,
    )

unfoldable pub reconcile_each : List Execution → Store × Counts → Store × Counts
reconcile_each [] x = x
reconcile_each (e ∷ es) (s, c) =
    reconcile_each es (reconcile_found e (task_by_id e.task_id s.tasks) (s, c))

-- The rows that are running when it starts.
unfoldable pub reconcile : Store → Store × Counts
reconcile s = reconcile_each (keep_if (λ e. is_run_running e.status) s.executions) (s, no_counts)
