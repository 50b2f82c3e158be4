-- ===== src/Kernel/Tasks.antt =====
-- The rows that the kernel reads and writes (backend/app/models/entities.py and execution.py): a Task
-- with its MissionStep, an attempt at it, and a capability's invocation. Tasks stand in a list by
-- (created_at, id). Timestamps, and the payloads of inputs and outputs, are not modelled.
use the_creation_os.Prelude.{
  ℕ, String, Bool, Option, none, some, List, [], ◌∷◌, Dict, if◌then◌else◌, ◌==◌, string_eq,
}
use the_creation_os.Domain.{MissionStatus}
use the_creation_os.Capabilities.Contracts.{IdempotencyClass}

pub data TaskStatus : Type 0 where
  pending ready running succeeded failed blocked cancelled : TaskStatus

pub data ErrorCode : Type 0 where
  dependency_missing dependency_failed max_attempts_exceeded execution_failed : ErrorCode
  interrupted_by_restart task_missing_during_reconciliation : ErrorCode
  at_most_once_reconciliation_required max_attempts_exceeded_after_restart : ErrorCode
  interrupted_at_most_once_effect interrupted_retryable_effect : ErrorCode
  reported : String → ErrorCode

pub record Task : Type 0 where
  pub id : String
  pub mission_id : String
  pub agent_id : String
  pub step_key : String
  pub depends_on : List String
  pub status : TaskStatus
  pub attempt_count : ℕ
  pub max_attempts : ℕ
  pub error : Option ErrorCode

pub data RunStatus : Type 0 where
  running succeeded failed : RunStatus

pub record Execution : Type 0 where
  pub id : String
  pub task_id : String
  pub agent_id : String
  pub attempt : ℕ
  pub status : RunStatus
  pub provider : Option String
  pub model : Option String
  pub error : Option ErrorCode

pub data InvocationStatus : Type 0 where
  authorized uncertain failed succeeded denied : InvocationStatus

pub record Invocation : Type 0 where
  pub id : String
  pub execution_id : Option String
  pub status : InvocationStatus
  pub idempotency_class : IdempotencyClass
  pub error : Option ErrorCode

pub record Store : Type 0 where
  pub missions : Dict String MissionStatus
  pub tasks : List Task
  pub executions : List Execution
  pub invocations : List Invocation

-- `session.get(Task, id)`
abbrev pub task_by_id : String → List Task → Option Task
task_by_id id [] = none
task_by_id id (t ∷ ts) = let rest = task_by_id id ts in if t.id == id then some t else rest

abbrev pub execution_by_id : String → List Execution → Option Execution
execution_by_id id [] = none
execution_by_id id (e ∷ es) =
    let rest = execution_by_id id es in if e.id == id then some e else rest

-- What a change of the row with this id leaves.
abbrev pub with_task : String → (Task → Task) → List Task → List Task
with_task id change [] = []
with_task id change (t ∷ ts) =
    let rest = with_task id change ts in if t.id == id then change t ∷ rest else t ∷ rest

-- What a change of the first row that meets a test leaves.
abbrev pub with_first : (Task → Bool) → (Task → Task) → List Task → List Task
with_first test change [] = []
with_first test change (t ∷ ts) =
    let rest = with_first test change ts in if test t then change t ∷ ts else t ∷ rest

abbrev pub with_execution : String → (Execution → Execution) → List Execution → List Execution
with_execution id change [] = []
with_execution id change (e ∷ es) =
    let rest = with_execution id change es in if e.id == id then change e ∷ rest else e ∷ rest
