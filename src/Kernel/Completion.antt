-- ===== src/Kernel/Completion.antt =====
-- backend/app/kernel/completion.py, completion_engine.py and supervisor.py: how a Mission comes into
-- execution and how it ends.
pub mod Verdict
use the_creation_os.Prelude.{
  ℕ, String, ◌≡◌, Bool, true, false, not, ◌&&◌, ◌||◌, Option, none, some, List, [], ◌∷◌, map,
  Result, ok, err, guard, ◌>>=◌, ◌>>◌, if◌then◌else◌, ◌==◌, string_eq, any, all, lookup, insert,
  keep_if,
}
use the_creation_os.Domain.{
  MissionStatus, mission_status_eq, executing, distributed, manifested, mission, transition,
  DomainError,
}
use the_creation_os.Kernel.Tasks.{TaskStatus, failed, blocked, running, succeeded, Task, Store}
use the_creation_os.Kernel.Orchestrator.{is_running, is_succeeded}

pub data CompletionError : Type 0 where
  no_tasks mission_not_found : CompletionError
  domain_error : DomainError → CompletionError

abbrev pub ends_mission : TaskStatus → Bool
ends_mission failed = true
ends_mission blocked = true
ends_mission _ = false

abbrev pub target_by : Bool → Bool → Bool → Option MissionStatus
target_by dead done busy =
    if dead
    then some MissionStatus.failed
    else if done
    then some manifested
    else if busy
    then some executing
    else none

unfoldable pub completion_target : List TaskStatus → Result CompletionError (Option MissionStatus)
completion_target [] = err no_tasks
completion_target (s ∷ ss) =
    ok (target_by (any ends_mission (s ∷ ss)) (all is_succeeded (s ∷ ss)) (any is_running (s ∷ ss)))

abbrev pub statuses_of : String → List Task → List TaskStatus
statuses_of mission_id tasks = map (λ t. t.status) (keep_if (λ t. t.mission_id == mission_id) tasks)

abbrev pub lift : Result DomainError MissionStatus → Result CompletionError MissionStatus
lift (err e) = err (domain_error e)
lift (ok status) = ok status

abbrev pub is_end : MissionStatus → Bool
is_end target = (target == manifested) || (target == MissionStatus.failed)

abbrev pub end_mission :
    String → Store → Option MissionStatus → Result CompletionError (Option MissionStatus × Store)
end_mission mission_id s none = ok (none, s)
end_mission mission_id s (some target) =
    if is_end target
    then (do
      status ← lift (transition mission executing target)
      ok (some target, record s { missions = insert mission_id status s.missions }))
    else ok (some target, s)

abbrev pub evaluate_at :
    String → Store → Option MissionStatus → Result CompletionError (Option MissionStatus × Store)
evaluate_at mission_id s none = err mission_not_found
evaluate_at mission_id s (some current) =
    if current == executing
    then (completion_target (statuses_of mission_id s.tasks) >>= end_mission mission_id s)
    else ok (none, s)

unfoldable pub evaluate : String → Store → Result CompletionError (Option MissionStatus × Store)
evaluate mission_id s = evaluate_at mission_id s (lookup mission_id s.missions)

abbrev pub start_at : String → Store → Option MissionStatus → Result CompletionError (Bool × Store)
start_at mission_id s none = err mission_not_found
start_at mission_id s (some current) =
    if current == executing
    then ok (false, s)
    else if not (current == distributed)
    then ok (false, s)
    else (do
      status ← lift (transition mission current executing)
      ok (true, record s { missions = insert mission_id status s.missions }))

unfoldable pub start_execution : String → Store → Result CompletionError (Bool × Store)
start_execution mission_id s = start_at mission_id s (lookup mission_id s.missions)
