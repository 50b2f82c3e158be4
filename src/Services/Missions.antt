-- ===== src/Services/Missions.antt =====
-- backend/app/services/domain.py, the life of a Mission: `transition_mission` and `start_mission` with
-- what they call. A Mission stands with its plan in a dict by its id, a Universe with its Agents by its
-- code. Columns that no decision reads (titles, timestamps, `authorization_json`) and the Chronicle
-- events are not modelled. A Task's unique key `f"{item.id}:{step.step_key}"` is the pair of its parts.
pub mod Starting
use the_creation_os.Prelude.{
  ℕ, zero, suc, ◌+◌, String, Bool, true, false, not, ◌&&◌, Option, none, some, List, [], ◌∷◌, ◌++◌,
  Result, ok, err, guard, ◌>>=◌, ◌>>◌, if◌then◌else◌, ◌==◌, string_eq, any, all, keep_if, Dict,
  lookup, insert,
}
use the_creation_os.Domain.{
  MissionStatus, mission_status_eq, drafted, planned, validated, authorized, distributed, executing,
  manifested, failed, cancelled, mission, transition, DomainError, invalid_origin, not_found, Actor,
  require_creator,
}
use the_creation_os.Kernel.{TaskStatus, pending, ready}
use the_creation_os.Kernel.Orchestrator.{is_succeeded}

pub record MissionStep : Type 0 where
  pub step_key : String
  pub universe : String
  pub depends_on : List String

pub record MissionRow : Type 0 where
  pub creator_id : String
  pub status : MissionStatus
  pub plan : Option (List MissionStep)

pub record Agent : Type 0 where
  pub id : String
  pub active : Bool

pub record Universe : Type 0 where
  pub active : Bool
  pub agents : List Agent

pub record MissionTask : Type 0 where
  pub mission_id : String
  pub step_key : String
  pub agent_id : String
  pub status : TaskStatus

pub record Database : Type 0 where
  pub missions : Dict String MissionRow
  pub universes : Dict String Universe
  pub tasks : List MissionTask

pub data ServiceError : Type 0 where
  domain_error : DomainError → ServiceError
  distribution_error : ServiceError

abbrev pub lift {ℓ} : {A : Type ℓ} → Result DomainError A → Result ServiceError A
lift (err e) = err (domain_error e)
lift (ok a) = ok a

abbrev pub invalid {ℓ} : {A : Type ℓ} → Result ServiceError A
invalid = err (domain_error invalid_origin)

-- `_owned`
abbrev pub owned : Actor → Option MissionRow → Result ServiceError MissionRow
owned actor none = err (domain_error not_found)
owned actor (some m) = if m.creator_id == actor.id then ok m else err (domain_error not_found)

-- `_plan_for_mission`
abbrev pub plan_for_mission : Option (List MissionStep) → Result ServiceError (List MissionStep)
plan_for_mission none = invalid
plan_for_mission (some []) = invalid
plan_for_mission (some (s ∷ ss)) = ok (s ∷ ss)

abbrev pub first_of : List Agent → Result ServiceError Agent
first_of [] = invalid
first_of (a ∷ as') = ok a

-- `_ready_universe_agent`
abbrev pub ready_universe_agent : Option Universe → Result ServiceError Agent
ready_universe_agent none = invalid
ready_universe_agent (some u) =
    if u.active then first_of (keep_if (λ a. a.active) u.agents) else invalid

abbrev pub all_ready : Database → List MissionStep → Result ServiceError (Unit {0})
all_ready db [] = ok tt
all_ready db (s ∷ ss) = ready_universe_agent (lookup s.universe db.universes) >> all_ready db ss

-- backend/app/kernel/distributor.py
abbrev pub validate_distribution : MissionStatus → List MissionStep → Result ServiceError (Unit {0})
validate_distribution status steps = do
  guard (status == authorized) distribution_error
  guard (any (λ s. true) steps) distribution_error

abbrev pub first_status : List String → TaskStatus
first_status [] = ready
first_status (d ∷ ds) = pending

abbrev pub has_task : String → String → List MissionTask → Bool
has_task mission_id step_key tasks =
    any (λ t. (t.mission_id == mission_id) && (t.step_key == step_key)) tasks

abbrev pub add_task : String → MissionStep → Agent → List MissionTask → List MissionTask
add_task mission_id s agent tasks =
    if has_task mission_id s.step_key tasks
    then tasks
    else tasks
      ++ (record {
        mission_id = mission_id;
        step_key = s.step_key;
        agent_id = agent.id;
        status = first_status s.depends_on;
      })
        ∷ []

abbrev pub add_tasks : String → List MissionStep → Database → Result ServiceError Database
add_tasks mission_id [] db = ok db
add_tasks mission_id (s ∷ ss) db = do
  agent ← ready_universe_agent (lookup s.universe db.universes)
  add_tasks mission_id ss (record db { tasks = add_task mission_id s agent db.tasks })

-- `_distribute`
abbrev pub distribute : String → MissionRow → Database → Result ServiceError Database
distribute id item db = do
  steps ← plan_for_mission item.plan
  validate_distribution item.status steps
  add_tasks id steps db

abbrev pub tasks_of : String → List MissionTask → List MissionTask
tasks_of mission_id tasks = keep_if (λ t. t.mission_id == mission_id) tasks

abbrev pub put : String → MissionRow → Database → Database
put id item db = record db { missions = insert id item db.missions }

-- `item.status = transition("mission", current, target)`
abbrev pub move : String → MissionRow → MissionStatus → Database → Result ServiceError Database
move id item target db = do
  status ← lift (transition mission item.status target)
  ok (put id (record item { status = status }) db)

abbrev pub distribute_to : String → MissionRow → Database → Result ServiceError Database
distribute_to id item db = distribute id item db >>= λ db'. move id item distributed db'

-- The branches of `transition_mission`, without the Creator's check.
abbrev pub move_to :
    String
    → MissionRow
    → MissionStatus
    → Option (List MissionStep)
    → Database
    → Result ServiceError Database
move_to id item planned plan db =
    plan_for_mission plan >>= λ steps. move id (record item { plan = some steps }) planned db
move_to id item validated plan db = plan_for_mission item.plan >> move id item validated db
move_to id item authorized plan db =
    plan_for_mission item.plan >>= λ steps. all_ready db steps >> move id item authorized db
move_to id item distributed plan db =
    if item.status == authorized
    then distribute_to id item db
    else (lift (transition mission item.status distributed) >> distribute_to id item db)
move_to id item executing plan db = do
  guard (any (λ t. true) (tasks_of id db.tasks)) (domain_error invalid_origin)
  move id item executing db
move_to id item manifested plan db = do
  guard
      (any (λ t. true) (tasks_of id db.tasks)
        && all (λ t. is_succeeded t.status) (tasks_of id db.tasks))
      (domain_error invalid_origin)
  move id item manifested db
move_to id item drafted plan db = move id item drafted db
move_to id item failed plan db = move id item failed db
move_to id item cancelled plan db = move id item cancelled db

abbrev pub check_creator : Actor → MissionStatus → Result ServiceError (Unit {0})
check_creator actor authorized = lift (require_creator actor)
check_creator actor _ = ok tt

unfoldable pub transition_mission :
    Actor
    → String
    → MissionStatus
    → Option (List MissionStep)
    → Database
    → Result ServiceError Database
transition_mission actor entity_id target plan db = do
  item ← owned actor (lookup entity_id db.missions)
  check_creator actor target
  move_to entity_id item target plan db

-- The dict `steps` of `start_mission`.
abbrev pub next_step : MissionStatus → Option MissionStatus
next_step validated = some authorized
next_step authorized = some distributed
next_step distributed = some executing
next_step _ = none

abbrev pub next_of : Option MissionRow → Option MissionStatus
next_of none = none
next_of (some m) = next_step m.status

-- What ends a start: an exception, or the bound on the turns of the loop.
pub data StartError : Type 0 where
  raises : ServiceError → StartError
  out_of_fuel : StartError

abbrev pub and_then {ℓ} :
    {A : Type ℓ}
    → Result ServiceError A
    → (A → Result StartError Database)
    → Result StartError Database
and_then (err e) continue = err (raises e)
and_then (ok a) continue = continue a

-- One turn of the `while` loop, and what follows it; `item` is the row of the Mission.
abbrev pub start_turn :
    (Database → Result StartError Database)
    → Actor
    → String
    → Database
    → Option MissionStatus
    → Result StartError Database
start_turn continue actor entity_id db none = ok db
start_turn continue actor entity_id db (some target) =
    and_then (transition_mission actor entity_id target none db) continue

abbrev pub start_end : Database → Option MissionStatus → Result StartError Database
start_end db none = ok db
start_end db (some target) = err out_of_fuel

unfoldable pub start_from : ℕ → Actor → String → Database → Result StartError Database
start_from zero actor entity_id db = start_end db (next_of (lookup entity_id db.missions))
start_from (suc fuel) actor entity_id db =
    start_turn (start_from fuel actor entity_id) actor entity_id db
      (next_of (lookup entity_id db.missions))

abbrev pub can_start : Option MissionStatus → Result ServiceError (Unit {0})
can_start none = invalid
can_start (some target) = ok tt

abbrev pub check_start : Actor → String → Database → Result ServiceError MissionRow
check_start actor entity_id db = do
  lift (require_creator actor)
  item ← owned actor (lookup entity_id db.missions)
  can_start (next_step item.status)
  ok item

-- Three statuses lead on, so three turns are enough.
unfoldable pub start_mission : Actor → String → Database → Result StartError Database
start_mission actor entity_id db =
    and_then (check_start actor entity_id db) (λ item. start_from 3 actor entity_id db)
