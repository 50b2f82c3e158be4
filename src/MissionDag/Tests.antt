-- ===== src/MissionDag/Tests.antt =====
-- Witnesses and runs for core/mission_dag.py.
use the_creation_os.Prelude.{String, ◌≡◌, refl, List, [], ◌∷◌, ok, err}
use the_creation_os.MissionDag.{
  PlannedStep, PlanError, cycle_detected, dependencies_of, visit, visit_each,
  validate_mission_steps, unknown_dependencies,
}
use the_creation_os.MissionDag.Accepts.{IsDag, IsReported, Chain, validate-ok_iff, validate_errors}

abbrev diamond : List PlannedStep
diamond =
    record { step_key = "deploy"; position = 3; depends_on = "web" ∷ "api" ∷ "web" ∷ [] }
    ∷ record { step_key = "api"; position = 1; depends_on = "design" ∷ [] }
    ∷ record { step_key = "web"; position = 2; depends_on = "design" ∷ [] }
    ∷ record { step_key = "design"; position = 0; depends_on = [] }
    ∷ []

abbrev loop : List PlannedStep
loop =
    record { step_key = "a"; position = 0; depends_on = "b" ∷ [] }
    ∷ record { step_key = "b"; position = 1; depends_on = "c" ∷ [] }
    ∷ record { step_key = "c"; position = 2; depends_on = "b" ∷ [] }
    ∷ []

diamond_accepted : validate_mission_steps diamond ≡ ok tt
unfolding validate_mission_steps visit visit_each dependencies_of
diamond_accepted = refl

loop_refused : validate_mission_steps loop ≡ err cycle_detected
unfolding validate_mission_steps visit visit_each dependencies_of
loop_refused = refl

unknown_refused :
    validate_mission_steps (record { step_key = "a"; position = 0; depends_on = "z" ∷ [] } ∷ [])
    ≡ err unknown_dependencies
unfolding validate_mission_steps visit visit_each dependencies_of
unknown_refused = refl

validate-ok_iff_example :
    (validate_mission_steps diamond ≡ ok tt → IsDag diamond)
    × (IsDag diamond → validate_mission_steps diamond ≡ ok tt)
validate-ok_iff_example = validate-ok_iff diamond

validate_errors_example :
    IsReported cycle_detected
    × (◌≡◌ {A = PlanError} cycle_detected cycle_detected → (k : String) × Chain loop k k)
validate_errors_example = validate_errors loop cycle_detected loop_refused
