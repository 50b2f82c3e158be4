-- ===== src/MissionDag.antt =====
-- backend/app/core/mission_dag.py: the check that the steps of a Mission plan form a dependency
-- DAG. `visit` has fuel for the depth of Python's recursion. The order in which a Python set is
-- enumerated is that of the list that it is made from.
pub mod Search
pub mod Total
pub mod Accepts
pub mod Tests
use the_creation_os.Prelude.{
  ℕ, zero, suc, String, ◌≡◌, Bool, true, false, not, List, [], ◌∷◌, map, Option, none, some, Eq,
  ◌==◌, nat_eq, string_eq, contains, erase, distinct, all, set_of, length, Result, ok, err, guard,
  ◌>>=◌, ◌>>◌, if◌then◌else◌,
}

pub record PlannedStep : Type 0 where
  pub step_key : String
  pub position : ℕ
  pub depends_on : List String

pub data PlanError : Type 0 where
  duplicate_keys duplicate_positions depends_on_itself unknown_dependencies cycle_detected :
      PlanError
  key_error recursion_limit : PlanError

-- The sets that `visit` mutates.
pub record Marks : Type 0 where
  pub visiting : List String
  pub visited : List String

-- The `for` loop over the dependencies, with the recursive call passed in.
unfoldable pub visit_each :
    (String → Marks → Result PlanError Marks) → List String → Marks → Result PlanError Marks
visit_each visit [] m = ok m
visit_each visit (key ∷ keys) m = do m' ← visit key m; visit_each visit keys m'

abbrev pub or_key_error : Option (List String) → Result PlanError (List String)
or_key_error none = err key_error
or_key_error (some deps) = ok deps

module _ (dependencies : String → Option (List String)) where
  unfoldable pub visit : ℕ → String → Marks → Result PlanError Marks
  visit zero key m = err recursion_limit
  visit (suc fuel) key m =
      if contains key m.visiting
      then err cycle_detected
      else if contains key m.visited
      then ok m
      else do
        deps ← or_key_error (dependencies key)
        m' ← visit_each (visit fuel) deps (record m { visiting = key ∷ m.visiting })
        ok (record { visiting = erase key m'.visiting; visited = key ∷ m'.visited })

abbrev pub keys_of : List PlannedStep → List String
keys_of steps = map (λ s. s.step_key) steps

-- The dict `dependencies`; the keys are distinct when it is read.
unfoldable pub dependencies_of : List PlannedStep → String → Option (List String)
dependencies_of [] key = none
dependencies_of (s ∷ steps) key =
    if s.step_key == key then some (set_of s.depends_on) else dependencies_of steps key

unfoldable pub check_dependencies : List String → List PlannedStep → Result PlanError (Unit {0})
check_dependencies known [] = ok tt
check_dependencies known (s ∷ steps) = do
  guard (not (contains s.step_key s.depends_on)) depends_on_itself
  guard (all (λ d. contains d known) s.depends_on) unknown_dependencies
  check_dependencies known steps

-- The depth of the recursion is at most the number of keys, and one call more finds a cycle.
unfoldable pub validate_mission_steps : List PlannedStep → Result PlanError (Unit {0})
unfolding check_dependencies
validate_mission_steps steps = do
  guard (distinct (keys_of steps)) duplicate_keys
  guard (distinct (map (λ s. s.position) steps)) duplicate_positions
  check_dependencies (keys_of steps) steps
  visit_each (visit (dependencies_of steps) (suc (length steps))) (keys_of steps)
      (record { visiting = []; visited = [] })
  ok tt
