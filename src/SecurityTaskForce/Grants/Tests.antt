-- ===== src/SecurityTaskForce/Grants/Tests.antt =====
-- Witnesses for backend/app/security_task_force/grants.py.
use the_creation_os.Prelude.{
  ◌≡◌, refl, true, false, none, some, List, [], ◌∷◌, lookup, string_eq, arith,
}
use the_creation_os.SecurityTaskForce.Grants.{
  ActionRequest, GrantState, build_grant, revoke, consume,
}
use the_creation_os.SecurityTaskForce.Grants.Spent.{
  Operation, issues, revokes_mission, consumes, operate_all, IsWithin, operate_all-IsWithin,
}
use the_creation_os.SecurityTaskForce.Grants.Revoked.{revoke-for_good}

abbrev scan : ActionRequest
scan = record {
  mission_id = "m";
  mission_version = 2;
  actor = "a";
  capability = "scan";
  target_id = "t";
  environment_id = "e";
  action_class = "read";
}

abbrev no_grants : GrantState
no_grants = record { grants = []; invocations = []; revoked_missions = [] }

abbrev one_grant : GrantState
one_grant = record no_grants { grants = ("g", build_grant 30 scan 5 none 2 10) ∷ [] }

abbrev operations : List Operation
operations =
    consumes "g" scan 11
    ∷ consumes "g" scan 12
    ∷ consumes "g" scan 13
    ∷ revokes_mission "m" (some 1)
    ∷ issues "h" 30 scan 5 none 1 14
    ∷ []

nothing_spent : IsWithin "g" one_grant
unfolding lookup
nothing_spent = omega arith

operate_all-IsWithin_example : IsWithin "g" (operate_all operations one_grant)
operate_all-IsWithin_example = operate_all-IsWithin "g" operations one_grant nothing_spent

is_found : (revoke "g" one_grant).0 ≡ true
unfolding revoke lookup
is_found = refl

revoke-for_good_example :
    (consume "g" scan 12 (operate_all operations (revoke "g" one_grant).1)).0 ≡ false
revoke-for_good_example = revoke-for_good "g" operations one_grant scan 12 is_found
