-- ===== src/SecurityTaskForce/Grants.antt =====
-- backend/app/security_task_force/grants.py, with `CapabilityGrant.matches` of contracts.py: grants that are
-- issued, revoked and counted. A state file that cannot be read is `none`; the file itself is not
-- modelled. Ids of grants are given. Times are whole ticks; `limitless` is the cutoff 10**9.
pub mod Spent
pub mod Revoked
mod Tests
use the_creation_os.Prelude.{
  ℕ, ◌+◌, String, Bool, true, false, not, ◌&&◌, Option, none, some, List, [], ◌∷◌, ltb, leb,
  if◌then◌else◌, ◌==◌, string_eq, nat_eq, Dict, lookup, insert, or_else, is_some,
}

pub record ActionRequest : Type 0 where
  pub mission_id : String
  pub mission_version : ℕ
  pub actor : String
  pub capability : String
  pub target_id : String
  pub environment_id : String
  pub action_class : String

pub record CapabilityGrant : Type 0 where
  pub scope : ActionRequest
  pub expires_at : ℕ
  pub max_invocations : ℕ
  pub revoked : Bool

pub record GrantState : Type 0 where
  pub grants : Dict String CapabilityGrant
  pub invocations : Dict String ℕ
  pub revoked_missions : Dict String ℕ

abbrev pub limitless : ℕ
limitless = 1000000000

abbrev pub smaller : ℕ → ℕ → ℕ
smaller a b = if leb a b then a else b

abbrev pub no_later : Option ℕ → ℕ → ℕ
no_later none expires = expires
no_later (some not_after) expires = smaller expires not_after

-- MAX_TTL in ticks is a parameter.
abbrev pub build_grant : ℕ → ActionRequest → ℕ → Option ℕ → ℕ → ℕ → CapabilityGrant
build_grant max_ttl action ttl not_after max_invocations now = record {
  scope = action;
  expires_at = no_later not_after (now + smaller ttl max_ttl);
  max_invocations = max_invocations;
  revoked = false;
}

abbrev pub issue : String → CapabilityGrant → GrantState → GrantState
issue id grant s = record s { grants = insert id grant s.grants }

abbrev pub revoke_row : CapabilityGrant → CapabilityGrant
revoke_row g = record g { revoked = true }

abbrev pub revoke_found : String → GrantState → Option CapabilityGrant → Bool × GrantState
revoke_found id s none = (false, s)
revoke_found id s (some g) = (true, record s { grants = insert id (revoke_row g) s.grants })

unfoldable pub revoke : String → GrantState → Bool × GrantState
revoke id s = revoke_found id s (lookup id s.grants)

abbrev pub revoke_of : String → CapabilityGrant → CapabilityGrant
revoke_of mission_id g = if g.scope.mission_id == mission_id then revoke_row g else g

abbrev pub revoke_each : String → Dict String CapabilityGrant → Dict String CapabilityGrant
revoke_each mission_id [] = []
revoke_each mission_id ((id, g) ∷ gs) = (id, revoke_of mission_id g) ∷ revoke_each mission_id gs

-- The number of grants that it returns is not modelled.
unfoldable pub revoke_mission : String → Option ℕ → GrantState → GrantState
revoke_mission mission_id below_version s = record s {
  grants = revoke_each mission_id s.grants;
  revoked_missions = insert mission_id (or_else below_version limitless) s.revoked_missions;
}

abbrev pub invocations : String → GrantState → ℕ
invocations id s = or_else (lookup id s.invocations) 0

abbrev pub same_scope : ActionRequest → ActionRequest → Bool
same_scope a b =
    (a.mission_id == b.mission_id)
    && ((a.mission_version == b.mission_version)
        && ((a.actor == b.actor)
            && ((a.capability == b.capability)
                && ((a.target_id == b.target_id)
                    && ((a.environment_id == b.environment_id)
                        && (a.action_class == b.action_class))))))

abbrev pub is_live : ℕ → ℕ → CapabilityGrant → Bool
is_live spent now g = not g.revoked && (ltb now g.expires_at && ltb spent g.max_invocations)

unfoldable pub matches : ActionRequest → ℕ → ℕ → CapabilityGrant → Bool
matches action spent now g = is_live spent now g && same_scope g.scope action

abbrev pub is_cut_off : ActionRequest → Option ℕ → Bool
is_cut_off action none = false
is_cut_off action (some cutoff) = leb action.mission_version cutoff

abbrev pub matches_found : ActionRequest → ℕ → ℕ → Option CapabilityGrant → Bool
matches_found action spent now none = false
matches_found action spent now (some g) = matches action spent now g

abbrev pub allows_in : String → ActionRequest → ℕ → GrantState → Bool
allows_in id action now s =
    not (is_cut_off action (lookup action.mission_id s.revoked_missions))
    && matches_found action (invocations id s) now (lookup id s.grants)

-- `StateUnreadable` allows nothing.
abbrev pub allows : String → ActionRequest → ℕ → Option GrantState → Bool
allows id action now none = false
allows id action now (some s) = allows_in id action now s

abbrev pub spend : String → GrantState → GrantState
spend id s = record s { invocations = insert id (invocations id s + 1) s.invocations }

unfoldable pub consume : String → ActionRequest → ℕ → GrantState → Bool × GrantState
consume id action now s = if allows_in id action now s then (true, spend id s) else (false, s)
