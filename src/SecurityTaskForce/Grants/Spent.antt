-- ===== src/SecurityTaskForce/Grants/Spent.antt =====
-- backend/app/security_task_force/grants.py: how often a grant is spent.
use the_creation_os.Prelude.{
  ℕ, ◌+◌, ◌≤◌, ◌<◌, ◌≡◌, refl, sym, ap, ◌∙◌, subst, ◌⊎◌, inl, inr, String, true, false, not, Option,
  none, some, List, [], ◌∷◌, ◌==◌, string_eq, &&-eq-true, ltb→lt, Bool-cases, if_both, lookup,
  insert, lookup-insert, arith,
}
use the_creation_os.SecurityTaskForce.Grants.{
  ActionRequest, CapabilityGrant, GrantState, build_grant, issue, revoke_found, revoke, revoke_row,
  revoke_of, revoke_each, revoke_mission, invocations, is_live, same_scope, matches, is_cut_off,
  matches_found, allows_in, spend, consume,
}

-- A new id is a fresh one: `uuid4` does not repeat.
pub data Operation : Type 0 where
  issues : String → ℕ → ActionRequest → ℕ → Option ℕ → ℕ → ℕ → Operation
  revokes : String → Operation
  revokes_mission : String → Option ℕ → Operation
  consumes : String → ActionRequest → ℕ → Operation

abbrev pub issue_fresh : String → CapabilityGrant → GrantState → Option CapabilityGrant → GrantState
issue_fresh id g s none = issue id g s
issue_fresh id g s (some old) = s

abbrev pub operate : Operation → GrantState → GrantState
operate (issues id max_ttl action ttl not_after n now) s =
    issue_fresh id (build_grant max_ttl action ttl not_after n now) s (lookup id s.grants)
operate (revokes id) s = (revoke id s).1
operate (revokes_mission mission_id below_version) s = revoke_mission mission_id below_version s
operate (consumes id action now) s = (consume id action now s).1

abbrev pub operate_all : List Operation → GrantState → GrantState
operate_all [] s = s
operate_all (op ∷ ops) s = operate_all ops (operate op s)

-- What may have been spent of a grant.
abbrev pub allowance : Option CapabilityGrant → ℕ
allowance none = 0
allowance (some g) = g.max_invocations

abbrev pub IsWithin : String → GrantState → Type 0
IsWithin id s = invocations id s ≤ allowance (lookup id s.grants)

max_kept :
    (mission_id : String) (g : CapabilityGrant)
    → (revoke_of mission_id g).max_invocations ≡ g.max_invocations
max_kept mission_id g =
    if_both (λ (x : CapabilityGrant). x.max_invocations ≡ g.max_invocations)
      (g.scope.mission_id == mission_id) refl refl

allowance-revoke_each :
    (id mission_id : String) (gs : List (String × CapabilityGrant))
    → allowance (lookup id (revoke_each mission_id gs)) ≡ allowance (lookup id gs)
unfolding lookup
allowance-revoke_each id mission_id [] = refl
allowance-revoke_each id mission_id ((k, g) ∷ gs) = elim (Bool-cases (k == id)) [
  | inl hit ↦ rw hit (max_kept mission_id g)
  | inr miss ↦ rw miss (allowance-revoke_each id mission_id gs)
]

-- A row that is written holds what may have been spent of its grant.
allowance-insert :
    (id k : String) (g : CapabilityGrant) (s : GrantState)
    → (k ≡ id → invocations id s ≤ g.max_invocations)
    → invocations id s ≤ allowance (lookup id s.grants)
    → invocations id s ≤ allowance (lookup id (insert k g s.grants))
allowance-insert id k g s own h = elim (Bool-cases (k == id)) [
  | inl hit ↦ rw (lookup-insert k id g s.grants, hit) (own ((string_eq.beq_iff k id).0 hit))
  | inr miss ↦ rw (lookup-insert k id g s.grants, miss) h
]

issue-IsWithin :
    (id k : String) (g : CapabilityGrant) (s : GrantState) (o : Option CapabilityGrant)
    → lookup k s.grants ≡ o
    → IsWithin id s
    → IsWithin id (issue_fresh k g s o)
issue-IsWithin id k g s (some old) found h = h
issue-IsWithin id k g s none fresh h =
    allowance-insert id k g s
      (λ same.
        let zero_spent : invocations id s ≤ 0 =
          subst (λ o. invocations id s ≤ allowance o)
            (ap (λ j. lookup j s.grants) (sym same) ∙ fresh) h in
        omega (arith, zero_spent))
      h

revoke-IsWithin :
    (id k : String) (s : GrantState) (o : Option CapabilityGrant)
    → lookup k s.grants ≡ o
    → IsWithin id s
    → IsWithin id (revoke_found k s o).1
revoke-IsWithin id k s none found h = h
revoke-IsWithin id k s (some g) found h =
    allowance-insert id k (revoke_row g) s
      (λ same.
        subst (λ o. invocations id s ≤ allowance o) (ap (λ j. lookup j s.grants) (sym same) ∙ found)
          h)
      h

left_over :
    (action : ActionRequest) (spent now : ℕ) (o : Option CapabilityGrant)
    → matches_found action spent now o ≡ true
    → spent < allowance o
unfolding matches
left_over action spent now none h = cc
left_over action spent now (some g) h =
    let (live, scoped) = &&-eq-true (is_live spent now g) (same_scope g.scope action) h in
    ltb→lt spent g.max_invocations (ground (arith, live))

consume-IsWithin :
    (id k : String) (action : ActionRequest) (now : ℕ) (s : GrantState)
    → IsWithin id s
    → IsWithin id (consume k action now s).1
unfolding consume
consume-IsWithin id k action now s h = elim (Bool-cases (allows_in k action now s)) [
  | inr refused ↦ rw refused h
  | inl allowed ↦ rw allowed (spent_on (Bool-cases (k == id)) allowed)
]
  where
    spent_on :
        ((k == id) ≡ true) ⊎ ((k == id) ≡ false)
        → allows_in k action now s ≡ true
        → invocations id (spend k s) ≤ allowance (lookup id s.grants)
    spent_on (inl hit) allowed =
        let same : k ≡ id = (string_eq.beq_iff k id).0 hit in
        let (uncut, matched) =
          &&-eq-true (not (is_cut_off action (lookup action.mission_id s.revoked_missions)))
            (matches_found action (invocations k s) now (lookup k s.grants)) allowed in
        let room = left_over action (invocations k s) now (lookup k s.grants) matched in
        rw (lookup-insert k id (invocations k s + 1) s.invocations, hit)
          (subst (λ j. invocations k s + 1 ≤ allowance (lookup j s.grants)) same
            (omega (arith, room)))
    spent_on (inr miss) allowed =
        rw (lookup-insert k id (invocations k s + 1) s.invocations, miss) h

operate-IsWithin :
    (id : String) (op : Operation) (s : GrantState) → IsWithin id s → IsWithin id (operate op s)
unfolding revoke revoke_mission
operate-IsWithin id (issues k max_ttl action ttl not_after n now) s h =
    issue-IsWithin id k (build_grant max_ttl action ttl not_after n now) s (lookup k s.grants) refl
      h
operate-IsWithin id (revokes k) s h = revoke-IsWithin id k s (lookup k s.grants) refl h
operate-IsWithin id (revokes_mission mission_id below_version) s h =
    omega (arith, h, allowance-revoke_each id mission_id s.grants)
operate-IsWithin id (consumes k action now) s h = consume-IsWithin id k action now s h

-- Whatever is issued, revoked and consumed, in any order, a grant that has been spent within its
-- `max_invocations` stays so; of an id that stands for no grant nothing is spent.
pub operate_all-IsWithin :
    (id : String) (ops : List Operation) (s : GrantState)
    → IsWithin id s
    → IsWithin id (operate_all ops s)
operate_all-IsWithin id [] s h = h
operate_all-IsWithin id (op ∷ ops) s h =
    operate_all-IsWithin id ops (operate op s) (operate-IsWithin id op s h)
