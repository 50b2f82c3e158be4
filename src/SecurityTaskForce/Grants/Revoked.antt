-- ===== src/SecurityTaskForce/Grants/Revoked.antt =====
-- backend/app/security_task_force/grants.py: a grant that is revoked allows nothing again.
use the_creation_os.Prelude.{
  ℕ, ◌≡◌, refl, sym, ap, ◌∙◌, subst, String, Bool, true, false, not, ◌&&◌, Option, none, some, List,
  [], ◌∷◌, ◌==◌, string_eq, if_both, if_untaken, Bool-cases, inl, inr, lookup, insert,
  lookup-insert, lookup-insert_self, arith,
}
use the_creation_os.SecurityTaskForce.Grants.{
  ActionRequest, CapabilityGrant, GrantState, build_grant, revoke_found, revoke, revoke_row,
  revoke_each, revoke_mission, invocations, matches, is_cut_off, matches_found, allows_in, consume,
}
use the_creation_os.SecurityTaskForce.Grants.Spent.{
  Operation, issues, revokes, revokes_mission, consumes, issue_fresh, operate, operate_all,
}

abbrev pub is_revoked : Option CapabilityGrant → Bool
is_revoked none = false
is_revoked (some g) = g.revoked

each_stays :
    (id mission_id : String) (gs : List (String × CapabilityGrant))
    → is_revoked (lookup id gs) ≡ true
    → is_revoked (lookup id (revoke_each mission_id gs)) ≡ true
unfolding lookup
each_stays id mission_id [] h = h
each_stays id mission_id ((k, g) ∷ gs) h = elim (Bool-cases (k == id)) [
  | inl hit ↦
      let gone : g.revoked ≡ true = ground (arith, hit, h) in
      rw hit (
        if_both (λ (x : CapabilityGrant). x.revoked ≡ true) (g.scope.mission_id == mission_id) refl
          gone)
  | inr miss ↦ rw miss (each_stays id mission_id gs (ground (arith, miss, h)))
]

insert_stays :
    (id k : String) (g : CapabilityGrant) (gs : List (String × CapabilityGrant))
    → (k ≡ id → g.revoked ≡ true)
    → is_revoked (lookup id gs) ≡ true
    → is_revoked (lookup id (insert k g gs)) ≡ true
insert_stays id k g gs own h = elim (Bool-cases (k == id)) [
  | inl hit ↦ rw (lookup-insert k id g gs, hit) (own ((string_eq.beq_iff k id).0 hit))
  | inr miss ↦ rw (lookup-insert k id g gs, miss) h
]

issue_stays :
    (id k : String) (g : CapabilityGrant) (s : GrantState) (o : Option CapabilityGrant)
    → lookup k s.grants ≡ o
    → is_revoked (lookup id s.grants) ≡ true
    → is_revoked (lookup id (issue_fresh k g s o).grants) ≡ true
issue_stays id k g s (some old) found h = h
issue_stays id k g s none fresh h =
    insert_stays id k g s.grants
      (λ same.
        let nothing : is_revoked none ≡ true =
          subst (λ o. is_revoked o ≡ true) (ap (λ j. lookup j s.grants) (sym same) ∙ fresh) h in
        cc)
      h

revoke_stays :
    (id k : String) (s : GrantState) (o : Option CapabilityGrant)
    → is_revoked (lookup id s.grants) ≡ true
    → is_revoked (lookup id (revoke_found k s o).1.grants) ≡ true
revoke_stays id k s none h = h
revoke_stays id k s (some g) h = insert_stays id k (revoke_row g) s.grants (λ same. refl) h

operate_stays :
    (id : String) (op : Operation) (s : GrantState)
    → is_revoked (lookup id s.grants) ≡ true
    → is_revoked (lookup id (operate op s).grants) ≡ true
unfolding revoke revoke_mission consume
operate_stays id (issues k max_ttl action ttl not_after n now) s h =
    issue_stays id k (build_grant max_ttl action ttl not_after n now) s (lookup k s.grants) refl h
operate_stays id (revokes k) s h = revoke_stays id k s (lookup k s.grants) h
operate_stays id (revokes_mission mission_id below_version) s h =
    each_stays id mission_id s.grants h
operate_stays id (consumes k action now) s h =
    if_both (λ (r : Bool × GrantState). is_revoked (lookup id r.1.grants) ≡ true)
      (allows_in k action now s) h h

operate_all_stays :
    (id : String) (ops : List Operation) (s : GrantState)
    → is_revoked (lookup id s.grants) ≡ true
    → is_revoked (lookup id (operate_all ops s).grants) ≡ true
operate_all_stays id [] s h = h
operate_all_stays id (op ∷ ops) s h =
    operate_all_stays id ops (operate op s) (operate_stays id op s h)

revoked_at_once :
    (id : String) (s : GrantState) (o : Option CapabilityGrant)
    → (revoke_found id s o).0 ≡ true
    → is_revoked (lookup id (revoke_found id s o).1.grants) ≡ true
revoked_at_once id s none h = cc
revoked_at_once id s (some g) h = ap is_revoked (lookup-insert_self id (revoke_row g) s.grants)

refused :
    (action : ActionRequest) (spent now : ℕ) (o : Option CapabilityGrant)
    → is_revoked o ≡ true
    → matches_found action spent now o ≡ false
unfolding matches
refused action spent now none h = cc
refused action spent now (some g) h = rw h refl

both_false : (a b : Bool) → b ≡ false → (a && b) ≡ false
both_false a b h = ground (arith, h)

-- A grant that `revoke` has found and revoked is never spent again, whatever is issued, revoked and
-- consumed after it: `consume` refuses it for every action at every time.
pub revoke-for_good :
    (id : String) (ops : List Operation) (s : GrantState) (action : ActionRequest) (now : ℕ)
    → (revoke id s).0 ≡ true
    → (consume id action now (operate_all ops (revoke id s).1)).0 ≡ false
unfolding revoke consume
revoke-for_good id ops s action now h =
    let after = operate_all ops (revoke id s).1 in
    let gone =
      operate_all_stays id ops (revoke id s).1 (revoked_at_once id s (lookup id s.grants) h) in
    let stopped = refused action (invocations id after) now (lookup id after.grants) gone in
    if_untaken (λ (r : Bool × GrantState). r.0 ≡ false) (allows_in id action now after) _
      (both_false (not (is_cut_off action (lookup action.mission_id after.revoked_missions))) _
        stopped)
      refl
