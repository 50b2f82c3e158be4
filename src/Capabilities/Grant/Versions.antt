-- ===== src/Capabilities/Grant/Versions.antt =====
-- Who changes a Mission's authorization, and how its version moves
-- (capabilities/mission_authorization.py).
use the_creation_os.Prelude.{
  ℕ, ◌<◌, String, ◌≡◌, ◌∙◌, refl, sym, ap, subst, Option, none, some, List, [], ◌∷◌, Result, ok,
  err, ◌==◌, string_eq, lookup, or_else, arith, Option-cases, ◌⊎◌, inl, inr, lookup-insert_self,
  lookup-insert_ne, eq_iff, Bool-cases, ◌≢◌,
}
use the_creation_os.Domain.{mission_status_eq, authorized, DomainError, Actor, require_creator}
use the_creation_os.Capabilities.Grant.{
  Mission, GrantRequest, GrantEvent, Granted, grant_event, Missions, Moment, version_of, granted_as,
  store_grant, set_mission_authorization,
}

-- What was checked of a grant that is accepted, and what it leads to.
pub record IsGranted (instant_of : String → Option ℕ) (now : Moment) (missions : Missions)
    (actor : Actor) (mission_id : String) (request : GrantRequest) (correlation_id : String)
    (after : Missions) : Type 0 where
  pub mission : Mission
  pub found : lookup mission_id missions.rows ≡ some mission
  pub by_creator : (actor.role ≡ "creator") × (mission.creator_id ≡ actor.id)
  pub is_authorized : mission.status ≡ authorized
  pub newer : version_of mission.granted < or_else request.version 1
  pub lasting :
      (t : String)
      → request.expires_at ≡ some t
      → (end : ℕ) × (instant_of t ≡ some end) × (now.instant < end)
  pub others : (k : String) → k ≢ mission_id → lookup k after.rows ≡ lookup k missions.rows
  pub granted : Granted
  pub written : lookup mission_id after.rows ≡ some (record mission { granted = some granted })
  pub versioned : granted.authorization.version ≡ or_else request.version 1
  pub signed : granted.authorization.authorized_by ≡ mission.creator_id
  pub event : GrantEvent
  pub recorded : after.events ≡ event ∷ missions.events
  pub says_who : (event.mission_id ≡ mission.id) × (event.actor_id ≡ mission.creator_id)
  pub says_what :
      (event.version ≡ granted.authorization.version)
      × (event.allowed_capabilities ≡ granted.authorization.allowed_capabilities)
      × (event.denied_capabilities ≡ granted.authorization.denied_capabilities)
      × (event.external_effects_allowed ≡ granted.authorization.external_effects_allowed)
      × (event.risk_level ≡ granted.authorization.risk_level)

accepted_store :
    (instant_of : String → Option ℕ) (now : Moment) (missions : Missions) (actor : Actor)
    (mission_id : String) (request : GrantRequest) (correlation_id : String) (after : Missions)
    (m : Mission)
    → lookup mission_id missions.rows ≡ some m
    → set_mission_authorization instant_of now missions actor mission_id request correlation_id
      ≡ ok after
    → after ≡ store_grant missions mission_id m actor (granted_as actor now request correlation_id)
unfolding set_mission_authorization require_creator
accepted_store instant_of now missions actor mission_id request correlation_id after m found h =
    ground (arith, found)

-- A grant is accepted only from a creator, for a Mission that is theirs and stands at AUTHORIZED, with
-- a version above the one that it replaces and an end, if it has one, that lies ahead. Then that
-- Mission carries a grant with the requested version, signed by its creator, every other row is as it was, and one event is added, which
-- says of which Mission and by whom, and the grant's version, capabilities, effects and risk level.
pub set-IsGranted :
    (instant_of : String → Option ℕ) (now : Moment) (missions : Missions) (actor : Actor)
    (mission_id : String) (request : GrantRequest) (correlation_id : String) (after : Missions)
    → set_mission_authorization instant_of now missions actor mission_id request correlation_id
      ≡ ok after
    → IsGranted instant_of now missions actor mission_id request correlation_id after
unfolding set_mission_authorization require_creator
set-IsGranted instant_of now missions actor mission_id request correlation_id after h =
    elim (Option-cases (lookup mission_id missions.rows)) [
      | inl missing ↦ absurd (ground (arith, missing))
      | inr (m, found) ↦
          let g = granted_as actor now request correlation_id in
          let owner : m.creator_id ≡ actor.id =
            (eq_iff m.creator_id actor.id).0 (ground (arith, found)) in
          let stored : after ≡ store_grant missions mission_id m actor g =
            accepted_store instant_of now missions actor mission_id request correlation_id after m
              found h in
          record {
            mission = m;
            found = found;
            by_creator = ((eq_iff actor.role "creator").0 (ground (arith, found)), owner);
            is_authorized =
                (mission_status_eq.beq_iff m.status authorized).0 (ground (arith, found));
            newer = ground (arith, found);
            lasting = λ t e. elim (Option-cases (instant_of t)) [
              | inl unread ↦ absurd (ground (arith, found))
              | inr (end, read) ↦ (end, read, ground (arith, found))
            ];
            others = λ k other.
                ap (λ (x : Missions). lookup k x.rows) stored
                ∙ lookup-insert_ne mission_id k _ missions.rows (λ e. other (sym e));
            granted = g;
            written =
                ap (λ (x : Missions). lookup mission_id x.rows) stored
                ∙ lookup-insert_self mission_id _ missions.rows;
            versioned = refl;
            signed = sym owner;
            event = grant_event m actor g;
            recorded = ap (λ (x : Missions). x.events) stored;
            says_who = (refl, sym owner);
            says_what = (refl, refl, refl, refl, refl);
          }
    ]

-- A call of `set_mission_authorization`; one that raises leaves the missions as they were.
pub record Call : Type 0 where
  pub now : Moment
  pub actor : Actor
  pub mission_id : String
  pub request : GrantRequest
  pub correlation_id : String

abbrev pub outcome : Missions → Result DomainError Missions → Missions
outcome missions (err e) = missions
outcome missions (ok after) = after

abbrev pub step : (String → Option ℕ) → Missions → Call → Missions
step instant_of missions c = outcome missions (
    set_mission_authorization instant_of c.now missions c.actor c.mission_id c.request
      c.correlation_id)

abbrev pub run : (String → Option ℕ) → Missions → List Call → Missions
run instant_of missions [] = missions
run instant_of missions (c ∷ cs) = run instant_of (step instant_of missions c) cs

abbrev pub version_of_row : Option Mission → ℕ
version_of_row none = 0
version_of_row (some m) = version_of m.granted

abbrev pub version_in : Missions → String → ℕ
version_in missions k = version_of_row (lookup k missions.rows)

-- The Mission is as it was, or its authorization has a higher version.
abbrev pub KeepsOrRaises : Missions → Missions → String → Type 0
KeepsOrRaises before after k =
    (lookup k after.rows ≡ lookup k before.rows) ⊎ (version_in before k < version_in after k)

granted-KeepsOrRaises :
    (instant_of : String → Option ℕ) (missions : Missions) (c : Call) (after : Missions)
    (k : String)
    → IsGranted instant_of c.now missions c.actor c.mission_id c.request c.correlation_id after
    → KeepsOrRaises missions after k
granted-KeepsOrRaises instant_of missions c after k g = elim (Bool-cases (c.mission_id == k)) [
  | inl hit ↦ subst (KeepsOrRaises missions after) ((eq_iff c.mission_id k).0 hit) (
      inr (
        subst (λ v. v < version_in after c.mission_id) (sym (ap version_of_row g.found))
          (subst (λ v. version_of g.mission.granted < v)
            (sym (ap version_of_row g.written ∙ g.versioned)) g.newer)))
  | inr miss ↦ inl (g.others k (λ e. cc (miss, (eq_iff c.mission_id k).1 (sym e))))
]

call-KeepsOrRaises :
    (instant_of : String → Option ℕ) (missions : Missions) (c : Call) (k : String)
    (r : Result DomainError Missions)
    → set_mission_authorization instant_of c.now missions c.actor c.mission_id c.request
        c.correlation_id
      ≡ r
    → KeepsOrRaises missions (outcome missions r) k
call-KeepsOrRaises instant_of missions c k (err e) h = inl refl
call-KeepsOrRaises instant_of missions c k (ok after) h =
    granted-KeepsOrRaises instant_of missions c after k (
      set-IsGranted instant_of c.now missions c.actor c.mission_id c.request c.correlation_id after
        h)

KeepsOrRaises-trans :
    (a b c : Missions) (k : String)
    → KeepsOrRaises a b k
    → KeepsOrRaises b c k
    → KeepsOrRaises a c k
KeepsOrRaises-trans a b c k h g = ground arith

-- Through any calls, refused ones included, a Mission is left exactly as it was or carries an
-- authorization of a higher version: versions never go back, and two different authorizations of a
-- Mission never share one.
pub run-KeepsOrRaises :
    (instant_of : String → Option ℕ) (missions : Missions) (calls : List Call) (k : String)
    → KeepsOrRaises missions (run instant_of missions calls) k
run-KeepsOrRaises instant_of missions [] k = inl refl
run-KeepsOrRaises instant_of missions (c ∷ cs) k =
    KeepsOrRaises-trans missions (step instant_of missions c)
      (run instant_of (step instant_of missions c) cs) k
      (call-KeepsOrRaises instant_of missions c k _ refl)
      (run-KeepsOrRaises instant_of (step instant_of missions c) cs k)
