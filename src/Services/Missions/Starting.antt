-- ===== src/Services/Missions/Starting.antt =====
-- What `transition_mission` and `start_mission` of services/domain.py do to a Mission.
use the_creation_os.Prelude.{
  ℕ, zero, suc, String, ◌≡◌, ◌≢◌, ◌≤◌, ◌∙◌, refl, sym, ap, subst, ◌⊎◌, inl, inr, Bool, true, false,
  Option, none, some, List, Result, ok, err, ◌>>=◌, ◌>>◌, >>=-eq-ok, if◌then◌else◌, ◌==◌, string_eq,
  eq_iff, lookup, lookup-insert_self, arith, Option-cases,
}
use the_creation_os.Domain.{
  MissionStatus, mission_status_eq, planned, validated, authorized, distributed, executing,
  manifested, mission, transition, DomainError, Actor, require_creator,
}
use the_creation_os.Services.Missions.{
  MissionStep, MissionRow, Database, ServiceError, lift, owned, plan_for_mission, all_ready,
  distribute, distribute_to, put, move, move_to, check_creator, transition_mission, next_step,
  next_of, start_turn, start_from, can_start, start_mission, StartError, out_of_fuel, and_then,
  start_end, check_start,
}

moved_status : (s t u : MissionStatus) → transition mission s t ≡ ok u → u ≡ t
unfolding transition
moved_status s t u h = ground arith

lifted : (r : Result DomainError MissionStatus) (u : MissionStatus) → lift r ≡ ok u → r ≡ ok u
lifted r u h = ground arith

either_branch :
    {A : Type 0} (test : Bool) {x y : Result ServiceError A} {a : A}
    → (if test then x else y) ≡ ok a
    → (x ≡ ok a) ⊎ (y ≡ ok a)
either_branch true h = inl h
either_branch false h = inr h

-- The Mission's row has reached the status, by a transition that its status before allowed.
pub record IsMoved (id : String) (item : MissionRow) (target : MissionStatus) (db' : Database)
    : Type 0 where
  pub allowed : transition mission item.status target ≡ ok target
  pub row : MissionRow
  pub found : lookup id db'.missions ≡ some row
  pub reached : row.status ≡ target
  pub kept_owner : row.creator_id ≡ item.creator_id

move-IsMoved :
    (id : String) (item : MissionRow) (target : MissionStatus) (db db' : Database)
    → move id item target db ≡ ok db'
    → IsMoved id item target db'
move-IsMoved id item target db db' h =
    let (status, step, stored) =
      >>=-eq-ok (lift (transition mission item.status target))
        (λ status. ok (put id (record item { status = status }) db)) h in
    let t : transition mission item.status target ≡ ok status = lifted _ status step in
    let same : status ≡ target = moved_status item.status target status t in
    let e : put id (record item { status = status }) db ≡ db' = ground (arith, stored) in
    record {
      allowed = t ∙ ap ok same;
      row = record item { status = status };
      found =
          ap (λ (d : Database). lookup id d.missions) (sym e)
          ∙ lookup-insert_self id (record item { status = status }) db.missions;
      reached = same;
      kept_owner = refl;
    }

module _ (id : String) (item : MissionRow) (plan : Option (List MissionStep))
    (db db' : Database) where
  guarded :
      {A : Type 0} (m : Result ServiceError A) (target : MissionStatus)
      → (m >>= λ _. move id item target db) ≡ ok db'
      → IsMoved id item target db'
  guarded m target h =
      move-IsMoved id item target db db' (>>=-eq-ok m (λ _. move id item target db) h).2

  distribute_to-IsMoved : distribute_to id item db ≡ ok db' → IsMoved id item distributed db'
  distribute_to-IsMoved h =
      let (mid, first, last) =
        >>=-eq-ok (distribute id item db) (λ d. move id item distributed d) h in
      move-IsMoved id item distributed mid db' last

  move_to-IsMoved :
      (target : MissionStatus)
      → move_to id item target plan db ≡ ok db'
      → IsMoved id item target db'
  move_to-IsMoved planned h =
      let (steps, first, last) =
        >>=-eq-ok (plan_for_mission plan)
          (λ steps. move id (record item { plan = some steps }) planned db) h in
      let m = move-IsMoved id (record item { plan = some steps }) planned db db' last in
      record {
        allowed = m.allowed;
        row = m.row;
        found = m.found;
        reached = m.reached;
        kept_owner = m.kept_owner;
      }
  move_to-IsMoved validated h = guarded (plan_for_mission item.plan) validated h
  move_to-IsMoved authorized h =
      let (steps, first, last) =
        >>=-eq-ok (plan_for_mission item.plan)
          (λ steps. all_ready db steps >> move id item authorized db) h in
      guarded (all_ready db steps) authorized last
  move_to-IsMoved distributed h = elim (either_branch (item.status == authorized) h) [
    | inl direct ↦ distribute_to-IsMoved direct
    | inr checked ↦
        distribute_to-IsMoved
          (>>=-eq-ok (lift (transition mission item.status distributed))
            (λ _. distribute_to id item db) checked).2
  ]
  move_to-IsMoved executing h = guarded _ executing h
  move_to-IsMoved manifested h = guarded _ manifested h
  move_to-IsMoved _ h = move-IsMoved id item _ db db' h

owned-ok :
    (actor : Actor) (o : Option MissionRow) (item : MissionRow)
    → owned actor o ≡ ok item
    → (o ≡ some item) × (item.creator_id ≡ actor.id)
owned-ok actor none item h = cc
owned-ok actor (some m) item h =
    let same : m ≡ item = ground arith in
    let mine : (m.creator_id == actor.id) ≡ true = ground arith in
    (
      ap some same,
      ap (λ (x : MissionRow). x.creator_id) (sym same) ∙ (eq_iff m.creator_id actor.id).0 mine,
    )

creator_checked : (actor : Actor) → check_creator actor authorized ≡ ok tt → actor.role ≡ "creator"
unfolding require_creator
creator_checked actor h = (eq_iff actor.role "creator").0 (ground arith)

-- What was checked of a request that is accepted, and where it leaves the Mission.
pub record IsAccepted (actor : Actor) (id : String) (target : MissionStatus) (db db' : Database)
    : Type 0 where
  pub item : MissionRow
  pub found : lookup id db.missions ≡ some item
  pub mine : item.creator_id ≡ actor.id
  pub by_creator : target ≡ authorized → actor.role ≡ "creator"
  pub moved : IsMoved id item target db'

-- `transition_mission` succeeds only for the owner of the Mission, by a transition that the domain
-- allows from its status, and for a creator where it authorizes; it leaves the Mission at the target,
-- with its owner.
pub transition_mission-IsAccepted :
    (actor : Actor) (id : String) (target : MissionStatus) (plan : Option (List MissionStep))
    (db db' : Database)
    → transition_mission actor id target plan db ≡ ok db'
    → IsAccepted actor id target db db'
unfolding transition_mission
transition_mission-IsAccepted actor id target plan db db' h =
    let (item, first, rest) =
      >>=-eq-ok (owned actor (lookup id db.missions))
        (λ item. check_creator actor target >> move_to id item target plan db) h in
    let (u, checked, last) =
      >>=-eq-ok (check_creator actor target) (λ _. move_to id item target plan db) rest in
    let (found, mine) = owned-ok actor (lookup id db.missions) item first in
    record {
      item = item;
      found = found;
      mine = mine;
      by_creator =
          λ e. creator_checked actor (subst (λ t. check_creator actor t ≡ ok tt) e checked);
      moved = move_to-IsMoved id item plan db db' target last;
    }

abbrev pub IsStarted : String → Database → Type 0
IsStarted id db' =
    (row : MissionRow) × (lookup id db'.missions ≡ some row) × (row.status ≡ executing)

-- The start of a Mission leads on from this status, or has come to its end.
abbrev Leads : MissionStatus → Type 0
Leads s = (s ≡ executing) ⊎ ((s ≡ validated) ⊎ ((s ≡ authorized) ⊎ (s ≡ distributed)))

-- Turns of the loop that are left.
abbrev to_go : MissionStatus → ℕ
to_go validated = 3
to_go authorized = 2
to_go distributed = 1
to_go _ = 0

leads : (s t : MissionStatus) → next_step s ≡ some t → Leads t
leads validated t n = ground arith
leads _ t n = ground arith

nearer : (s t : MissionStatus) → next_step s ≡ some t → suc (to_go t) ≡ to_go s
nearer validated t n = ground arith
nearer _ t n = ground arith

-- Where a turn that succeeds leads.
after_turn :
    (actor : Actor) (id : String) (db mid : Database) (s t : MissionStatus)
    → next_step s ≡ some t
    → transition_mission actor id t none db ≡ ok mid
    → (row : MissionRow) × (lookup id mid.missions ≡ some row)
      × Leads row.status
      × (suc (to_go row.status) ≡ to_go s)
after_turn actor id db mid s t n h =
    let a = transition_mission-IsAccepted actor id t none db mid h in
    (
      a.moved.row,
      a.moved.found,
      subst Leads (sym a.moved.reached) (leads s t n),
      ap (λ x. suc (to_go x)) a.moved.reached ∙ nearer s t n,
    )

-- A start that goes through leaves the Mission executing; one that does not was stopped by an exception.
abbrev pub Outcome : String → Result StartError Database → Type 0
Outcome id (ok db') = IsStarted id db'
Outcome id (err e) = e ≢ out_of_fuel

module _ (actor : Actor) (id : String) where
  turn-Outcome :
      (continue : Database → Result StartError Database) (db : Database) (s t : MissionStatus)
      (r : Result ServiceError Database)
      → next_step s ≡ some t
      → transition_mission actor id t none db ≡ r
      → ((mid : Database) (row : MissionRow)
          → lookup id mid.missions ≡ some row
          → Leads row.status
          → suc (to_go row.status) ≡ to_go s
          → Outcome id (continue mid))
      → Outcome id (and_then r continue)
  turn-Outcome continue db s t (err e) n h f = λ same. cc
  turn-Outcome continue db s t (ok mid) n h f =
      let (row, found, leads, nearer) = after_turn actor id db mid s t n h in
      f mid row found leads nearer

  stands : (s : MissionStatus) → Leads s → next_step s ≡ none → (s ≡ executing)
  stands executing l n = refl
  stands _ l n = ground arith

  from-Outcome :
      (fuel : ℕ) (db : Database) (item : MissionRow)
      → lookup id db.missions ≡ some item
      → Leads item.status
      → to_go item.status ≤ fuel
      → Outcome id (start_from fuel actor id db)
  unfolding start_from
  from-Outcome zero db item found l enough = elim (Option-cases (next_step item.status)) [
    | inl stop ↦
        subst (λ o. Outcome id (start_end db o)) (sym (ap next_of found ∙ stop))
          (item, found, stands item.status l stop)
    | inr (t, go) ↦ absurd (omega (arith, nearer item.status t go))
  ]
  from-Outcome (suc fuel) db item found l enough = elim (Option-cases (next_step item.status)) [
    | inl stop ↦
        subst (λ o. Outcome id (start_turn (start_from fuel actor id) actor id db o))
          (sym (ap next_of found ∙ stop)) (item, found, stands item.status l stop)
    | inr (t, go) ↦
        subst (λ o. Outcome id (start_turn (start_from fuel actor id) actor id db o))
          (sym (ap next_of found ∙ go))
          (turn-Outcome (start_from fuel actor id) db item.status t _ go refl
            (λ mid row at m n. from-Outcome fuel mid row at m (omega (arith, n))))
  ]

  can_start-Leads : (s : MissionStatus) → can_start (next_step s) ≡ ok tt → Leads s
  can_start-Leads validated h = ground arith
  can_start-Leads _ h = ground arith

  most : (s : MissionStatus) → to_go s ≤ 3
  most validated = omega arith
  most _ = omega arith

-- `start_mission` always ends within its three turns: it raises, or it leaves the Mission executing,
-- wherever an earlier start had stopped.
pub start_mission-Outcome :
    (actor : Actor) (id : String) (db : Database) → Outcome id (start_mission actor id db)
unfolding start_mission
start_mission-Outcome actor id db = checked (check_start actor id db) refl
  where
    checked :
        (r : Result ServiceError MissionRow)
        → check_start actor id db ≡ r
        → Outcome id (and_then r (λ item. start_from 3 actor id db))
    checked (err e) h = λ same. cc
    checked (ok item) h =
        let (u, first, rest) =
          >>=-eq-ok (lift (require_creator actor))
            (λ _.
              owned actor (lookup id db.missions) >>= λ m. can_start (next_step m.status) >> ok m)
            h in
        let (m, mine, last) =
          >>=-eq-ok (owned actor (lookup id db.missions))
            (λ m. can_start (next_step m.status) >> ok m) rest in
        let (v, can, same) = >>=-eq-ok (can_start (next_step m.status)) (λ _. ok m) last in
        from-Outcome actor id 3 db m (owned-ok actor (lookup id db.missions) m mine).0
          (can_start-Leads actor id m.status can) (most actor id m.status)
