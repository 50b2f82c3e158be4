-- ===== src/Kernel/Attempts.antt =====
-- A Task is never attempted more often than it may be (kernel/orchestrator.py and reconciler.py).
use the_creation_os.Prelude.{
  ◌+◌, ◌≤◌, ◌<◌, String, ◌≡◌, refl, ap, subst, Bool, true, false, ◌&&◌, Option, none, some, List,
  [], ◌∷◌, ◌++◌, Result, ok, err, ltb, leb, ◌==◌, string_eq, arith, All, if_both, if_untaken,
  Bool-cases, lookup, ◌⊎◌, inl, inr,
}
use the_creation_os.Domain.{MissionStatus, MissionStatus-discrete, mission_status_eq, executing}
use the_creation_os.Kernel.Tasks.{
  TaskStatus, pending, ready, Task, Execution, Store, task_by_id, with_task, with_first,
}
use the_creation_os.Kernel.Orchestrator.{
  settled_by, settle, end_attempt, refresh_from, refresh_task_readiness, next_ready, is_ready_in,
  start_attempt, give_up, claim_task, claim_in, claim_next_ready_task, KernelError, Ending, success,
  failure, end_task, finish_task_attempt, execution_of, is_running, is_pending, is_run_running,
}
use the_creation_os.Kernel.Reconciler.{
  reconcile, reconcile_each, reconcile_found, recover, Counts, no_counts,
}

abbrev pub IsOpen : TaskStatus → Type 0
IsOpen s = (s ≡ pending) ⊎ (s ≡ ready)

-- A Task has an attempt left while it waits or is ready.
pub record IsBounded (t : Task) : Type 0 where
  pub within : t.attempt_count ≤ t.max_attempts
  pub left : IsOpen t.status → t.attempt_count < t.max_attempts

with_task-All :
    (P : Task → Type 0) (id : String) (change : Task → Task) (ts : List Task)
    → ((t : Task) → P t → P (change t))
    → All P ts
    → All P (with_task id change ts)
with_task-All P id change [] f a = tt
with_task-All P id change (t ∷ ts) f a =
    if_both (All P) (t.id == id) (f t a.0, with_task-All P id change ts f a.1)
      (a.0, with_task-All P id change ts f a.1)

with_first-All :
    (P : Task → Type 0) (test : Task → Bool) (change : Task → Task) (ts : List Task)
    → ((t : Task) → test t ≡ true → P t → P (change t))
    → All P ts
    → All P (with_first test change ts)
with_first-All P test change [] f a = tt
with_first-All P test change (t ∷ ts) f a = elim (Bool-cases (test t)) [
  | inl hit ↦ rw hit (f t hit a.0, a.1)
  | inr miss ↦ rw miss (a.0, with_first-All P test change ts f a.1)
]

settled_by-IsBounded :
    (present dead done : Bool) (t : Task)
    → t.status ≡ pending
    → IsBounded t
    → IsBounded (settled_by present dead done t)
settled_by-IsBounded false dead done t p b = record {
  within = b.within;
  left = λ o. b.left (inl p);
}
settled_by-IsBounded true true done t p b = record { within = b.within; left = λ o. b.left (inl p) }
settled_by-IsBounded true false true t p b = record {
  within = b.within;
  left = λ o. b.left (inl p);
}
settled_by-IsBounded true false false t p b = b

pending_of : (s : TaskStatus) → is_pending s ≡ true → s ≡ pending
pending_of pending h = refl
pending_of _ h = cc

settle-IsBounded :
    (mission_id : String) (tasks : List Task) (t : Task)
    → IsBounded t
    → IsBounded (settle mission_id tasks t)
unfolding settle
settle-IsBounded mission_id tasks t b =
    elim (Bool-cases ((t.mission_id == mission_id) && is_pending t.status)) [
      | inl hit ↦
          rw hit (settled_by-IsBounded _ _ _ t (pending_of t.status (ground (arith, hit))) b)
      | inr miss ↦ rw miss b
    ]

All-append : (P : Task → Type 0) (xs ys : List Task) → All P xs → All P ys → All P (xs ++ ys)
All-append P [] ys a b = b
All-append P (x ∷ xs) ys a b = (a.0, All-append P xs ys a.1 b)

refresh_from-All :
    (mission_id : String) (seen ts : List Task)
    → All IsBounded seen
    → All IsBounded ts
    → All IsBounded (refresh_from mission_id seen ts)
unfolding refresh_from
refresh_from-All mission_id seen [] a b = a
refresh_from-All mission_id seen (t ∷ ts) a b =
    refresh_from-All mission_id (seen ++ settle mission_id (seen ++ t ∷ ts) t ∷ []) ts
      (All-append IsBounded seen _ a (settle-IsBounded mission_id (seen ++ t ∷ ts) t b.0, tt)) b.1

-- A call of the kernel on its store; one that raises changes nothing.
pub data Call : Type 0 where
  refreshes : String → Call
  claims : String → String → Call
  finishes : String → String → Ending → Call
  reconciles : Call

abbrev pub claimed : Store → Result KernelError (Option (Task × Execution) × Store) → Store
claimed s (err e) = s
claimed s (ok (work, s')) = s'

abbrev pub finished : Store → Result KernelError Store → Store
finished s (err e) = s
finished s (ok s') = s'

abbrev pub step : Store → Call → Store
step s (refreshes mission_id) = refresh_task_readiness mission_id s
step s (claims id mission_id) = claimed s (claim_next_ready_task id mission_id s)
step s (finishes task_id execution_id ending) =
    finished s (finish_task_attempt task_id execution_id ending s)
step s reconciles = (reconcile s).0

abbrev pub run : Store → List Call → Store
run s [] = s
run s (c ∷ cs) = run (step s c) cs

abbrev pub AllBounded : Store → Type 0
AllBounded s = All IsBounded s.tasks

refresh-AllBounded :
    (mission_id : String) (s : Store)
    → AllBounded s
    → AllBounded (refresh_task_readiness mission_id s)
unfolding refresh_task_readiness
refresh-AllBounded mission_id s b = refresh_from-All mission_id [] s.tasks tt b

ready_of : (mission_id : String) (t : Task) → is_ready_in mission_id t ≡ true → t.status ≡ ready
ready_of mission_id t h = ground arith

claim_task-AllBounded :
    (id mission_id : String) (s : Store) (o : Option Task)
    → AllBounded s
    → AllBounded (claim_task id mission_id s o).1
claim_task-AllBounded id mission_id s none b = b
claim_task-AllBounded id mission_id s (some t) b =
    if_both (λ (x : Option (Task × Execution) × Store). AllBounded x.1)
      (leb t.max_attempts t.attempt_count)
      (with_first-All IsBounded (is_ready_in mission_id) give_up s.tasks
        (λ u h v. record { within = v.within; left = λ o. ground (arith, o) }) b)
      (with_first-All IsBounded (is_ready_in mission_id) start_attempt s.tasks
        (λ u h v. record {
          within = omega (arith, v.left (inr (ready_of mission_id u h)));
          left = λ o. ground (arith, o);
        })
        b)

claim_in-AllBounded :
    (id mission_id : String) (s : Store) (o : Option MissionStatus)
    → AllBounded s
    → AllBounded (claimed s (claim_in id mission_id s o))
claim_in-AllBounded id mission_id s none b = b
claim_in-AllBounded id mission_id s (some status) b =
    if_both (λ x. AllBounded (claimed s x)) (status == executing)
      (claim_task-AllBounded id mission_id (refresh_task_readiness mission_id s)
        (next_ready mission_id (refresh_task_readiness mission_id s).tasks)
        (refresh-AllBounded mission_id s b))
      b

end_task-IsBounded : (ending : Ending) (t : Task) → IsBounded t → IsBounded (end_task ending t)
end_task-IsBounded (success p m) t b = record { within = b.within; left = λ o. ground (arith, o) }
end_task-IsBounded (failure p m e terminal) t b = record {
  within = b.within;
  left = λ o. ground (arith, o);
}

end_attempt-AllBounded :
    (task_id execution_id : String) (ending : Ending) (s : Store)
    (o : Result KernelError (Task × Execution))
    → AllBounded s
    → AllBounded (finished s (end_attempt task_id execution_id ending s o))
end_attempt-AllBounded task_id execution_id ending s (err x) b = b
end_attempt-AllBounded task_id execution_id ending s (ok (t, e)) b =
    if_both (λ x. AllBounded (finished s x)) (is_running t.status && is_run_running e.status)
      (refresh-AllBounded t.mission_id _
        (with_task-All IsBounded task_id (end_task ending) s.tasks (end_task-IsBounded ending) b))
      b

recover-IsBounded : (u : Bool) (t : Task) → IsBounded t → IsBounded (recover u t)
recover-IsBounded true t b = record { within = b.within; left = λ o. ground (arith, o) }
recover-IsBounded false t b = elim (Bool-cases (ltb t.attempt_count t.max_attempts)) [
  | inl room ↦ rw room (record { within = b.within; left = λ o. ground (arith, room) })
  | inr full ↦ rw full (record { within = b.within; left = λ o. ground (arith, o) })
]

found-AllBounded :
    (e : Execution) (o : Option Task) (s : Store) (c : Counts)
    → AllBounded s
    → AllBounded (reconcile_found e o (s, c)).0
found-AllBounded e none s c b = b
found-AllBounded e (some t) s c b =
    with_task-All IsBounded e.task_id _ s.tasks (recover-IsBounded _) b

each-AllBounded :
    (es : List Execution) (s : Store) (c : Counts)
    → AllBounded s
    → AllBounded (reconcile_each es (s, c)).0
unfolding reconcile_each
each-AllBounded [] s c b = b
each-AllBounded (e ∷ es) s c b =
    each-AllBounded es _ _ (found-AllBounded e (task_by_id e.task_id s.tasks) s c b)

step-AllBounded : (s : Store) (c : Call) → AllBounded s → AllBounded (step s c)
unfolding claim_next_ready_task finish_task_attempt reconcile
step-AllBounded s (refreshes mission_id) b = refresh-AllBounded mission_id s b
step-AllBounded s (claims id mission_id) b =
    claim_in-AllBounded id mission_id s (lookup mission_id s.missions) b
step-AllBounded s (finishes task_id execution_id ending) b =
    end_attempt-AllBounded task_id execution_id ending s _ b
step-AllBounded s reconciles b = each-AllBounded _ s no_counts b

-- Whatever the kernel is called for, in any order, with any ids, failures and restarts, no Task has
-- more attempts than it may have, and a Task that waits or is ready has one left.
pub run-AllBounded : (s : Store) (calls : List Call) → AllBounded s → AllBounded (run s calls)
run-AllBounded s [] b = b
run-AllBounded s (c ∷ cs) b = run-AllBounded (step s c) cs (step-AllBounded s c b)

next_ready-IsBounded :
    (mission_id : String) (ts : List Task) (t : Task)
    → All IsBounded ts
    → next_ready mission_id ts ≡ some t
    → IsBounded t × (is_ready_in mission_id t ≡ true)
next_ready-IsBounded mission_id [] t b h = cc
next_ready-IsBounded mission_id (u ∷ us) t b h = elim (Bool-cases (is_ready_in mission_id u)) [
  | inl hit ↦
      let e : u ≡ t = ground (arith, hit) in
      (subst IsBounded e b.0, subst (λ x. is_ready_in mission_id x ≡ true) e hit)
  | inr miss ↦ next_ready-IsBounded mission_id us t b.1 (ground (arith, miss))
]

-- What a claim gives an executing Mission: the first Task that is ready after the refresh, started
-- with one attempt more, and nothing only if no Task is ready.
abbrev pub IsClaimed : String → Option Task → Option (Task × Execution) → Type 0
IsClaimed id none work = work ≡ none
IsClaimed id (some t) work =
    (work ≡ some (start_attempt t, execution_of id t)) × (t.attempt_count + 1 ≤ t.max_attempts)

claim_task-IsClaimed :
    (id mission_id : String) (s : Store) (o : Option Task)
    → AllBounded s
    → next_ready mission_id s.tasks ≡ o
    → IsClaimed id o (claim_task id mission_id s o).0
claim_task-IsClaimed id mission_id s none b h = refl
claim_task-IsClaimed id mission_id s (some t) b h =
    let (v, is) = next_ready-IsBounded mission_id s.tasks t b h in
    let room : t.attempt_count < t.max_attempts = v.left (inr (ready_of mission_id t is)) in
    (
      if_untaken
          (λ (x : Option (Task × Execution) × Store).
            x.0 ≡ some (start_attempt t, execution_of id t))
          (leb t.max_attempts t.attempt_count) _ (ground (arith, room)) refl,
      omega (arith, room),
    )

-- In a store that the kernel keeps bounded, a claim never gives a ready Task up as exhausted: an
-- executing Mission gets its first ready Task as long as it has one.
pub claim-IsClaimed :
    (id mission_id : String) (s : Store)
    → AllBounded s
    → lookup mission_id s.missions ≡ some executing
    → (work : Option (Task × Execution)) × (s' : Store) × (claim_next_ready_task id mission_id s
        ≡ ok (work, s'))
      × IsClaimed id (next_ready mission_id (refresh_task_readiness mission_id s).tasks) work
unfolding claim_next_ready_task MissionStatus-discrete
claim-IsClaimed id mission_id s b runs =
    let r = refresh_task_readiness mission_id s in
    let o = next_ready mission_id r.tasks in
    (
      (claim_task id mission_id r o).0,
      (claim_task id mission_id r o).1,
      ap (claim_in id mission_id s) runs,
      claim_task-IsClaimed id mission_id r o (refresh-AllBounded mission_id s b) refl,
    )
