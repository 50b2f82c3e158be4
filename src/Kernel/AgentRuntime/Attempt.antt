-- ===== src/Kernel/AgentRuntime/Attempt.antt =====
-- backend/app/kernel/orchestrator.py and completion_engine.py, as `run_next` uses them: an attempt that is
-- claimed can be finished, and a verdict leaves the attempts as they are.
use the_creation_os.Prelude.{
  ◌≡◌, ◌≢◌, inl, inr, refl, sym, ap, ◌∙◌, subst, String, Bool, true, false, ◌&&◌, Option, none,
  some, List, [], ◌∷◌, ◌++◌, map, ok, >>=-eq-ok, insert, leb, ◌==◌, string_eq, beq_refl, beq_ne,
  In-map, Bool-cases, if-eq_cases, if_taken, if_both, In, Distinct, lookup, arith,
}
use the_creation_os.Domain.{MissionStatus, mission_status_eq, executing, mission, transition}
use the_creation_os.Kernel.Tasks.{
  running, Task, RunStatus, Execution, Store, task_by_id, execution_by_id, with_task, with_first,
  with_execution,
}
use the_creation_os.Kernel.Completion.{
  evaluate, evaluate_at, end_mission, completion_target, statuses_of, is_end, lift,
}
use the_creation_os.Kernel.Orchestrator.{
  is_running, is_run_running, is_pending, is_ready_in, next_ready, start_attempt, execution_of,
  claim_task, claim_in, settled_by, settle, refresh_from, refresh_task_readiness,
  claim_next_ready_task, Ending, success, failure, end_task, end_execution, find_attempt,
  end_attempt, finish_task_attempt,
}

-- The attempt is in the table and its Task is found by its id; both run.
pub record IsClaimedAs (id : String) (t : Task) (s : Store) : Type 0 where
  task : Task
  found_task : task_by_id t.id s.tasks ≡ some task
  task_runs : task.status ≡ running
  execution : Execution
  found_execution : execution_by_id id s.executions ≡ some execution
  of_task : (execution.task_id == t.id) ≡ true
  execution_runs : execution.status ≡ RunStatus.running

-- The attempt is in the table and does not run.
pub record IsEnded (id : String) (s : Store) : Type 0 where
  pub execution : Execution
  pub found : execution_by_id id s.executions ≡ some execution
  pub ended : execution.status ≢ RunStatus.running

execution_by_id-with :
    (id : String) (change : Execution → Execution) (es : List Execution) (e : Execution)
    → ((x : Execution) → (change x).id ≡ x.id)
    → execution_by_id id es ≡ some e
    → execution_by_id id (with_execution id change es) ≡ some (change e)
execution_by_id-with id change [] e keeps h = cc
execution_by_id-with id change (x ∷ xs) e keeps h = elim (Bool-cases (x.id == id)) [
  | inl hit ↦
      let same : x ≡ e = ground (arith, hit) in
      let kept : ((change x).id == id) ≡ true = ap (λ (k : String). k == id) (keeps x) ∙ hit in
      rw (hit, kept) (ap (λ z. some (change z)) same)
  | inr miss ↦
      let rest : execution_by_id id xs ≡ some e = ground (arith, miss) in
      rw (miss, miss) (execution_by_id-with id change xs e keeps rest)
]

end_execution_keeps : (ending : Ending) (x : Execution) → (end_execution ending x).id ≡ x.id
end_execution_keeps (success p m) x = refl
end_execution_keeps (failure p m e terminal) x = refl

not_running :
    (ending : Ending) (e : Execution) → (end_execution ending e).status ≢ RunStatus.running
not_running (success p m) e h = cc
not_running (failure p m x terminal) e h = cc

pub finish-IsEnded :
    (id : String) (t : Task) (ending : Ending) (s : Store)
    → IsClaimedAs id t s
    → (s' : Store) × (finish_task_attempt t.id id ending s ≡ ok s') × IsEnded id s'
unfolding finish_task_attempt refresh_task_readiness
finish-IsEnded id t ending s c =
    let found : find_attempt t.id (task_by_id t.id s.tasks) (execution_by_id id s.executions)
        ≡ ok (c.task, c.execution) =
      rw (c.found_task, c.found_execution, c.of_task) refl in
    let running_both : (is_running c.task.status && is_run_running c.execution.status) ≡ true =
      rw (c.task_runs, c.execution_runs) refl in
    let after = refresh_task_readiness c.task.mission_id (record s {
      tasks = with_task t.id (end_task ending) s.tasks;
      executions = with_execution id (end_execution ending) s.executions;
    }) in
    (
      after,
      ap (end_attempt t.id id ending s) found
          ∙ if_taken (λ r. r ≡ ok after)
              (is_running c.task.status && is_run_running c.execution.status) _ running_both refl,
      record {
        execution = end_execution ending c.execution;
        found =
            execution_by_id-with id (end_execution ending) s.executions c.execution
              (end_execution_keeps ending) c.found_execution;
        ended = not_running ending c.execution;
      },
    )

execution_by_id-last :
    (id : String) (es : List Execution) (e : Execution)
    → execution_by_id id es ≡ none
    → (e.id == id) ≡ true
    → execution_by_id id (es ++ e ∷ []) ≡ some e
execution_by_id-last id [] e h t = ground arith
execution_by_id-last id (x ∷ xs) e h t = ground (arith, execution_by_id-last id xs e)

next_ready-In :
    (mission_id : String) (ts : List Task) (t : Task) → next_ready mission_id ts ≡ some t → In t ts
next_ready-In mission_id [] t h = cc
next_ready-In mission_id (x ∷ xs) t h = elim (Bool-cases (is_ready_in mission_id x)) [
  | inl hit ↦ inl (sym (ground (arith, hit)))
  | inr miss ↦ inr (next_ready-In mission_id xs t (ground (arith, miss)))
]

task_by_id-first :
    (mission_id : String) (ts : List Task) (t : Task)
    → Distinct (map (λ (x : Task). x.id) ts)
    → next_ready mission_id ts ≡ some t
    → task_by_id t.id (with_first (is_ready_in mission_id) start_attempt ts)
      ≡ some (start_attempt t)
task_by_id-first mission_id [] t d h = cc
task_by_id-first mission_id (x ∷ xs) t d h = elim (Bool-cases (is_ready_in mission_id x)) [
  | inl hit ↦
      let same : x ≡ t = ground (arith, hit) in
      let same_id = (string_eq.beq_iff x.id t.id).1 (ap (λ (z : Task). z.id) same) in
      rw (hit, same_id) (ap (λ z. some (start_attempt z)) same)
  | inr miss ↦
      let rest : next_ready mission_id xs ≡ some t = ground (arith, miss) in
      let other : (x.id == t.id) ≡ false = beq_ne x.id t.id (λ same. d.0 (
        subst (λ k. In k (map (λ (z : Task). z.id) xs)) (sym same)
          (In-map (λ (z : Task). z.id) t xs (next_ready-In mission_id xs t rest)))) in
      rw (miss, other) (task_by_id-first mission_id xs t d.1 rest)
]

append_nil : (ts : List Task) → ts ++ [] ≡ ts
append_nil [] = refl
append_nil (t ∷ ts) = ap (λ us. t ∷ us) (append_nil ts)

settled_by_keeps :
    (present dead done : Bool) (t : Task) → (settled_by present dead done t).id ≡ t.id
settled_by_keeps false dead done t = refl
settled_by_keeps true true done t = refl
settled_by_keeps true false true t = refl
settled_by_keeps true false false t = refl

settle_keeps :
    (mission_id : String) (ts : List Task) (t : Task) → (settle mission_id ts t).id ≡ t.id
unfolding settle
settle_keeps mission_id ts t =
    if_both (λ (x : Task). x.id ≡ t.id) ((t.mission_id == mission_id) && is_pending t.status)
      (settled_by_keeps _ _ _ t) refl

same_ids :
    (seen ts : List Task) (t u : Task)
    → u.id ≡ t.id
    → map (λ (x : Task). x.id) ((seen ++ u ∷ []) ++ ts) ≡ map (λ (x : Task). x.id) (seen ++ t ∷ ts)
same_ids [] ts t u h = ap (λ k. k ∷ map (λ (x : Task). x.id) ts) h
same_ids (x ∷ xs) ts t u h = ap (λ ks. x.id ∷ ks) (same_ids xs ts t u h)

refresh-ids :
    (mission_id : String) (seen ts : List Task)
    → map (λ (x : Task). x.id) (refresh_from mission_id seen ts)
      ≡ map (λ (x : Task). x.id) (seen ++ ts)
unfolding refresh_from
refresh-ids mission_id seen [] = ap (map (λ (x : Task). x.id)) (sym (append_nil seen))
refresh-ids mission_id seen (t ∷ ts) =
    refresh-ids mission_id (seen ++ settle mission_id (seen ++ t ∷ ts) t ∷ []) ts
    ∙ same_ids seen ts t (settle mission_id (seen ++ t ∷ ts) t)
        (settle_keeps mission_id (seen ++ t ∷ ts) t)

claimed_task :
    (id mission_id : String) (r s' : Store) (t : Task) (e : Execution) (o : Option Task)
    → Distinct (map (λ (x : Task). x.id) r.tasks)
    → execution_by_id id r.executions ≡ none
    → next_ready mission_id r.tasks ≡ o
    → claim_task id mission_id r o ≡ (some (t, e), s')
    → IsClaimedAs id t s'
claimed_task id mission_id r s' t e none d fresh next h = cc
claimed_task id mission_id r s' t e (some t0) d fresh next h =
    let claimed = record r {
      tasks = with_first (is_ready_in mission_id) start_attempt r.tasks;
      executions = r.executions ++ execution_of id t0 ∷ [];
    } in
    let started : Option (Task × Execution) × Store =
      (some (start_attempt t0, execution_of id t0), claimed) in
    elim (if-eq_cases (leb t0.max_attempts t0.attempt_count) _ started (some (t, e), s') h) [
      | inl (spent, given_up) ↦ cc
      | inr (room, same) ↦
          let task_same : start_attempt t0 ≡ t = cc in
          subst (λ (y : Store). IsClaimedAs id t y)
            (ap (λ (x : Option (Task × Execution) × Store). x.1) same)
            (subst (λ (y : Task). IsClaimedAs id y claimed) task_same
              (record {
                task = start_attempt t0;
                found_task = task_by_id-first mission_id r.tasks t0 d next;
                task_runs = refl;
                execution = execution_of id t0;
                found_execution =
                    execution_by_id-last id r.executions (execution_of id t0) fresh (beq_refl id);
                of_task = beq_refl t0.id;
                execution_runs = refl;
              }))
    ]

-- A claim that gives work gives an attempt that can be finished.
pub claim-IsClaimedAs :
    (id mission_id : String) (s s' : Store) (t : Task) (e : Execution)
    → Distinct (map (λ (x : Task). x.id) s.tasks)
    → execution_by_id id s.executions ≡ none
    → claim_next_ready_task id mission_id s ≡ ok (some (t, e), s')
    → IsClaimedAs id t s'
unfolding claim_next_ready_task refresh_task_readiness
claim-IsClaimedAs id mission_id s s' t e d fresh h = by_status (lookup mission_id s.missions) h
  where
    r : Store
    r = refresh_task_readiness mission_id s

    by_status :
        (o : Option MissionStatus)
        → claim_in id mission_id s o ≡ ok (some (t, e), s')
        → IsClaimedAs id t s'
    by_status none h' = cc
    by_status (some status) h' =
        elim (if-eq_cases (status == executing)
          (ok (claim_task id mission_id r (next_ready mission_id r.tasks))) (ok (none, s))
          (ok (some (t, e), s')) h') [
            | inr (idle, same) ↦ cc
            | inl (runs, same) ↦
                claimed_task id mission_id r s' t e (next_ready mission_id r.tasks)
                  (subst Distinct (sym (refresh-ids mission_id [] s.tasks)) d) fresh refl cc
          ]

-- A claim that gives no work adds no attempt.
pub claim-no_attempt :
    (id mission_id : String) (s s' : Store)
    → execution_by_id id s.executions ≡ none
    → claim_next_ready_task id mission_id s ≡ ok (none, s')
    → execution_by_id id s'.executions ≡ none
unfolding claim_next_ready_task refresh_task_readiness
claim-no_attempt id mission_id s s' fresh h = by_status (lookup mission_id s.missions) h
  where
    r : Store
    r = refresh_task_readiness mission_id s

    Fresh : Store → Type 0
    Fresh y = execution_by_id id y.executions ≡ none

    from_claim : (o : Option Task) → claim_task id mission_id r o ≡ (none, s') → Fresh s'
    from_claim none h' = subst (λ (x : Option (Task × Execution) × Store). Fresh x.1) h' fresh
    from_claim (some t) h' =
        elim (if-eq_cases (leb t.max_attempts t.attempt_count) _ _ (none, s') h') [
          | inl (spent, same) ↦
              subst (λ (x : Option (Task × Execution) × Store). Fresh x.1) same fresh
          | inr (room, same) ↦ cc
        ]

    by_status : (o : Option MissionStatus) → claim_in id mission_id s o ≡ ok (none, s') → Fresh s'
    by_status none h' = cc
    by_status (some status) h' =
        elim (if-eq_cases (status == executing)
          (ok (claim_task id mission_id r (next_ready mission_id r.tasks))) (ok (none, s))
          (ok (none, s')) h') [
            | inl (runs, same) ↦ from_claim (next_ready mission_id r.tasks) cc
            | inr (idle, same) ↦ let kept : s ≡ s' = cc in subst Fresh kept fresh
          ]

pub evaluate-executions :
    (mission_id : String) (s s' : Store) (target : Option MissionStatus)
    → evaluate mission_id s ≡ ok (target, s')
    → s'.executions ≡ s.executions
unfolding evaluate
evaluate-executions mission_id s s' target h = by_status (lookup mission_id s.missions) h
  where
    from_target :
        (o : Option MissionStatus)
        → end_mission mission_id s o ≡ ok (target, s')
        → s'.executions ≡ s.executions
    from_target none h' = let kept : s ≡ s' = cc in ap (λ (x : Store). x.executions) (sym kept)
    from_target (some x) h' =
        elim (if-eq_cases (is_end x) _ (ok (some x, s)) (ok (target, s')) h') [
          | inl (ends, same) ↦
              let (status, moved, written) =
                >>=-eq-ok (lift (transition mission executing x))
                  (λ status.
                    ok (some x, record s { missions = insert mission_id status s.missions }))
                  same in
              let kept : record s { missions = insert mission_id status s.missions } ≡ s' = cc in
              ap (λ (y : Store). y.executions) (sym kept)
          | inr (goes_on, same) ↦
              let kept : s ≡ s' = cc in ap (λ (y : Store). y.executions) (sym kept)
        ]

    by_status :
        (o : Option MissionStatus)
        → evaluate_at mission_id s o ≡ ok (target, s')
        → s'.executions ≡ s.executions
    by_status none h' = cc
    by_status (some status) h' =
        elim (if-eq_cases (status == executing) _ (ok (none, s)) (ok (target, s')) h') [
          | inl (runs, same) ↦
              let (o, judged, rest) =
                >>=-eq-ok (completion_target (statuses_of mission_id s.tasks))
                  (end_mission mission_id s) same in
              from_target o rest
          | inr (idle, same) ↦ let kept : s ≡ s' = cc in ap (λ (y : Store). y.executions) (sym kept)
        ]
