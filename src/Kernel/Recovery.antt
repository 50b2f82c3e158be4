-- ===== src/Kernel/Recovery.antt =====
-- What a restart leaves (kernel/reconciler.py).
use the_creation_os.Prelude.{
  ◌≡◌, ◌∙◌, inl, inr, refl, sym, ap, subst, true, false, Option, none, some, List, [], ◌∷◌, ◌==◌,
  string_eq, eq_iff, In, All, All-of_In, if_taken, Bool-cases, if_both, keep_if,
}
use the_creation_os.Kernel.Tasks.{
  Task, Execution, Store, task_by_id, with_execution, ErrorCode, interrupted_by_restart,
  task_missing_during_reconciliation,
}
use the_creation_os.Kernel.Orchestrator.{is_run_running}
use the_creation_os.Kernel.Reconciler.{
  Counts, no_counts, interrupted_as, reconcile_found, reconcile_each, reconcile,
}

-- Every attempt that is running is one of these.
abbrev Covered : List Execution → Execution → Type 0
Covered es e = is_run_running e.status ≡ true → (x : Execution) × In x es × (x.id ≡ e.id)

drop-Covered :
    (error : ErrorCode) (x : Execution) (es rows : List Execution)
    → All (Covered (x ∷ es)) rows
    → All (Covered es) (with_execution x.id (interrupted_as error) rows)
drop-Covered error x es [] c = tt
drop-Covered error x es (e ∷ rows) c = elim (Bool-cases (e.id == x.id)) [
  | inl hit ↦ rw hit (λ h. cc, drop-Covered error x es rows c.1)
  | inr miss ↦ rw miss (still miss, drop-Covered error x es rows c.1)
]
  where
    still : (e.id == x.id) ≡ false → Covered es e
    still miss runs = elim (c.0 runs).1 [
      | inl first ↦ absurd (other (subst (λ (z : Execution). z.id ≡ e.id) first (c.0 runs).2))
      | inr later ↦ ((c.0 runs).0, later, (c.0 runs).2)
    ]
      where
        other : x.id ≡ e.id → ⊥
        other same = cc (miss, (eq_iff e.id x.id).1 (sym same))

found-Covered :
    (x : Execution) (es : List Execution) (o : Option Task) (s : Store) (c : Counts)
    → All (Covered (x ∷ es)) s.executions
    → All (Covered es) (reconcile_found x o (s, c)).0.executions
found-Covered x es none s c h = drop-Covered task_missing_during_reconciliation x es s.executions h
found-Covered x es (some t) s c h = drop-Covered interrupted_by_restart x es s.executions h

each-Covered :
    (es : List Execution) (s : Store) (c : Counts)
    → All (Covered es) s.executions
    → All (Covered []) (reconcile_each es (s, c)).0.executions
unfolding reconcile_each
each-Covered [] s c h = h
each-Covered (x ∷ es) s c h =
    each-Covered es _ _ (found-Covered x es (task_by_id x.task_id s.tasks) s c h)

running_kept :
    (e : Execution) (rows : List Execution)
    → In e rows
    → is_run_running e.status ≡ true
    → In e (keep_if (λ x. is_run_running x.status) rows)
running_kept e [] m runs = m
running_kept e (x ∷ rows) (inl same) runs =
    if_taken (In e) (is_run_running x.status) _
      (ap (λ (z : Execution). is_run_running z.status) (sym same) ∙ runs) (inl same)
running_kept e (x ∷ rows) (inr m) runs =
    if_both (In e) (is_run_running x.status) (inr (running_kept e rows m runs))
      (running_kept e rows m runs)

stopped : (e : Execution) → Covered [] e → is_run_running e.status ≡ false
stopped e c = elim (Bool-cases (is_run_running e.status)) [
  | inl runs ↦ absurd (c runs).1
  | inr stands ↦ stands
]

-- After a restart's reconciliation no attempt is running any more, whatever it finds.
pub reconcile_stops :
    (s : Store) → All (λ e. is_run_running e.status ≡ false) (reconcile s).0.executions
unfolding reconcile
reconcile_stops s = none_left _ (each-Covered _ s no_counts covered)
  where
    covered : All (Covered (keep_if (λ e. is_run_running e.status) s.executions)) s.executions
    covered = All-of_In _ s.executions (λ e m runs. (e, running_kept e s.executions m runs, refl))

    none_left :
        (rows : List Execution)
        → All (Covered []) rows
        → All (λ e. is_run_running e.status ≡ false) rows
    none_left [] a = tt
    none_left (e ∷ rows) a = (stopped e a.0, none_left rows a.1)
