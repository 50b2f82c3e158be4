-- ===== src/MissionDag/Accepts.antt =====
-- Which plans `validate_mission_steps` accepts, and what its errors say.
use the_creation_os.Prelude.{
  suc, String, ◌≡◌, ◌≢◌, ◌↔◌, ◌⊎◌, inl, inr, refl, sym, subst, List, [], ◌∷◌, some, string_eq,
  nat_eq, contains, distinct, length, length-map, Result, ok, err, ◌>>◌, In, In-map, Distinct,
  arith, map, Bool-cases, not-In_of_contains, In-of_contains, Distinct_of_distinct,
  distinct_of_Distinct, all, all_iff, In-set_of, In-of_set_of, set_of, beq_refl, beq_ne, eq_iff,
  ◌==◌, contains-of_In,
}
use the_creation_os.MissionDag.{
  PlannedStep, Marks, PlanError, cycle_detected, recursion_limit, key_error, visit, visit_each,
  keys_of, dependencies_of, check_dependencies, validate_mission_steps, depends_on_itself,
  unknown_dependencies,
}
use the_creation_os.MissionDag.Search.{
  DependsOn, Reaches, direct, further, visit-Grows, visit_each-Grows, ordered_acyclic,
}
use the_creation_os.MissionDag.Total.{Outcome, IsClosed, Leads, visit_outcome, visit_each_outcome}

module _ (steps : List PlannedStep) where
  -- A step of the plan with key `k` names `d` among its dependencies.
  abbrev pub Requires : String → String → Type 0
  Requires k d = (s : PlannedStep) × In s steps × (s.step_key ≡ k) × In d s.depends_on

  -- A chain of at least one requirement.
  pub data Chain (k : String) : String → Type 0 where
    one : (d : String) → Requires k d → Chain k d
    more : {d : String} → Chain k d → (c : String) → Requires d c → Chain k c

-- A well-defined dependency DAG.
pub record IsDag (steps : List PlannedStep) : Type 0 where
  pub keys : Distinct (keys_of steps)
  pub positions : Distinct (map (λ s. s.position) steps)
  pub known : (k d : String) → Requires steps k d → In d (keys_of steps)
  pub acyclic : (k : String) → ¬ Chain steps k k

-- The table and the plan name the same dependencies, where the keys are distinct.
dependencies_of-In :
    (steps : List PlannedStep) (s : PlannedStep)
    → Distinct (keys_of steps)
    → In s steps
    → dependencies_of steps s.step_key ≡ some (set_of s.depends_on)
unfolding dependencies_of
dependencies_of-In [] s d h = elim h [ ]
dependencies_of-In (t ∷ steps) s d (inl same) = rw same (rw (beq_refl t.step_key))
dependencies_of-In (t ∷ steps) s d (inr m) =
    rw
      (beq_ne t.step_key s.step_key
        (λ e. d.0 (subst (λ k. In k (keys_of steps)) (sym e) (In-map (λ x. x.step_key) s steps m))))
      (dependencies_of-In steps s d.1 m)

In-of_dependencies :
    (steps : List PlannedStep) (k : String) (deps : List String)
    → dependencies_of steps k ≡ some deps
    → (s : PlannedStep) × In s steps × (s.step_key ≡ k) × (deps ≡ set_of s.depends_on)
unfolding dependencies_of
In-of_dependencies [] k deps h = cc
In-of_dependencies (t ∷ steps) k deps h = elim (Bool-cases (t.step_key == k)) [
  | inl hit ↦
      let e : set_of t.depends_on ≡ deps = ground (arith, hit) in
      (t, inl refl, (eq_iff t.step_key k).0 hit, sym e)
  | inr miss ↦
      let (s, m, e, f) = In-of_dependencies steps k deps (ground (arith, miss)) in (s, inr m, e, f)
]

In-of_keys :
    (steps : List PlannedStep) (k : String)
    → In k (keys_of steps)
    → (s : PlannedStep) × In s steps × (s.step_key ≡ k)
In-of_keys [] k h = elim h [ ]
In-of_keys (t ∷ steps) k (inl same) = (t, inl refl, sym same)
In-of_keys (t ∷ steps) k (inr m) = let (s, i, e) = In-of_keys steps k m in (s, inr i, e)

module _ (steps : List PlannedStep) where
  Requires-of_DependsOn :
      (k d : String) → DependsOn (dependencies_of steps) k d → Requires steps k d
  Requires-of_DependsOn k d (deps, found, into) =
      let (s, m, e, f) = In-of_dependencies steps k deps found in
      (s, m, e, In-of_set_of d s.depends_on (subst (In d) f into))

  Chain-of_Reaches : (k c : String) → Reaches (dependencies_of steps) k c → Chain steps k c
  Chain-of_Reaches k c (direct d h) = one d (Requires-of_DependsOn k d h)
  Chain-of_Reaches k c (further {d = d} r e h) =
      more (Chain-of_Reaches k d r) e (Requires-of_DependsOn d e h)

  module _ (keys : Distinct (keys_of steps)) where
    DependsOn-of_Requires :
        (k d : String) → Requires steps k d → DependsOn (dependencies_of steps) k d
    DependsOn-of_Requires k d (s, m, e, into) = (
      set_of s.depends_on,
      subst (λ x. dependencies_of steps x ≡ some (set_of s.depends_on)) e
          (dependencies_of-In steps s keys m),
      In-set_of d s.depends_on into,
    )

    Reaches-of_Chain : (k c : String) → Chain steps k c → Reaches (dependencies_of steps) k c
    Reaches-of_Chain k c (one d h) = direct d (DependsOn-of_Requires k d h)
    Reaches-of_Chain k c (more {d = d} r e h) =
        further (Reaches-of_Chain k d r) e (DependsOn-of_Requires d e h)

    keys-IsClosed :
        ((k d : String) → Requires steps k d → In d (keys_of steps))
        → IsClosed (dependencies_of steps) (keys_of steps)
    keys-IsClosed known k here =
        let (s, m, e) = In-of_keys steps k here in
        (
          set_of s.depends_on,
          subst (λ x. dependencies_of steps x ≡ some (set_of s.depends_on)) e
              (dependencies_of-In steps s keys m),
          λ d into. known k d (s, m, e, In-of_set_of d s.depends_on into),
        )

abbrev StepIsKnown : List String → PlannedStep → Type 0
StepIsKnown known s =
    (¬ In s.step_key s.depends_on) × ((d : String) → In d s.depends_on → In d known)

check_dependencies_cases :
    (known : List String) (steps : List PlannedStep)
    → ((check_dependencies known steps ≡ ok tt)
        × ((s : PlannedStep) → In s steps → StepIsKnown known s))
      ⊎ ((e : PlanError) × (check_dependencies known steps ≡ err e)
          × ((e ≡ depends_on_itself) ⊎ (e ≡ unknown_dependencies))
          × ¬ ((s : PlannedStep) → In s steps → StepIsKnown known s))
unfolding check_dependencies
check_dependencies_cases known [] = inl (refl, λ s m. elim m [ ])
check_dependencies_cases known (s ∷ steps) = elim (Bool-cases (contains s.step_key s.depends_on)) [
  | inl itself ↦ rw itself (
      inr (
        depends_on_itself,
        refl,
        inl refl,
        λ f. (f s (inl refl)).0 (In-of_contains s.step_key s.depends_on itself),
      ))
  | inr other ↦ elim (Bool-cases (all (λ d. contains d known) s.depends_on)) [
    | inr missing ↦
        rw (other, missing)
          (inr (
            unknown_dependencies,
            refl,
            inr refl,
            λ f. cc (
              missing,
              (all_iff (λ d. contains d known) s.depends_on).1
                  (λ d m. contains-of_In d known ((f s (inl refl)).1 d m)),
            ),
          ))
    | inl found ↦
        let here : StepIsKnown known s = (
          not-In_of_contains s.step_key s.depends_on other,
          λ d m.
              In-of_contains d known ((all_iff (λ x. contains x known) s.depends_on).0 found d m),
        ) in
        rw (other, found)
          (elim (check_dependencies_cases known steps) [
            | inl (done, each) ↦ inl (
              done,
              λ t. elim [ inl same ↦ subst (StepIsKnown known) (sym same) here | inr m ↦ each t m ],
            )
            | inr (e, raised, kind, bad) ↦ inr (e, raised, kind, λ f. bad (λ t m. f t (inr m)))
          ])
  ]
]

abbrev start : Marks
start = record { visiting = []; visited = [] }

module _ (steps : List PlannedStep) where
  abbrev search : Result PlanError Marks
  search = visit_each (visit (dependencies_of steps) (suc (length steps))) (keys_of steps) start

  search_sound :
      (m : Marks) → search ≡ ok m → Distinct (keys_of steps) → (k : String) → ¬ Chain steps k k
  search_sound m ran keys k chain =
      let (g, all_in) =
        visit_each-Grows (dependencies_of steps)
          (visit (dependencies_of steps) (suc (length steps)))
          (visit-Grows (dependencies_of steps) (suc (length steps))) (keys_of steps) start m
          (record { ordered = tt; apart = λ x b. elim b [ ] }) ran in
      ordered_acyclic (dependencies_of steps) m.visited k g.sound.ordered (all_in k (first chain))
        (Reaches-of_Chain steps keys k k chain)
    where
      first : {c : String} → Chain steps k c → In k (keys_of steps)
      first (one d (s, m, e, into)) =
          subst (λ x. In x (keys_of steps)) e (In-map (λ x. x.step_key) s steps m)
      first (more r c h) = first r

  search_outcome :
      Distinct (keys_of steps)
      → ((k d : String) → Requires steps k d → In d (keys_of steps))
      → Outcome (dependencies_of steps) search []
  search_outcome keys known =
      visit_each_outcome (dependencies_of steps)
        (visit (dependencies_of steps) (suc (length steps))) [] (keys_of steps)
        (λ k m here eq.
          subst
            (Outcome (dependencies_of steps)
              (visit (dependencies_of steps) (suc (length steps)) k m))
            eq
            (visit_outcome (dependencies_of steps) (keys_of steps) (keys-IsClosed steps keys known)
              (suc (length steps)) k m here
              (subst (λ v. Leads (dependencies_of steps) (keys_of steps) v k) (sym eq)
                (record {
                  distinct = tt;
                  known_all = λ x b. elim b [ ];
                  leads = λ x b. elim b [ ];
                }))
              (omega (arith, length-map (λ (s : PlannedStep). s.step_key) steps))))
        start refl

-- The errors that a caller can see.
abbrev pub IsReported : PlanError → Type 0
IsReported recursion_limit = ⊥
IsReported key_error = ⊥
IsReported _ = Unit

reported : (e : PlanError) → (e ≡ depends_on_itself) ⊎ (e ≡ unknown_dependencies) → IsReported e
reported e (inl h) = subst IsReported (sym h) tt
reported e (inr h) = subst IsReported (sym h) tt

not_cycle :
    (e : PlanError) → (e ≡ depends_on_itself) ⊎ (e ≡ unknown_dependencies) → e ≢ cycle_detected
not_cycle e h = ground arith

-- What the validation of a plan comes to, by its result.
abbrev Verdict : List PlannedStep → Result PlanError (Unit {0}) → Type 0
Verdict steps (ok _) = IsDag steps
Verdict steps (err e) =
    IsReported e × (¬ IsDag steps) × (e ≡ cycle_detected → (k : String) × Chain steps k k)

validate-Verdict :
    (steps : List PlannedStep)
    → Distinct (keys_of steps)
    → Distinct (map (λ s. s.position) steps)
    → ((s : PlannedStep) → In s steps → StepIsKnown (keys_of steps) s)
    → Verdict steps (search steps >> ok tt)
validate-Verdict steps keys positions each =
    let known = λ (k d : String) (r : Requires steps k d). (each r.0 r.1).1 d r.3 in
    elim (search_outcome steps keys known) [
      | inl (m, ran, _) ↦ rw ran (record {
        keys = keys;
        positions = positions;
        known = known;
        acyclic = search_sound steps m ran keys;
      })
      | inr (raised, c, cycle) ↦
          let chain = Chain-of_Reaches steps c c cycle in
          rw raised (tt, λ dag. dag.acyclic c chain, λ _. (c, chain))
    ]

verdict : (steps : List PlannedStep) → Verdict steps (validate_mission_steps steps)
unfolding validate_mission_steps
verdict steps = elim (Bool-cases (distinct (keys_of steps))) [
  | inr twice ↦
      rw twice (tt, λ dag. cc (twice, distinct_of_Distinct (keys_of steps) dag.keys), λ e. cc)
  | inl keys ↦ elim (Bool-cases (distinct (map (λ (s : PlannedStep). s.position) steps))) [
    | inr twice ↦
        rw (keys, twice) (tt, λ dag. cc (twice, distinct_of_Distinct _ dag.positions), λ e. cc)
    | inl positions ↦ elim (check_dependencies_cases (keys_of steps) steps) [
      | inl (done, each) ↦
          rw (keys, positions, done)
            (validate-Verdict steps (Distinct_of_distinct _ keys) (Distinct_of_distinct _ positions)
              each)
      | inr (e, raised, kind, bad) ↦
          rw (keys, positions, raised)
            (
              reported e kind,
              λ dag. bad (λ s m. (
                λ into. dag.acyclic s.step_key (one s.step_key (s, m, refl, into)),
                λ d into. dag.known s.step_key d (s, m, refl, into),
              )),
              λ is. absurd (not_cycle e kind is),
            )
    ]
  ]
]

-- `validate_mission_steps` accepts a plan exactly when its step keys are distinct, its positions are
-- distinct, every dependency is the key of a step, and no step leads to itself by a chain of
-- dependencies.
pub validate-ok_iff :
    (steps : List PlannedStep) → (validate_mission_steps steps ≡ ok tt) ↔ IsDag steps
validate-ok_iff steps = (
  λ h. subst (Verdict steps) h (verdict steps),
  accepted (validate_mission_steps steps) (verdict steps),
)
  where
    accepted : (r : Result PlanError (Unit {0})) → Verdict steps r → IsDag steps → r ≡ ok tt
    accepted (ok u) v dag = refl
    accepted (err e) v dag = absurd (v.1 dag)

-- The search ends within its fuel and never reads a key that the table lacks, whatever the plan; and
-- when a cycle is reported, there is one.
pub validate_errors :
    (steps : List PlannedStep) (e : PlanError)
    → validate_mission_steps steps ≡ err e
    → IsReported e × (e ≡ cycle_detected → (k : String) × Chain steps k k)
validate_errors steps e h = let v = subst (Verdict steps) h (verdict steps) in (v.0, v.2)
