-- ===== src/Kernel/Completion/Verdict.antt =====
-- When a Mission ends, and as what (kernel/completion.py and completion_engine.py).
use the_creation_os.Prelude.{
  ◌≡◌, ◌↔◌, ◌⊎◌, inl, inr, refl, ap, Bool, true, false, Option, some, List, [], ◌∷◌, ok, any, all,
  all_iff, In, arith, Bool-cases, string_eq,
}
use the_creation_os.Domain.{MissionStatus, mission_status_eq, manifested}
use the_creation_os.Kernel.Tasks.{TaskStatus, failed, blocked, succeeded}
use the_creation_os.Kernel.Orchestrator.{is_running, is_succeeded}
use the_creation_os.Kernel.Completion.{completion_target, target_by, ends_mission}

-- A Task that cannot succeed any more.
abbrev pub IsDead : TaskStatus → Type 0
IsDead s = (s ≡ failed) ⊎ (s ≡ blocked)

IsDead-iff : (s : TaskStatus) → (ends_mission s ≡ true) ↔ IsDead s
IsDead-iff failed = ground arith
IsDead-iff _ = ground arith

succeeded_iff : (s : TaskStatus) → (is_succeeded s ≡ true) ↔ (s ≡ succeeded)
succeeded_iff succeeded = ground arith
succeeded_iff _ = ground arith

any-found :
    (test : TaskStatus → Bool) (ss : List TaskStatus)
    → any test ss ≡ true
    → (s : TaskStatus) × In s ss × (test s ≡ true)
any-found test [] h = cc
any-found test (s ∷ ss) h = elim (Bool-cases (test s)) [
  | inl hit ↦ (s, inl refl, hit)
  | inr miss ↦ let (t, m, e) = any-found test ss (ground (arith, miss)) in (t, inr m, e)
]

any-of_In :
    (test : TaskStatus → Bool) (s : TaskStatus) (ss : List TaskStatus)
    → In s ss
    → test s ≡ true
    → any test ss ≡ true
any-of_In test s [] m h = absurd m
any-of_In test s (t ∷ ts) (inl e) h = ground (arith, ap test e, h)
any-of_In test s (t ∷ ts) (inr m) h = ground (arith, any-of_In test s ts m h)

-- The verdict on the statuses of a Mission's Tasks: failed with a dead one, manifested when all
-- succeeded, and no end otherwise.
abbrev pub Verdict : List TaskStatus → Option MissionStatus → Type 0
Verdict ss target =
    ((target ≡ some MissionStatus.failed) ↔ ((s : TaskStatus) × In s ss × IsDead s))
    × ((target ≡ some manifested) ↔ ((s : TaskStatus) → In s ss → s ≡ succeeded))

target_by-failed :
    (dead done busy : Bool) → (target_by dead done busy ≡ some MissionStatus.failed) ↔ (dead ≡ true)
target_by-failed dead done busy = ground arith

target_by-manifested :
    (dead done busy : Bool)
    → (target_by dead done busy ≡ some manifested) ↔ ((dead ≡ false) × (done ≡ true))
target_by-manifested dead done busy = ground arith

not_dead :
    (ss : List TaskStatus)
    → ((s : TaskStatus) → In s ss → s ≡ succeeded)
    → any ends_mission ss ≡ false
not_dead ss h = elim (Bool-cases (any ends_mission ss)) [
  | inl dead ↦ let (s, m, e) = any-found ends_mission ss dead in cc (e, h s m)
  | inr alive ↦ alive
]

-- The verdict on a Mission that has Tasks is failure exactly when a Task has failed or is blocked, and
-- success exactly when all Tasks have succeeded.
pub completion_target-Verdict :
    (s : TaskStatus) (ss : List TaskStatus)
    → (target : Option MissionStatus) × (completion_target (s ∷ ss) ≡ ok target)
      × Verdict (s ∷ ss) target
unfolding completion_target
completion_target-Verdict s ss =
    let dead = any ends_mission (s ∷ ss) in
    let done = all is_succeeded (s ∷ ss) in
    let busy = any is_running (s ∷ ss) in
    (
      target_by dead done busy,
      refl,
      (
        (
          λ h.
              let (t, m, e) =
                any-found ends_mission (s ∷ ss) ((target_by-failed dead done busy).0 h) in
              (t, m, (IsDead-iff t).0 e),
          λ (t, m, e).
              (target_by-failed dead done busy).1
                (any-of_In ends_mission t (s ∷ ss) m ((IsDead-iff t).1 e)),
        ),
        (
          λ h t m.
              (succeeded_iff t).0 (
                (all_iff is_succeeded (s ∷ ss)).0 ((target_by-manifested dead done busy).0 h).1 t
                  m),
          λ h. (target_by-manifested dead done busy).1 (
            not_dead (s ∷ ss) h,
            (all_iff is_succeeded (s ∷ ss)).1 (λ t m. (succeeded_iff t).1 (h t m)),
          ),
        ),
      ),
    )
