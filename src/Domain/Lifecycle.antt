-- ===== src/Domain/Lifecycle.antt =====
-- Histories of accepted transitions (core/domain.py).
use the_creation_os.Prelude.{
  sym, subst, ℕ, suc, ◌+◌, ◌≤◌, ◌<◌, ◌≡◌, ◌≢◌, refl, ◌↔◌, ◌⊎◌, inl, inr, ok, arith,
}
use the_creation_os.Domain.{
  Aggregate, inception, mission, Status, MissionStatus, drafted, planned, validated, authorized,
  distributed, executing, manifested, failed, InceptionStatus, proposed, awaiting_creator_decision,
  approved, rejected, transition, require_malkuth_authorized,
}

-- How far a Mission is on its way; a Mission that has ended is past every stage.
abbrev pub stage : MissionStatus → ℕ
stage drafted = 0
stage planned = 1
stage validated = 2
stage authorized = 3
stage distributed = 4
stage executing = 5
stage _ = 6

-- The life of a Mission in words: one stage at a time, an end by success or failure only out of
-- execution, and cancellation at any moment before the end.
abbrev pub Advances : MissionStatus → MissionStatus → Type 0
Advances s manifested = s ≡ executing
Advances s failed = s ≡ executing
Advances s MissionStatus.cancelled = stage s ≤ 5
Advances s t = stage t ≡ stage s + 1

-- A Mission's transition is accepted exactly when it advances the Mission by one stage, ends it out
-- of execution, or cancels it before its end.
pub transition-mission_iff : (s t : MissionStatus) → (transition mission s t ≡ ok t) ↔ Advances s t
unfolding transition
transition-mission_iff drafted t = ground arith
transition-mission_iff _ t = ground arith

-- Accepted transitions, one after another.
pub data Run (a : Aggregate) (s : Status a) : Status a → Type 0 where
  here : Run a s s
  next : {t : Status a} → Run a s t → (u : Status a) → transition a t u ≡ ok u → Run a s u

abbrev pub steps : {a : Aggregate} {s t : Status a} → Run a s t → ℕ
steps here = 0
steps (next r u e) = suc (steps r)

-- The status `v` is among those that the run goes through, its two ends included.
abbrev pub Visits : {a : Aggregate} {s t : Status a} → Status a → Run a s t → Type 0
Visits {s = s} v here = v ≡ s
Visits v (next r u e) = (v ≡ u) ⊎ Visits v r

stage_grows : (s t : MissionStatus) → transition mission s t ≡ ok t → stage s < stage t
unfolding transition
stage_grows drafted t = ground arith
stage_grows _ t = ground arith

-- Each accepted transition brings a Mission nearer to its end, so no history of a Mission has more
-- than six transitions, wherever it starts.
pub mission_steps_bound :
    {s t : MissionStatus} (r : Run mission s t) → (stage s + steps r ≤ stage t) × (steps r ≤ 6)
mission_steps_bound {s} {t} r = (grows r, omega (arith, grows r, stage-le t))
  where
    stage-le : (t : MissionStatus) → stage t ≤ 6
    stage-le drafted = omega arith
    stage-le _ = omega arith

    grows : {s t : MissionStatus} (r : Run mission s t) → stage s + steps r ≤ stage t
    grows here = omega arith
    grows (next {t = m} r u e) = omega (arith, grows r, stage_grows m u e)

stage_inj : (s t : MissionStatus) → stage s ≡ stage t → stage s ≤ 5 → s ≡ t
stage_inj drafted t e h = ground arith
stage_inj _ t e h = ground arith

came_from :
    (v t u : MissionStatus)
    → Advances t u
    → u ≢ MissionStatus.cancelled
    → stage v ≤ stage u
    → stage v ≤ 5
    → (v ≡ u) ⊎ ((t ≢ MissionStatus.cancelled) × (stage v ≤ stage t))
came_from v t drafted e n le b = ground (arith, stage_inj v drafted)
came_from v t _ e n le b = ground (arith, stage_inj v _)

-- A Mission that has not been cancelled has been through every stage before the one that it stands
-- at; so none is distributed, executed, manifested or failed without having been authorized.
pub has_been_through :
    {t : MissionStatus} (r : Run mission drafted t) (v : MissionStatus)
    → t ≢ MissionStatus.cancelled
    → stage v ≤ stage t
    → stage v ≤ 5
    → Visits v r
has_been_through here v n le b = stage_inj v drafted (omega arith) b
has_been_through (next {t = m} r u e) v n le b =
    elim (came_from v m u ((transition-mission_iff m u).0 e) n le b) [
      | inl same ↦ inl same
      | inr (m_n, m_le) ↦ inr (has_been_through r v m_n m_le b)
    ]

-- The guard on manifestation passes only for a Mission whose history of accepted transitions holds
-- the authorized stage, and at no status that a Mission ends in.
pub malkuth_authorized :
    {t : MissionStatus} (r : Run mission drafted t)
    → require_malkuth_authorized t ≡ ok tt
    → Visits authorized r × (stage t ≤ 5)
unfolding require_malkuth_authorized
malkuth_authorized {t} r h =
    (has_been_through r authorized (ground arith) (ground arith) (omega arith), ground arith)

-- An Inception that was decided, or cancelled after approval, waited for the Creator's decision.
abbrev pub Decided : InceptionStatus → Type 0
Decided s = (s ≡ approved) ⊎ (s ≡ rejected)

leaves_waiting :
    (t u : InceptionStatus)
    → transition inception t u ≡ ok u
    → Decided u
    → t ≡ awaiting_creator_decision
unfolding transition
leaves_waiting proposed u e d = ground arith
leaves_waiting _ u e d = ground arith

waits : {s t : InceptionStatus} (r : Run inception s t) → Visits t r
waits here = refl
waits (next r u e) = inl refl

final : (t u : InceptionStatus) → transition inception t u ≡ ok u → t ≢ rejected
unfolding transition
final proposed u e = ground arith
final _ u e = ground arith

has_waited :
    {t : InceptionStatus} (r : Run inception proposed t)
    → Decided t
    → Visits awaiting_creator_decision r
has_waited here d = ground arith
has_waited (next {t = m} r u e) d = inr (subst (λ x. Visits x r) (leaves_waiting m u e d) (waits r))

rejected_stays :
    {t : InceptionStatus} (r : Run inception proposed t) → Visits rejected r → t ≡ rejected
rejected_stays here v = sym v
rejected_stays (next {t = m} r u e) (inl v) = sym v
rejected_stays (next {t = m} r u e) (inr v) = absurd (final m u e (rejected_stays r v))

-- An approved or rejected Inception has waited for the Creator's decision, and an Inception whose
-- history holds a rejection stands at it: the rejection is final.
pub inception_decision :
    {t : InceptionStatus} (r : Run inception proposed t)
    → (Decided t → Visits awaiting_creator_decision r) × (Visits rejected r → t ≡ rejected)
inception_decision r = (has_waited r, rejected_stays r)
