-- ===== src/Economy/Floor.antt =====
-- backend/app/services/economy.py, `reserve_for_capability`: what a reservation leaves untouched.
use the_creation_os.Prelude.{
  ℕ, ◌≡◌, inl, inr, refl, sym, subst, ◌+◌, ◌*◌, ◌≤◌, Bool, true, false, ltb, leb→le, ok, guard,
  ◌>>=◌, ◌>>◌, >>=-eq-ok, arith,
}
use native.Mathlib.Nat.{mul-le-mul_right}
use the_creation_os.Economy.Ledger.{
  Metadata, reserve, Entry, Totals, add_entry, EconomicStatus, active, economic_suspended,
  reconciliation_required, Settings, economic_status,
}
use the_creation_os.Economy.Entries.{
  mode_not_enabled, amount_not_positive, above_action_risk, above_exposure, above_operational,
  structural_floor, insufficient, Economy,
}
use the_creation_os.Economy.Capital.{
  Request, entry_of, append_for, totals_for, exposure, within_ratio, keeps_floor, is_available,
  check_economic_status, check_limits, check_projection, with_real_mode, reserve_for_capability,
}
use the_creation_os.Economy.Projection.{append_for-totals}

-- The limits on the totals, multiplied out: a ratio of the net asset value bounds what is exposed, the
-- structural reserve stays available, and what is exposed is there.
pub record IsWithinLimits (s : Settings) (t : Totals) : Type 0 where
  pub exposed : exposure t * s.unit + t.debit * s.max_exposure ≤ t.credit * s.max_exposure
  pub operational : exposure t * s.unit + t.debit * s.max_operational ≤ t.credit * s.max_operational
  pub floor :
      (t.debit + exposure t) * s.unit + t.credit * s.structural_reserve
      ≤ t.credit * s.unit + t.debit * s.structural_reserve
  pub covered : t.debit + exposure t ≤ t.credit

taken : (b : Bool) {E : Type 0} (e : E) (u : Unit {0}) → guard b e ≡ ok u → b ≡ true
taken false e u h = cc
taken true e u h = refl

pub record Allowed (s : Settings) (n : ℕ) (t : Totals) : Type 0 where
  exposed : (exposure t + n) * s.unit + t.debit * s.max_exposure ≤ t.credit * s.max_exposure
  operational :
      (exposure t + n) * s.unit + t.debit * s.max_operational ≤ t.credit * s.max_operational
  floor :
      (t.debit + exposure t + n) * s.unit + t.credit * s.structural_reserve
      ≤ t.credit * s.unit + t.debit * s.structural_reserve
  covered : t.debit + exposure t + n ≤ t.credit

check_limits-Allowed :
    (s : Settings) (n : ℕ) (t : Totals) (u : Unit {0}) → check_limits s n t ≡ ok u → Allowed s n t
unfolding check_limits
check_limits-Allowed s n t u h =
    let ex = within_ratio s (exposure t + n) s.max_exposure t in
    let op = within_ratio s (exposure t + n) s.max_operational t in
    let fl = keeps_floor s n t in
    let av = is_available n t in
    let after_op = λ (v : Unit {0}). guard fl structural_floor >> guard av insufficient in
    let after_ex = λ (v : Unit {0}). guard op above_operational >>= after_op in
    let (u1, action, rest1) =
      >>=-eq-ok (guard (within_ratio s n s.max_risk_per_action t) above_action_risk)
        (λ _. guard ex above_exposure >>= after_ex) h in
    let (u2, exposed, rest2) = >>=-eq-ok (guard ex above_exposure) after_ex rest1 in
    let (u3, operational, rest3) = >>=-eq-ok (guard op above_operational) after_op rest2 in
    let (u4, floor, covered) =
      >>=-eq-ok (guard fl structural_floor) (λ _. guard av insufficient) rest3 in
    record {
      exposed = leb→le _ _ (taken ex above_exposure u2 exposed);
      operational = leb→le _ _ (taken op above_operational u3 operational);
      floor = leb→le _ _ (taken fl structural_floor u4 floor);
      covered = leb→le _ _ (taken av insufficient u covered);
    }

-- The limits hold with nothing more exposed too.
Allowed-IsWithinLimits : (s : Settings) (n : ℕ) (t : Totals) → Allowed s n t → IsWithinLimits s t
Allowed-IsWithinLimits s n t a = record {
  exposed = omega (arith, a.exposed);
  operational = omega (arith, a.operational);
  floor = omega (arith, a.floor);
  covered = omega (arith, a.covered);
}

-- The amounts that the limits read.
same_limits :
    (s : Settings) (n : ℕ) (t t' : Totals)
    → Allowed s n t
    → t'.credit ≡ t.credit
    → t'.debit ≡ t.debit
    → exposure t' ≤ exposure t + n
    → IsWithinLimits s t'
same_limits s n t t' a c d e =
    let product = mul-le-mul_right s.unit e in
    record {
      exposed = rw (c, d) (omega (arith, a.exposed, product));
      operational = rw (c, d) (omega (arith, a.operational, product));
      floor = rw (c, d) (omega (arith, a.floor, product));
      covered = rw (c, d) (omega (arith, a.covered, e));
    }

-- A reservation adds its amount to what is reserved; one that is simulated adds nothing.
add_reserve :
    (r : Request) (m : Metadata) (t : Totals)
    → let t' = add_entry r.day t (entry_of r reserve "RESERVED" m) in
      (t'.credit ≡ t.credit) × (t'.debit ≡ t.debit) × (exposure t' ≤ exposure t + r.amount)
unfolding add_entry
add_reserve r m t = ground arith

active_of :
    (status : EconomicStatus) (u : Unit {0}) → check_economic_status status ≡ ok u → status ≡ active
active_of active u h = refl
active_of economic_suspended u h = cc
active_of reconciliation_required u h = cc

pub active_and_Allowed :
    (s : Settings) (t : Totals) (n : ℕ) (u : Unit {0})
    → check_projection s n t ≡ ok u
    → (economic_status s t ≡ active) × Allowed s n t
active_and_Allowed s t n u h =
    let (v, plain, within) =
      >>=-eq-ok (check_economic_status (economic_status s t)) (λ _. check_limits s n t) h in
    (active_of (economic_status s t) v plain, check_limits-Allowed s n t u within)

-- A reservation that is accepted finds the Universe active and leaves every limit kept: of the net
-- asset value, what is exposed is at most the exposure ratio and at most the operational ratio, the
-- structural reserve stays available, and nothing is exposed that is not there.
pub reserve-IsWithinLimits :
    (s : Settings) (r : Request) (m : Metadata) (x x' : Economy) (e : Entry)
    → reserve_for_capability s r m x ≡ ok (e, x')
    → (economic_status s (totals_for r x) ≡ active) × IsWithinLimits s (totals_for r x')
unfolding reserve_for_capability
reserve-IsWithinLimits s r m x x' e h =
    let t = totals_for r x in
    let append = append_for s r reserve "RESERVED" (with_real_mode m) x in
    let after_check = λ (v : Unit {0}). check_projection s r.amount t >> append in
    let (u1, enabled, rest1) =
      >>=-eq-ok (guard s.real_economic_mode_enabled mode_not_enabled)
        (λ _. guard (ltb 0 r.amount) amount_not_positive >>= after_check) h in
    let (u2, positive, rest2) =
      >>=-eq-ok (guard (ltb 0 r.amount) amount_not_positive) after_check rest1 in
    let (u3, checked, written) = >>=-eq-ok (check_projection s r.amount t) (λ _. append) rest2 in
    let (plain, allowed) = active_and_Allowed s t r.amount u3 checked in
    (
      plain,
      elim (append_for-totals s r reserve "RESERVED" (with_real_mode m) e x x' refl written) [
        | inl same ↦
            subst (λ y. IsWithinLimits s (totals_for r y)) same
              (Allowed-IsWithinLimits s r.amount t allowed)
        | inr grown ↦ subst (IsWithinLimits s) (sym grown) (
            let (c, d, n) = add_reserve r (with_real_mode m) t in
            same_limits s r.amount t _ allowed c d n)
      ],
    )
