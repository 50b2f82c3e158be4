-- ===== src/Inference/Health/Probe.antt =====
-- The circuit breaker of inference/health.py: which calls of a provider an open circuit lets through.
use the_creation_os.Prelude.{
  ℕ, ◌+◌, String, ◌≡◌, ◌≢◌, refl, true, false, List, [], ◌∷◌, some, arith, string_eq, eq_iff, leb,
  if◌then◌else◌, ap, sym, ◌∙◌, subst, Bool, Bool-cases, inl, inr, ◌==◌,
}
use the_creation_os.Inference.Health.{
  opened, half_open, CircuitRecord, CircuitBreaker, record_of, put_record, state, attempt_on,
  can_attempt, record_success, record_transient_failure,
}
use the_creation_os.Inference.Health.Breaker.{
  record_of-put, record_of-put_self, record_of-put_ne, Call, attempt, success, transient_failure,
}

-- No outcome of a call of `p` is recorded; other providers may do anything.
abbrev pub IsUndecided : String → List Call → Type 0
IsUndecided p [] = Unit
IsUndecided p (transient_failure q now ∷ cs) = (q ≢ p) × IsUndecided p cs
IsUndecided p (attempt q now ∷ cs) = IsUndecided p cs
IsUndecided p (success q ∷ cs) = (q ≢ p) × IsUndecided p cs

-- The times at which `p` is asked for, and those of them at which it is let through.
abbrev pub asked : String → List Call → List ℕ
asked p [] = []
asked p (attempt q now ∷ cs) = if q == p then now ∷ asked p cs else asked p cs
asked p (transient_failure q now ∷ cs) = asked p cs
asked p (success q ∷ cs) = asked p cs

abbrev when : Bool → ℕ → List ℕ → List ℕ
when allowed now times = if allowed then now ∷ times else times

abbrev pub let_through : String → CircuitBreaker → List Call → List ℕ
let_through p b [] = []
let_through p b (attempt q now ∷ cs) =
    let rest = let_through p (can_attempt b q now).0 cs in
    if q == p then when (can_attempt b q now).1 now rest else rest
let_through p b (transient_failure q now ∷ cs) = let_through p (record_transient_failure b q now) cs
let_through p b (success q ∷ cs) = let_through p (record_success b q) cs

-- The first of the times that is not before `due`, and no other.
abbrev pub first_from : ℕ → List ℕ → List ℕ
first_from due [] = []
first_from due (now ∷ times) = if leb due now then now ∷ [] else first_from due times

pub half_open_refuses :
    (b : CircuitBreaker) (p : String) (now : ℕ)
    → state b p ≡ half_open
    → (can_attempt b p now).1 ≡ false
unfolding state can_attempt
half_open_refuses b p now s = ground arith

probe_any :
    (cooldown now : ℕ) (r : CircuitRecord)
    → r.state ≡ opened
    → (attempt_on cooldown r.state r now).1 ≡ true
    → (attempt_on cooldown r.state r now).0.state ≡ half_open
probe_any cooldown now r s h = ground arith

pub probe_half_opens :
    (b : CircuitBreaker) (p : String) (now : ℕ)
    → state b p ≡ opened
    → (can_attempt b p now).1 ≡ true
    → state (can_attempt b p now).0 p ≡ half_open
unfolding state can_attempt
probe_half_opens b p now s h =
    ap (λ (r : CircuitRecord). r.state) (record_of-put_self b p _)
    ∙ probe_any b.cooldown_seconds now (record_of b p) s h

pub put_stays :
    (p : String) (b : CircuitBreaker) (q : String) (r : CircuitRecord)
    → q ≢ p
    → state b p ≡ half_open
    → state (put_record b q r) p ≡ half_open
unfolding state
put_stays p b q r h s = ap (λ (x : CircuitRecord). x.state) (record_of-put_ne b q p r h) ∙ s

pub attempt_stays :
    (p : String) (b : CircuitBreaker) (q : String) (now : ℕ)
    → state b p ≡ half_open
    → state (can_attempt b q now).0 p ≡ half_open
unfolding state can_attempt
attempt_stays p b q now s = ap (λ (x : CircuitRecord). x.state) (record_of-put b q p _) ∙ after
  where
    waits :
        (r : CircuitRecord)
        → r.state ≡ half_open
        → (attempt_on b.cooldown_seconds r.state r now).0.state ≡ half_open
    waits r h = ground arith

    after :
        (if q == p
          then (attempt_on b.cooldown_seconds (record_of b q).state (record_of b q) now).0
          else record_of b p).state
        ≡ half_open
    after = elim (Bool-cases (q == p)) [
      | inl hit ↦ rw hit (
          waits (record_of b q)
            (subst (λ x. (record_of b x).state ≡ half_open) (sym ((eq_iff q p).0 hit)) s))
      | inr miss ↦ rw miss s
    ]

-- While the circuit is half open nothing is let through.
waits :
    (p : String) (b : CircuitBreaker) (cs : List Call)
    → state b p ≡ half_open
    → IsUndecided p cs
    → let_through p b cs ≡ []
unfolding record_success record_transient_failure
waits p b [] s u = refl
waits p b (transient_failure q now ∷ cs) s u =
    waits p (record_transient_failure b q now) cs (put_stays p b q _ u.0 s) u.1
waits p b (success q ∷ cs) s u = waits p (record_success b q) cs (put_stays p b q _ u.0 s) u.1
waits p b (attempt q now ∷ cs) s u =
    let rest : let_through p (can_attempt b q now).0 cs ≡ [] =
      waits p (can_attempt b q now).0 cs (attempt_stays p b q now s) u in
    elim (Bool-cases (q == p)) [
      | inl hit ↦
          rw
            (
              hit,
              half_open_refuses b q now
                  (subst (λ x. state b x ≡ half_open) (sym ((eq_iff q p).0 hit)) s),
            )
            rest
      | inr miss ↦ rw miss rest
    ]

-- The record of an open circuit after an attempt that is refused is the record before it.
refused_same :
    (cooldown now t : ℕ) (r : CircuitRecord)
    → r.state ≡ opened
    → r.opened_at ≡ some t
    → leb (t + cooldown) now ≡ false
    → attempt_on cooldown r.state r now ≡ (r, false)
refused_same cooldown now t r s o early = ground arith

due_probes :
    (cooldown now t : ℕ) (r : CircuitRecord)
    → r.state ≡ opened
    → r.opened_at ≡ some t
    → leb (t + cooldown) now ≡ true
    → attempt_on cooldown r.state r now ≡ (record r { state = half_open }, true)
due_probes cooldown now t r s o due = ground arith

attempt_early :
    (b : CircuitBreaker) (q : String) (now t : ℕ)
    → state b q ≡ opened
    → (record_of b q).opened_at ≡ some t
    → leb (t + b.cooldown_seconds) now ≡ false
    → ((can_attempt b q now).1 ≡ false) × (record_of (can_attempt b q now).0 q ≡ record_of b q)
unfolding state can_attempt
attempt_early b q now t s o early =
    let same = refused_same b.cooldown_seconds now t (record_of b q) s o early in
    (ap (λ z. z.1) same, record_of-put_self b q _ ∙ ap (λ z. z.0) same)

attempt_due :
    (b : CircuitBreaker) (q : String) (now t : ℕ)
    → state b q ≡ opened
    → (record_of b q).opened_at ≡ some t
    → leb (t + b.cooldown_seconds) now ≡ true
    → ((can_attempt b q now).1 ≡ true) × (state (can_attempt b q now).0 q ≡ half_open)
unfolding state can_attempt
attempt_due b q now t s o due =
    let turns = due_probes b.cooldown_seconds now t (record_of b q) s o due in
    (
      ap (λ z. z.1) turns,
      ap (λ (r : CircuitRecord). r.state) (record_of-put_self b q _) ∙ ap (λ z. z.0.state) turns,
    )

-- However often an open circuit is asked for, and whatever happens to other providers meanwhile, until
-- an outcome of the provider is recorded one call of it at most is let through: the first that comes
-- when the cooldown has passed since the circuit opened.
pub single_probe :
    (b : CircuitBreaker) (p : String) (t : ℕ) (calls : List Call)
    → state b p ≡ opened
    → (record_of b p).opened_at ≡ some t
    → IsUndecided p calls
    → let_through p b calls ≡ first_from (t + b.cooldown_seconds) (asked p calls)
unfolding state can_attempt record_success record_transient_failure
single_probe b p t [] s o u = refl
single_probe b p t (transient_failure q now ∷ cs) s o u =
    let same = record_of-put_ne b q p _ u.0 in
    single_probe (record_transient_failure b q now) p t cs
      (ap (λ (r : CircuitRecord). r.state) same ∙ s)
      (ap (λ (r : CircuitRecord). r.opened_at) same ∙ o) u.1
single_probe b p t (success q ∷ cs) s o u =
    let same = record_of-put_ne b q p _ u.0 in
    single_probe (record_success b q) p t cs (ap (λ (r : CircuitRecord). r.state) same ∙ s)
      (ap (λ (r : CircuitRecord). r.opened_at) same ∙ o) u.1
single_probe b p t (attempt q now ∷ cs) s o u = elim (Bool-cases (q == p)) [
  | inr miss ↦ rw miss (
      let same = record_of-put_ne b q p _ (λ h. cc (miss, (eq_iff q p).1 h)) in
      single_probe (can_attempt b q now).0 p t cs (ap (λ (r : CircuitRecord). r.state) same ∙ s)
        (ap (λ (r : CircuitRecord). r.opened_at) same ∙ o) u)
  | inl hit ↦
      let q_is_p : q ≡ p = (eq_iff q p).0 hit in
      rw (hit, q_is_p)
        (elim (Bool-cases (leb (t + b.cooldown_seconds) now)) [
          | inl due ↦
              let (allowed, turns) = attempt_due b p now t s o due in
              rw (due, allowed, waits p (can_attempt b p now).0 cs turns u) refl
          | inr early ↦
              let (refused, same) = attempt_early b p now t s o early in
              rw (early, refused)
                (single_probe (can_attempt b p now).0 p t cs
                  (ap (λ (r : CircuitRecord). r.state) same ∙ s)
                  (ap (λ (r : CircuitRecord). r.opened_at) same ∙ o) u)
        ])
]
