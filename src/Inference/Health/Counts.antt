-- ===== src/Inference/Health/Counts.antt =====
-- The circuit breaker of inference/health.py: how many failures in a row close a provider out.
use the_creation_os.Prelude.{
  ℕ, ◌+◌, ◌≤◌, ◌<◌, String, ◌≡◌, refl, true, false, List, [], ◌∷◌, ok, arith, lookup, string_eq,
  eq_iff, if◌then◌else◌, sym, subst, Bool, Bool-cases, inl, inr, ◌==◌, ltb,
}
use the_creation_os.Inference.Health.{
  CircuitState, closed, opened, half_open, CircuitRecord, new_record, CircuitBreaker, new_breaker,
  record_of, put_record, state, attempt_on, can_attempt, record_success, failure_on,
  record_transient_failure,
}
use the_creation_os.Inference.Health.Breaker.{
  record_of-put, Call, attempt, success, transient_failure, run,
}

-- The failures of `p` that have been recorded since its last success, `n` of them before the calls.
abbrev pub failures_in_a_row : String → ℕ → List Call → ℕ
failures_in_a_row p n [] = n
failures_in_a_row p n (transient_failure q now ∷ cs) =
    failures_in_a_row p (if q == p then n + 1 else n) cs
failures_in_a_row p n (attempt q now ∷ cs) = failures_in_a_row p n cs
failures_in_a_row p n (success q ∷ cs) = failures_in_a_row p (if q == p then 0 else n) cs

abbrev pub is_closed : CircuitState → Bool
is_closed closed = true
is_closed opened = false
is_closed half_open = false

-- What a record says after `n` failures in a row: below the threshold it is closed and counts them,
-- and from the threshold on it is not closed.
abbrev Counts : ℕ → CircuitRecord → ℕ → Type 0
Counts threshold r n =
    (is_closed r.state ≡ ltb n threshold)
    × ((n < threshold → r.failures ≡ n) × (threshold ≤ n → threshold ≤ r.failures))

failure-Counts :
    (threshold now n : ℕ) (s : CircuitState) (r : CircuitRecord)
    → r.state ≡ s
    → 1 ≤ threshold
    → Counts threshold r n
    → Counts threshold (failure_on threshold s r now) (n + 1)
failure-Counts threshold now n closed r e positive k = ground arith
failure-Counts threshold now n opened r e positive k = ground arith
failure-Counts threshold now n half_open r e positive k = ground arith

attempt-Counts :
    (threshold cooldown now n : ℕ) (s : CircuitState) (r : CircuitRecord)
    → r.state ≡ s
    → Counts threshold r n
    → Counts threshold (attempt_on cooldown s r now).0 n
attempt-Counts threshold cooldown now n closed r e k = k
attempt-Counts threshold cooldown now n half_open r e k = k
attempt-Counts threshold cooldown now n opened r e k = ground arith

new_record-Counts : (threshold : ℕ) → 1 ≤ threshold → Counts threshold new_record 0
new_record-Counts threshold positive = ground arith

put-Counts :
    (b : CircuitBreaker) (q p : String) (r : CircuitRecord) (n m : ℕ)
    → Counts b.failure_threshold (record_of b p) n
    → (q ≡ p → Counts b.failure_threshold r m)
    → Counts b.failure_threshold (record_of (put_record b q r) p) (if q == p then m else n)
put-Counts b q p r n m k f = elim (Bool-cases (q == p)) [
  | inl hit ↦ rw (record_of-put b q p r, hit) (f ((eq_iff q p).0 hit))
  | inr miss ↦ rw (record_of-put b q p r, miss) k
]

if_same : (test : Bool) (n : ℕ) → (if test then n else n) ≡ n
if_same true n = refl
if_same false n = refl

counts :
    (b : CircuitBreaker) (p : String) (n : ℕ) (cs : List Call)
    → 1 ≤ b.failure_threshold
    → Counts b.failure_threshold (record_of b p) n
    → is_closed (state (run b cs) p) ≡ ltb (failures_in_a_row p n cs) b.failure_threshold
unfolding state can_attempt record_success record_transient_failure
counts b p n [] positive k = k.0
counts b p n (transient_failure q now ∷ cs) positive k =
    counts (record_transient_failure b q now) p (if q == p then n + 1 else n) cs positive (
      put-Counts b q p _ n (n + 1) k (λ same.
        failure-Counts b.failure_threshold now n (record_of b q).state (record_of b q) refl positive
          (subst (λ x. Counts b.failure_threshold (record_of b x) n) (sym same) k)))
counts b p n (success q ∷ cs) positive k =
    counts (record_success b q) p (if q == p then 0 else n) cs positive
      (put-Counts b q p new_record n 0 k (λ same. new_record-Counts b.failure_threshold positive))
counts b p n (attempt q now ∷ cs) positive k = counts (can_attempt b q now).0 p n cs positive (
    subst (Counts b.failure_threshold (record_of (can_attempt b q now).0 p)) (if_same (q == p) n) (
      put-Counts b q p _ n n k (λ same.
        attempt-Counts b.failure_threshold b.cooldown_seconds now n (record_of b q).state
          (record_of b q) refl
          (subst (λ x. Counts b.failure_threshold (record_of b x) n) (sym same) k))))

-- From its construction on, whatever is called of any providers, a provider's circuit is closed
-- exactly while fewer than `failure_threshold` failures of it have been recorded since its last
-- success.
pub opens_by_count :
    (threshold cooldown : ℕ) (b : CircuitBreaker) (p : String) (calls : List Call)
    → new_breaker threshold cooldown ≡ ok b
    → is_closed (state (run b calls) p) ≡ ltb (failures_in_a_row p 0 calls) threshold
unfolding new_breaker record_of lookup
opens_by_count threshold cooldown b p calls h =
    let same : b.failure_threshold ≡ threshold = ground arith in
    let first : record_of b p ≡ new_record = ground arith in
    let positive : 1 ≤ b.failure_threshold = ground arith in
    subst (λ t. is_closed (state (run b calls) p) ≡ ltb (failures_in_a_row p 0 calls) t) same
      (counts b p 0 calls positive (
        subst (λ r. Counts b.failure_threshold r 0) (sym first)
          (new_record-Counts b.failure_threshold positive)))
