-- ===== src/Inference/Health/Breaker.antt =====
-- The circuit breaker of inference/health.py: its calls, and its invariant.
use the_creation_os.Prelude.{
  ℕ, ◌≤◌, ◌<◌, String, ◌≡◌, ◌≢◌, refl, List, [], ◌∷◌, none, ok, arith, lookup, lookup-insert,
  lookup-insert_self, lookup-insert_ne, string_eq, if◌then◌else◌, Bool-cases, inl, inr, ◌==◌,
}
use the_creation_os.Inference.Health.{
  CircuitState, closed, opened, half_open, CircuitRecord, new_record, CircuitBreaker, new_breaker,
  record_of, put_record, attempt_on, can_attempt, record_success, failure_on,
  record_transient_failure,
}

pub record_of-put :
    (b : CircuitBreaker) (p q : String) (r : CircuitRecord)
    → record_of (put_record b p r) q ≡ (if p == q then r else record_of b q)
unfolding record_of
record_of-put b p q r = rw (lookup-insert p q r b.records) (ground arith)

pub record_of-put_self :
    (b : CircuitBreaker) (p : String) (r : CircuitRecord) → record_of (put_record b p r) p ≡ r
unfolding record_of
record_of-put_self b p r = rw (lookup-insert_self p r b.records)

pub record_of-put_ne :
    (b : CircuitBreaker) (p q : String) (r : CircuitRecord)
    → p ≢ q
    → record_of (put_record b p r) q ≡ record_of b q
unfolding record_of
record_of-put_ne b p q r h = rw (lookup-insert_ne p q r b.records h)

-- What a record says in each state.
abbrev pub RecordIsValid : ℕ → CircuitState → CircuitRecord → Type 0
RecordIsValid threshold closed r = (r.failures < threshold) × (r.opened_at ≡ none)
RecordIsValid threshold opened r = (threshold ≤ r.failures) × (r.opened_at ≢ none)
RecordIsValid threshold half_open r = (threshold ≤ r.failures) × (r.opened_at ≢ none)

-- The breaker is made with a positive threshold, and each provider's record agrees with its state:
-- closed below the threshold, open or half open since a known time at or above it.
pub record IsValid (b : CircuitBreaker) : Type 0 where
  pub positive : 1 ≤ b.failure_threshold
  pub valid : (p : String) → RecordIsValid b.failure_threshold (record_of b p).state (record_of b p)

-- A call that a client of the breaker makes.
pub data Call : Type 0 where
  attempt : String → ℕ → Call
  success : String → Call
  transient_failure : String → ℕ → Call

abbrev pub step : CircuitBreaker → Call → CircuitBreaker
step b (attempt p now) = (can_attempt b p now).0
step b (success p) = record_success b p
step b (transient_failure p now) = record_transient_failure b p now

abbrev pub run : CircuitBreaker → List Call → CircuitBreaker
run b [] = b
run b (c ∷ cs) = run (step b c) cs

put-IsValid :
    (b : CircuitBreaker) (p : String) (r : CircuitRecord)
    → IsValid b
    → RecordIsValid b.failure_threshold r.state r
    → IsValid (put_record b p r)
put-IsValid b p r v h = record {
  positive = v.positive;
  valid = λ q. elim (Bool-cases (p == q)) [
    | inl same ↦ rw (record_of-put b p q r, same) h
    | inr other ↦ rw (record_of-put b p q r, other) (v.valid q)
  ];
}

attempt-RecordIsValid :
    (threshold cooldown now : ℕ) (s : CircuitState) (r : CircuitRecord)
    → r.state ≡ s
    → RecordIsValid threshold s r
    → RecordIsValid threshold (attempt_on cooldown s r now).0.state (attempt_on cooldown s r now).0
attempt-RecordIsValid threshold cooldown now closed r e h = ground arith
attempt-RecordIsValid threshold cooldown now _ r e h = ground arith

failure-RecordIsValid :
    (threshold now : ℕ) (s : CircuitState) (r : CircuitRecord)
    → r.state ≡ s
    → RecordIsValid threshold s r
    → RecordIsValid threshold (failure_on threshold s r now).state (failure_on threshold s r now)
failure-RecordIsValid threshold now closed r e h = ground arith
failure-RecordIsValid threshold now _ r e h = ground arith

step-IsValid : (b : CircuitBreaker) (c : Call) → IsValid b → IsValid (step b c)
unfolding can_attempt record_success record_transient_failure
step-IsValid b (attempt p now) v = put-IsValid b p _ v (
    attempt-RecordIsValid b.failure_threshold b.cooldown_seconds now (record_of b p).state
      (record_of b p) refl (v.valid p))
step-IsValid b (success p) v = put-IsValid b p new_record v (v.positive, refl)
step-IsValid b (transient_failure p now) v = put-IsValid b p _ v (
    failure-RecordIsValid b.failure_threshold now (record_of b p).state (record_of b p) refl
      (v.valid p))

new_breaker-IsValid :
    (threshold cooldown : ℕ) (b : CircuitBreaker)
    → new_breaker threshold cooldown ≡ ok b
    → IsValid b
unfolding new_breaker record_of lookup
new_breaker-IsValid threshold cooldown b h = record {
  positive = ground arith;
  valid = λ p. ground arith;
}

-- From its construction on, whatever is called, the breaker is valid: a provider's circuit is closed
-- exactly while fewer than `failure_threshold` failures are counted for it, and a circuit that is
-- not closed knows when it opened.
pub run-IsValid :
    (threshold cooldown : ℕ) (b : CircuitBreaker) (calls : List Call)
    → new_breaker threshold cooldown ≡ ok b
    → IsValid (run b calls)
run-IsValid threshold cooldown b calls h =
    keeps b calls (new_breaker-IsValid threshold cooldown b h)
  where
    keeps : (b : CircuitBreaker) (calls : List Call) → IsValid b → IsValid (run b calls)
    keeps b [] v = v
    keeps b (c ∷ cs) v = keeps (step b c) cs (step-IsValid b c v)
