-- ===== src/Inference/Health.antt =====
-- backend/app/inference/health.py: the circuit breaker and the rate-limit cooldown, each a record
-- of what it keeps for a provider. Times are whole ticks of the clock that the callers pass; the
-- float arithmetic of the source is exact here, and a duration is not negative.
pub mod Breaker
pub mod Counts
pub mod Probe
pub mod Cooldown
pub mod Tests
use the_creation_os.Prelude.{
  ℕ, ◌+◌, String, ◌≡◌, Bool, true, false, List, [], ◌∷◌, Option, none, some, Result, ok, err, guard,
  ◌>>=◌, ◌>>◌, ltb, leb, if◌then◌else◌, Dict, lookup, insert, delete, or_else, string_eq,
}

pub data CircuitState : Type 0 where
  closed opened half_open : CircuitState

pub record CircuitRecord : Type 0 where
  pub state : CircuitState
  pub failures : ℕ
  pub opened_at : Option ℕ

abbrev pub new_record : CircuitRecord
new_record = record { state = closed; failures = 0; opened_at = none }

pub record CircuitBreaker : Type 0 where
  pub failure_threshold : ℕ
  pub cooldown_seconds : ℕ
  pub records : Dict String CircuitRecord

pub data ValueError : Type 0 where
  value_error : ValueError

unfoldable pub new_breaker : ℕ → ℕ → Result ValueError CircuitBreaker
new_breaker threshold cooldown = do
  guard (leb 1 threshold) value_error
  ok (record { failure_threshold = threshold; cooldown_seconds = cooldown; records = [] })

-- `_record`: the default that `setdefault` stores reads the same as no entry.
unfoldable pub record_of : CircuitBreaker → String → CircuitRecord
record_of b provider = or_else (lookup provider b.records) new_record

abbrev pub put_record : CircuitBreaker → String → CircuitRecord → CircuitBreaker
put_record b provider r = record b { records = insert provider r b.records }

unfoldable pub state : CircuitBreaker → String → CircuitState
state b provider = (record_of b provider).state

abbrev pub elapsed : ℕ → Option ℕ → ℕ → Bool
elapsed cooldown none now = false
elapsed cooldown (some opened_at) now = leb (opened_at + cooldown) now

-- The new record, and whether the provider may be called.
abbrev pub attempt_on : ℕ → CircuitState → CircuitRecord → ℕ → CircuitRecord × Bool
attempt_on cooldown closed r now = (r, true)
attempt_on cooldown half_open r now = (r, false)
attempt_on cooldown opened r now =
    if elapsed cooldown r.opened_at now then (record r { state = half_open }, true) else (r, false)

unfoldable pub can_attempt : CircuitBreaker → String → ℕ → CircuitBreaker × Bool
can_attempt b provider now =
    let r = record_of b provider in
    let (r', allowed) = attempt_on b.cooldown_seconds r.state r now in
    (put_record b provider r', allowed)

unfoldable pub record_success : CircuitBreaker → String → CircuitBreaker
record_success b provider = put_record b provider new_record

abbrev pub count_failure : ℕ → CircuitRecord → ℕ → CircuitRecord
count_failure threshold r now =
    let failures = r.failures + 1 in
    if leb threshold failures
    then record { state = opened; failures = failures; opened_at = some now }
    else record r { failures = failures }

abbrev pub failure_on : ℕ → CircuitState → CircuitRecord → ℕ → CircuitRecord
failure_on threshold half_open r now = record {
  state = opened;
  failures = threshold;
  opened_at = some now;
}
failure_on threshold closed r now = count_failure threshold r now
failure_on threshold opened r now = count_failure threshold r now

unfoldable pub record_transient_failure : CircuitBreaker → String → ℕ → CircuitBreaker
record_transient_failure b provider now =
    let r = record_of b provider in
    put_record b provider (failure_on b.failure_threshold r.state r now)

-- `ProviderRateLimitCooldown`: for each provider the time until which it is left alone.
pub record RateLimitCooldown : Type 0 where
  pub blocked_until : Dict String ℕ

abbrev pub new_cooldown : RateLimitCooldown
new_cooldown = record { blocked_until = [] }

abbrev pub extends : Option ℕ → ℕ → Bool
extends none blocked_until = true
extends (some current) blocked_until = ltb current blocked_until

unfoldable pub register : RateLimitCooldown → String → ℕ → ℕ → RateLimitCooldown
register c provider now retry_after_seconds =
    let blocked_until = now + retry_after_seconds in
    if extends (lookup provider c.blocked_until) blocked_until
    then record { blocked_until = insert provider blocked_until c.blocked_until }
    else c

abbrev pub cooldown_on : RateLimitCooldown → String → Option ℕ → ℕ → RateLimitCooldown × Bool
cooldown_on c provider none now = (c, true)
cooldown_on c provider (some blocked_until) now =
    if leb blocked_until now
    then (record { blocked_until = delete provider c.blocked_until }, true)
    else (c, false)

unfoldable pub cooldown_can_attempt : RateLimitCooldown → String → ℕ → RateLimitCooldown × Bool
cooldown_can_attempt c provider now = cooldown_on c provider (lookup provider c.blocked_until) now
