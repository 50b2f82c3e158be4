-- ===== src/Inference/Health/Tests.antt =====
-- Witnesses and runs for inference/health.py.
use the_creation_os.Prelude.{
  String, ◌≡◌, ◌≢◌, refl, false, List, [], ◌∷◌, some, ok, arith, lookup, insert, max, leb,
  string_eq, eq_iff,
}
use the_creation_os.Inference.Health.{
  CircuitBreaker, opened, half_open, new_breaker, record_of, state, can_attempt, new_cooldown,
  register, cooldown_can_attempt,
}
use the_creation_os.Inference.Health.Breaker.{
  IsValid, Call, attempt, success, transient_failure, run, run-IsValid,
}
use the_creation_os.Inference.Health.Counts.{is_closed, opens_by_count}
use the_creation_os.Inference.Health.Probe.{let_through, single_probe}
use the_creation_os.Inference.Health.Cooldown.{held_until, register_extends}

abbrev breaker : CircuitBreaker
breaker = record { failure_threshold = 2; cooldown_seconds = 30; records = [] }

abbrev failing : List Call
failing = transient_failure "a" 5 ∷ attempt "b" 6 ∷ transient_failure "a" 7 ∷ []

other : ◌≢◌ {A = String} "b" "a"
other e = cc ((eq_iff "b" "a").1 e)

made : new_breaker 2 30 ≡ ok breaker
unfolding new_breaker
made = refl

-- Two failures open the circuit at 7, and it is probed at 37.
abbrev open_breaker : CircuitBreaker
open_breaker = record {
  failure_threshold = 2;
  cooldown_seconds = 30;
  records = insert "a" (record { state = opened; failures = 2; opened_at = some 7 }) [];
}

abbrev probing : CircuitBreaker
probing = record {
  failure_threshold = 2;
  cooldown_seconds = 30;
  records = insert "a" (record { state = half_open; failures = 2; opened_at = some 7 }) [];
}

is_open : state open_breaker "a" ≡ opened
unfolding state record_of lookup insert
is_open = refl

opened_then : (record_of open_breaker "a").opened_at ≡ some 7
unfolding record_of lookup insert
opened_then = refl

is_probing : state probing "a" ≡ half_open
unfolding state record_of lookup insert
is_probing = refl

probe_in_time : (can_attempt open_breaker "a" 36).1 ≡ false
unfolding can_attempt record_of lookup insert
probe_in_time = refl

run-IsValid_example : IsValid (run breaker failing)
run-IsValid_example = run-IsValid 2 30 breaker failing made

-- As the router calls it: each failure comes after an attempt that was let through.
abbrev history : List Call
history =
    attempt "a" 1
    ∷ transient_failure "a" 1
    ∷ attempt "a" 2
    ∷ success "a"
    ∷ attempt "a" 3
    ∷ transient_failure "a" 4
    ∷ attempt "b" 5
    ∷ attempt "a" 6
    ∷ transient_failure "a" 7
    ∷ attempt "a" 8
    ∷ []

opens_by_count_example : is_closed (state (run breaker history) "a") ≡ false
opens_by_count_example = opens_by_count 2 30 breaker "a" history made

-- The provider is asked for too early, in time, and twice more while it is probed.
abbrev asking : List Call
asking =
    attempt "a" 36
    ∷ transient_failure "b" 38
    ∷ attempt "a" 40
    ∷ attempt "a" 41
    ∷ success "b"
    ∷ attempt "a" 99
    ∷ []

single_probe_example : let_through "a" open_breaker asking ≡ 40 ∷ []
single_probe_example =
    single_probe open_breaker "a" 7 asking is_open opened_then (other, (other, tt))

register_extends_example :
    let c = register new_cooldown "a" 10 30 in
    ((cooldown_can_attempt c "a" 39).1 ≡ leb (max (held_until new_cooldown "a") 40) 39)
    × ((cooldown_can_attempt (cooldown_can_attempt c "a" 39).0 "a" 40).1
        ≡ leb (max (held_until new_cooldown "a") 40) 40)
register_extends_example = register_extends new_cooldown "a" 10 30 39 40 (omega arith)
