-- ===== src/Inference/Router.antt =====
-- backend/app/inference/router.py: a request goes to its candidates in turn. Providers and the clock
-- are the parameter `World`: what they answer may depend on all that happened before. The state is
-- what a router shares with others, the breaker and the cooldown, with the events so far.
mod Candidates
pub mod Gates
pub mod Stops
pub mod Fallback
pub mod Wedge
pub mod Unrecorded
pub mod Tests
pub use Candidates.{ModelRouter, new_router, covers, require_capabilities, profile_for_request}
unfoldable pub use Candidates.{
  must_stop_after_provider_failure, attempt_timeout, candidate_names, rank_by_benchmark,
  admit_capabilities, admit_budget, request_for, is_excluded,
}
use the_creation_os.Prelude.{
  ℕ, String, ◌≡◌, Bool, true, false, not, List, [], ◌∷◌, Option, none, some, Result, ok, err, guard,
  ◌>>=◌, ◌>>◌, if◌then◌else◌, lookup, insert, Eq, ◌==◌, string_eq, contains,
}
use the_creation_os.Prelude.Json
use the_creation_os.Prelude.Json.{truthy, Json, Fields}
use the_creation_os.Inference.Contracts.{
  ErrorClass, inference, configuration, authentication, unavailable, budget, rate_limit, timeout,
  upstream_response, InferenceError, error_of, code, InferenceRequest, InferenceResponse,
  ProviderHealth,
}
use the_creation_os.Inference.Health
use the_creation_os.Inference.Health.{CircuitBreaker, RateLimitCooldown}
use the_creation_os.Inference.Registry

-- What a call of a provider raises: an error of the contract, `TimeoutError`, or anything else.
pub data Failure : Type 0 where
  raised : InferenceError → Failure
  timeout_error other_error : Failure

-- What reaches the world outside, newest first in the list of a state.
pub data Event : Type 0 where
  clock_read : Event
  asked_health : String → InferenceRequest → Event
  called : String → InferenceRequest → Option ℕ → Event

pub record World : Type 0 where
  pub clock : List Event → ℕ
  pub health : List Event → String → Result Failure ProviderHealth
  pub generate :
      List Event → String → InferenceRequest → Option ℕ → Result Failure InferenceResponse

pub record State : Type 0 where
  pub circuit : CircuitBreaker
  pub cooldown : RateLimitCooldown
  pub events : List Event

-- The exception that `generate` raises, with the `first_failure` that it sets on it.
pub record Raised : Type 0 where
  pub failure : Failure
  pub first_failure : Option InferenceError

abbrev pub Outcome : Type 0
Outcome = Result Raised InferenceResponse

abbrev pub raise : Failure → Outcome
raise f = err (record { failure = f; first_failure = none })

abbrev pub happened : Event → State → State
happened e s = record s { events = e ∷ s.events }

-- `asyncio.timeout` turns a `TimeoutError` into an error of the contract.
abbrev pub under_deadline :
    String → Option ℕ → Result Failure InferenceResponse → Result Failure InferenceResponse
under_deadline p none r = r
under_deadline p (some t) (ok response) = ok response
under_deadline p (some t) (err timeout_error) = err (raised (error_of timeout p))
under_deadline p (some t) (err (raised e)) = err (raised e)
under_deadline p (some t) (err other_error) = err other_error

-- `self._clock()`
abbrev pub read_clock : World → State → ℕ × State
read_clock w s = (w.clock s.events, happened clock_read s)

unfoldable pub call_generate :
    World → String → InferenceRequest → State → Result Failure InferenceResponse × State
call_generate w p attempt s =
    let deadline = attempt_timeout p attempt.metadata in
    (
      under_deadline p deadline (w.generate s.events p attempt deadline),
      happened (called p attempt deadline) s,
    )

abbrev pub after_health :
    World
    → String
    → InferenceRequest
    → Result Failure ProviderHealth
    → State
    → Result Failure InferenceResponse × State
after_health w p attempt (err f) s = (err f, s)
after_health w p attempt (ok h) s =
    if h.available then call_generate w p attempt s else (err (raised (error_of unavailable p)), s)

unfoldable pub call_provider :
    World → String → InferenceRequest → State → Result Failure InferenceResponse × State
call_provider w p attempt s =
    if truthy (Json.get "skip_health_probe" attempt.metadata)
    then call_generate w p attempt s
    else after_health w p attempt (w.health s.events p) (happened (asked_health p attempt) s)

-- The `except` clauses: `none` where no clause catches the error.
unfoldable pub record_failure : ModelRouter → World → String → ErrorClass → State → Option State
record_failure r w p inference s = none
record_failure r w p configuration s = none
record_failure r w p rate_limit s =
    let (now, s') = read_clock w s in
    some (record s' { cooldown = Health.register s'.cooldown p now r.rate_limit_cooldown_seconds })
record_failure r w p _ s =
    let (now, s') = read_clock w s in
    some (record s' { circuit = Health.record_transient_failure s'.circuit p now })

abbrev pub reason : InferenceError → String
reason e = elim e.upstream_code [
  | none ↦ code e.class
  | some upstream ↦ if upstream == "" then code e.class else upstream
]

-- The answer of a later candidate says which provider failed first, and why.
unfoldable pub disclose : Option InferenceError → InferenceResponse → InferenceResponse
disclose none response = response
disclose (some e) response = record response {
  metadata =
      insert "fallback_reason" (Json.text (reason e))
        (insert "fallback_from" (Json.text e.provider) response.metadata);
}

abbrev pub first_of_failures : Option InferenceError → Option InferenceError → Option InferenceError
first_of_failures last (some e) = some e
first_of_failures last none = last

-- How the loop goes on: with the last error and the first, from a state.
abbrev pub Next : Type 0
Next = Option InferenceError → Option InferenceError → State → Outcome × State

-- A failure that was caught: the request stops here, or goes on to the next candidate.
abbrev pub stop_or_next :
    ModelRouter → String → InferenceError → Option InferenceError → Next → State → Outcome × State
stop_or_next r p e first next s =
    if must_stop_after_provider_failure r p then (raise (raised e), s) else next (some e) first s

-- `none`: no clause caught the error.
abbrev pub after_record :
    ModelRouter
    → String
    → InferenceError
    → Option InferenceError
    → Next
    → State
    → Option State
    → Outcome × State
after_record r p e first next s none = (raise (raised e), s)
after_record r p e first next s (some s') = stop_or_next r p e first next s'

abbrev pub after_call :
    ModelRouter
    → World
    → String
    → Option InferenceError
    → Next
    → Result Failure InferenceResponse
    → State
    → Outcome × State
after_call r w p first next (ok response) s =
    (ok (disclose first response), record s { circuit = Health.record_success s.circuit p })
after_call r w p first next (err (raised e)) s =
    after_record r p e first next s (record_failure r w p e.class s)
after_call r w p first next (err timeout_error) s = (raise timeout_error, s)
after_call r w p first next (err other_error) s = (raise other_error, s)

-- The two gates of a provider's health, each of which changes what it asks.
unfoldable pub try_provider :
    ModelRouter
    → World
    → InferenceRequest
    → String
    → Option InferenceError
    → Next
    → State
    → Outcome × State
try_provider r w attempt p first next s =
    let (now, s1) = read_clock w s in
    let (cooldown, rested) = Health.cooldown_can_attempt s1.cooldown p now in
    let s2 = record s1 { cooldown = cooldown } in
    let (circuit, admitted) = Health.can_attempt s2.circuit p now in
    let s3 = record s2 { circuit = circuit } in
    if not rested
    then stop_or_next r p (error_of unavailable p) first next s2
    else if not admitted
    then stop_or_next r p (error_of unavailable p) first next s3
    else (let (reply, s4) = call_provider w p attempt s3 in after_call r w p first next reply s4)

-- The state in which the call of `p` is made once both gates have let it through.
abbrev pub admitted : World → String → State → State
admitted w p s = record {
  circuit = (Health.can_attempt s.circuit p (w.clock s.events)).0;
  cooldown = (Health.cooldown_can_attempt s.cooldown p (w.clock s.events)).0;
  events = clock_read ∷ s.events;
}

-- The gates that no candidate gets past by falling back: an unknown provider, a capability that is
-- not evidenced, a cost above the ceiling.
unfoldable pub admit : ModelRouter → InferenceRequest → String → Result InferenceError (Unit {0})
admit r attempt p = do
  guard (contains p r.registry.providers) (error_of unavailable p)
  admit_capabilities r p attempt
  admit_budget r p attempt

abbrev pub after_admission :
    Result InferenceError (Unit {0}) → Outcome × State → State → Outcome × State
after_admission (err e) tried s = (raise (raised e), s)
after_admission (ok _) tried s = tried

unfoldable pub visit_candidate : ModelRouter → World → InferenceRequest → String → Next → Next
visit_candidate r w request p next last first s =
    if is_excluded r p
    then next last first s
    else after_admission (admit r (request_for r p request) p)
        (try_provider r w (request_for r p request) p (first_of_failures last first) next s) s

abbrev pub finish : Next
finish none first s = (raise (raised (error_of unavailable "router")), s)
finish (some e) first s = (err (record { failure = raised e; first_failure = first }), s)

unfoldable pub route : ModelRouter → World → InferenceRequest → List String → Next
route r w request [] = finish
route r w request (p ∷ ps) = visit_candidate r w request p (route r w request ps)

-- With no candidate the loop ends as it does when all of them are excluded.
unfoldable pub generate : ModelRouter → World → InferenceRequest → State → Outcome × State
generate r w request s = route r w request (candidate_names r request) none none s
