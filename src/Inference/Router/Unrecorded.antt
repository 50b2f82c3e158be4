-- ===== src/Inference/Router/Unrecorded.antt =====
-- What a probe leaves that fails without a word to the breaker (inference/router.py with
-- inference/health.py).
use the_creation_os.Prelude.{
  String, ◌≡◌, ◌∙◌, refl, sym, ap, subst, true, not, List, ◌∷◌, Option, some, Result, ok, err, ◌⊎◌,
  arith, if_both, if_untaken, string_eq,
}
use the_creation_os.Prelude.Json
use the_creation_os.Prelude.Json.{truthy}
use the_creation_os.Inference.Contracts.{
  InferenceError, InferenceRequest, InferenceResponse, ErrorClass, ProviderHealth, inference,
  configuration, rate_limit,
}
use the_creation_os.Inference.Health
use the_creation_os.Inference.Health.{half_open, opened, CircuitBreaker}
use the_creation_os.Inference.Health.Probe.{probe_half_opens}
use the_creation_os.Inference.Router.{
  ModelRouter, World, State, Next, Outcome, Failure, raised, timeout_error, other_error, after_call,
  record_failure, try_provider, route, call_provider, call_generate, after_health, Event,
  clock_read, admitted,
}
use the_creation_os.Inference.Router.Wedge.{
  IsWedged, as_before, later, KeepsNext, recorded-IsWedged, route-IsWedged, serve, serve-IsWedged,
}

abbrev pub IsSilentClass : ErrorClass → Type 0
IsSilentClass class = (class ≡ rate_limit) ⊎ ((class ≡ configuration) ⊎ (class ≡ inference))

-- The failures of which no `except` clause tells the breaker: a rate limit, a configuration error or
-- an error of the base class, and every exception that is not an inference error.
abbrev pub IsUnrecorded : Failure → Type 0
IsUnrecorded (raised e) = IsSilentClass e.class
IsUnrecorded timeout_error = Unit
IsUnrecorded other_error = Unit

-- A failure that is not recorded leaves the circuit half open.
module _ (p : String) (base : List Event) (r : ModelRouter) (w : World) (request : InferenceRequest)
    (first : Option InferenceError) (next : Next) (keeps : KeepsNext p base r w request next) where
  record_unrecorded :
      (class : ErrorClass) (s s' : State)
      → IsSilentClass class
      → IsWedged p base s
      → record_failure r w p class s ≡ some s'
      → IsWedged p base s'
  unfolding record_failure
  record_unrecorded inference s s' u k h = cc
  record_unrecorded configuration s s' u k h = cc
  record_unrecorded rate_limit s s' u k h =
      let e : record s {
        cooldown = Health.register s.cooldown p (w.clock s.events) r.rate_limit_cooldown_seconds;
        events = clock_read ∷ s.events;
      }
          ≡ s' =
        cc in
      subst (IsWedged p base) e (record { waiting = k.waiting; silent = later tt k.silent })
  record_unrecorded _ s s' u k h = ground arith

  unrecorded_after :
      (f : Failure) (s : State)
      → IsUnrecorded f
      → IsWedged p base s
      → IsWedged p base (after_call r w p first next (err f) s).1
  unrecorded_after (raised e) s u k =
      recorded-IsWedged p base r w request p next keeps e first s (record_failure r w p e.class s) k
        (λ s' h. record_unrecorded e.class s s' u k h)
  unrecorded_after timeout_error s u k = k
  unrecorded_after other_error s u k = k

module _ (w : World) (p : String) (a : InferenceRequest) where
  generate_circuit : (s : State) → (call_generate w p a s).1.circuit ≡ s.circuit
  unfolding call_generate
  generate_circuit s = refl

  health_circuit :
      (h : Result Failure ProviderHealth) (s : State)
      → (after_health w p a h s).1.circuit ≡ s.circuit
  health_circuit (err f) s = refl
  health_circuit (ok h) s =
      if_both (λ (o : Result Failure InferenceResponse × State). o.1.circuit ≡ s.circuit)
        h.available (generate_circuit s) refl

  call_circuit : (s : State) → (call_provider w p a s).1.circuit ≡ s.circuit
  unfolding call_provider
  call_circuit s =
      if_both (λ (o : Result Failure InferenceResponse × State). o.1.circuit ≡ s.circuit)
        (truthy (Json.get "skip_health_probe" a.metadata)) (generate_circuit s)
        (health_circuit (w.health s.events p) _)

-- Where an open circuit lets a call of a provider through and the call ends in a rate limit, a
-- configuration error or any error that is no inference error, the circuit is half open after that
-- request, whatever candidates are tried after the provider, and after any requests that follow, and
-- nothing that happens after the call is addressed to the provider.
pub unrecorded_probe_wedges :
    (r : ModelRouter) (w : World) (request a : InferenceRequest) (p : String) (ps : List String)
    (first : Option InferenceError) (s : State) (f : Failure)
    (requests : List (ModelRouter × InferenceRequest))
    → Health.state s.circuit p ≡ opened
    → (Health.cooldown_can_attempt s.cooldown p (w.clock s.events)).1 ≡ true
    → (Health.can_attempt s.circuit p (w.clock s.events)).1 ≡ true
    → (call_provider w p a (admitted w p s)).0 ≡ err f
    → IsUnrecorded f
    → IsWedged p
        (call_provider w p a (admitted w p s)).1.events
        (serve requests w (try_provider r w a p first (route r w request ps) s).1)
unfolding try_provider
unrecorded_probe_wedges r w request a p ps first s f requests o rested due failed u =
    serve-IsWedged p base requests w _ (
      if_untaken (λ (o : Outcome × State). IsWedged p base o.1)
        (not (Health.cooldown_can_attempt s.cooldown p (w.clock s.events)).1) _ (ap not rested)
        (if_untaken (λ (o : Outcome × State). IsWedged p base o.1)
          (not (Health.can_attempt s.circuit p (w.clock s.events)).1) _ (ap not due)
          (subst (λ x. IsWedged p base (after_call r w p first (route r w request ps) x probed).1)
            (sym failed)
            (unrecorded_after p base r w request first (route r w request ps)
              (route-IsWedged p base r w request ps) f probed u
              (record { waiting = waits; silent = as_before })))))
  where
    probed : State
    probed = (call_provider w p a (admitted w p s)).1

    base : List Event
    base = probed.events

    waits : Health.state probed.circuit p ≡ half_open
    waits =
        ap (λ b. Health.state b p) (call_circuit w p a (admitted w p s))
        ∙ probe_half_opens s.circuit p (w.clock s.events) o due
