-- ===== src/Inference/Router/Wedge.antt =====
-- What happens to a provider whose circuit is half open (inference/router.py with
-- inference/health.py).
use the_creation_os.Prelude.{
  String, ◌≡◌, ◌≢◌, refl, sym, ap, subst, false, not, List, [], ◌∷◌, Option, none, some, Result, ok,
  err, inl, inr, Bool-cases, if_both, if_taken, string_eq, ◌==◌, eq_iff,
}
use the_creation_os.Prelude.Json
use the_creation_os.Prelude.Json.{truthy}
use the_creation_os.Inference.Contracts.{
  InferenceError, InferenceRequest, InferenceResponse, ErrorClass, error_of, unavailable,
  ProviderHealth, inference, configuration, rate_limit,
}
use the_creation_os.Inference.Health
use the_creation_os.Inference.Health.{half_open, opened, CircuitBreaker}
use the_creation_os.Inference.Health.Probe.{half_open_refuses, attempt_stays, put_stays}
use the_creation_os.Inference.Router.{
  ModelRouter, World, State, Next, Outcome, Failure, raised, timeout_error, other_error,
  must_stop_after_provider_failure, is_excluded, stop_or_next, after_call, after_record,
  after_admission, record_failure, try_provider, visit_candidate, route, generate, admit,
  request_for, call_provider, call_generate, after_health, first_of_failures, Event, clock_read,
  asked_health, called, candidate_names,
}

-- The event does not concern the provider `p`.
abbrev pub IsElsewhere : String → Event → Type 0
IsElsewhere p clock_read = Unit
IsElsewhere p (asked_health q a) = q ≢ p
IsElsewhere p (called q a deadline) = q ≢ p

-- The events are those of `base` and later ones, none of which concerns `p`.
pub data QuietSince (p : String) (base : List Event) : List Event → Type 0 where
  as_before : QuietSince p base base
  later :
      {e : Event} {es : List Event}
      → IsElsewhere p e
      → QuietSince p base es
      → QuietSince p base (e ∷ es)

-- The circuit of `p` is half open, and since the events `base` none concerns `p`.
pub record IsWedged (p : String) (base : List Event) (s : State) : Type 0 where
  pub waiting : Health.state s.circuit p ≡ half_open
  pub silent : QuietSince p base s.events

module _ (p : String) (base : List Event) (r : ModelRouter) (w : World)
    (request : InferenceRequest) where
  abbrev pub KeepsNext : Next → Type 0
  KeepsNext next =
      (last first : Option InferenceError) (s : State)
      → IsWedged p base s
      → IsWedged p base (next last first s).1

  module _ (q : String) (next : Next) (keeps : KeepsNext next) where
    stop-IsWedged :
        (e : InferenceError) (first : Option InferenceError) (s : State)
        → IsWedged p base s
        → IsWedged p base (stop_or_next r q e first next s).1
    stop-IsWedged e first s k =
        if_both (λ (o : Outcome × State). IsWedged p base o.1)
          (must_stop_after_provider_failure r q) k (keeps (some e) first s k)

    pub recorded-IsWedged :
        (e : InferenceError) (first : Option InferenceError) (s : State) (o : Option State)
        → IsWedged p base s
        → ((s' : State) → o ≡ some s' → IsWedged p base s')
        → IsWedged p base (after_record r q e first next s o).1
    recorded-IsWedged e first s none k f = k
    recorded-IsWedged e first s (some s') k f = stop-IsWedged e first s' (f s' refl)

    module _ (other : q ≢ p) where
      record_failure-IsWedged :
          (class : ErrorClass) (s s' : State)
          → IsWedged p base s
          → record_failure r w q class s ≡ some s'
          → IsWedged p base s'
      unfolding record_failure Health.record_transient_failure
      record_failure-IsWedged inference s s' k h = cc
      record_failure-IsWedged configuration s s' k h = cc
      record_failure-IsWedged rate_limit s s' k h =
          let e : record s {
            cooldown =
                Health.register s.cooldown q (w.clock s.events) r.rate_limit_cooldown_seconds;
            events = clock_read ∷ s.events;
          }
              ≡ s' =
            cc in
          subst (IsWedged p base) e (record { waiting = k.waiting; silent = later tt k.silent })
      record_failure-IsWedged _ s s' k h =
          let e : record s {
            circuit = Health.record_transient_failure s.circuit q (w.clock s.events);
            events = clock_read ∷ s.events;
          }
              ≡ s' =
            cc in
          subst (IsWedged p base) e (record {
            waiting = put_stays p s.circuit q _ other k.waiting;
            silent = later tt k.silent;
          })

      after-IsWedged :
          (reply : Result Failure InferenceResponse) (first : Option InferenceError) (s : State)
          → IsWedged p base s
          → IsWedged p base (after_call r w q first next reply s).1
      unfolding Health.record_success
      after-IsWedged (ok response) first s k = record {
        waiting = put_stays p s.circuit q _ other k.waiting;
        silent = k.silent;
      }
      after-IsWedged (err (raised e)) first s k =
          recorded-IsWedged e first s (record_failure r w q e.class s) k
            (λ s' h. record_failure-IsWedged e.class s s' k h)
      after-IsWedged (err timeout_error) first s k = k
      after-IsWedged (err other_error) first s k = k

      generate-IsWedged :
          (a : InferenceRequest) (s : State)
          → IsWedged p base s
          → IsWedged p base (call_generate w q a s).1
      unfolding call_generate
      generate-IsWedged a s k = record { waiting = k.waiting; silent = later other k.silent }

      health-IsWedged :
          (a : InferenceRequest) (h : Result Failure ProviderHealth) (s : State)
          → IsWedged p base s
          → IsWedged p base (after_health w q a h s).1
      health-IsWedged a (err f) s k = k
      health-IsWedged a (ok h) s k =
          if_both (λ (o : Result Failure InferenceResponse × State). IsWedged p base o.1)
            h.available (generate-IsWedged a s k) k

      call-IsWedged :
          (a : InferenceRequest) (s : State)
          → IsWedged p base s
          → IsWedged p base (call_provider w q a s).1
      unfolding call_provider
      call-IsWedged a s k =
          if_both (λ (o : Result Failure InferenceResponse × State). IsWedged p base o.1)
            (truthy (Json.get "skip_health_probe" a.metadata)) (generate-IsWedged a s k)
            (health-IsWedged a (w.health s.events q) _
              (record { waiting = k.waiting; silent = later other k.silent }))

    -- The candidate is `p` itself: its circuit lets nothing through.
    self-IsWedged :
        (a : InferenceRequest) (first : Option InferenceError) (s : State)
        → q ≡ p
        → IsWedged p base s
        → IsWedged p base (try_provider r w a q first next s).1
    unfolding try_provider
    self-IsWedged a first s same k =
        if_both (λ (o : Outcome × State). IsWedged p base o.1)
          (not (Health.cooldown_can_attempt s.cooldown q (w.clock s.events)).1)
          (stop-IsWedged (error_of unavailable q) first _
            (record { waiting = k.waiting; silent = later tt k.silent }))
          (if_taken (λ (o : Outcome × State). IsWedged p base o.1)
            (not (Health.can_attempt s.circuit q (w.clock s.events)).1) _ (ap not refused)
            (stop-IsWedged (error_of unavailable q) first _ (record {
              waiting = attempt_stays p s.circuit q (w.clock s.events) k.waiting;
              silent = later tt k.silent;
            })))
      where
        refused : (Health.can_attempt s.circuit q (w.clock s.events)).1 ≡ false
        refused =
            half_open_refuses s.circuit q (w.clock s.events)
              (subst (λ x. Health.state s.circuit x ≡ half_open) (sym same) k.waiting)

    other-IsWedged :
        (a : InferenceRequest) (first : Option InferenceError) (s : State)
        → q ≢ p
        → IsWedged p base s
        → IsWedged p base (try_provider r w a q first next s).1
    unfolding try_provider
    other-IsWedged a first s other k =
        if_both (λ (o : Outcome × State). IsWedged p base o.1)
          (not (Health.cooldown_can_attempt s.cooldown q (w.clock s.events)).1)
          (stop-IsWedged (error_of unavailable q) first _
            (record { waiting = k.waiting; silent = later tt k.silent }))
          (if_both (λ (o : Outcome × State). IsWedged p base o.1)
            (not (Health.can_attempt s.circuit q (w.clock s.events)).1)
            (stop-IsWedged (error_of unavailable q) first _ asked)
            (after-IsWedged other _ first _ (call-IsWedged other a _ asked)))
      where
        asked : IsWedged p base (record {
          circuit = (Health.can_attempt s.circuit q (w.clock s.events)).0;
          cooldown = (Health.cooldown_can_attempt s.cooldown q (w.clock s.events)).0;
          events = clock_read ∷ s.events;
        })
        asked = record {
          waiting = attempt_stays p s.circuit q (w.clock s.events) k.waiting;
          silent = later tt k.silent;
        }

    admission-IsWedged :
        (o : Result InferenceError (Unit {0})) (first : Option InferenceError) (s : State)
        → IsWedged p base s
        → IsWedged p base
            (after_admission o (try_provider r w (request_for r q request) q first next s) s).1
    admission-IsWedged (err x) first s k = k
    admission-IsWedged (ok u) first s k = elim (Bool-cases (q == p)) [
      | inl same ↦ self-IsWedged (request_for r q request) first s ((eq_iff q p).0 same) k
      | inr other ↦
          other-IsWedged (request_for r q request) first s (λ e. cc (other, (eq_iff q p).1 e)) k
    ]

    visit-IsWedged : KeepsNext (visit_candidate r w request q next)
    unfolding visit_candidate
    visit-IsWedged last first s k =
        if_both (λ (o : Outcome × State). IsWedged p base o.1) (is_excluded r q)
          (keeps last first s k)
          (admission-IsWedged (admit r (request_for r q request) q) (first_of_failures last first) s
            k)

  pub route-IsWedged : (ps : List String) → KeepsNext (route r w request ps)
  unfolding route
  route-IsWedged [] none first s k = k
  route-IsWedged [] (some e) first s k = k
  route-IsWedged (q ∷ qs) last first s k =
      visit-IsWedged q (route r w request qs) (route-IsWedged qs) last first s k

-- Requests that are served one after another over the same breaker and cooldown, each by a router of
-- its own.
abbrev pub serve : List (ModelRouter × InferenceRequest) → World → State → State
serve [] w s = s
serve ((r, request) ∷ rest) w s = serve rest w (generate r w request s).1

pub serve-IsWedged :
    (p : String) (base : List Event) (requests : List (ModelRouter × InferenceRequest)) (w : World)
    (s : State)
    → IsWedged p base s
    → IsWedged p base (serve requests w s)
unfolding generate
serve-IsWedged p base [] w s k = k
serve-IsWedged p base ((r, request) ∷ rest) w s k =
    serve-IsWedged p base rest w _
      (route-IsWedged p base r w request (candidate_names r request) none none s k)

-- A provider whose circuit is half open, with no call of it under way, is never called again: neither
-- time, nor what other providers answer, nor any number of requests brings it back.
pub half_open_forever :
    (p : String) (requests : List (ModelRouter × InferenceRequest)) (w : World) (s : State)
    → Health.state s.circuit p ≡ half_open
    → IsWedged p s.events (serve requests w s)
half_open_forever p requests w s waiting =
    serve-IsWedged p s.events requests w s (record { waiting = waiting; silent = as_before })
