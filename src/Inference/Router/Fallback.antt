-- ===== src/Inference/Router/Fallback.antt =====
-- An answer that comes after a failure says so (inference/router.py).
use the_creation_os.Prelude.{
  String, ◌≡◌, ◌∙◌, refl, sym, ap, subst, true, false, not, List, [], ◌∷◌, ◌++◌, All, Option, none,
  some, Result, ok, err, if_both, if_taken, if_untaken, string_eq, lookup, lookup-insert_self,
  lookup-insert_ne, eq_iff,
}
use the_creation_os.Prelude.Json.{Json}
use the_creation_os.Inference.Contracts.{
  InferenceError, InferenceRequest, InferenceResponse, error_of, unavailable,
}
use the_creation_os.Inference.Health
use the_creation_os.Inference.Router.{
  ModelRouter, World, State, Next, Outcome, Failure, raised, timeout_error, other_error,
  must_stop_after_provider_failure, is_excluded, stop_or_next, after_call, after_record,
  after_admission, record_failure, try_provider, visit_candidate, route, admit, request_for,
  first_of_failures, disclose, reason, call_provider, candidate_names, generate, admitted,
}

-- The answer names the provider that failed first, and why it failed.
abbrev pub Discloses : InferenceError → InferenceResponse → Type 0
Discloses e response =
    (lookup "fallback_from" response.metadata ≡ some (Json.text e.provider))
    × (lookup "fallback_reason" response.metadata ≡ some (Json.text (reason e)))

-- What the loop owes once `e` was the first failure: an answer discloses it.
abbrev pub Owes : InferenceError → Outcome → Type 0
Owes e (ok response) = Discloses e response
Owes e (err x) = Unit

disclose-Discloses :
    (e : InferenceError) (response : InferenceResponse) → Discloses e (disclose (some e) response)
unfolding disclose
disclose-Discloses e response = (
  lookup-insert_ne "fallback_reason" "fallback_from" _ _
        (λ h. cc ((eq_iff "fallback_reason" "fallback_from").1 h))
      ∙ lookup-insert_self "fallback_from" _ response.metadata,
  lookup-insert_self "fallback_reason" _ _,
)

module _ (r : ModelRouter) (w : World) (request : InferenceRequest) (e : InferenceError) where
  abbrev OwesNext : Next → Type 0
  OwesNext next =
      (last first : Option InferenceError) (s : State)
      → first_of_failures last first ≡ some e
      → Owes e (next last first s).0

  module _ (p : String) (next : Next) (owes : OwesNext next) where
    stop-Owes : (x : InferenceError) (s : State) → Owes e (stop_or_next r p x (some e) next s).0
    stop-Owes x s =
        if_both (λ (o : Outcome × State). Owes e o.0) (must_stop_after_provider_failure r p) tt
          (owes (some x) (some e) s refl)

    recorded-Owes :
        (x : InferenceError) (s : State) (o : Option State)
        → Owes e (after_record r p x (some e) next s o).0
    recorded-Owes x s none = tt
    recorded-Owes x s (some s') = stop-Owes x s'

    after-Owes :
        (reply : Result Failure InferenceResponse) (s : State)
        → Owes e (after_call r w p (some e) next reply s).0
    after-Owes (ok response) s = disclose-Discloses e response
    after-Owes (err (raised x)) s = recorded-Owes x s (record_failure r w p x.class s)
    after-Owes (err timeout_error) s = tt
    after-Owes (err other_error) s = tt

    try-Owes : (a : InferenceRequest) (s : State) → Owes e (try_provider r w a p (some e) next s).0
    unfolding try_provider
    try-Owes a s =
        if_both (λ (o : Outcome × State). Owes e o.0)
          (not (Health.cooldown_can_attempt s.cooldown p (w.clock s.events)).1)
          (stop-Owes (error_of unavailable p) _)
          (if_both (λ (o : Outcome × State). Owes e o.0)
            (not (Health.can_attempt s.circuit p (w.clock s.events)).1)
            (stop-Owes (error_of unavailable p) _) (after-Owes _ _))

    admission-Owes :
        (o : Result InferenceError (Unit {0})) (first : Option InferenceError) (s : State)
        → first ≡ some e
        → Owes e (after_admission o (try_provider r w (request_for r p request) p first next s) s).0
    admission-Owes (err x) first s h = tt
    admission-Owes (ok u) first s h =
        subst (λ f. Owes e (try_provider r w (request_for r p request) p f next s).0) (sym h)
          (try-Owes (request_for r p request) s)

    visit-Owes : OwesNext (visit_candidate r w request p next)
    unfolding visit_candidate
    visit-Owes last first s h =
        if_both (λ (o : Outcome × State). Owes e o.0) (is_excluded r p) (owes last first s h)
          (admission-Owes (admit r (request_for r p request) p) (first_of_failures last first) s h)

  route-Owes : (ps : List String) → OwesNext (route r w request ps)
  unfolding route
  route-Owes [] none first s h = tt
  route-Owes [] (some x) first s h = tt
  route-Owes (p ∷ ps) last first s h =
      visit-Owes p (route r w request ps) (route-Owes ps) last first s h

-- The candidate `p`, asked in the state `s`, fails with `e`: it cools down after a rate limit, its
-- circuit lets nothing through, or its call raises.
pub data FailsWith (r : ModelRouter) (w : World) (a : InferenceRequest) (p : String) (s : State)
    : InferenceError → Type 0 where
  cools :
      (Health.cooldown_can_attempt s.cooldown p (w.clock s.events)).1 ≡ false
      → FailsWith r w a p s (error_of unavailable p)
  is_shut :
      (Health.cooldown_can_attempt s.cooldown p (w.clock s.events)).1 ≡ true
      → (Health.can_attempt s.circuit p (w.clock s.events)).1 ≡ false
      → FailsWith r w a p s (error_of unavailable p)
  raises :
      (e : InferenceError)
      → (Health.cooldown_can_attempt s.cooldown p (w.clock s.events)).1 ≡ true
      → (Health.can_attempt s.circuit p (w.clock s.events)).1 ≡ true
      → (call_provider w p a (admitted w p s)).0 ≡ err (raised e)
      → FailsWith r w a p s e

module _ (r : ModelRouter) (w : World) (request : InferenceRequest) (p : String) (next : Next) where
  started :
      (e : InferenceError)
      → OwesNext r w request e next
      → (s : State) → Owes e (stop_or_next r p e none next s).0
  started e owes s =
      if_both (λ (o : Outcome × State). Owes e o.0) (must_stop_after_provider_failure r p) tt
        (owes (some e) none s refl)

  started_by_call :
      (e : InferenceError) (reply : Result Failure InferenceResponse) (s : State)
      → OwesNext r w request e next
      → reply ≡ err (raised e)
      → Owes e (after_call r w p none next reply s).0
  started_by_call e reply s owes h =
      subst (λ x. Owes e (after_call r w p none next x s).0) (sym h)
        (recorded (record_failure r w p e.class s))
    where
      recorded : (o : Option State) → Owes e (after_record r p e none next s o).0
      recorded none = tt
      recorded (some s') = started e owes s'

  first-Owes :
      (a : InferenceRequest) (s : State) (e : InferenceError)
      → FailsWith r w a p s e
      → OwesNext r w request e next
      → Owes e (try_provider r w a p none next s).0
  unfolding try_provider
  first-Owes a s _ (cools h) owes =
      if_taken (λ (o : Outcome × State). Owes (error_of unavailable p) o.0)
        (not (Health.cooldown_can_attempt s.cooldown p (w.clock s.events)).1) _ (ap not h)
        (started (error_of unavailable p) owes _)
  first-Owes a s _ (is_shut h g) owes =
      if_untaken (λ (o : Outcome × State). Owes (error_of unavailable p) o.0)
        (not (Health.cooldown_can_attempt s.cooldown p (w.clock s.events)).1) _ (ap not h)
        (if_taken (λ (o : Outcome × State). Owes (error_of unavailable p) o.0)
          (not (Health.can_attempt s.circuit p (w.clock s.events)).1) _ (ap not g)
          (started (error_of unavailable p) owes _))
  first-Owes a s _ (raises e h g failed) owes =
      if_untaken (λ (o : Outcome × State). Owes e o.0)
        (not (Health.cooldown_can_attempt s.cooldown p (w.clock s.events)).1) _ (ap not h)
        (if_untaken (λ (o : Outcome × State). Owes e o.0)
          (not (Health.can_attempt s.circuit p (w.clock s.events)).1) _ (ap not g)
          (started_by_call e _ _ owes failed))

  first_visit-Owes :
      (s : State) (e : InferenceError)
      → is_excluded r p ≡ false
      → FailsWith r w (request_for r p request) p s e
      → OwesNext r w request e next
      → Owes e (visit_candidate r w request p next none none s).0
  unfolding visit_candidate
  first_visit-Owes s e kept f owes = rw kept (by_admission (admit r (request_for r p request) p))
    where
      by_admission :
          (o : Result InferenceError (Unit {0}))
          → Owes e
              (after_admission o (try_provider r w (request_for r p request) p none next s) s).0
      by_admission (err x) = tt
      by_admission (ok u) = first-Owes (request_for r p request) s e f owes

module _ (r : ModelRouter) (w : World) (request : InferenceRequest) (p : String) (ps : List String)
    (e : InferenceError) (s : State) where
  after_skipped :
      (skipped : List String)
      → All (λ q. is_excluded r q ≡ true) skipped
      → is_excluded r p ≡ false
      → FailsWith r w (request_for r p request) p s e
      → Owes e (route r w request (skipped ++ p ∷ ps) none none s).0
  unfolding route visit_candidate
  after_skipped [] out kept f =
      first_visit-Owes r w request p (route r w request ps) s e kept f (route-Owes r w request e ps)
  after_skipped (q ∷ qs) (h, out) kept f = rw h (after_skipped qs out kept f)

-- Where the first candidate that is not excluded fails, no answer of a request is passed off as that
-- candidate's: whichever later one answers, the answer's metadata names the provider that failed first
-- and the reason of its failure.
pub fallback_disclosed :
    (r : ModelRouter) (w : World) (request : InferenceRequest) (skipped : List String) (p : String)
    (ps : List String) (e : InferenceError) (s : State) (response : InferenceResponse)
    → candidate_names r request ≡ skipped ++ p ∷ ps
    → All (λ q. is_excluded r q ≡ true) skipped
    → is_excluded r p ≡ false
    → FailsWith r w (request_for r p request) p s e
    → (generate r w request s).0 ≡ ok response
    → Discloses e response
unfolding generate
fallback_disclosed r w request skipped p ps e s response names out kept f answered =
    subst (Owes e) (ap (λ qs. (route r w request qs none none s).0) (sym names) ∙ answered)
      (after_skipped r w request p ps e s skipped out kept f)
