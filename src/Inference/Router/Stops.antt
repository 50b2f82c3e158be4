-- ===== src/Inference/Router/Stops.antt =====
-- Where a request must not move on to another provider (inference/router.py).
use the_creation_os.Prelude.{
  String, ◌≡◌, refl, ap, Bool, true, false, not, List, [], ◌∷◌, Option, none, some, Result, ok, err,
  if◌then◌else◌,
}
use the_creation_os.Inference.Contracts.{
  InferenceError, InferenceRequest, InferenceResponse, error_of, unavailable,
}
use the_creation_os.Inference.Health
use the_creation_os.Inference.Router.{
  ModelRouter, World, State, Next, Failure, raised, timeout_error, other_error,
  must_stop_after_provider_failure, is_excluded, stop_or_next, after_call, after_record,
  after_admission, record_failure, try_provider, visit_candidate, route, admit, request_for,
  first_of_failures,
}

if_same {ℓ} :
    {A : Type ℓ} {x x' y y' : A} (b : Bool)
    → x ≡ x'
    → y ≡ y'
    → (if b then x else y) ≡ (if b then x' else y')
if_same true p q = p
if_same false p q = q

module _ (r : ModelRouter) (w : World) (p : String)
    (stops : must_stop_after_provider_failure r p ≡ true) where
  same_stop :
      (e : InferenceError) (first : Option InferenceError) (next other : Next) (s : State)
      → stop_or_next r p e first next s ≡ stop_or_next r p e first other s
  same_stop e first next other s = rw stops refl

  same_caught :
      (e : InferenceError) (first : Option InferenceError) (next other : Next) (s : State)
      (o : Option State)
      → after_record r p e first next s o ≡ after_record r p e first other s o
  same_caught e first next other s none = refl
  same_caught e first next other s (some s') = same_stop e first next other s'

  same_after :
      (reply : Result Failure InferenceResponse) (first : Option InferenceError) (next other : Next)
      (s : State)
      → after_call r w p first next reply s ≡ after_call r w p first other reply s
  same_after (ok response) first next other s = refl
  same_after (err (raised e)) first next other s =
      same_caught e first next other s (record_failure r w p e.class s)
  same_after (err timeout_error) first next other s = refl
  same_after (err other_error) first next other s = refl

  same_try :
      (attempt : InferenceRequest) (first : Option InferenceError) (next other : Next) (s : State)
      → try_provider r w attempt p first next s ≡ try_provider r w attempt p first other s
  unfolding try_provider
  same_try attempt first next other s =
      if_same (not (Health.cooldown_can_attempt s.cooldown p (w.clock s.events)).1)
        (same_stop (error_of unavailable p) first next other _)
        (if_same (not (Health.can_attempt s.circuit p (w.clock s.events)).1)
          (same_stop (error_of unavailable p) first next other _) (same_after _ first next other _))

  same_visit :
      (request : InferenceRequest) (last first : Option InferenceError) (next other : Next)
      (s : State)
      → is_excluded r p ≡ false
      → visit_candidate r w request p next last first s
        ≡ visit_candidate r w request p other last first s
  unfolding visit_candidate
  same_visit request last first next other s h = rw h (
      ap (λ tried. after_admission (admit r (request_for r p request) p) tried s)
        (same_try (request_for r p request) (first_of_failures last first) next other s))

-- Behind a ChatGPT-plan candidate whose fallback is not disclosed no other candidate is ever
-- considered: the outcome, the state and all that is done outside are what they are when that
-- candidate is the last.
pub undisclosed_stop :
    (r : ModelRouter) (w : World) (request : InferenceRequest) (p : String) (ps : List String)
    (last first : Option InferenceError) (s : State)
    → must_stop_after_provider_failure r p ≡ true
    → is_excluded r p ≡ false
    → route r w request (p ∷ ps) last first s ≡ route r w request (p ∷ []) last first s
unfolding route
undisclosed_stop r w request p ps last first s stops h =
    same_visit r w p stops request last first (route r w request ps) (route r w request []) s h
