-- ===== src/Inference/Router/Gates.antt =====
-- Which providers a request may reach at all (inference/router.py).
use the_creation_os.Prelude.{
  ◌≤◌, String, ◌≡◌, ◌≢◌, refl, sym, subst, true, false, not, List, [], ◌∷◌, Option, none, some,
  Result, ok, err, ◌⊎◌, inl, inr, Bool-cases, arith, In, In-of_contains, All, contains, all_iff,
  string_eq, if_both,
}
use the_creation_os.Prelude.Json
use the_creation_os.Prelude.Json.{truthy}
use the_creation_os.Inference.Contracts.{
  InferenceError, InferenceRequest, InferenceResponse, ErrorClass, error_of, unavailable,
  ProviderModelProfile, ProviderHealth, CostTier, unknown, tier_order, inference, configuration,
}
use the_creation_os.Inference.Health
use the_creation_os.Inference.Router.{
  covers, require_capabilities, ModelRouter, World, State, Next, Outcome, Failure, raised,
  timeout_error, other_error, must_stop_after_provider_failure, is_excluded, stop_or_next,
  after_call, after_record, after_admission, record_failure, try_provider, visit_candidate, route,
  generate, admit, admit_capabilities, admit_budget, request_for, profile_for_request,
  call_provider, call_generate, after_health, first_of_failures, Event, clock_read, asked_health,
  called, candidate_names,
}

-- The model that would serve the request is known to have every capability that it requires.
abbrev pub HasCapabilities : ModelRouter → String → InferenceRequest → Type 0
HasCapabilities r p a =
    (a.requirements.required_capabilities ≡ [])
    ⊎ ((profile : ProviderModelProfile) × (profile_for_request r p a ≡ some profile)
        × ((c : String) → In c a.requirements.required_capabilities → In c profile.capabilities))

-- Its cost is known and at most the ceiling, where the request has one.
abbrev pub IsWithinBudget : ModelRouter → String → InferenceRequest → Type 0
IsWithinBudget r p a =
    (a.requirements.max_cost_tier ≡ none)
    ⊎ ((ceiling : CostTier) × (profile : ProviderModelProfile) × (a.requirements.max_cost_tier
          ≡ some ceiling)
        × (profile_for_request r p a ≡ some profile)
        × (profile.cost_tier ≢ unknown)
        × (tier_order profile.cost_tier ≤ tier_order ceiling))

pub record IsAdmitted (r : ModelRouter) (p : String) (a : InferenceRequest) : Type 0 where
  pub registered : In p r.registry.providers
  pub capable : HasCapabilities r p a
  pub affordable : IsWithinBudget r p a

covered :
    (p : String) (required : List String) (o : Option ProviderModelProfile)
    → require_capabilities p required o ≡ ok tt
    → (required ≡ [])
      ⊎ ((profile : ProviderModelProfile) × (o ≡ some profile)
          × ((c : String) → In c required → In c profile.capabilities))
covered p [] o h = inl refl
covered p (c ∷ cs) none h = cc
covered p (c ∷ cs) (some profile) h =
    let all_in : covers (c ∷ cs) profile.capabilities ≡ true = ground arith in
    inr (
      profile,
      refl,
      λ x m.
          In-of_contains x profile.capabilities
            ((all_iff (λ y. contains y profile.capabilities) (c ∷ cs)).0 all_in x m),
    )

admit-HasCapabilities :
    (r : ModelRouter) (p : String) (a : InferenceRequest)
    → admit_capabilities r p a ≡ ok tt
    → HasCapabilities r p a
unfolding admit_capabilities
admit-HasCapabilities r p a h =
    covered p a.requirements.required_capabilities (profile_for_request r p a) h

admit-IsWithinBudget :
    (r : ModelRouter) (p : String) (a : InferenceRequest)
    → admit_budget r p a ≡ ok tt
    → IsWithinBudget r p a
unfolding admit_budget
admit-IsWithinBudget r p a h = ground arith

admit_parts :
    (r : ModelRouter) (p : String) (a : InferenceRequest)
    → admit r a p ≡ ok tt
    → (contains p r.registry.providers ≡ true)
      × (admit_capabilities r p a ≡ ok tt)
      × (admit_budget r p a ≡ ok tt)
unfolding admit
admit_parts r p a h = ground arith

admit-IsAdmitted :
    (r : ModelRouter) (p : String) (a : InferenceRequest) → admit r a p ≡ ok tt → IsAdmitted r p a
admit-IsAdmitted r p a h =
    let (known, capable, affordable) = admit_parts r p a h in
    record {
      registered = In-of_contains p r.registry.providers known;
      capable = admit-HasCapabilities r p a capable;
      affordable = admit-IsWithinBudget r p a affordable;
    }

-- A provider is asked for its health or for an answer only if the router does not exclude it and the
-- request that it gets passes the gates.
abbrev pub Permitted : ModelRouter → InferenceRequest → Event → Type 0
Permitted r request clock_read = Unit
Permitted r request (asked_health p a) =
    (is_excluded r p ≡ false) × (a ≡ request_for r p request) × IsAdmitted r p a
Permitted r request (called p a deadline) =
    (is_excluded r p ≡ false) × (a ≡ request_for r p request) × IsAdmitted r p a

module _ (r : ModelRouter) (w : World) (request : InferenceRequest) where
  abbrev Kept : State → Type 0
  Kept s = All (Permitted r request) s.events

  abbrev KeepsNext : Next → Type 0
  KeepsNext next =
      (last first : Option InferenceError) (s : State) → Kept s → Kept (next last first s).1

  module _ (p : String) (next : Next) (keeps : KeepsNext next) where
    stop-Kept :
        (e : InferenceError) (first : Option InferenceError) (s : State)
        → Kept s
        → Kept (stop_or_next r p e first next s).1
    stop-Kept e first s k = elim (Bool-cases (must_stop_after_provider_failure r p)) [
      | inl stops ↦ rw stops k
      | inr goes ↦ rw goes (keeps (some e) first s k)
    ]

    recorded-Kept :
        (e : InferenceError) (first : Option InferenceError) (s : State) (o : Option State)
        → Kept s
        → ((s' : State) → o ≡ some s' → Kept s')
        → Kept (after_record r p e first next s o).1
    recorded-Kept e first s none k f = k
    recorded-Kept e first s (some s') k f = stop-Kept e first s' (f s' refl)

    record_failure-Kept :
        (class : ErrorClass) (s s' : State)
        → Kept s
        → record_failure r w p class s ≡ some s'
        → Kept s'
    unfolding record_failure
    record_failure-Kept inference s s' k h = cc
    record_failure-Kept configuration s s' k h = cc
    record_failure-Kept _ s s' k h =
        let e : clock_read ∷ s.events ≡ s'.events = ground arith in
        subst (All (Permitted r request)) e (tt, k)

    after-Kept :
        (reply : Result Failure InferenceResponse) (first : Option InferenceError) (s : State)
        → Kept s
        → Kept (after_call r w p first next reply s).1
    after-Kept (ok response) first s k = k
    after-Kept (err (raised e)) first s k =
        recorded-Kept e first s (record_failure r w p e.class s) k
          (λ s' h. record_failure-Kept e.class s s' k h)
    after-Kept (err timeout_error) first s k = k
    after-Kept (err other_error) first s k = k

    module _ (a : InferenceRequest) (may : Permitted r request (asked_health p a)) where
      generate-Kept : (s : State) → Kept s → Kept (call_generate w p a s).1
      unfolding call_generate
      generate-Kept s k = (may, k)

      health-Kept :
          (h : Result Failure ProviderHealth) (s : State) → Kept s → Kept (after_health w p a h s).1
      health-Kept (err f) s k = k
      health-Kept (ok h) s k = elim (Bool-cases h.available) [
        | inl up ↦ rw up (generate-Kept s k)
        | inr down ↦ rw down k
      ]

      call-Kept : (s : State) → Kept s → Kept (call_provider w p a s).1
      unfolding call_provider
      call-Kept s k = elim (Bool-cases (truthy (Json.get "skip_health_probe" a.metadata))) [
        | inl skip ↦ rw skip (generate-Kept s k)
        | inr ask ↦ rw ask (health-Kept (w.health s.events p) _ (may, k))
      ]

      try-Kept :
          (first : Option InferenceError) (s : State)
          → Kept s
          → Kept (try_provider r w a p first next s).1
      unfolding try_provider
      try-Kept first s k =
          if_both (λ (o : Outcome × State). Kept o.1)
            (not (Health.cooldown_can_attempt s.cooldown p (w.clock s.events)).1)
            (stop-Kept (error_of unavailable p) first _ (tt, k))
            (if_both (λ (o : Outcome × State). Kept o.1)
              (not (Health.can_attempt s.circuit p (w.clock s.events)).1)
              (stop-Kept (error_of unavailable p) first _ (tt, k))
              (after-Kept _ first _ (call-Kept _ (tt, k))))

    admission-Kept :
        (o : Result InferenceError (Unit {0})) (first : Option InferenceError) (s : State)
        → is_excluded r p ≡ false
        → admit r (request_for r p request) p ≡ o
        → Kept s
        → Kept (after_admission o (try_provider r w (request_for r p request) p first next s) s).1
    admission-Kept (err e) first s out h k = k
    admission-Kept (ok u) first s out h k =
        try-Kept (request_for r p request)
          (out, refl, admit-IsAdmitted r p (request_for r p request) h) first s k

    visit-Kept :
        (last first : Option InferenceError) (s : State)
        → Kept s
        → Kept (visit_candidate r w request p next last first s).1
    unfolding visit_candidate
    visit-Kept last first s k = elim (Bool-cases (is_excluded r p)) [
      | inl out ↦ rw out (keeps last first s k)
      | inr may ↦ rw may (
          admission-Kept (admit r (request_for r p request) p) (first_of_failures last first) s may
            refl k)
    ]

  route-Kept : (ps : List String) → KeepsNext (route r w request ps)
  unfolding route
  route-Kept [] none first s k = k
  route-Kept [] (some e) first s k = k
  route-Kept (p ∷ ps) last first s k =
      visit-Kept p (route r w request ps) (route-Kept ps) last first s k

-- Whatever the providers answer, a request reaches only providers that are registered and not
-- excluded, with evidence of every capability that it requires and a known cost within its ceiling;
-- falling back opens no gate.
pub generate-Permitted :
    (r : ModelRouter) (w : World) (request : InferenceRequest) (s : State)
    → s.events ≡ []
    → All (Permitted r request) (generate r w request s).1.events
unfolding generate
generate-Permitted r w request s h =
    route-Kept r w request (candidate_names r request) none none s
      (subst (All (Permitted r request)) (sym h) tt)
