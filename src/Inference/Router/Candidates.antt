-- ===== src/Inference/Router/Candidates.antt =====
-- The router's configuration, its list of candidates, and the checks before a call
-- (inference/router.py).
use the_creation_os.Prelude.{
  ℕ, ◌+◌, String, Bool, true, false, not, ◌&&◌, ◌||◌, List, [], ◌∷◌, ◌++◌, map, Option, none, some,
  Result, ok, err, guard, ltb, leb, if◌then◌else◌, ◌==◌, string_eq, nat_eq, codes_eq, contains,
  keep_if, all, codes, normalize,
}
use the_creation_os.Prelude.Json.{Json, Fields, number, object, get}
use the_creation_os.Inference.Contracts.{
  CostTier, unknown, tier_order, RoutingStrategy, ordered, benchmark, ModelRequirements,
  ProviderModelProfile, InferenceRequest, InferenceError, unavailable, budget, error_of,
}
use the_creation_os.Inference.Registry
use the_creation_os.Inference.Registry.{ProviderRegistry}

pub record ModelRouter : Type 0 where
  pub registry : ProviderRegistry
  pub rate_limit_cooldown_seconds : ℕ
  pub fallback_providers : List String
  pub disclosed_fallback_after : List (List ℕ)
  pub excluded_providers : List (List ℕ)

-- `__init__`; the breaker and the cooldown are in the state that the router is run on.
pub new_router : ProviderRegistry → ℕ → List String → List String → List String → ModelRouter
new_router registry cooldown_seconds fallback disclosed excluded = record {
  registry = registry;
  rate_limit_cooldown_seconds = cooldown_seconds;
  fallback_providers = fallback;
  disclosed_fallback_after = map normalize disclosed;
  excluded_providers = map normalize excluded;
}

unfoldable pub must_stop_after_provider_failure : ModelRouter → String → Bool
must_stop_after_provider_failure r provider_name =
    let name = normalize provider_name in
    (name == codes "chatgpt") && not (contains name r.disclosed_fallback_after)

unfoldable pub is_excluded : ModelRouter → String → Bool
is_excluded r provider_name = contains (normalize provider_name) r.excluded_providers

-- A number that is no bool and is positive.
abbrev positive : Option Json → Option ℕ
positive (some (number n)) = if ltb 0 n then some n else none
positive _ = none

abbrev timeout_value : String → Option Json → Fields → Option Json
timeout_value provider (some (object by_provider)) metadata = elim (get provider by_provider) [
  | some value ↦ some value
  | none ↦ get "attempt_timeout_seconds" metadata
]
timeout_value provider _ metadata = get "attempt_timeout_seconds" metadata

unfoldable pub attempt_timeout : String → Fields → Option ℕ
attempt_timeout provider metadata =
    positive (timeout_value provider (get "attempt_timeout_seconds_by_provider" metadata) metadata)

unfoldable pub profile_for_request :
    ModelRouter → String → InferenceRequest → Option ProviderModelProfile
profile_for_request r provider request = elim request.model [
  | some model ↦ Registry.get_model_profile r.registry provider model
  | none ↦ Registry.get_default_model_profile r.registry provider
]

-- `candidates.extend(name for name in names if name not in candidates)`: the test sees what the
-- loop has appended.
abbrev extend_new : List String → List String → List String
extend_new candidates [] = candidates
extend_new candidates (name ∷ names) =
    extend_new (if contains name candidates then candidates else candidates ++ name ∷ []) names

abbrev preferred : Option String → List String
preferred none = []
preferred (some name) = if name == "" then [] else name ∷ []

-- The tuple `(0 or 1, -score, index, name)` that is sorted.
pub record Ranked : Type 0 where
  pub unproven : ℕ
  pub score : ℕ
  pub index : ℕ
  pub name : String

abbrev before : Ranked → Ranked → Bool
before a b =
    ltb a.unproven b.unproven
    || ((a.unproven == b.unproven)
        && (ltb b.score a.score || ((a.score == b.score) && leb a.index b.index)))

abbrev insert_ranked : Ranked → List Ranked → List Ranked
insert_ranked a [] = a ∷ []
insert_ranked a (b ∷ bs) =
    let rest = insert_ranked a bs in if before a b then a ∷ b ∷ bs else b ∷ rest

abbrev sort_ranked : List Ranked → List Ranked
sort_ranked [] = []
sort_ranked (a ∷ as') = insert_ranked a (sort_ranked as')

abbrev evidence_score : ModelRouter → String → InferenceRequest → Option ℕ
evidence_score r name request = elim (profile_for_request r name request) [
  | none ↦ none
  | some profile ↦ elim (Registry.get_benchmark_evidence r.registry name profile.model) [
    | none ↦ none
    | some evidence ↦ some evidence.score
  ]
]

abbrev rank : Option ℕ → ℕ → String → Ranked
rank none index name = record { unproven = 1; score = 0; index = index; name = name }
rank (some score) index name = record { unproven = 0; score = score; index = index; name = name }

abbrev ranked_from : ModelRouter → InferenceRequest → ℕ → List String → List Ranked
ranked_from r request index [] = []
ranked_from r request index (name ∷ names) =
    rank (evidence_score r name request) index name ∷ ranked_from r request (index + 1) names

unfoldable pub rank_by_benchmark : ModelRouter → InferenceRequest → List String → List String
rank_by_benchmark r request candidates =
    map (λ a. a.name) (sort_ranked (ranked_from r request 0 candidates))

abbrev by_strategy : RoutingStrategy → List String → List String → List String
by_strategy benchmark ranked asked = ranked
by_strategy ordered ranked asked = asked

unfoldable pub candidate_names : ModelRouter → InferenceRequest → List String
candidate_names r request =
    let requirements = request.requirements in
    let asked =
      extend_new (preferred requirements.preferred_provider) requirements.fallback_providers in
    let candidates =
      by_strategy requirements.routing_strategy (rank_by_benchmark r request asked) asked in
    candidates ++ keep_if (λ name. not (contains name candidates)) r.fallback_providers

abbrev pub covers : List String → List String → Bool
covers required capabilities = all (λ c. contains c capabilities) required

abbrev pub require_capabilities :
    String → List String → Option ProviderModelProfile → Result InferenceError (Unit {0})
require_capabilities provider [] profile = ok tt
require_capabilities provider (c ∷ cs) none = err (error_of unavailable provider)
require_capabilities provider (c ∷ cs) (some profile) =
    guard (covers (c ∷ cs) profile.capabilities) (error_of unavailable provider)

unfoldable pub admit_capabilities :
    ModelRouter → String → InferenceRequest → Result InferenceError (Unit {0})
admit_capabilities r provider request =
    require_capabilities provider request.requirements.required_capabilities
      (profile_for_request r provider request)

-- The tier of a known cost.
abbrev within : CostTier → CostTier → Bool
within ceiling unknown = false
within ceiling tier = leb (tier_order tier) (tier_order ceiling)

unfoldable pub admit_budget :
    ModelRouter → String → InferenceRequest → Result InferenceError (Unit {0})
admit_budget r provider request = elim request.requirements.max_cost_tier [
  | none ↦ ok tt
  | some ceiling ↦ elim (profile_for_request r provider request) [
    | none ↦ err (error_of budget provider)
    | some profile ↦ guard (within ceiling profile.cost_tier) (error_of budget provider)
  ]
]

abbrev is_requested : String → ModelRequirements → Bool
is_requested name requirements =
    elim requirements.preferred_provider [ none ↦ false | some p ↦ name == p ]
    || contains name requirements.fallback_providers

abbrev knows_model : ModelRouter → String → String → Bool
knows_model r provider model = elim (Registry.get_model_profile r.registry provider model) [
  | none ↦ false
  | some p ↦ true
]

-- A last-resort fallback that does not know the requested model serves its own default.
unfoldable pub request_for : ModelRouter → String → InferenceRequest → InferenceRequest
request_for r provider request = elim request.model [
  | none ↦ request
  | some model ↦
      if is_requested provider request.requirements
        || (not (contains provider r.fallback_providers) || knows_model r provider model)
      then request
      else record request { model = none }
]
