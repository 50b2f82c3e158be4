-- ===== src/Inference/Registry.antt =====
-- backend/app/inference/registry.py: the providers, their model profiles and default models, and the
-- benchmark evidence. What a provider does is not part of the registry: it is known by its name.
pub mod Defaults
mod Tests
use the_creation_os.Prelude.{
  ℕ, String, ◌≡◌, Bool, true, false, not, ◌&&◌, ◌||◌, List, [], ◌∷◌, ◌++◌, Option, none, some,
  Result, ok, err, guard, ◌>>=◌, ◌>>◌, ltb, if◌then◌else◌, Dict, lookup, insert, is_some, Eq, ◌==◌,
  string_eq, nat_eq, contains, arith, ◌↔◌, refl, ap, map,
}
use text.Mathlib.Text.{◌==◌ as str_eq}
use Prim.Native.String.{compare}
use Prim.Native.Nat.{Ordering}
use the_creation_os.Inference.Contracts.{ProviderModelProfile, ProviderBenchmarkEvidence}

pub data RegistryError : Type 0 where
  already_registered not_registered profile_already_registered default_already_registered :
      RegistryError
  evidence_already_registered provider_unavailable : RegistryError

-- The keys `(provider, model)` and `(provider, model, suite_id)`.
abbrev pub pair_beq : String × String → String × String → Bool
pair_beq (p, m) (q, n) = (p == q) && (m == n)

pub pair_beq_iff : (a b : String × String) → (pair_beq a b ≡ true) ↔ (a ≡ b)
pair_beq_iff (p, m) (q, n) = ground (arith, string_eq.beq_iff p q, string_eq.beq_iff m n)

instance abbrev pub pair_eq : Eq (String × String)
pair_eq = record { beq = pair_beq; beq_iff = pair_beq_iff }

pub record ProviderRegistry : Type 0 where
  pub providers : List String
  pub model_profiles : Dict (String × String) ProviderModelProfile
  pub default_models : Dict String String
  pub benchmark_evidence : List ProviderBenchmarkEvidence

abbrev pub new_registry : ProviderRegistry
new_registry = record {
  providers = [];
  model_profiles = [];
  default_models = [];
  benchmark_evidence = [];
}

unfoldable pub register : ProviderRegistry → String → Result RegistryError ProviderRegistry
register r name = do
  guard (not (contains name r.providers)) already_registered
  ok (record r { providers = r.providers ++ name ∷ [] })

unfoldable pub get : ProviderRegistry → String → Result RegistryError String
get r name = if contains name r.providers then ok name else err provider_unavailable

abbrev pub profile_key : ProviderModelProfile → String × String
profile_key p = (p.provider, p.model)

unfoldable pub register_model_profile :
    ProviderRegistry → ProviderModelProfile → Result RegistryError ProviderRegistry
register_model_profile r p = do
  guard (contains p.provider r.providers) not_registered
  guard (not (is_some (lookup (profile_key p) r.model_profiles))) profile_already_registered
  guard (not (p.is_default && is_some (lookup p.provider r.default_models)))
      default_already_registered
  ok (record r {
    model_profiles = insert (profile_key p) p r.model_profiles;
    default_models =
        if p.is_default then insert p.provider p.model r.default_models else r.default_models;
  })

unfoldable pub get_model_profile : ProviderRegistry → String → String → Option ProviderModelProfile
get_model_profile r provider model = lookup (provider, model) r.model_profiles

unfoldable pub get_default_model_profile : ProviderRegistry → String → Option ProviderModelProfile
get_default_model_profile r provider = elim (lookup provider r.default_models) [
  | none ↦ none
  | some model ↦ lookup (provider, model) r.model_profiles
]

-- The `(provider, model, suite_id)` of a piece of evidence.
abbrev same_evidence : ProviderBenchmarkEvidence → ProviderBenchmarkEvidence → Bool
same_evidence a b =
    (a.provider == b.provider) && ((a.model == b.model) && (a.suite_id == b.suite_id))

abbrev has_evidence : ProviderBenchmarkEvidence → List ProviderBenchmarkEvidence → Bool
has_evidence e [] = false
has_evidence e (x ∷ xs) = same_evidence e x || has_evidence e xs

unfoldable pub register_benchmark_evidence :
    ProviderRegistry → ProviderBenchmarkEvidence → Result RegistryError ProviderRegistry
register_benchmark_evidence r e = do
  guard (contains e.provider r.providers) not_registered
  guard (not (has_evidence e r.benchmark_evidence)) evidence_already_registered
  ok (record r { benchmark_evidence = r.benchmark_evidence ++ e ∷ [] })

abbrev text_lt : String → String → Bool
text_lt a b = elim (compare a b) [ Ordering.lt ↦ true | _ ↦ false ]

-- The order of `(observed_at, suite_id)`.
abbrev older : ProviderBenchmarkEvidence → ProviderBenchmarkEvidence → Bool
older a b =
    ltb a.observed_at b.observed_at
    || ((a.observed_at == b.observed_at) && text_lt a.suite_id b.suite_id)

-- `max` keeps the first of the greatest.
abbrev newest :
    ProviderBenchmarkEvidence → List ProviderBenchmarkEvidence → ProviderBenchmarkEvidence
newest best [] = best
newest best (e ∷ es) = newest (if older best e then e else best) es

abbrev matches : String → String → List ProviderBenchmarkEvidence → List ProviderBenchmarkEvidence
matches provider model [] = []
matches provider model (e ∷ es) =
    let rest = matches provider model es in
    if (e.provider == provider) && (e.model == model) then e ∷ rest else rest

abbrev newest_of : List ProviderBenchmarkEvidence → Option ProviderBenchmarkEvidence
newest_of [] = none
newest_of (e ∷ es) = some (newest e es)

unfoldable pub get_benchmark_evidence :
    ProviderRegistry → String → String → Option ProviderBenchmarkEvidence
get_benchmark_evidence r provider model = newest_of (matches provider model r.benchmark_evidence)

unfoldable pub names : ProviderRegistry → List String
names r = r.providers
