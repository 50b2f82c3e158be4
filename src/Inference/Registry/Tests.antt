-- ===== src/Inference/Registry/Tests.antt =====
-- A witness for inference/registry.py.
use the_creation_os.Prelude.{◌≡◌, true, List, [], ◌∷◌, none, some, ◌⊎◌, lookup, string_eq}
use the_creation_os.Inference.Contracts.{low, ProviderModelProfile}
use the_creation_os.Inference.Registry.{new_registry, get_default_model_profile}
use the_creation_os.Inference.Registry.Defaults.{
  Call, registers, registers_profile, run, IsDefaultOf, default_profile,
}

abbrev served : ProviderModelProfile
served = record {
  provider = "a";
  model = "m";
  capabilities = "chat" ∷ [];
  cost_tier = low;
  is_default = true;
}

abbrev calls : List Call
calls = registers "a" ∷ registers_profile served ∷ registers_profile served ∷ []

default_profile_example :
    ((get_default_model_profile (run new_registry calls) "a" ≡ none)
      × (lookup "a" (run new_registry calls).default_models ≡ none))
    ⊎ ((p : ProviderModelProfile) × (get_default_model_profile (run new_registry calls) "a"
          ≡ some p)
        × IsDefaultOf (run new_registry calls) "a" p)
default_profile_example = default_profile calls "a"
