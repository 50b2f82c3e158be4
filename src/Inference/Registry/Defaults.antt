-- ===== src/Inference/Registry/Defaults.antt =====
-- What the registry of inference/registry.py keeps true of profiles and default models.
use the_creation_os.Prelude.{
  String, ◌≡◌, refl, sym, ap, subst, ◌∙◌, Bool, true, false, List, [], ◌∷◌, ◌++◌, none, some,
  Result, ok, err, if◌then◌else◌, Dict, lookup, insert, inl, inr, ◌⊎◌, string_eq, contains, arith,
  Bool-cases, lookup-insert, lookup-insert_self, found-insert, In, In-of_contains, In-append_left,
  Option-cases,
}
use the_creation_os.Inference.Contracts.{ProviderModelProfile, ProviderBenchmarkEvidence}
use the_creation_os.Inference.Registry.{
  ProviderRegistry, RegistryError, new_registry, register, register_model_profile,
  register_benchmark_evidence, profile_key, pair_eq, pair_beq_iff, get_default_model_profile,
}

-- A profile stands under its own key, of a registered provider.
abbrev pub ProfileIsValid : ProviderRegistry → String × String → ProviderModelProfile → Type 0
ProfileIsValid r k p = (profile_key p ≡ k) × In p.provider r.providers

-- A default model has a profile, and the profile says that it is the default.
abbrev pub DefaultIsValid : ProviderRegistry → String → String → Type 0
DefaultIsValid r provider model =
    (p : ProviderModelProfile) × (lookup (provider, model) r.model_profiles ≡ some p)
    × (p.is_default ≡ true)

pub record IsValid (r : ProviderRegistry) : Type 0 where
  pub profiles :
      (k : String × String) (p : ProviderModelProfile)
      → lookup k r.model_profiles ≡ some p
      → ProfileIsValid r k p
  pub defaults :
      (provider model : String)
      → lookup provider r.default_models ≡ some model
      → DefaultIsValid r provider model

pub new_registry-IsValid : IsValid new_registry
unfolding lookup
new_registry-IsValid = record { profiles = λ k p h. cc; defaults = λ p m h. cc }

register-IsValid :
    (r r' : ProviderRegistry) (name : String) → register r name ≡ ok r' → IsValid r → IsValid r'
unfolding register
register-IsValid r r' name h v = elim (Bool-cases (contains name r.providers)) [
  | inl taken ↦ ground (arith, taken)
  | inr new ↦
      let e : record r { providers = r.providers ++ name ∷ [] } ≡ r' = ground (arith, new) in
      subst IsValid e (record {
        profiles = λ k p f.
            let (key, known) = v.profiles k p f in
            (key, In-append_left p.provider r.providers (name ∷ []) known);
        defaults = v.defaults;
      })
]

-- What a profile that is accepted was checked for, and the registry that it leads to.
accepted :
    (r r' : ProviderRegistry) (p : ProviderModelProfile)
    → register_model_profile r p ≡ ok r'
    → (contains p.provider r.providers ≡ true)
      × (lookup (profile_key p) r.model_profiles ≡ none)
      × ((p.is_default ≡ false) ⊎ (lookup p.provider r.default_models ≡ none))
      × (r' ≡ record r {
        model_profiles = insert (profile_key p) p r.model_profiles;
        default_models =
            if p.is_default then insert p.provider p.model r.default_models else r.default_models;
      })
unfolding register_model_profile
accepted r r' p h = ground arith

-- Adding under a new key keeps what the dict holds.
kept :
    (k key : String × String) (p q : ProviderModelProfile)
    (d : Dict (String × String) ProviderModelProfile)
    → lookup key d ≡ none
    → lookup k d ≡ some q
    → lookup k (insert key p d) ≡ some q
kept k key p q d new old = lookup-insert key k p d ∙ ground (arith, pair_beq_iff key k)

module _ (r : ProviderRegistry) (p : ProviderModelProfile) (v : IsValid r)
    (known : contains p.provider r.providers ≡ true)
    (new : lookup (profile_key p) r.model_profiles ≡ none) where
  abbrev added : Dict (String × String) ProviderModelProfile
  added = insert (profile_key p) p r.model_profiles

  abbrev with_defaults : Dict String String → ProviderRegistry
  with_defaults d = record r { model_profiles = added; default_models = d }

  added_profiles :
      (d : Dict String String) (k : String × String) (q : ProviderModelProfile)
      → lookup k added ≡ some q
      → ProfileIsValid (with_defaults d) k q
  added_profiles d k q h = elim (found-insert (profile_key p) k p q r.model_profiles h) [
    | inl (at_key, same) ↦
        let e : profile_key q ≡ k = ap profile_key (sym same) ∙ at_key in
        (
          e,
          subst (λ x. In x.provider r.providers) same (In-of_contains p.provider r.providers known),
        )
    | inr old ↦ v.profiles k q old
  ]

  old_default :
      (d : Dict String String) (provider model : String)
      → lookup provider r.default_models ≡ some model
      → DefaultIsValid (with_defaults d) provider model
  old_default d provider model h =
      let (q, found, is) = v.defaults provider model h in
      (q, kept (provider, model) (profile_key p) p q r.model_profiles new found, is)

  new_default :
      p.is_default ≡ true
      → (provider model : String)
      → lookup provider (insert p.provider p.model r.default_models) ≡ some model
      → DefaultIsValid (with_defaults (insert p.provider p.model r.default_models)) provider model
  new_default is provider model h =
      elim (found-insert p.provider provider p.model model r.default_models h) [
        | inl (at_provider, same) ↦
            let e : profile_key p ≡ (provider, model) = λ i. (at_provider i, same i) in
            (
              p,
              subst (λ k. lookup k added ≡ some p) e
                  (lookup-insert_self (profile_key p) p r.model_profiles),
              is,
            )
        | inr old ↦ old_default (insert p.provider p.model r.default_models) provider model old
      ]

  added-IsValid :
      (b : Bool)
      → p.is_default ≡ b
      → IsValid (
          with_defaults
            (if b then insert p.provider p.model r.default_models else r.default_models))
  added-IsValid true is = record {
    profiles = added_profiles (insert p.provider p.model r.default_models);
    defaults = new_default is;
  }
  added-IsValid false is = record {
    profiles = added_profiles r.default_models;
    defaults = old_default r.default_models;
  }

-- A call that changes the registry; one that raises leaves it as it was.
pub data Call : Type 0 where
  registers : String → Call
  registers_profile : ProviderModelProfile → Call
  registers_evidence : ProviderBenchmarkEvidence → Call

abbrev pub after : ProviderRegistry → Result RegistryError ProviderRegistry → ProviderRegistry
after r (ok r') = r'
after r (err e) = r

abbrev pub step : ProviderRegistry → Call → ProviderRegistry
step r (registers name) = after r (register r name)
step r (registers_profile p) = after r (register_model_profile r p)
step r (registers_evidence e) = after r (register_benchmark_evidence r e)

abbrev pub run : ProviderRegistry → List Call → ProviderRegistry
run r [] = r
run r (c ∷ cs) = run (step r c) cs

after-IsValid :
    (r : ProviderRegistry) (o : Result RegistryError ProviderRegistry)
    → IsValid r
    → ((r' : ProviderRegistry) → o ≡ ok r' → IsValid r')
    → IsValid (after r o)
after-IsValid r (ok r') v f = f r' refl
after-IsValid r (err e) v f = v

profile-IsValid :
    (r r' : ProviderRegistry) (p : ProviderModelProfile)
    → IsValid r
    → register_model_profile r p ≡ ok r'
    → IsValid r'
profile-IsValid r r' p v h =
    let (known, new, room, e) = accepted r r' p h in
    subst IsValid (sym e) (added-IsValid r p v known new p.is_default refl)

evidence-IsValid :
    (r r' : ProviderRegistry) (x : ProviderBenchmarkEvidence)
    → IsValid r
    → register_benchmark_evidence r x ≡ ok r'
    → IsValid r'
unfolding register_benchmark_evidence
evidence-IsValid r r' x v h =
    let e : record r { benchmark_evidence = r.benchmark_evidence ++ x ∷ [] } ≡ r' = ground arith in
    subst IsValid e (record { profiles = v.profiles; defaults = v.defaults })

step-IsValid : (r : ProviderRegistry) (c : Call) → IsValid r → IsValid (step r c)
step-IsValid r (registers name) v =
    after-IsValid r (register r name) v (λ r' h. register-IsValid r r' name h v)
step-IsValid r (registers_profile p) v =
    after-IsValid r (register_model_profile r p) v (λ r' h. profile-IsValid r r' p v h)
step-IsValid r (registers_evidence x) v =
    after-IsValid r (register_benchmark_evidence r x) v (λ r' h. evidence-IsValid r r' x v h)

calls-IsValid : (r : ProviderRegistry) (cs : List Call) → IsValid r → IsValid (run r cs)
calls-IsValid r [] v = v
calls-IsValid r (c ∷ cs) v = calls-IsValid (step r c) cs (step-IsValid r c v)

-- The default profile of a provider, as it is found.
abbrev pub IsDefaultOf : ProviderRegistry → String → ProviderModelProfile → Type 0
IsDefaultOf r provider p =
    (p.provider ≡ provider)
    × (lookup provider r.default_models ≡ some p.model)
    × (p.is_default ≡ true)
    × In provider r.providers

default_found :
    (r : ProviderRegistry) (provider : String)
    → IsValid r
    → ((get_default_model_profile r provider ≡ none) × (lookup provider r.default_models ≡ none))
      ⊎ ((p : ProviderModelProfile) × (get_default_model_profile r provider ≡ some p)
          × IsDefaultOf r provider p)
unfolding get_default_model_profile
default_found r provider v = elim (Option-cases (lookup provider r.default_models)) [
  | inl missing ↦ inl (rw (missing, get_default_model_profile) refl, missing)
  | inr (model, found) ↦
      let (p, at_key, is) = v.defaults provider model found in
      let (key, known) = v.profiles (provider, model) p at_key in
      let same_provider : p.provider ≡ provider = ap (λ (k : String × String). k.0) key in
      let same_model : p.model ≡ model = ap (λ (k : String × String). k.1) key in
      inr (
        p,
        rw (found, get_default_model_profile) at_key,
        (
          same_provider,
          found ∙ ap some (sym same_model),
          is,
          subst (λ n. In n r.providers) same_provider known,
        ),
      )
]

-- After any calls from the empty registry a default model never dangles: asking for a provider's
-- default profile gives a profile of that provider and of its default model that is marked as the
-- default, of a provider that is registered, and gives none only where no default was registered.
pub default_profile :
    (cs : List Call) (provider : String)
    → let r = run new_registry cs in
      ((get_default_model_profile r provider ≡ none) × (lookup provider r.default_models ≡ none))
      ⊎ ((p : ProviderModelProfile) × (get_default_model_profile r provider ≡ some p)
          × IsDefaultOf r provider p)
default_profile cs provider =
    default_found (run new_registry cs) provider
      (calls-IsValid new_registry cs new_registry-IsValid)
