-- ===== src/Capabilities/Policy/Decision.antt =====
-- What the policy of capabilities/policy.py allows, in words of its own.
use the_creation_os.Prelude.{
  ℕ, ◌<◌, String, ◌≡◌, ◌↔◌, ◌⊎◌, inl, inr, refl, sym, ap, subst, Bool, true, false, not, Option,
  none, some, Result, ok, guard, ◌>>=◌, ◌==◌, string_eq, contains, arith, eq_iff, In,
  In-of_contains, contains-of_In, not-In_of_contains, not-contains_of_In, Option-cases,
}
use the_creation_os.Prelude.Json.{Json, Items, Fields, null, text, array, object, get, texts}
use the_creation_os.Capabilities.Contracts.{at_most_once, CapabilityIntent, MissionAuthorization}
use the_creation_os.Capabilities.Policy.{
  CapabilityDeclaration, effective_idempotency_class, check_actions_of, check_actions, check_named,
  check_resources, check_scope, check_instant, check_expiry, has_key, check_effects,
  authorize_capability,
}

-- The authorization has no end, or an end that is in the future.
abbrev pub IsUnexpired : (String → Option ℕ) → ℕ → Option String → Type 0
IsUnexpired instant_of now expires_at =
    (expires_at ≡ none)
    ⊎ ((t : String) × (end : ℕ) × (expires_at ≡ some t) × (instant_of t ≡ some end) × (now < end))

-- The scope's entry "actions" narrows nothing, or has no entry for the capability, or names the
-- action there.
abbrev pub AllowsAction : CapabilityIntent → Option Json → Type 0
AllowsAction intent actions =
    ((actions ≡ none) ⊎ (actions ≡ some null))
    ⊎ ((by_capability : Fields) × (actions ≡ some (object by_capability))
        × ((get intent.capability by_capability ≡ none)
            ⊎ ((get intent.capability by_capability ≡ some (text intent.action))
                ⊎ ((items : Items) × (get intent.capability by_capability ≡ some (array items))
                    × In intent.action (texts items)))))

-- The scope's entry "resources" narrows nothing, or the request names a resource that it lists.
abbrev pub AllowsResource : CapabilityIntent → Option Json → Type 0
AllowsResource intent resources =
    ((resources ≡ none) ⊎ (resources ≡ some null))
    ⊎ ((resource : String) × (intent.resource ≡ some resource)
        × ((resources ≡ some (text resource))
            ⊎ ((items : Items) × (resources ≡ some (array items)) × In resource (texts items))))

-- What the Creator's authorization and the adapter's own declaration let an Agent do.
pub record Allows (instant_of : String → Option ℕ) (now : ℕ) (intent : CapabilityIntent)
    (authorization : MissionAuthorization) (declared : CapabilityDeclaration) : Type 0 where
  pub unexpired : IsUnexpired instant_of now authorization.expires_at
  pub not_denied : ¬ In intent.capability authorization.denied_capabilities
  pub granted : In intent.capability authorization.allowed_capabilities
  pub action : AllowsAction intent (get "actions" authorization.scope)
  pub resource : AllowsResource intent (get "resources" authorization.scope)
  pub effects :
      (declared.external_effect ≡ true) ⊎ (intent.external_effect ≡ true)
      → authorization.external_effects_allowed ≡ true
  pub key :
      (declared.minimum_idempotency_class ≡ at_most_once)
        ⊎ (intent.idempotency_class ≡ at_most_once)
      → has_key intent.idempotency_key ≡ true

expiry_iff :
    (instant_of : String → Option ℕ) (now : ℕ) (o : Option String)
    → (check_expiry instant_of now o ≡ ok tt) ↔ IsUnexpired instant_of now o
expiry_iff instant_of now none = (λ h. inl refl, λ h. refl)
expiry_iff instant_of now (some t) = (forth, back)
  where
    forth : check_instant now (instant_of t) ≡ ok tt → IsUnexpired instant_of now (some t)
    forth h = elim (Option-cases (instant_of t)) [
      | inl missing ↦ ground (arith, missing)
      | inr (end, found) ↦ inr (t, end, refl, found, ground (arith, found))
    ]

    back : IsUnexpired instant_of now (some t) → check_instant now (instant_of t) ≡ ok tt
    back h = ground arith

actions_of_iff :
    (intent : CapabilityIntent) (o : Option Json)
    → (check_actions_of intent o ≡ ok tt) ↔ (
        (o ≡ none)
        ⊎ ((o ≡ some (text intent.action))
            ⊎ ((items : Items) × (o ≡ some (array items)) × In intent.action (texts items))))
actions_of_iff intent none = (λ h. inl refl, λ h. refl)
actions_of_iff intent (some (text s)) = (
  λ h. inr (inl (ap (λ x. some (text x)) (sym ((eq_iff intent.action s).0 (ground arith))))),
  λ h. ground (arith, eq_iff intent.action s),
)
actions_of_iff intent (some (array items)) = (
  λ h. inr (inr (items, refl, In-of_contains intent.action (texts items) (ground arith))),
  λ h. ground (arith, contains-of_In intent.action (texts items)),
)
actions_of_iff intent (some _) = (λ h. cc, λ h. ground arith)

actions_iff :
    (intent : CapabilityIntent) (o : Option Json)
    → (check_actions intent o ≡ ok tt) ↔ AllowsAction intent o
actions_iff intent none = (λ h. inl (inl refl), λ h. refl)
actions_iff intent (some null) = (λ h. inl (inr refl), λ h. refl)
actions_iff intent (some (object fs)) =
    (λ h. inr (fs, refl, (actions_of_iff intent (get intent.capability fs)).0 h), back)
  where
    back :
        AllowsAction intent (some (object fs))
        → check_actions_of intent (get intent.capability fs) ≡ ok tt
    back (inl (inl h)) = cc
    back (inl (inr h)) = cc
    back (inr (gs, h, entry)) =
        let e : gs ≡ fs = cc in
        (actions_of_iff intent (get intent.capability fs)).1 (
          subst
            (λ x.
              (get intent.capability x ≡ none)
              ⊎ ((get intent.capability x ≡ some (text intent.action))
                  ⊎ ((items : Items) × (get intent.capability x ≡ some (array items))
                      × In intent.action (texts items))))
            e entry)
actions_iff intent (some _) = (λ h. cc, λ h. ground arith)

named_iff :
    (o : Option String) (allowed : String → Bool)
    → (check_named o allowed ≡ ok tt) ↔ ((r : String) × (o ≡ some r) × (allowed r ≡ true))
named_iff none allowed = (λ h. cc, λ (r, h, a). cc)
named_iff (some r) allowed = (λ h. (r, refl, ground arith), λ h. ground arith)

resources_iff :
    (intent : CapabilityIntent) (o : Option Json)
    → (check_resources intent o ≡ ok tt) ↔ AllowsResource intent o
resources_iff intent none = (λ h. inl (inl refl), λ h. refl)
resources_iff intent (some null) = (λ h. inl (inr refl), λ h. refl)
resources_iff intent (some (text s)) = (
  λ h.
      let (r, named, a) = (named_iff intent.resource (λ r. r == s)).0 h in
      inr (r, named, inl (ap (λ x. some (text x)) (sym ((eq_iff r s).0 a)))),
  back,
)
  where
    back : AllowsResource intent (some (text s)) → check_resources intent (some (text s)) ≡ ok tt
    back (inl (inl h)) = cc
    back (inl (inr h)) = cc
    back (inr (r, named, inl h)) =
        (named_iff intent.resource (λ r. r == s)).1 (r, named, (eq_iff r s).1 cc)
    back (inr (r, named, inr (items, h, m))) = cc
resources_iff intent (some (array items)) = (
  λ h.
      let (r, named, a) = (named_iff intent.resource (λ r. contains r (texts items))).0 h in
      inr (r, named, inr (items, refl, In-of_contains r (texts items) a)),
  back,
)
  where
    back :
        AllowsResource intent (some (array items))
        → check_resources intent (some (array items)) ≡ ok tt
    back (inl (inl h)) = cc
    back (inl (inr h)) = cc
    back (inr (r, named, inl h)) = cc
    back (inr (r, named, inr (others, h, m))) =
        let e : others ≡ items = cc in
        (named_iff intent.resource (λ r. contains r (texts items))).1
          (r, named, contains-of_In r (texts items) (subst (λ x. In r (texts x)) e m))
resources_iff intent (some _) = (λ h. cc, λ h. ground arith)

effects_iff :
    (intent : CapabilityIntent) (a : MissionAuthorization) (d : CapabilityDeclaration)
    → (check_effects intent a d ≡ ok tt) ↔ (
        ((d.external_effect ≡ true) ⊎ (intent.external_effect ≡ true)
          → a.external_effects_allowed ≡ true)
        × ((d.minimum_idempotency_class ≡ at_most_once) ⊎ (intent.idempotency_class ≡ at_most_once)
            → has_key intent.idempotency_key ≡ true))
unfolding effective_idempotency_class
effects_iff intent a d = ground arith

-- A chain of checks passes when each of them does.
chain_iff :
    {E : Type 0} (x y z w : Result E (Unit {0})) (b c : Bool) (d e : E)
    → ((x >>= λ _. guard (not b) d >>= λ _. guard c e >>= λ _. (y >>= λ _. z) >>= λ _. w) ≡ ok tt)
      ↔ ((x ≡ ok tt) × (b ≡ false) × (c ≡ true) × (y ≡ ok tt) × (z ≡ ok tt) × (w ≡ ok tt))
chain_iff x y z w b c d e = ground arith

parts_iff :
    (instant_of : String → Option ℕ) (now : ℕ) (intent : CapabilityIntent)
    (a : MissionAuthorization) (d : CapabilityDeclaration)
    → (authorize_capability instant_of now intent a (some d) ≡ ok tt) ↔ (
        (check_expiry instant_of now a.expires_at ≡ ok tt)
        × (contains intent.capability a.denied_capabilities ≡ false)
        × (contains intent.capability a.allowed_capabilities ≡ true)
        × (check_actions intent (get "actions" a.scope) ≡ ok tt)
        × (check_resources intent (get "resources" a.scope) ≡ ok tt)
        × (check_effects intent a d ≡ ok tt))
unfolding authorize_capability check_scope
parts_iff instant_of now intent a d =
    chain_iff (check_expiry instant_of now a.expires_at)
      (check_actions intent (get "actions" a.scope))
      (check_resources intent (get "resources" a.scope)) (check_effects intent a d)
      (contains intent.capability a.denied_capabilities)
      (contains intent.capability a.allowed_capabilities) _ _

-- `authorize_capability` lets a request pass exactly when the authorization has not expired, grants
-- the capability and does not deny it, its scope is readable and names the action and the resource
-- where it narrows them, external effects are allowed if the adapter declares or the Agent asks for
-- one, and an idempotency key is given if either wants at-most-once.
pub authorize_iff :
    (instant_of : String → Option ℕ) (now : ℕ) (intent : CapabilityIntent)
    (authorization : MissionAuthorization) (declared : CapabilityDeclaration)
    → (authorize_capability instant_of now intent authorization (some declared) ≡ ok tt)
      ↔ Allows instant_of now intent authorization declared
authorize_iff instant_of now intent a d = (
  λ h.
      let (expiry, denied, granted, actions, resources, effects) =
        (parts_iff instant_of now intent a d).0 h in
      record {
        unexpired = (expiry_iff instant_of now a.expires_at).0 expiry;
        not_denied = not-In_of_contains intent.capability a.denied_capabilities denied;
        granted = In-of_contains intent.capability a.allowed_capabilities granted;
        action = (actions_iff intent (get "actions" a.scope)).0 actions;
        resource = (resources_iff intent (get "resources" a.scope)).0 resources;
        effects = ((effects_iff intent a d).0 effects).0;
        key = ((effects_iff intent a d).0 effects).1;
      },
  λ v. (parts_iff instant_of now intent a d).1 (
    (expiry_iff instant_of now a.expires_at).1 v.unexpired,
    not-contains_of_In intent.capability a.denied_capabilities v.not_denied,
    contains-of_In intent.capability a.allowed_capabilities v.granted,
    (actions_iff intent (get "actions" a.scope)).1 v.action,
    (resources_iff intent (get "resources" a.scope)).1 v.resource,
    (effects_iff intent a d).1 (v.effects, v.key),
  ),
)
