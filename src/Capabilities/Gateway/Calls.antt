-- ===== src/Capabilities/Gateway/Calls.antt =====
-- Which adapters the gateway of capabilities/gateway.py calls.
use the_creation_os.Prelude.{
  ℕ, String, ◌≡◌, ◌∙◌, refl, sym, ap, Option, none, some, List, [], ◌∷◌, Result, ok, err, lookup,
  string_eq, ◌⊎◌, inl, inr, arith, insert, insert, found-insert,
}
use the_creation_os.Capabilities.Contracts.{CapabilityIntent, CapabilityContext, CapabilityResult}
use the_creation_os.Capabilities.Policy.{authorize_capability, PolicyError}
use the_creation_os.Capabilities.Policy.Decision.{Allows, authorize_iff}
use the_creation_os.Capabilities.Gateway.{
  Adapter, AdapterCall, GatewayError, CapabilityGateway, register, declaration, declaration_for,
  declared_by, after_policy, execute,
}

-- Registrations, of which a refused one changes nothing.
abbrev pub after : CapabilityGateway → Result GatewayError CapabilityGateway → CapabilityGateway
after g (err e) = g
after g (ok g') = g'

abbrev pub register_all : CapabilityGateway → List Adapter → CapabilityGateway
register_all g [] = g
register_all g (a ∷ as') = register_all (after g (register g a)) as'

abbrev Named : CapabilityGateway → Type 0
Named g = (k : String) (a : Adapter) → lookup k g.adapters ≡ some a → a.name ≡ k

register-Named :
    (g g' : CapabilityGateway) (a : Adapter) → Named g → register g a ≡ ok g' → Named g'
unfolding register
register-Named g g' a n h k b found =
    let e : insert a.name a g.adapters ≡ g'.adapters = ground arith in
    elim (found-insert a.name k a b g.adapters (ap (lookup k) e ∙ found)) [
      | inl (here, same) ↦ ap (λ (x : Adapter). x.name) (sym same) ∙ here
      | inr old ↦ n k b old
    ]

after-Named :
    (g : CapabilityGateway) (r : Result GatewayError CapabilityGateway)
    → Named g
    → ((g' : CapabilityGateway) → r ≡ ok g' → Named g')
    → Named (after g r)
after-Named g (err e) n f = n
after-Named g (ok g') n f = f g' refl

register_all-Named :
    (g : CapabilityGateway) (as' : List Adapter) → Named g → Named (register_all g as')
register_all-Named g [] n = n
register_all-Named g (a ∷ as') n =
    register_all-Named (after g (register g a)) as'
      (after-Named g (register g a) n (λ g' h. register-Named g g' a n h))

-- The call of the adapter `a` for the request.
abbrev pub call_of : Adapter → CapabilityIntent → CapabilityContext → AdapterCall
call_of a intent context = record { adapter = a; intent = intent; context = context }

-- What `execute` does with a request: it calls nothing, or it calls once the adapter of that name,
-- which the authorization allows for what the adapter itself declares.
abbrev pub CallsAllowed :
    (String → Option ℕ) → ℕ → CapabilityIntent → CapabilityContext → List AdapterCall → Type 0
CallsAllowed instant_of now intent context calls =
    (calls ≡ [])
    ⊎ ((a : Adapter) × (calls ≡ call_of a intent context ∷ [])
        × (a.name ≡ intent.capability)
        × Allows instant_of now intent context.authorization (declared_by a))

module _ (run : AdapterCall → Result GatewayError CapabilityResult) (instant_of : String → Option ℕ)
    (now : ℕ) (intent : CapabilityIntent) (context : CapabilityContext) where
  permitted_call :
      (o : Option Adapter) (r : Result PolicyError (Unit {0}))
      → ((a : Adapter) → o ≡ some a → a.name ≡ intent.capability)
      → r
        ≡ authorize_capability instant_of now intent context.authorization
            (some (declaration_for o))
      → CallsAllowed instant_of now intent context
          (after_policy run instant_of now r o intent context).1
  unfolding declaration_for
  permitted_call o (err e) n h = inl refl
  permitted_call none (ok u) n h = inl refl
  permitted_call (some a) (ok u) n h = inr (
    a,
    refl,
    n a refl,
    (authorize_iff instant_of now intent context.authorization (declared_by a)).0 (sym h),
  )

-- Whatever adapters were registered, and whatever an Agent writes in its request, `execute` calls an
-- adapter at most once, and only the adapter registered under the requested name, when the Mission's
-- authorization allows the request together with the adapter's own declaration.
pub execute-CallsAllowed :
    (run : AdapterCall → Result GatewayError CapabilityResult) (instant_of : String → Option ℕ)
    (now : ℕ) (adapters : List Adapter) (intent : CapabilityIntent) (context : CapabilityContext)
    → let g = register_all (record { adapters = [] }) adapters in
      CallsAllowed instant_of now intent context (execute run instant_of now g intent context).1
unfolding execute declaration lookup
execute-CallsAllowed run instant_of now adapters intent context =
    let g = register_all (record { adapters = [] }) adapters in
    permitted_call run instant_of now intent context (lookup intent.capability g.adapters) _
      (λ a h.
        register_all-Named (record { adapters = [] }) adapters (λ k b e. cc) intent.capability a h)
      refl
