-- ===== src/Capabilities/Gateway.antt =====
-- backend/app/capabilities/gateway.py with `declaration_for` of policy.py: the adapters by name, and
-- the one way to run one. What an adapter does is the parameter `run`; the calls made are a result.
pub mod Calls
use the_creation_os.Prelude.{
  ℕ, String, Bool, true, false, not, Option, none, some, List, [], ◌∷◌, Result, ok, err, guard,
  ◌>>=◌, ◌>>◌, Dict, lookup, insert, is_some, or_else, string_eq,
}
use the_creation_os.Capabilities.Contracts.{
  IdempotencyClass, at_most_once, CapabilityIntent, CapabilityContext, CapabilityResult,
}
use the_creation_os.Capabilities.Policy.{
  CapabilityDeclaration, PolicyError, most_dangerous, authorize_capability,
}

-- An adapter with the attributes that it declares, if it does.
pub record Adapter : Type 0 where
  pub name : String
  pub external_effect : Option Bool
  pub minimum_idempotency_class : Option IdempotencyClass

pub data GatewayError : Type 0 where
  policy : PolicyError → GatewayError
  adapter_unavailable already_registered adapter_failed : GatewayError

abbrev pub declared_by : Adapter → CapabilityDeclaration
declared_by a = record {
  external_effect = or_else a.external_effect true;
  minimum_idempotency_class = or_else a.minimum_idempotency_class at_most_once;
}

unfoldable pub declaration_for : Option Adapter → CapabilityDeclaration
declaration_for none = most_dangerous
declaration_for (some a) = declared_by a

pub record CapabilityGateway : Type 0 where
  pub adapters : Dict String Adapter

unfoldable pub declaration : CapabilityGateway → String → CapabilityDeclaration
declaration g capability = declaration_for (lookup capability g.adapters)

unfoldable pub register : CapabilityGateway → Adapter → Result GatewayError CapabilityGateway
register g a = do
  guard (not (is_some (lookup a.name g.adapters))) already_registered
  ok (record { adapters = insert a.name a g.adapters })

pub record AdapterCall : Type 0 where
  pub adapter : Adapter
  pub intent : CapabilityIntent
  pub context : CapabilityContext

module _ (run : AdapterCall → Result GatewayError CapabilityResult) (instant_of : String → Option ℕ)
    (now : ℕ) where
  abbrev pub run_adapter :
      Option Adapter
      → CapabilityIntent
      → CapabilityContext
      → Result GatewayError CapabilityResult × List AdapterCall
  run_adapter none intent context = (err adapter_unavailable, [])
  run_adapter (some a) intent context =
      let call : AdapterCall = record { adapter = a; intent = intent; context = context } in
      (run call, call ∷ [])

  abbrev pub after_policy :
      Result PolicyError (Unit {0})
      → Option Adapter
      → CapabilityIntent
      → CapabilityContext
      → Result GatewayError CapabilityResult × List AdapterCall
  after_policy (err e) a intent context = (err (policy e), [])
  after_policy (ok _) a intent context = run_adapter a intent context

  unfoldable pub execute :
      CapabilityGateway
      → CapabilityIntent
      → CapabilityContext
      → Result GatewayError CapabilityResult × List AdapterCall
  execute g intent context =
      after_policy
        (authorize_capability instant_of now intent context.authorization
          (some (declaration g intent.capability)))
        (lookup intent.capability g.adapters) intent context
