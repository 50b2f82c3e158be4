-- ===== src/Capabilities/Policy.antt =====
-- backend/app/capabilities/policy.py: whether a Mission's authorization allows what an Agent asks for.
-- The parameter `instant_of` reads a timestamp as `datetime.fromisoformat` does once "Z" is written
-- as an offset, a time without a zone being UTC; `none` where it raises `ValueError`.
pub mod Decision
use the_creation_os.Prelude.{
  ℕ, String, Bool, true, false, not, ◌&&◌, ◌||◌, Option, none, some, Result, ok, err, guard, ◌>>=◌,
  ◌>>◌, ltb, leb, if◌then◌else◌, ◌==◌, string_eq, contains, or_else,
}
use the_creation_os.Prelude.Json.{
  Json, Items, Fields, null, bool, number, negative, text, array, object, get, texts,
}
use the_creation_os.Capabilities.Contracts.{
  IdempotencyClass, safe, idempotent, at_most_once, CapabilityIntent, MissionAuthorization,
}

abbrev pub idempotency_order : IdempotencyClass → ℕ
idempotency_order safe = 0
idempotency_order idempotent = 1
idempotency_order at_most_once = 2

-- Why a capability is denied; the source says so in the message.
pub data Denial : Type 0 where
  expired denied not_authorized actions_unreadable capability_scope_unreadable : Denial
  action_not_authorized resources_unreadable resource_required resource_not_authorized : Denial
  external_effects_not_authorized idempotency_key_required : Denial

pub data PolicyError : Type 0 where
  capability_denied : Denial → PolicyError
  invalid_timestamp : PolicyError

pub record CapabilityDeclaration : Type 0 where
  pub external_effect : Bool
  pub minimum_idempotency_class : IdempotencyClass

abbrev pub most_dangerous : CapabilityDeclaration
most_dangerous = record { external_effect = true; minimum_idempotency_class = at_most_once }

unfoldable pub effective_idempotency_class :
    CapabilityIntent → CapabilityDeclaration → IdempotencyClass
effective_idempotency_class intent declaration =
    let requested = idempotency_order intent.idempotency_class in
    let required = idempotency_order declaration.minimum_idempotency_class in
    if leb required requested
    then intent.idempotency_class
    else declaration.minimum_idempotency_class

-- The entry of the capability, where there is one.
abbrev pub check_actions_of : CapabilityIntent → Option Json → Result PolicyError (Unit {0})
check_actions_of intent none = ok tt
check_actions_of intent (some (text action)) =
    guard (intent.action == action) (capability_denied action_not_authorized)
check_actions_of intent (some (array actions)) =
    guard (contains intent.action (texts actions)) (capability_denied action_not_authorized)
check_actions_of intent _ = err (capability_denied capability_scope_unreadable)

-- `None` is what `get` gives for a missing key and for a null.
abbrev pub check_actions : CapabilityIntent → Option Json → Result PolicyError (Unit {0})
check_actions intent none = ok tt
check_actions intent (some null) = ok tt
check_actions intent (some (object by_capability)) =
    check_actions_of intent (get intent.capability by_capability)
check_actions intent _ = err (capability_denied actions_unreadable)

abbrev pub check_named : Option String → (String → Bool) → Result PolicyError (Unit {0})
check_named none allowed = err (capability_denied resource_required)
check_named (some resource) allowed =
    guard (allowed resource) (capability_denied resource_not_authorized)

abbrev pub check_resources : CapabilityIntent → Option Json → Result PolicyError (Unit {0})
check_resources intent none = ok tt
check_resources intent (some null) = ok tt
check_resources intent (some (text only)) = check_named intent.resource (λ r. r == only)
check_resources intent (some (array resources)) =
    check_named intent.resource (λ r. contains r (texts resources))
check_resources intent _ = err (capability_denied resources_unreadable)

unfoldable pub check_scope : CapabilityIntent → MissionAuthorization → Result PolicyError (Unit {0})
check_scope intent authorization = do
  check_actions intent (get "actions" authorization.scope)
  check_resources intent (get "resources" authorization.scope)

abbrev pub check_instant : ℕ → Option ℕ → Result PolicyError (Unit {0})
check_instant now none = err invalid_timestamp
check_instant now (some expires_at) = guard (ltb now expires_at) (capability_denied expired)

abbrev pub check_expiry : (String → Option ℕ) → ℕ → Option String → Result PolicyError (Unit {0})
check_expiry instant_of now none = ok tt
check_expiry instant_of now (some expires_at) = check_instant now (instant_of expires_at)

abbrev pub has_key : Option String → Bool
has_key none = false
has_key (some key) = not (key == "")

abbrev pub is_at_most_once : IdempotencyClass → Bool
is_at_most_once safe = false
is_at_most_once idempotent = false
is_at_most_once at_most_once = true

abbrev pub check_effects :
    CapabilityIntent → MissionAuthorization → CapabilityDeclaration → Result PolicyError (Unit {0})
check_effects intent authorization declared = do
  guard
      (not (declared.external_effect || intent.external_effect)
        || authorization.external_effects_allowed)
      (capability_denied external_effects_not_authorized)
  guard
      (not (is_at_most_once (effective_idempotency_class intent declared))
        || has_key intent.idempotency_key)
      (capability_denied idempotency_key_required)

unfoldable pub authorize_capability :
    (String → Option ℕ)
    → ℕ
    → CapabilityIntent
    → MissionAuthorization
    → Option CapabilityDeclaration
    → Result PolicyError (Unit {0})
authorize_capability instant_of now intent authorization declaration = do
  check_expiry instant_of now authorization.expires_at
  guard (not (contains intent.capability authorization.denied_capabilities))
      (capability_denied denied)
  guard (contains intent.capability authorization.allowed_capabilities)
      (capability_denied not_authorized)
  check_scope intent authorization
  check_effects intent authorization (or_else declaration most_dangerous)
