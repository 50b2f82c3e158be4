-- ===== src/Kernel/AgentProfile.antt =====
-- backend/app/inference/agent_config.py, and how kernel/agent_runtime.py reads the dict that it gives. What
-- `str` writes for a value that is no text is given.
use the_creation_os.Prelude.{
  String, Bool, true, false, not, ◌&&◌, Option, none, some, List, [], ◌∷◌, if◌then◌else◌, ◌==◌,
  string_eq, characters,
}
use the_creation_os.Prelude.Json
use the_creation_os.Prelude.Json.{
  Json, Items, Fields, null, bool, number, negative, text, array, object, end, item, done, field,
  truthy,
}

abbrev pub no_names : List String → Bool
no_names [] = true
no_names (p ∷ ps) = false

abbrev pub items_of : List String → Items
items_of [] = end
items_of (s ∷ ss) = item (text s) (items_of ss)

-- `result[key] = value`
abbrev pub set_field : String → Json → Fields → Fields
set_field key value done = field key value done
set_field key value (field k v fs) =
    let rest = set_field key value fs in if k == key then field k value fs else field k v rest

abbrev pub is_configured : Option Json → Bool
is_configured (some (text routing)) = routing == "configured"
is_configured _ = false

-- `is None`
abbrev pub is_none : Option Json → Bool
is_none none = true
is_none (some null) = true
is_none _ = false

unfoldable pub effective_agent_capabilities : String → List String → Fields → Fields
effective_agent_capabilities first more fs =
    if is_configured (Json.get "inference_routing" fs)
      && (is_none (Json.get "model" fs) && not (truthy (Json.get "fallback_providers" fs)))
    then set_field "fallback_providers" (array (items_of more))
        (set_field "inference_provider" (text first) fs)
    else fs

-- `str(value)`
abbrev pub shown : (Json → String) → Json → String
shown written (text s) = s
shown written v = written v

abbrev pub names_in : (Json → String) → Items → List String
names_in written end = []
names_in written (item v is) = shown written v ∷ names_in written is

abbrev pub keys_of : Fields → List String
keys_of done = []
keys_of (field k v fs) = k ∷ keys_of fs

-- `[str(name) for name in value]`: a text is walked by its characters and a dict by its keys; `none` where
-- the value is not iterable, which raises.
abbrev pub fallback_names : (Json → String) → Option Json → Option (List String)
fallback_names written none = some []
fallback_names written (some (array is)) = some (names_in written is)
fallback_names written (some (object fs)) = some (keys_of fs)
fallback_names written (some (text s)) = some (characters s)
fallback_names written (some null) = none
fallback_names written (some (bool b)) = none
fallback_names written (some (number n)) = none
fallback_names written (some (negative n)) = none

-- What the request's schema makes of the model: a text or `None`; `none` where it raises.
abbrev pub model_of : Option Json → Option (Option String)
model_of none = some none
model_of (some null) = some none
model_of (some (text s)) = some (some s)
model_of _ = none

-- `str(preferred_provider or "")`
abbrev pub text_of : (Json → String) → Option Json → String
text_of written none = ""
text_of written (some v) = if truthy (some v) then shown written v else ""
