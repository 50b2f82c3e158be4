-- ===== src/Services/Chronicle.antt =====
-- backend/app/repositories/domain.py: the Chronicle, a chain of hashed events, in the order of their
-- positions. `sha256`, `dumps`, the bytes of the canonical JSON text, and `isoformat` are parameters; the
-- new ids and the time, as an instant in UTC, are given. A column reads as it was written. The advisory lock
-- makes calls run one after another.
pub mod Sanitize
pub mod Linked
pub mod Tamper
mod Tests
use the_creation_os.Prelude.{
  ℕ, ◌+◌, String, Bool, true, false, not, ◌&&◌, ◌||◌, Option, none, some, List, [], ◌∷◌, ◌++◌,
  if◌then◌else◌, ◌==◌, string_eq, nat_eq, codes_eq, codes, contains, map,
}
use the_creation_os.Prelude.Json.{
  Json, Items, Fields, null, bool, number, negative, text, array, object, end, item, done, field,
}
use the_creation_os.Memory.{plain_key}

-- SENSITIVE_KEYS
abbrev pub sensitive_keys : List String
sensitive_keys =
    "token" ∷ "password" ∷ "secret" ∷ "authorization" ∷ "cookie" ∷ "api_key" ∷ "apikey"
    ∷ "access_token" ∷ "refresh_token" ∷ []

-- `k.lower().replace("-", "_") in SENSITIVE_KEYS`
unfoldable pub is_sensitive : String → Bool
is_sensitive k = contains (plain_key k) (map codes sensitive_keys)

mutual
  pub sanitize : Json → Json
  sanitize null = null
  sanitize (bool b) = bool b
  sanitize (number n) = number n
  sanitize (negative n) = negative n
  sanitize (text s) = text s
  sanitize (array is) = array (sanitize_items is)
  sanitize (object fs) = object (sanitize_fields fs)

  pub sanitize_items : Items → Items
  sanitize_items end = end
  sanitize_items (item v is) = item (sanitize v) (sanitize_items is)

  pub sanitize_fields : Fields → Fields
  sanitize_fields done = done
  sanitize_fields (field k v fs) =
      let rest = sanitize_fields fs in
      let value = sanitize v in if is_sensitive k then rest else field k value rest

-- What is hashed of an event.
pub record Material : Type 0 where
  pub event_id : String
  pub position : ℕ
  pub event_type : String
  pub aggregate_type : String
  pub aggregate_id : Option String
  pub actor_id : Option String
  pub actor_role : String
  pub correlation_id : String
  pub payload : Fields
  pub created_at : String

-- A row, with the columns that are not hashed: `id`, `causation_id` and `actor_type`.
pub record Chronicle : Type 0 where
  pub id : String
  pub event_id : String
  pub position : ℕ
  pub correlation_id : String
  pub causation_id : Option String
  pub actor_type : String
  pub actor_role : String
  pub actor_id : Option String
  pub event_type : String
  pub aggregate_type : String
  pub aggregate_id : Option String
  pub payload_json : Fields
  pub payload_hash : String
  pub previous_hash : Option String
  pub created_at : ℕ

-- The arguments of `add_event`, with the new ids and the time.
pub record Event : Type 0 where
  pub id : String
  pub event_id : String
  pub event_type : String
  pub aggregate_type : String
  pub aggregate_id : Option String
  pub actor_id : String
  pub actor_role : String
  pub correlation_id : String
  pub payload : Option Fields
  pub created_at : ℕ

pub data Reason : Type 0 where
  broken_sequence invalid_previous_hash invalid_event_hash : Reason

pub data ChronicleIntegrity : Type 0 where
  valid : ChronicleIntegrity
  invalid : String → Reason → ChronicleIntegrity

abbrev pub last_event : List Chronicle → Option Chronicle
last_event [] = none
last_event (e ∷ []) = some e
last_event (e ∷ f ∷ es) = last_event (f ∷ es)

abbrev pub hash_of_last : Option Chronicle → Option String
hash_of_last none = none
hash_of_last (some e) = some e.payload_hash

abbrev pub next_position : Option Chronicle → ℕ
next_position none = 1
next_position (some e) = e.position + 1

abbrev pub payload_or_empty : Option Fields → Fields
payload_or_empty none = done
payload_or_empty (some fields) = fields

abbrev pub same_hash : Option String → Option String → Bool
same_hash none none = true
same_hash (some a) (some b) = a == b
same_hash none (some b) = false
same_hash (some a) none = false

-- `(previous_hash or "").encode("utf-8")`; a hash has ASCII letters only.
abbrev pub bytes_of : Option String → List ℕ
bytes_of none = []
bytes_of (some hash) = codes hash

module _ (isoformat : ℕ → String) where
  -- What `add_event` hashes.
  abbrev pub material_of : Event → ℕ → Fields → Material
  material_of e position safe = record {
    event_id = e.event_id;
    position = position;
    event_type = e.event_type;
    aggregate_type = e.aggregate_type;
    aggregate_id = e.aggregate_id;
    actor_id = some e.actor_id;
    actor_role = e.actor_role;
    correlation_id = e.correlation_id;
    payload = safe;
    created_at = isoformat e.created_at;
  }

  -- What `verify_chronicle` hashes.
  abbrev pub material_from : Chronicle → Material
  material_from row = record {
    event_id = row.event_id;
    position = row.position;
    event_type = row.event_type;
    aggregate_type = row.aggregate_type;
    aggregate_id = row.aggregate_id;
    actor_id = row.actor_id;
    actor_role = row.actor_role;
    correlation_id = row.correlation_id;
    payload = row.payload_json;
    created_at = isoformat row.created_at;
  }

module _ (sha256 : List ℕ → String) (dumps : Material → List ℕ) where
  unfoldable pub event_hash : Material → Option String → String
  event_hash material previous = sha256 (dumps material ++ bytes_of previous)

module _ (sha256 : List ℕ → String) (dumps : Material → List ℕ) (isoformat : ℕ → String) where
  abbrev pub chronicle_of : Event → Option Chronicle → Chronicle
  chronicle_of e previous_event =
      let previous = hash_of_last previous_event in
      let position = next_position previous_event in
      let safe = sanitize_fields (payload_or_empty e.payload) in
      record {
        id = e.id;
        event_id = e.event_id;
        position = position;
        correlation_id = e.correlation_id;
        causation_id = none;
        actor_type = e.actor_role;
        actor_role = e.actor_role;
        actor_id = some e.actor_id;
        event_type = e.event_type;
        aggregate_type = e.aggregate_type;
        aggregate_id = e.aggregate_id;
        payload_json = safe;
        payload_hash = event_hash sha256 dumps (material_of isoformat e position safe) previous;
        previous_hash = previous;
        created_at = e.created_at;
      }

  unfoldable pub add_event : Event → List Chronicle → List Chronicle
  add_event e es = es ++ chronicle_of e (last_event es) ∷ []

  -- The loop, from the previous hash and the expected position on.
  abbrev pub verify_from : Option String → ℕ → List Chronicle → ChronicleIntegrity
  verify_from previous expected [] = valid
  verify_from previous expected (e ∷ es) =
      let rest = verify_from (some e.payload_hash) (expected + 1) es in
      if not (e.position == expected)
      then invalid e.event_id broken_sequence
      else (if not (same_hash e.previous_hash previous)
          then invalid e.event_id invalid_previous_hash
          else (if not
                (event_hash sha256 dumps (material_from isoformat e) previous == e.payload_hash)
              then invalid e.event_id invalid_event_hash
              else rest))

  unfoldable pub verify_chronicle : List Chronicle → ChronicleIntegrity
  verify_chronicle es = verify_from none 1 es
