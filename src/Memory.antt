-- ===== src/Memory.antt =====
-- backend/app/memory/contracts.py and policy.py: what may be remembered, and of what. A table is a
-- dict from a row's id to the one column that a query joins or compares. The bounds that the schema
-- library checks on the lengths of texts are not modelled.
pub mod Provenance
mod Tests
use the_creation_os.Prelude.{
  ℕ, String, Bool, true, false, not, Option, none, some, List, [], ◌∷◌, Result, ok, err, guard,
  ◌>>=◌, ◌>>◌, any, if◌then◌else◌, ◌==◌, string_eq, nat_eq, codes_eq, contains, map, Dict, lookup,
  codes, lower,
}
use the_creation_os.Prelude.Json.{Fields, Json, done, field}

pub data MemorySourceType : Type 0 where
  conversation message inception mission task agent_execution capability_invocation :
      MemorySourceType

pub record MemoryCandidate : Type 0 where
  pub source_type : MemorySourceType
  pub source_id : String
  pub content : String
  pub metadata : Fields

pub data MemoryError : Type 0 where
  authority_metadata provenance_error : MemoryError

-- `_AUTHORITY_KEYS`
abbrev pub authority_keys : List String
authority_keys =
    "authorized" ∷ "authorization" ∷ "authority" ∷ "permissions" ∷ "permission"
    ∷ "allowed_capabilities" ∷ "denied_capabilities" ∷ "creator_approval" ∷ []

-- `key.lower().replace("-", "_")`
abbrev pub plain_code : ℕ → ℕ
plain_code c = if c == 45 then 95 else lower c

abbrev pub plain_key : String → List ℕ
plain_key key = map plain_code (codes key)

abbrev pub asserts_authority : Fields → Bool
asserts_authority done = false
asserts_authority (field key value rest) =
    let later = asserts_authority rest in
    if contains (plain_key key) (map codes authority_keys) then true else later

unfoldable pub reject_authority_metadata : Fields → Result MemoryError Fields
reject_authority_metadata metadata =
    guard (not (asserts_authority metadata)) authority_metadata >> ok metadata

pub record Tables : Type 0 where
  pub conversation_creators : Dict String String
  pub message_conversations : Dict String String
  pub inception_conversations : Dict String String
  pub mission_creators : Dict String String
  pub task_missions : Dict String String
  pub execution_tasks : Dict String String
  pub invocation_missions : Dict String String

-- A row's column, and the column of the row that it refers to.
abbrev pub joined : Dict String String → Option String → Option String
joined table none = none
joined table (some id) = lookup id table

abbrev pub creator_of : Tables → MemorySourceType → String → Option String
creator_of t conversation id = lookup id t.conversation_creators
creator_of t message id = joined t.conversation_creators (lookup id t.message_conversations)
creator_of t inception id = joined t.conversation_creators (lookup id t.inception_conversations)
creator_of t mission id = lookup id t.mission_creators
creator_of t task id = joined t.mission_creators (lookup id t.task_missions)
creator_of t agent_execution id =
    joined t.mission_creators (joined t.task_missions (lookup id t.execution_tasks))
creator_of t capability_invocation id = joined t.mission_creators (lookup id t.invocation_missions)

abbrev pub is_creator : String → Option String → Bool
is_creator creator_id none = false
is_creator creator_id (some owner) = owner == creator_id

unfoldable pub validate_provenance :
    Tables → String → MemoryCandidate → Result MemoryError (Unit {0})
validate_provenance t creator_id candidate =
    guard (is_creator creator_id (creator_of t candidate.source_type candidate.source_id))
      provenance_error
