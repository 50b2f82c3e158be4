-- ===== src/Services/Conversations.antt =====
-- backend/app/services/domain.py, Conversations and Inceptions: the messages of a Conversation, and
-- what is decided of an Inception and its Mission. Rows stand in dicts by their ids, a Mission
-- by the id of its Inception; ids of new rows are given. Columns that no decision reads, the Chronicle
-- events and the cache are not modelled.
pub mod Replay
use the_creation_os.Prelude.{
  String, Bool, true, false, not, ◌&&◌, Option, none, some, List, [], ◌∷◌, ◌++◌, Result, ok, err,
  guard, ◌>>=◌, ◌>>◌, if◌then◌else◌, ◌==◌, string_eq, Dict, lookup, insert, or_else,
}
use the_creation_os.Domain.{
  ConversationStatus, active, closed, archived, InceptionStatus, proposed,
  awaiting_creator_decision, approved, rejected, MissionStatus, drafted, planned, validated,
  conversation, inception, mission, conversation_status_eq, inception_status_eq, transition,
  DomainError, invalid_origin, not_found, Actor, require_creator,
}

pub record ConversationRow : Type 0 where
  pub creator_id : String
  pub status : ConversationStatus

pub record MessageRow : Type 0 where
  pub id : String
  pub conversation_id : String
  pub actor_id : String
  pub role : String
  pub content : String
  pub client_message_id : Option String

pub record InceptionRow : Type 0 where
  pub conversation_id : String
  pub source_message_id : String
  pub status : InceptionStatus
  pub decided_by : Option String
  pub decision_reason : Option String

pub record Chats : Type 0 where
  pub conversations : Dict String ConversationRow
  pub messages : List MessageRow
  pub inceptions : Dict String InceptionRow
  pub missions : Dict String MissionStatus

-- `_owned(Conversation, …)`
abbrev pub owned_conversation : Actor → Option ConversationRow → Result DomainError ConversationRow
owned_conversation actor none = err not_found
owned_conversation actor (some c) = if c.creator_id == actor.id then ok c else err not_found

abbrev pub create_conversation : Actor → String → Chats → Result DomainError Chats
create_conversation actor id s = do
  require_creator actor
  ok (record s {
    conversations = insert id (record { creator_id = actor.id; status = active }) s.conversations;
  })

abbrev pub has_client_id : String → Option String → Bool
has_client_id client_id none = false
has_client_id client_id (some id) = id == client_id

-- `creator_message_by_client_id`
abbrev pub is_replayed : String → String → String → MessageRow → Bool
is_replayed conversation_id actor_id client_id m =
    (m.conversation_id == conversation_id)
    && ((m.actor_id == actor_id)
        && ((m.role == "creator") && has_client_id client_id m.client_message_id))

abbrev pub first_message : (MessageRow → Bool) → List MessageRow → Option MessageRow
first_message test [] = none
first_message test (m ∷ ms) = let rest = first_message test ms in if test m then some m else rest

-- `if client_message_id:`
abbrev pub key_of : Option String → Option String
key_of none = none
key_of (some id) = if id == "" then none else some id

abbrev pub existing_message : String → String → Option String → List MessageRow → Option MessageRow
existing_message conversation_id actor_id none ms = none
existing_message conversation_id actor_id (some client_id) ms =
    first_message (is_replayed conversation_id actor_id client_id) ms

abbrev pub message_of : Actor → String → String → String → Option String → MessageRow
message_of actor id conversation_id content key = record {
  id = id;
  conversation_id = conversation_id;
  actor_id = actor.id;
  role = actor.role;
  content = content;
  client_message_id = key;
}

-- A Conversation that is not active refuses the message by a transition that is not allowed.
abbrev pub check_active : ConversationStatus → Result DomainError (Unit {0})
check_active active = ok tt
check_active status = transition conversation status active >> ok tt

abbrev pub write_message :
    ConversationRow
    → MessageRow
    → Option MessageRow
    → Chats
    → Result DomainError (MessageRow × Chats)
write_message c m (some existing) s =
    if existing.content == m.content then ok (existing, s) else err invalid_origin
write_message c m none s =
    check_active c.status >> ok (m, record s { messages = s.messages ++ m ∷ [] })

abbrev pub write_for :
    Actor
    → String
    → String
    → String
    → Option String
    → Chats
    → ConversationRow
    → Result DomainError (MessageRow × Chats)
write_for actor id conversation_id content key s c =
    write_message c (message_of actor id conversation_id content key)
      (existing_message conversation_id actor.id key s.messages) s

abbrev pub add_keyed :
    Actor
    → String
    → String
    → String
    → Option String
    → Chats
    → Result DomainError (MessageRow × Chats)
add_keyed actor id conversation_id content key s =
    require_creator actor
    >> (owned_conversation actor (lookup conversation_id s.conversations)
        >>= write_for actor id conversation_id content key s)

unfoldable pub add_message :
    Actor
    → String
    → String
    → String
    → Option String
    → Chats
    → Result DomainError (MessageRow × Chats)
add_message actor id conversation_id content client_message_id s =
    add_keyed actor id conversation_id content (key_of client_message_id) s

abbrev pub set_conversation : Actor → String → ConversationStatus → Chats → Result DomainError Chats
set_conversation actor id target s = do
  c ← owned_conversation actor (lookup id s.conversations)
  status ← transition conversation c.status target
  ok (record s { conversations = insert id (record c { status = status }) s.conversations })

abbrev pub close_conversation : Actor → String → Chats → Result DomainError Chats
close_conversation actor id s = set_conversation actor id closed s

abbrev pub archive_conversation : Actor → String → Chats → Result DomainError Chats
archive_conversation actor id s = set_conversation actor id archived s

-- `_owned(Inception, …)`: the owner is that of its Conversation.
abbrev pub owned_inception : Actor → Chats → Option InceptionRow → Result DomainError InceptionRow
owned_inception actor s none = err not_found
owned_inception actor s (some i) =
    owned_conversation actor (lookup i.conversation_id s.conversations) >> ok i

abbrev pub check_decision : Actor → InceptionStatus → Result DomainError (Unit {0})
check_decision actor approved = require_creator actor
check_decision actor rejected = require_creator actor
check_decision actor _ = ok tt

abbrev pub is_cancellable : MissionStatus → Bool
is_cancellable drafted = true
is_cancellable planned = true
is_cancellable validated = true
is_cancellable _ = false

-- The Mission of an Inception that is cancelled.
abbrev pub cancel_mission : String → Option MissionStatus → Chats → Result DomainError Chats
cancel_mission inception_id none s = ok s
cancel_mission inception_id (some status) s = do
  guard (is_cancellable status) invalid_origin
  next ← transition mission status MissionStatus.cancelled
  ok (record s { missions = insert inception_id next s.missions })

abbrev pub before_move : String → InceptionStatus → Chats → Result DomainError Chats
before_move id InceptionStatus.cancelled s = cancel_mission id (lookup id s.missions) s
before_move id _ s = ok s

abbrev pub decided_row : Actor → InceptionStatus → Option String → InceptionRow → InceptionRow
decided_row actor approved reason i = record i {
  status = approved;
  decided_by = some actor.id;
  decision_reason = reason;
}
decided_row actor rejected reason i = record i {
  status = rejected;
  decided_by = some actor.id;
  decision_reason = reason;
}
decided_row actor status reason i = record i { status = status }

unfoldable pub transition_inception :
    Actor → String → InceptionStatus → Option String → Chats → Result DomainError Chats
transition_inception actor id target reason s = do
  i ← owned_inception actor s (lookup id s.inceptions)
  check_decision actor target
  status ← transition inception i.status target
  s' ← before_move id target s
  ok (record s' { inceptions = insert id (decided_row actor status reason i) s'.inceptions })
