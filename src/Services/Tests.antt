-- ===== src/Services/Tests.antt =====
-- Witnesses for services/domain.py.
use the_creation_os.Prelude.{◌≡◌, refl, true, [], ◌∷◌, none, some, ok, lookup, insert, string_eq}
use the_creation_os.Domain.{
  active, validated, authorized, Actor, transition, require_creator, MissionStatus-discrete,
}
use the_creation_os.Services.Conversations.{MessageRow, Chats, message_of, key_of, add_message}
use the_creation_os.Services.Conversations.Replay.{add_message_again}
use the_creation_os.Services.Missions.{
  MissionStep, MissionRow, Database, transition_mission, start_mission,
}
use the_creation_os.Services.Missions.Starting.{
  IsAccepted, transition_mission-IsAccepted, Outcome, start_mission-Outcome,
}

abbrev creator : Actor
creator = record { id = "c"; role = "creator" }

abbrev step : MissionStep
step = record { step_key = "build"; universe = "forge"; depends_on = [] }

abbrev row : MissionRow
row = record { creator_id = "c"; status = validated; plan = some (step ∷ []) }

abbrev database : Database
database = record {
  missions = ("m", row) ∷ [];
  universes =
      ("forge", record { active = true; agents = record { id = "a"; active = true } ∷ [] }) ∷ [];
  tasks = [];
}

abbrev authorized_database : Database
authorized_database = record database {
  missions = insert "m" (record row { status = authorized }) (("m", row) ∷ []);
}

accepted : transition_mission creator "m" authorized none database ≡ ok authorized_database
unfolding transition_mission transition require_creator lookup MissionStatus-discrete
accepted = refl

transition_mission-IsAccepted_example :
    IsAccepted creator "m" authorized database authorized_database
transition_mission-IsAccepted_example =
    transition_mission-IsAccepted creator "m" authorized none database authorized_database accepted

start_mission-Outcome_example : Outcome "m" (start_mission creator "m" database)
start_mission-Outcome_example = start_mission-Outcome creator "m" database

abbrev chats : Chats
chats = record {
  conversations = ("k", record { creator_id = "c"; status = active }) ∷ [];
  messages = [];
  inceptions = [];
  missions = [];
}

abbrev hello : MessageRow
hello = message_of creator "1" "k" "hello" (some "x")

abbrev with_hello : Chats
with_hello = record chats { messages = hello ∷ [] }

keyed : key_of (some "x") ≡ some "x"
keyed = refl

written : add_message creator "1" "k" "hello" (some "x") chats ≡ ok (hello, with_hello)
unfolding add_message require_creator lookup
written = refl

add_message_again_example :
    add_message creator "2" "k" "hello" (some "x") with_hello ≡ ok (hello, with_hello)
add_message_again_example =
    add_message_again creator "1" "2" "k" "hello" "x" chats with_hello hello keyed written
