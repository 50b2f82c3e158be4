-- ===== src/Domain.antt =====
-- backend/app/core/domain.py: the statuses of the three aggregates, the table of their
-- transitions, and the guards on the acting principal. A status is the enum's member, not its text;
-- an exception is its class, without its message.
pub mod Lifecycle
pub mod Tests
use the_creation_os.Prelude.{
  String, ◌≡◌, Bool, true, false, not, ◌||◌, List, [], ◌∷◌, Eq, ◌==◌, enum_eq, string_eq, contains,
  Result, ok, err, guard, ◌>>◌, if◌then◌else◌,
}

pub data ConversationStatus : Type 0 where
  active closed archived : ConversationStatus

pub data InceptionStatus : Type 0 where
  proposed awaiting_creator_decision approved rejected cancelled : InceptionStatus

pub data MissionStatus : Type 0 where
  drafted planned validated authorized distributed executing manifested failed cancelled :
      MissionStatus

unfoldable pub ConversationStatus-discrete : Discrete ConversationStatus
ConversationStatus-discrete = hlevel

unfoldable pub InceptionStatus-discrete : Discrete InceptionStatus
InceptionStatus-discrete = hlevel

unfoldable pub MissionStatus-discrete : Discrete MissionStatus
MissionStatus-discrete = hlevel

instance abbrev pub conversation_status_eq : Eq ConversationStatus
conversation_status_eq = enum_eq ConversationStatus-discrete

instance abbrev pub inception_status_eq : Eq InceptionStatus
inception_status_eq = enum_eq InceptionStatus-discrete

instance abbrev pub mission_status_eq : Eq MissionStatus
mission_status_eq = enum_eq MissionStatus-discrete

pub data Aggregate : Type 0 where
  conversation inception mission : Aggregate

-- The statuses of an aggregate: each call of `transition` passes the enum of its aggregate.
abbrev pub Status : Aggregate → Type 0
Status conversation = ConversationStatus
Status inception = InceptionStatus
Status mission = MissionStatus

pub data DomainError : Type 0 where
  invalid_state_transition : (a : Aggregate) → Status a → Status a → DomainError
  authorization_denied invalid_origin not_found : DomainError

unfoldable pub transitions : (a : Aggregate) → Status a → List (Status a)
transitions conversation active = closed ∷ []
transitions conversation closed = archived ∷ []
transitions conversation archived = []
transitions inception proposed = awaiting_creator_decision ∷ InceptionStatus.cancelled ∷ []
transitions inception awaiting_creator_decision =
    approved ∷ rejected ∷ InceptionStatus.cancelled ∷ []
transitions inception approved = InceptionStatus.cancelled ∷ []
transitions inception rejected = []
transitions inception InceptionStatus.cancelled = []
transitions mission drafted = planned ∷ MissionStatus.cancelled ∷ []
transitions mission planned = validated ∷ MissionStatus.cancelled ∷ []
transitions mission validated = authorized ∷ MissionStatus.cancelled ∷ []
transitions mission authorized = distributed ∷ MissionStatus.cancelled ∷ []
transitions mission distributed = executing ∷ MissionStatus.cancelled ∷ []
transitions mission executing = manifested ∷ failed ∷ MissionStatus.cancelled ∷ []
transitions mission manifested = []
transitions mission failed = []
transitions mission MissionStatus.cancelled = []

abbrev member : (a : Aggregate) → Status a → List (Status a) → Bool
member conversation s l = contains s l
member inception s l = contains s l
member mission s l = contains s l

unfoldable pub transition : (a : Aggregate) → Status a → Status a → Result DomainError (Status a)
unfolding transitions ConversationStatus-discrete InceptionStatus-discrete MissionStatus-discrete
transition a current target =
    if not (member a target (transitions a current))
    then err (invalid_state_transition a current target)
    else ok target

pub record Actor : Type 0 where
  pub id : String
  pub role : String

unfoldable pub require_creator : Actor → Result DomainError (Unit {0})
require_creator actor = guard (actor.role == "creator") authorization_denied

unfoldable pub require_malkuth_authorized : MissionStatus → Result DomainError (Unit {0})
unfolding MissionStatus-discrete
require_malkuth_authorized status =
    guard (contains status (authorized ∷ distributed ∷ executing ∷ [])) authorization_denied

unfoldable pub request_total_destruction : Actor → Result DomainError (Unit {0})
unfolding require_creator
request_total_destruction actor = require_creator actor >> err authorization_denied
