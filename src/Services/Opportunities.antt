-- ===== src/Services/Opportunities.antt =====
-- backend/app/services/opportunity.py: theses compete for an Opportunity, one takes its executive lease,
-- and one Mission comes of it. Ids of new rows and the time are given; a score is a whole number of parts,
-- so it is finite. The row lock on the Opportunity makes calls run one after another. Evidence, the
-- Chronicle events and the texts of rows are not modelled.
pub mod Competition
pub mod Origin
pub mod Leases
pub mod Exclusive
pub mod Acquire
pub mod Earned
mod Tests
use the_creation_os.Prelude.{
  ℕ, String, Bool, true, false, not, ◌&&◌, ◌||◌, Option, none, some, List, [], ◌∷◌, ◌++◌, map,
  Result, ok, err, guard, ◌>>=◌, ◌>>◌, ltb, leb, if◌then◌else◌, ◌==◌, string_eq, nat_eq, contains,
  any, keep_if, Dict, lookup, insert,
}

pub data ThesisStatus : Type 0 where
  proposed selected : ThesisStatus

pub record Thesis : Type 0 where
  pub id : String
  pub opportunity_id : String
  pub universe_id : String
  pub confidence : ℕ
  pub status : ThesisStatus

pub data LeaseType : Type 0 where
  research executive : LeaseType

pub data LeaseStatus : Type 0 where
  active expired released : LeaseStatus

pub record Lease : Type 0 where
  pub id : String
  pub opportunity_id : String
  pub thesis_id : String
  pub universe_id : String
  pub lease_type : LeaseType
  pub status : LeaseStatus
  pub expires_at : ℕ

pub data OpportunityStatus : Type 0 where
  detected chosen : OpportunityStatus

pub record Opportunity : Type 0 where
  pub creator_id : String
  pub status : OpportunityStatus

pub record OpportunityMission : Type 0 where
  pub id : String
  pub creator_id : String

-- A Mission stands by the Opportunity that it comes of; that column is unique.
pub record Market : Type 0 where
  pub universes : List String
  pub opportunities : Dict String Opportunity
  pub theses : List Thesis
  pub leases : List Lease
  pub missions : Dict String OpportunityMission

pub data MarketError : Type 0 where
  not_found value_error lease_conflict integrity_error invalid_origin lease_expired : MarketError

abbrev pub thesis_by_id : String → List Thesis → Option Thesis
thesis_by_id id [] = none
thesis_by_id id (t ∷ ts) = let rest = thesis_by_id id ts in if t.id == id then some t else rest

abbrev pub lease_by_id : String → List Lease → Option Lease
lease_by_id id [] = none
lease_by_id id (l ∷ ls) = let rest = lease_by_id id ls in if l.id == id then some l else rest

abbrev pub is_active : LeaseStatus → Bool
is_active active = true
is_active expired = false
is_active released = false

abbrev pub is_executive : LeaseType → Bool
is_executive executive = true
is_executive research = false

-- The rows that the unique index holds to one for an Opportunity.
abbrev pub is_active_executive : String → Lease → Bool
is_active_executive opportunity_id l =
    (l.opportunity_id == opportunity_id) && (is_executive l.lease_type && is_active l.status)

abbrev pub found_opportunity : Option Opportunity → Result MarketError Opportunity
found_opportunity none = err not_found
found_opportunity (some o) = ok o

abbrev pub thesis_of : String → Option Thesis → Result MarketError Thesis
thesis_of opportunity_id none = err not_found
thesis_of opportunity_id (some t) =
    if t.opportunity_id == opportunity_id then ok t else err not_found

unfoldable pub validated_competition_entities :
    Market → String → String → String → Result MarketError Thesis
validated_competition_entities m opportunity_id thesis_id universe_id = do
  found_opportunity (lookup opportunity_id m.opportunities)
  t ← thesis_of opportunity_id (thesis_by_id thesis_id m.theses)
  guard (contains universe_id m.universes && (t.universe_id == universe_id)) not_found
  ok t

abbrev pub lease_for : String → LeaseType → ℕ → Thesis → Lease
lease_for id lease_type expires_at t = record {
  id = id;
  opportunity_id = t.opportunity_id;
  thesis_id = t.id;
  universe_id = t.universe_id;
  lease_type = lease_type;
  status = active;
  expires_at = expires_at;
}

-- The insert, which the unique index may refuse.
abbrev pub add_lease : Lease → Market → Result MarketError (Lease × Market)
add_lease l m =
    if is_active_executive l.opportunity_id l
      && any (λ x. is_active_executive l.opportunity_id x) m.leases
    then err lease_conflict
    else ok (l, record m { leases = m.leases ++ l ∷ [] })

unfoldable pub acquire_research_lease :
    ℕ → String → String → String → String → ℕ → Market → Result MarketError (Lease × Market)
acquire_research_lease now id opportunity_id thesis_id universe_id expires_at m = do
  guard (ltb now expires_at) value_error
  t ← validated_competition_entities m opportunity_id thesis_id universe_id
  add_lease (lease_for id research expires_at t) m

-- An active executive lease of the Opportunity whose time is over expires.
abbrev pub expire : ℕ → String → Lease → Lease
expire now opportunity_id l =
    if is_active_executive opportunity_id l && leb l.expires_at now
    then record l { status = expired }
    else l

abbrev pub expire_stale : ℕ → String → Market → Market
expire_stale now opportunity_id m = record m {
  leases = map (λ l. expire now opportunity_id l) m.leases;
}

unfoldable pub acquire_executive_lease :
    ℕ → String → String → String → String → ℕ → Market → Result MarketError (Lease × Market)
acquire_executive_lease now id opportunity_id thesis_id universe_id expires_at m = do
  guard (ltb now expires_at) value_error
  t ← validated_competition_entities m opportunity_id thesis_id universe_id
  add_lease (lease_for id executive expires_at t) (expire_stale now opportunity_id m)

abbrev pub with_lease : String → (Lease → Lease) → List Lease → List Lease
with_lease id change [] = []
with_lease id change (l ∷ ls) =
    let rest = with_lease id change ls in if l.id == id then change l ∷ rest else l ∷ rest

abbrev pub lease_held_by : String → Option Lease → Result MarketError Lease
lease_held_by universe_id none = err not_found
lease_held_by universe_id (some l) = if l.universe_id == universe_id then ok l else err not_found

abbrev pub release : Lease → Lease
release l = if is_active l.status then record l { status = released } else l

unfoldable pub release_lease : String → String → Market → Result MarketError (Lease × Market)
release_lease id universe_id m = do
  l ← lease_held_by universe_id (lease_by_id id m.leases)
  guard (contains universe_id m.universes) not_found
  ok (release l, record m { leases = with_lease id release m.leases })

-- A thesis as it is submitted for an Opportunity of the Creator.
unfoldable pub submit_thesis : String → Thesis → Market → Result MarketError (Thesis × Market)
submit_thesis creator_id t m = do
  o ← found_opportunity (lookup t.opportunity_id m.opportunities)
  guard (o.creator_id == creator_id) not_found
  guard (contains t.universe_id m.universes) not_found
  let stored = record t { status = proposed }
  ok (stored, record m { theses = m.theses ++ stored ∷ [] })
