-- ===== src/Services/Opportunities/Tests.antt =====
-- Witnesses for backend/app/services/opportunity.py: two theses, a resolution, a Mission.
use the_creation_os.Prelude.{
  ◌≡◌, ◌⊎◌, refl, String, true, false, any, [], ◌∷◌, none, some, ok, err, lookup, insert, string_eq,
}
use the_creation_os.Services.Opportunities.{
  Thesis, selected, proposed, detected, executive, active, Lease, Market, OpportunityMission,
  lease_conflict, lease_for, validated_competition_entities, acquire_executive_lease,
}
use the_creation_os.Services.Opportunities.Origin.{create_mission_from_opportunity}
use the_creation_os.Services.Opportunities.Exclusive.{active_executives}
use the_creation_os.Services.Opportunities.Acquire.{holds, acquire_executive_lease-decided}
use the_creation_os.Services.Opportunities.Earned.{IsEarned, create_mission-IsEarned}

abbrev thesis : String → String → Thesis
thesis id universe_id = record {
  id = id;
  opportunity_id = "o";
  universe_id = universe_id;
  confidence = 5;
  status = proposed;
}

abbrev market : Market
market = record {
  universes = "u" ∷ "v" ∷ [];
  opportunities = ("o", record { creator_id = "c"; status = detected }) ∷ [];
  theses = thesis "t" "u" ∷ thesis "s" "v" ∷ [];
  leases = [];
  missions = [];
}

abbrev lease : Lease
lease = record {
  id = "l";
  opportunity_id = "o";
  thesis_id = "t";
  universe_id = "u";
  lease_type = executive;
  status = active;
  expires_at = 9;
}

abbrev leased : Market
leased = record market {
  theses = record (thesis "t" "u") { status = selected } ∷ [];
  leases = lease ∷ [];
}

abbrev competing : Market
competing = record leased { theses = thesis "s" "v" ∷ leased.theses }

fits : validated_competition_entities competing "o" "s" "v" ≡ ok (thesis "s" "v")
unfolding validated_competition_entities lookup
fits = refl

-- The lease of the other Universe ends at 9: at 10 it expires and the new one is granted.
acquire_executive_lease-decided_example :
    ((any (λ (l : Lease). holds 10 "o" l) competing.leases ≡ true)
      × (acquire_executive_lease 10 "n" "o" "s" "v" 20 competing ≡ err lease_conflict))
    ⊎ ((any (λ (l : Lease). holds 10 "o" l) competing.leases ≡ false)
        × ((after : Market) × (acquire_executive_lease 10 "n" "o" "s" "v" 20 competing
              ≡ ok (lease_for "n" executive 20 (thesis "s" "v"), after))
            × (active_executives "o" after ≡ 1)))
acquire_executive_lease-decided_example =
    acquire_executive_lease-decided 10 "n" "o" "s" "v" 20 competing (thesis "s" "v") refl fits

abbrev mission : OpportunityMission
mission = record { id = "m"; creator_id = "c" }

abbrev with_mission : Market
with_mission = record leased { missions = ("o", mission) ∷ [] }

created : create_mission_from_opportunity 7 "m" "c" "o" "t" "l" leased ≡ (ok mission, with_mission)
unfolding create_mission_from_opportunity lookup insert
created = refl

create_mission-IsEarned_example :
    ((lookup "o" leased.missions ≡ some mission) × (leased ≡ with_mission))
    ⊎ ((lookup "o" leased.missions ≡ none) × IsEarned 7 "o" "t" "l" leased)
create_mission-IsEarned_example =
    create_mission-IsEarned 7 "m" "c" "o" "t" "l" leased with_mission mission created
