-- ===== src/Services/Opportunities/Origin.antt =====
-- backend/app/services/opportunity.py, `create_mission_from_opportunity`. The Mission's texts and its
-- authorization are not modelled.
use the_creation_os.Prelude.{
  ℕ, String, Bool, true, false, ◌&&◌, Option, none, some, Result, ok, err, ◌>>=◌, leb,
  if◌then◌else◌, ◌==◌, string_eq, nat_eq, lookup, insert,
}
use the_creation_os.Services.Opportunities.{
  ThesisStatus, proposed, selected, Thesis, expired, Lease, Opportunity, OpportunityMission, Market,
  MarketError, not_found, invalid_origin, lease_expired, thesis_by_id, lease_by_id,
  is_active_executive, with_lease,
}
use the_creation_os.Services.Opportunities.Competition.{is_held_by}

abbrev pub is_selected : ThesisStatus → Bool
is_selected selected = true
is_selected proposed = false

abbrev pub selected_thesis : String → Option Thesis → Result MarketError Thesis
selected_thesis opportunity_id none = err invalid_origin
selected_thesis opportunity_id (some t) =
    if (t.opportunity_id == opportunity_id) && is_selected t.status
    then ok t
    else err invalid_origin

abbrev pub executive_lease : String → Thesis → Option Lease → Result MarketError Lease
executive_lease opportunity_id t none = err invalid_origin
executive_lease opportunity_id t (some l) =
    if is_active_executive opportunity_id l && is_held_by t l then ok l else err invalid_origin

-- A lease whose time is over is stored as expired, and then the call raises: an error with a market.
abbrev pub write_mission :
    ℕ → String → String → String → Lease → Market → Result MarketError OpportunityMission × Market
write_mission now id creator_id opportunity_id l m =
    if leb l.expires_at now
    then (
      err lease_expired,
      record m { leases = with_lease l.id (λ x. record x { status = expired }) m.leases },
    )
    else (let mission : OpportunityMission = record { id = id; creator_id = creator_id } in
        (ok mission, record m { missions = insert opportunity_id mission m.missions }))

abbrev pub owned_opportunity : String → Option Opportunity → Bool
owned_opportunity creator_id none = false
owned_opportunity creator_id (some o) = o.creator_id == creator_id

abbrev pub write_checked :
    ℕ
    → String
    → String
    → String
    → Result MarketError Lease
    → Market
    → Result MarketError OpportunityMission × Market
write_checked now id creator_id opportunity_id (err e) m = (err e, m)
write_checked now id creator_id opportunity_id (ok l) m =
    write_mission now id creator_id opportunity_id l m

abbrev pub mission_unless :
    ℕ
    → String
    → String
    → String
    → String
    → String
    → Market
    → Option OpportunityMission
    → Result MarketError OpportunityMission × Market
mission_unless now id creator_id opportunity_id thesis_id lease_id m (some existing) =
    if existing.creator_id == creator_id then (ok existing, m) else (err not_found, m)
mission_unless now id creator_id opportunity_id thesis_id lease_id m none =
    write_checked now id creator_id opportunity_id
      (selected_thesis opportunity_id (thesis_by_id thesis_id m.theses) >>= λ t.
        executive_lease opportunity_id t (lease_by_id lease_id m.leases))
      m

unfoldable pub create_mission_from_opportunity :
    ℕ
    → String
    → String
    → String
    → String
    → String
    → Market
    → Result MarketError OpportunityMission × Market
create_mission_from_opportunity now id creator_id opportunity_id thesis_id lease_id m =
    if owned_opportunity creator_id (lookup opportunity_id m.opportunities)
    then mission_unless now id creator_id opportunity_id thesis_id lease_id m
        (lookup opportunity_id m.missions)
    else (err not_found, m)
