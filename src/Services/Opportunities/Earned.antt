-- ===== src/Services/Opportunities/Earned.antt =====
-- backend/app/services/opportunity.py, `create_mission_from_opportunity`: what a Mission of an Opportunity
-- has behind it.
use the_creation_os.Prelude.{
  ℕ, ◌<◌, ◌≡◌, ◌⊎◌, inl, inr, refl, sym, ap, ◌∙◌, subst, String, true, ◌&&◌, Option, none, some,
  Result, ok, err, ◌>>=◌, >>=-eq-ok, if-eq_cases, leb, ◌==◌, string_eq, &&-eq-true, lookup, insert,
  arith,
}
use the_creation_os.Services.Opportunities.{
  Thesis, ThesisStatus, proposed, selected, Lease, Market, MarketError, invalid_origin, not_found,
  OpportunityMission, thesis_by_id, lease_by_id, is_active_executive,
}
use the_creation_os.Services.Opportunities.Competition.{is_held_by}
use the_creation_os.Services.Opportunities.Origin.{
  is_selected, selected_thesis, executive_lease, owned_opportunity, write_checked, mission_unless,
  create_mission_from_opportunity,
}

-- The thesis is the Opportunity's selected one, and the lease is its executive lease, active and not over.
pub record IsEarned (now : ℕ) (opportunity_id thesis_id lease_id : String) (m : Market)
    : Type 0 where
  pub thesis : Thesis
  pub found_thesis : thesis_by_id thesis_id m.theses ≡ some thesis
  pub of_opportunity : thesis.opportunity_id ≡ opportunity_id
  pub is_chosen : thesis.status ≡ selected
  pub lease : Lease
  pub found_lease : lease_by_id lease_id m.leases ≡ some lease
  pub holds : is_active_executive opportunity_id lease ≡ true
  pub held : (lease.thesis_id ≡ thesis.id) × (lease.universe_id ≡ thesis.universe_id)
  pub in_time : now < lease.expires_at

selected_of : (s : ThesisStatus) → is_selected s ≡ true → s ≡ selected
selected_of selected h = refl
selected_of proposed h = cc

module _ (now : ℕ) (id creator_id opportunity_id thesis_id lease_id : String) (m m' : Market)
    (mission : OpportunityMission) where
  chosen_thesis :
      (o : Option Thesis) (t : Thesis)
      → selected_thesis opportunity_id o ≡ ok t
      → (o ≡ some t) × (t.opportunity_id ≡ opportunity_id) × (t.status ≡ selected)
  chosen_thesis none t h = cc
  chosen_thesis (some x) t h =
      elim (if-eq_cases ((x.opportunity_id == opportunity_id) && is_selected x.status) (ok x)
        (err invalid_origin) (ok t) h) [
          | inl (both, same) ↦
              let (here, chosen) =
                &&-eq-true (x.opportunity_id == opportunity_id) (is_selected x.status) both in
              let xt : x ≡ t = cc in
              subst
                (λ (y : Thesis).
                  (some x ≡ some y) × (y.opportunity_id ≡ opportunity_id) × (y.status ≡ selected))
                xt
                (
                  refl,
                  (string_eq.beq_iff x.opportunity_id opportunity_id).0 here,
                  selected_of x.status chosen,
                )
          | inr (other, same) ↦ cc
        ]

  held_lease :
      (o : Option Lease) (t : Thesis) (l : Lease)
      → executive_lease opportunity_id t o ≡ ok l
      → (o ≡ some l) × (is_active_executive opportunity_id l ≡ true) × (is_held_by t l ≡ true)
  held_lease none t l h = cc
  held_lease (some x) t l h =
      elim (if-eq_cases (is_active_executive opportunity_id x && is_held_by t x) (ok x)
        (err invalid_origin) (ok l) h) [
          | inl (both, same) ↦
              let (valid, held) =
                &&-eq-true (is_active_executive opportunity_id x) (is_held_by t x) both in
              let xl : x ≡ l = cc in
              subst
                (λ (y : Lease).
                  (some x ≡ some y)
                  × (is_active_executive opportunity_id y ≡ true)
                  × (is_held_by t y ≡ true))
                xl (refl, valid, held)
          | inr (other, same) ↦ cc
        ]

  written :
      (r : Result MarketError Lease)
      → write_checked now id creator_id opportunity_id r m ≡ (ok mission, m')
      → (l : Lease) × (r ≡ ok l) × (now < l.expires_at)
  written (err e) h = cc
  written (ok l) h =
      elim (if-eq_cases (leb l.expires_at now) _
        (
          ok (record { id = id; creator_id = creator_id }),
          record m {
            missions =
                insert opportunity_id (record { id = id; creator_id = creator_id }) m.missions;
          },
        )
        (ok mission, m') h) [
          | inl (over, same) ↦ cc
          | inr (left, same) ↦ (l, refl, ground (arith, left))
        ]

  earned :
      (r : Result MarketError Lease)
      → r ≡ (
          selected_thesis opportunity_id (thesis_by_id thesis_id m.theses) >>= λ t.
          executive_lease opportunity_id t (lease_by_id lease_id m.leases))
      → write_checked now id creator_id opportunity_id r m ≡ (ok mission, m')
      → IsEarned now opportunity_id thesis_id lease_id m
  earned r checks h =
      let (l, ok_lease, in_time) = written r h in
      let (t, ok_thesis, rest) =
        >>=-eq-ok (selected_thesis opportunity_id (thesis_by_id thesis_id m.theses))
          (λ t. executive_lease opportunity_id t (lease_by_id lease_id m.leases))
          (sym checks ∙ ok_lease) in
      let (found_t, here, chosen) = chosen_thesis (thesis_by_id thesis_id m.theses) t ok_thesis in
      let (found_l, valid, held) = held_lease (lease_by_id lease_id m.leases) t l rest in
      let (by_thesis, by_universe) =
        &&-eq-true (l.thesis_id == t.id) (l.universe_id == t.universe_id) held in
      record {
        thesis = t;
        found_thesis = found_t;
        of_opportunity = here;
        is_chosen = chosen;
        lease = l;
        found_lease = found_l;
        holds = valid;
        held = (
          (string_eq.beq_iff l.thesis_id t.id).0 by_thesis,
          (string_eq.beq_iff l.universe_id t.universe_id).0 by_universe,
        );
        in_time = in_time;
      }

  by_existing :
      (o : Option OpportunityMission)
      → mission_unless now id creator_id opportunity_id thesis_id lease_id m o ≡ (ok mission, m')
      → ((o ≡ some mission) × (m ≡ m'))
        ⊎ ((o ≡ none) × IsEarned now opportunity_id thesis_id lease_id m)
  by_existing (some existing) h =
      elim (if-eq_cases (existing.creator_id == creator_id) (ok existing, m) (err not_found, m)
        (ok mission, m') h) [
          | inl (own, same) ↦
              let kept : existing ≡ mission = cc in
              inl (
                ap some kept,
                ap (λ (r : Result MarketError OpportunityMission × Market). r.1) same,
              )
          | inr (other, same) ↦ cc
        ]
  by_existing none h = inr (refl, earned _ refl h)

-- A Mission that a call for an Opportunity returns is the Opportunity's Mission already, and nothing
-- changes; or there was none, and the call names the selected thesis of the Opportunity and its executive
-- lease, which is active, is not over, and is held by the thesis's Universe.
pub create_mission-IsEarned :
    (now : ℕ) (id creator_id opportunity_id thesis_id lease_id : String) (m m' : Market)
    (mission : OpportunityMission)
    → create_mission_from_opportunity now id creator_id opportunity_id thesis_id lease_id m
      ≡ (ok mission, m')
    → ((lookup opportunity_id m.missions ≡ some mission) × (m ≡ m'))
      ⊎ ((lookup opportunity_id m.missions ≡ none)
          × IsEarned now opportunity_id thesis_id lease_id m)
unfolding create_mission_from_opportunity
create_mission-IsEarned now id creator_id opportunity_id thesis_id lease_id m m' mission h =
    elim (if-eq_cases (owned_opportunity creator_id (lookup opportunity_id m.opportunities)) _
      (err not_found, m) (ok mission, m') h) [
        | inl (own, same) ↦
            by_existing now id creator_id opportunity_id thesis_id lease_id m m' mission
              (lookup opportunity_id m.missions) same
        | inr (other, same) ↦ cc
      ]
