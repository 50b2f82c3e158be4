-- ===== src/Services/Opportunities/Exclusive.antt =====
-- backend/app/services/opportunity.py: its operations in any order, and the active executive leases of
-- an Opportunity.
use the_creation_os.Prelude.{
  ℕ, ◌≤◌, ◌≡◌, refl, subst, String, Option, none, some, List, [], ◌∷◌, ◌++◌, Result, ok, err, guard,
  ◌>>=◌, >>=-eq-ok, ltb, leb, ◌==◌, string_eq, contains, keep_if, count_if, Dict, lookup, if_both,
  arith,
}
use the_creation_os.Services.Opportunities.{
  Thesis, proposed, selected, Lease, research, executive, expired, Market, MarketError, not_found,
  value_error, is_active_executive, add_lease, lease_for, expire, expire_stale, with_lease, release,
  lease_held_by, release_lease, acquire_research_lease, acquire_executive_lease,
  validated_competition_entities, lease_by_id, submit_thesis, found_opportunity, thesis_of,
  thesis_by_id, OpportunityMission,
}
use the_creation_os.Services.Opportunities.Competition.{
  choose_in, select_thesis, candidates, winner_of, current_lease, grant_lease, resolve_competition,
}
use the_creation_os.Services.Opportunities.Origin.{
  owned_opportunity, write_checked, mission_unless, create_mission_from_opportunity,
}
use the_creation_os.Services.Opportunities.Leases.{
  count-map, count-with, expire_tame, release_tame, add_lease-count,
}

pub data Operation : Type 0 where
  submits : String → Thesis → Operation
  researches : ℕ → String → String → String → String → ℕ → Operation
  acquires : ℕ → String → String → String → String → ℕ → Operation
  releases : String → String → Operation
  selects : String → String → Operation
  resolves : ℕ → String → String → Dict String ℕ → ℕ → Operation
  creates : ℕ → String → String → String → String → String → Operation

-- What is stored after a call: an error stores nothing.
abbrev pub stored : {A : Type 0} → Market → Result MarketError (A × Market) → Market
stored m (err e) = m
stored m (ok (a, m')) = m'

abbrev pub operate : Operation → Market → Market
operate (submits creator_id t) m = stored m (submit_thesis creator_id t m)
operate (researches now id o t u end) m = stored m (acquire_research_lease now id o t u end m)
operate (acquires now id o t u end) m = stored m (acquire_executive_lease now id o t u end m)
operate (releases id u) m = stored m (release_lease id u m)
operate (selects o t) m = stored m (select_thesis o t m)
operate (resolves now id o scores end) m = stored m (resolve_competition now id o scores end m)
operate (creates now id c o t l) m = (create_mission_from_opportunity now id c o t l m).1

abbrev pub operate_all : List Operation → Market → Market
operate_all [] m = m
operate_all (op ∷ ops) m = operate_all ops (operate op m)

-- The active executive leases of an Opportunity.
abbrev pub active_executives : String → Market → ℕ
active_executives o m = count_if (λ (l : Lease). is_active_executive o l) m.leases

module _ (o : String) where
  abbrev Keeps : {A : Type 0} → Result MarketError (A × Market) → Type 0
  Keeps {A} r = (a : A) (m' : Market) → r ≡ ok (a, m') → active_executives o m' ≤ 1

  Keeps-bind :
      {A B : Type 0} (first : Result MarketError B) (next : B → Result MarketError (A × Market))
      → ((b : B) → Keeps (next b))
      → Keeps (first >>= next)
  Keeps-bind (err e) next f a m' h = cc
  Keeps-bind (ok b) next f a m' h = f b a m' h

  Keeps-ok : {A : Type 0} (a : A) (m : Market) → active_executives o m ≤ 1 → Keeps (ok (a, m))
  Keeps-ok a m few b m' h =
      let same : m ≡ m' = cc in subst (λ (y : Market). active_executives o y ≤ 1) same few

  stored-few :
      {A : Type 0} (m : Market) (r : Result MarketError (A × Market))
      → active_executives o m ≤ 1
      → Keeps r
      → active_executives o (stored m r) ≤ 1
  stored-few m (err e) few k = few
  stored-few m (ok (a, m')) few k = k a m' refl

  expire_stale-few :
      (now : ℕ) (opportunity_id : String) (m : Market)
      → active_executives o m ≤ 1
      → active_executives o (expire_stale now opportunity_id m) ≤ 1
  expire_stale-few now opportunity_id m few = omega (
    arith,
    few,
    count-map o (λ l. expire now opportunity_id l) (expire_tame o now opportunity_id) m.leases,
  )

  submit-Keeps :
      (creator_id : String) (t : Thesis) (m : Market)
      → active_executives o m ≤ 1
      → Keeps (submit_thesis creator_id t m)
  unfolding submit_thesis
  submit-Keeps creator_id t m few =
      Keeps-bind (found_opportunity (lookup t.opportunity_id m.opportunities)) _ λ x.
        Keeps-bind (guard (x.creator_id == creator_id) not_found) _ λ u.
          Keeps-bind (guard (contains t.universe_id m.universes) not_found) _ λ v.
            Keeps-ok _ (record m { theses = m.theses ++ record t { status = proposed } ∷ [] }) few

  research-Keeps :
      (now : ℕ) (id opportunity_id thesis_id universe_id : String) (end : ℕ) (m : Market)
      → active_executives o m ≤ 1
      → Keeps (acquire_research_lease now id opportunity_id thesis_id universe_id end m)
  unfolding acquire_research_lease
  research-Keeps now id opportunity_id thesis_id universe_id end m few =
      Keeps-bind (guard (ltb now end) value_error) _ λ u.
        Keeps-bind (validated_competition_entities m opportunity_id thesis_id universe_id) _
          λ t l m'. add_lease-count o (lease_for id research end t) l m m' few

  acquire-Keeps :
      (now : ℕ) (id opportunity_id thesis_id universe_id : String) (end : ℕ) (m : Market)
      → active_executives o m ≤ 1
      → Keeps (acquire_executive_lease now id opportunity_id thesis_id universe_id end m)
  unfolding acquire_executive_lease
  acquire-Keeps now id opportunity_id thesis_id universe_id end m few =
      Keeps-bind (guard (ltb now end) value_error) _ λ u.
        Keeps-bind (validated_competition_entities m opportunity_id thesis_id universe_id) _
          λ t l m'.
            add_lease-count o (lease_for id executive end t) l (expire_stale now opportunity_id m)
              m' (expire_stale-few now opportunity_id m few)

  release-Keeps :
      (id universe_id : String) (m : Market)
      → active_executives o m ≤ 1
      → Keeps (release_lease id universe_id m)
  unfolding release_lease
  release-Keeps id universe_id m few =
      Keeps-bind (lease_held_by universe_id (lease_by_id id m.leases)) _ λ l.
        Keeps-bind (guard (contains universe_id m.universes) not_found) _ λ u.
          Keeps-ok (release l) (record m { leases = with_lease id release m.leases })
            (omega (arith, few, count-with o release (release_tame o) id m.leases))

  select-Keeps :
      (opportunity_id thesis_id : String) (m : Market)
      → active_executives o m ≤ 1
      → Keeps (select_thesis opportunity_id thesis_id m)
  unfolding select_thesis
  select-Keeps opportunity_id thesis_id m few =
      Keeps-bind (found_opportunity (lookup opportunity_id m.opportunities)) _ λ x.
        Keeps-bind (thesis_of opportunity_id (thesis_by_id thesis_id m.theses)) _ λ t.
          Keeps-bind (guard (contains t.universe_id m.universes) not_found) _
            λ u. Keeps-ok _ (choose_in opportunity_id thesis_id x m) few

  grant-Keeps :
      (id : String) (end : ℕ) (winner : Thesis) (current : Option Lease) (m : Market)
      → active_executives o m ≤ 1
      → Keeps (grant_lease id end winner current m)
  grant-Keeps id end winner none m few a m' h =
      let (written, added, rest) =
        >>=-eq-ok (add_lease (lease_for id executive end winner) m)
          (λ (w : Lease × Market). ok ((record winner { status = selected }, w.0), w.1)) h in
      Keeps-ok _ written.1
        (add_lease-count o (lease_for id executive end winner) written.0 m written.1 few added) a m'
        rest
  grant-Keeps id end winner (some current) m few a m' h = Keeps-ok _ m few a m' h

  resolve-Keeps :
      (now : ℕ) (id opportunity_id : String) (scores : Dict String ℕ) (end : ℕ) (m : Market)
      → active_executives o m ≤ 1
      → Keeps (resolve_competition now id opportunity_id scores end m)
  unfolding resolve_competition
  resolve-Keeps now id opportunity_id scores end m few =
      Keeps-bind (guard (ltb now end) value_error) _ λ u.
        Keeps-bind (found_opportunity (lookup opportunity_id m.opportunities)) _ λ x.
          Keeps-bind
            (candidates (keep_if (λ t. t.opportunity_id == opportunity_id) m.theses) scores) _
            λ scored. Keeps-bind (winner_of scored) _ λ winner.
              Keeps-bind (current_lease now opportunity_id winner m.leases) _ λ current.
                grant-Keeps id end winner current
                  (choose_in opportunity_id winner.id x (expire_stale now opportunity_id m))
                  (expire_stale-few now opportunity_id m few)

  create-few :
      (now : ℕ) (id creator_id opportunity_id thesis_id lease_id : String) (m : Market)
      → active_executives o m ≤ 1
      → active_executives o
          (create_mission_from_opportunity now id creator_id opportunity_id thesis_id lease_id m).1
        ≤ 1
  unfolding create_mission_from_opportunity
  create-few now id creator_id opportunity_id thesis_id lease_id m few =
      if_both Few (owned_opportunity creator_id (lookup opportunity_id m.opportunities))
        (by_existing (lookup opportunity_id m.missions)) few
    where
      Few : Result MarketError OpportunityMission × Market → Type 0
      Few r = active_executives o r.1 ≤ 1

      by_lease :
          (l : Result MarketError Lease) → Few (write_checked now id creator_id opportunity_id l m)
      by_lease (err e) = few
      by_lease (ok l) =
          if_both Few (leb l.expires_at now)
            (omega (
              arith,
              few,
              count-with o (λ (x : Lease). record x { status = expired }) (λ x h. ground (arith, h))
                  l.id m.leases,
            ))
            few

      by_existing :
          (e : Option OpportunityMission)
          → Few (mission_unless now id creator_id opportunity_id thesis_id lease_id m e)
      by_existing (some existing) = if_both Few (existing.creator_id == creator_id) few few
      by_existing none = by_lease _

  operate-few :
      (op : Operation) (m : Market)
      → active_executives o m ≤ 1
      → active_executives o (operate op m) ≤ 1
  operate-few (submits creator_id t) m few = stored-few m _ few (submit-Keeps creator_id t m few)
  operate-few (researches now id op t u end) m few =
      stored-few m _ few (research-Keeps now id op t u end m few)
  operate-few (acquires now id op t u end) m few =
      stored-few m _ few (acquire-Keeps now id op t u end m few)
  operate-few (releases id u) m few = stored-few m _ few (release-Keeps id u m few)
  operate-few (selects op t) m few = stored-few m _ few (select-Keeps op t m few)
  operate-few (resolves now id op scores end) m few =
      stored-few m _ few (resolve-Keeps now id op scores end m few)
  operate-few (creates now id c op t l) m few = create-few now id c op t l m few

-- Through any operations, in any order, the unique index keeps an Opportunity that has one active
-- executive lease at most from having two.
pub operate_all-few :
    (o : String) (ops : List Operation) (m : Market)
    → active_executives o m ≤ 1
    → active_executives o (operate_all ops m) ≤ 1
operate_all-few o [] m few = few
operate_all-few o (op ∷ ops) m few = operate_all-few o ops (operate op m) (operate-few o op m few)
