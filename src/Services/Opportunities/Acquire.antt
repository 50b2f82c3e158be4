-- ===== src/Services/Opportunities/Acquire.antt =====
-- backend/app/services/opportunity.py, `acquire_executive_lease`: who gets the executive lease of an
-- Opportunity.
use the_creation_os.Prelude.{
  ℕ, ◌≡◌, ◌⊎◌, refl, sym, ap, ◌∙◌, subst, inl, inr, String, Bool, true, false, ◌&&◌, Option, List,
  [], ◌∷◌, ◌++◌, map, none, some, ok, err, ltb, guard, ◌>>=◌, ◌>>◌, >>=-eq-ok, ◌==◌, string_eq, any,
  contains, lookup, Bool-cases, count_if, count_if-append, if-eq_cases, beq_refl, arith,
}
use the_creation_os.Services.Opportunities.{
  Thesis, Lease, executive, Market, lease_conflict, not_found, is_active_executive, lease_for,
  add_lease, expire, expire_stale, found_opportunity, thesis_of, thesis_by_id,
  validated_competition_entities, acquire_executive_lease,
}
use the_creation_os.Services.Opportunities.Leases.{none_active}
use the_creation_os.Services.Opportunities.Exclusive.{active_executives}

-- The lease holds the Opportunity at the time.
abbrev pub holds : ℕ → String → Lease → Bool
holds now o l = is_active_executive o l && ltb now l.expires_at

expire-holds :
    (now : ℕ) (o : String) (l : Lease) → is_active_executive o (expire now o l) ≡ holds now o l
expire-holds now o l = ground arith

expired-holds :
    (now : ℕ) (o : String) (ls : List Lease)
    → any (λ (l : Lease). is_active_executive o l) (map (λ l. expire now o l) ls)
      ≡ any (λ l. holds now o l) ls
expired-holds now o [] = refl
expired-holds now o (l ∷ ls) = rw (expire-holds now o l, expired-holds now o ls) refl

thesis_of-own :
    (o : String) (found : Option Thesis) (t : Thesis)
    → thesis_of o found ≡ ok t
    → t.opportunity_id ≡ o
thesis_of-own o none t h = cc
thesis_of-own o (some x) t h =
    elim (if-eq_cases (x.opportunity_id == o) (ok x) (err not_found) (ok t) h) [
      | inl (own, same) ↦
          let e : x ≡ t = cc in
          ap (λ (y : Thesis). y.opportunity_id) (sym e)
          ∙ (string_eq.beq_iff x.opportunity_id o).0 own
      | inr (foreign, same) ↦ cc
    ]

validated-own :
    (m : Market) (o t u : String) (thesis : Thesis)
    → validated_competition_entities m o t u ≡ ok thesis
    → thesis.opportunity_id ≡ o
unfolding validated_competition_entities
validated-own m o t u thesis h =
    let own = thesis_of o (thesis_by_id t m.theses) in
    let checked =
      λ (x : Thesis). guard (contains u m.universes && (x.universe_id == u)) not_found >> ok x in
    let (x, found, h1) =
      >>=-eq-ok (found_opportunity (lookup o m.opportunities)) (λ _. own >>= checked) h in
    let (y, mine, h2) = >>=-eq-ok own checked h1 in
    let (v, fits, h3) =
      >>=-eq-ok (guard (contains u m.universes && (y.universe_id == u)) not_found) (λ _. ok y) h2 in
    let same : y ≡ thesis = cc in
    subst (λ (z : Thesis). z.opportunity_id ≡ o) same
      (thesis_of-own o (thesis_by_id t m.theses) y mine)

-- The insert of a new executive lease for an Opportunity, among the leases that are left.
module _ (o : String) (l : Lease) (m : Market) (own : is_active_executive l.opportunity_id l ≡ true)
    (same : l.opportunity_id ≡ o) where
  add-conflict :
      any (λ (x : Lease). is_active_executive o x) m.leases ≡ true
      → add_lease l m ≡ err lease_conflict
  add-conflict h = rw (own, same, h) refl

  add-ok :
      any (λ (x : Lease). is_active_executive o x) m.leases ≡ false
      → add_lease l m ≡ ok (l, record m { leases = m.leases ++ l ∷ [] })
  add-ok h = rw (own, same, h) refl

  active_after :
      any (λ (x : Lease). is_active_executive o x) m.leases ≡ false
      → active_executives o (record m { leases = m.leases ++ l ∷ [] }) ≡ 1
  active_after h = omega (
    arith,
    count_if-append (λ (x : Lease). is_active_executive o x) m.leases (l ∷ []),
    none_active o m.leases h,
    once,
  )
    where
      once : count_if (λ (x : Lease). is_active_executive o x) (l ∷ []) ≡ 1
      once = rw (subst (λ k. is_active_executive k l ≡ true) same own) refl

-- A request for the executive lease of an Opportunity, for a thesis of it and an end that lies ahead, is
-- decided by the leases that are not over: an active executive one refuses it, however many are over, and with none it
-- is granted, and the Opportunity then has exactly one active executive lease, whatever was
-- there before.
pub acquire_executive_lease-decided :
    (now : ℕ) (id o t u : String) (end : ℕ) (m : Market) (thesis : Thesis)
    → ltb now end ≡ true
    → validated_competition_entities m o t u ≡ ok thesis
    → ((any (λ l. holds now o l) m.leases ≡ true)
        × (acquire_executive_lease now id o t u end m ≡ err lease_conflict))
      ⊎ ((any (λ l. holds now o l) m.leases ≡ false)
          × ((after : Market) × (acquire_executive_lease now id o t u end m
                ≡ ok (lease_for id executive end thesis, after))
              × (active_executives o after ≡ 1)))
unfolding acquire_executive_lease
acquire_executive_lease-decided now id o t u end m thesis ahead valid =
    elim (Bool-cases (any (λ l. holds now o l) m.leases)) [
      | inl held ↦ inl (
        held,
        rw (ahead, valid)
            (add-conflict o lease rest own same (expired-holds now o m.leases ∙ held)),
      )
      | inr free ↦
          let none_left = expired-holds now o m.leases ∙ free in
          inr (
            free,
            (
              record rest { leases = rest.leases ++ lease ∷ [] },
              rw (ahead, valid) (add-ok o lease rest own same none_left),
              active_after o lease rest own same none_left,
            ),
          )
    ]
  where
    lease : Lease
    lease = lease_for id executive end thesis

    rest : Market
    rest = expire_stale now o m

    same : thesis.opportunity_id ≡ o
    same = validated-own m o t u thesis valid

    own : is_active_executive thesis.opportunity_id lease ≡ true
    own = rw (beq_refl thesis.opportunity_id) refl
