-- ===== src/Services/Opportunities/Leases.antt =====
-- backend/app/services/opportunity.py: how a write changes the number of active executive leases.
use the_creation_os.Prelude.{
  ℕ, suc, ◌≤◌, ◌≡◌, refl, sym, subst, inl, inr, String, Bool, true, false, ◌&&◌, List, [], ◌∷◌,
  ◌++◌, map, ok, if-eq_cases, if◌then◌else◌, ◌==◌, string_eq, any, Bool-cases, count_if,
  count_if-append, if_both, arith,
}
use the_creation_os.Services.Opportunities.{
  Lease, Market, is_active_executive, add_lease, expire, with_lease, release,
}

pub none_active :
    (o : String) (ls : List Lease)
    → any (λ (x : Lease). is_active_executive o x) ls ≡ false
    → count_if (λ (l : Lease). is_active_executive o l) ls ≡ 0
none_active o [] h = refl
none_active o (l ∷ ls) h = ground (arith, none_active o ls)

tally :
    (b c : Bool) (m n : ℕ)
    → (b ≡ true → c ≡ true)
    → m ≤ n
    → (if b then suc m else m) ≤ (if c then suc n else n)
tally b c m n f h = ground (arith, f)

-- A change of leases that makes none active keeps the count.
module _ (o : String) (change : Lease → Lease)
    (tame : (l : Lease)
      → is_active_executive o (change l) ≡ true
      → is_active_executive o l ≡ true) where
  pub count-map :
      (ls : List Lease)
      → count_if (λ (l : Lease). is_active_executive o l) (map change ls)
        ≤ count_if (λ (l : Lease). is_active_executive o l) ls
  count-map [] = omega arith
  count-map (l ∷ ls) = tally _ _ _ _ (tame l) (count-map ls)

  pub count-with :
      (id : String) (ls : List Lease)
      → count_if (λ (l : Lease). is_active_executive o l) (with_lease id change ls)
        ≤ count_if (λ (l : Lease). is_active_executive o l) ls
  count-with id [] = omega arith
  count-with id (l ∷ ls) =
      if_both
        (λ (xs : List Lease).
          count_if (λ (x : Lease). is_active_executive o x) xs
          ≤ count_if (λ (x : Lease). is_active_executive o x) (l ∷ ls))
        (l.id == id) (tally _ _ _ _ (tame l) (count-with id ls))
        (tally _ _ _ _ (λ h. h) (count-with id ls))

pub expire_tame :
    (o : String) (now : ℕ) (opportunity_id : String) (l : Lease)
    → is_active_executive o (expire now opportunity_id l) ≡ true
    → is_active_executive o l ≡ true
expire_tame o now opportunity_id l h = ground (arith, h)

pub release_tame :
    (o : String) (l : Lease)
    → is_active_executive o (release l) ≡ true
    → is_active_executive o l ≡ true
release_tame o l h = ground (arith, h)

missed :
    (o : String) (l : Lease)
    → is_active_executive o l ≡ false
    → count_if (λ (x : Lease). is_active_executive o x) (l ∷ []) ≡ 0
missed o l h = ground arith

once : (o : String) (l : Lease) → count_if (λ (x : Lease). is_active_executive o x) (l ∷ []) ≤ 1
once o l = ground arith

own_opportunity : (o : String) (l : Lease) → is_active_executive o l ≡ true → l.opportunity_id ≡ o
own_opportunity o l h = (string_eq.beq_iff l.opportunity_id o).0 (ground (arith, h))

pub add_lease-count :
    (o : String) (l l' : Lease) (m m' : Market)
    → count_if (λ (x : Lease). is_active_executive o x) m.leases ≤ 1
    → add_lease l m ≡ ok (l', m')
    → count_if (λ (x : Lease). is_active_executive o x) m'.leases ≤ 1
add_lease-count o l l' m m' few h =
    elim (if-eq_cases
      (is_active_executive l.opportunity_id l
        && any (λ (x : Lease). is_active_executive l.opportunity_id x) m.leases)
      _ _ (ok (l', m')) h) [
        | inl (clash, same) ↦ cc
        | inr (free, same) ↦
            let stored : record m { leases = m.leases ++ l ∷ [] } ≡ m' = cc in
            subst (λ (y : Market). count_if (λ (x : Lease). is_active_executive o x) y.leases ≤ 1)
              stored
              (elim (Bool-cases (is_active_executive o l)) [
                | inl hit ↦
                    let here = own_opportunity o l hit in
                    let own : is_active_executive l.opportunity_id l ≡ true =
                      subst (λ k. is_active_executive k l ≡ true) (sym here) hit in
                    let none_there : any (λ (x : Lease). is_active_executive l.opportunity_id x)
                          m.leases
                        ≡ false =
                      ground (arith, own, free) in
                    let zero_there = none_active o m.leases (
                      subst (λ k. any (λ (x : Lease). is_active_executive k x) m.leases ≡ false)
                        here none_there) in
                    omega (
                      arith,
                      zero_there,
                      once o l,
                      count_if-append (λ (x : Lease). is_active_executive o x) m.leases (l ∷ []),
                    )
                | inr miss ↦ omega (
                  arith,
                  few,
                  count_if-append (λ (x : Lease). is_active_executive o x) m.leases (l ∷ []),
                  missed o l miss,
                )
              ])
      ]
