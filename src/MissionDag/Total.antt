-- ===== src/MissionDag/Total.antt =====
-- On a table that is closed under its keys the search ends within its fuel: it returns, or it has
-- found a cycle.
use the_creation_os.Prelude.{
  ℕ, zero, suc, String, ◌≡◌, ◌<◌, ◌+◌, ◌⊎◌, inl, inr, refl, sym, ap, ◌∙◌, subst, List, [], ◌∷◌,
  Option, some, string_eq, contains, erase, length, Result, ok, err, In, Distinct, arith,
  Bool-cases, not-In_of_contains, In-of_contains, length-le_of_Distinct,
}
use the_creation_os.MissionDag.{Marks, PlanError, cycle_detected, visit, visit_each}
use the_creation_os.MissionDag.Search.{Reaches, direct, further, entered, left_marks, erase_head}

module _ (dependencies : String → Option (List String)) where
  -- The call returns and leaves `visiting` as it was, or it raises and there is a cycle.
  abbrev pub Outcome : Result PlanError Marks → List String → Type 0
  Outcome r visiting =
      ((m : Marks) × (r ≡ ok m) × (m.visiting ≡ visiting))
      ⊎ ((r ≡ err cycle_detected) × (c : String) × Reaches dependencies c c)

  pub visit_each_outcome :
      (go : String → Marks → Result PlanError Marks) (visiting keys : List String)
      → ((k : String) (m : Marks) → In k keys → m.visiting ≡ visiting → Outcome (go k m) visiting)
      → (m : Marks) → m.visiting ≡ visiting
      → Outcome (visit_each go keys m) visiting
  unfolding visit_each
  visit_each_outcome go visiting [] step m same = inl (m, refl, same)
  visit_each_outcome go visiting (k ∷ keys) step m same = elim (step k m (inl refl) same) [
    | inl (m1, ran, same1) ↦
        rw ran (visit_each_outcome go visiting keys (λ j n later. step j n (inr later)) m1 same1)
    | inr (raised, c, cycle) ↦ rw raised (inr (refl, c, cycle))
  ]

  -- The table has every known key, with known dependencies only.
  abbrev pub IsClosed : List String → Type 0
  IsClosed known =
      (k : String)
      → In k known
      → (deps : List String) × (dependencies k ≡ some deps)
        × ((d : String) → In d deps → In d known)

  -- The keys that are being visited are distinct known keys, and each leads to the one at hand.
  pub record Leads (known visiting : List String) (k : String) : Type 0 where
    pub distinct : Distinct visiting
    pub known_all : (x : String) → In x visiting → In x known
    pub leads : (x : String) → In x visiting → Reaches dependencies x k

  Leads-entered :
      (known visiting deps : List String) (k d : String)
      → In k known
      → ¬ In k visiting
      → Leads known visiting k
      → dependencies k ≡ some deps
      → In d deps
      → Leads known (k ∷ visiting) d
  Leads-entered known visiting deps k d here new l found into = record {
    distinct = (new, l.distinct);
    known_all = λ x. elim [
      | inl same ↦ subst (λ y. In y known) (sym same) here
      | inr older ↦ l.known_all x older
    ];
    leads = λ x. elim [
      | inl same ↦ subst (λ y. Reaches dependencies y d) (sym same) (direct d (deps, found, into))
      | inr older ↦ further (l.leads x older) d (deps, found, into)
    ];
  }

  module _ (known : List String) (closed : IsClosed known) where
    pub visit_outcome :
        (fuel : ℕ) (k : String) (m : Marks)
        → In k known
        → Leads known m.visiting k
        → length known < fuel + length m.visiting
        → Outcome (visit dependencies fuel k m) m.visiting
    unfolding visit
    visit_outcome zero k m here l room =
        absurd (omega (arith, length-le_of_Distinct m.visiting known l.distinct l.known_all))
    visit_outcome (suc fuel) k m here l room = elim (Bool-cases (contains k m.visiting)) [
      | inl again ↦ rw again (inr (refl, k, l.leads k (In-of_contains k m.visiting again)))
      | inr fresh ↦
          let new = not-In_of_contains k m.visiting fresh in
          elim (Bool-cases (contains k m.visited)) [
            | inl seen ↦ rw (fresh, seen) (inl (m, refl, refl))
            | inr unseen ↦
                let (deps, found, inside) = closed k here in
                let each =
                  visit_each_outcome (visit dependencies fuel) (k ∷ m.visiting) deps
                    (λ d n into eq. subst (Outcome (visit dependencies fuel d n)) eq (
                      visit_outcome fuel d n (inside d into)
                        (subst (λ v. Leads known v d) (sym eq)
                          (Leads-entered known m.visiting deps k d here new l found into))
                        (omega (arith, ap (length {A = String}) eq))))
                    (entered k m) refl in
                elim each [
                  | inl (m1, ran, same) ↦
                      rw (fresh, unseen, found, ran)
                        (inl (left_marks k m1, refl, ap (erase k) same ∙ erase_head k m.visiting))
                  | inr (raised, c, cycle) ↦
                      rw (fresh, unseen, found, raised) (inr (refl, c, cycle))
                ]
          ]
    ]
