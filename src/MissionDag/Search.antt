-- ===== src/MissionDag/Search.antt =====
-- The depth-first search of `validate_mission_steps`, over any table of dependencies.
use the_creation_os.Prelude.{
  ℕ, zero, suc, String, ◌≡◌, ◌⊎◌, inl, inr, refl, sym, ap, ◌∙◌, subst, Bool, true, false, List, [],
  ◌∷◌, Option, none, some, string_eq, contains, erase, Result, ok, err, ◌>>=◌, if◌then◌else◌, In,
  >>=-eq-ok, In-of_contains, not-In_of_contains, beq_refl,
}
use the_creation_os.MissionDag.{Marks, PlanError, visit, visit_each, or_key_error, cycle_detected}

abbrev pub entered : String → Marks → Marks
entered k m = record m { visiting = k ∷ m.visiting }

abbrev pub left_marks : String → Marks → Marks
left_marks k m = record { visiting = erase k m.visiting; visited = k ∷ m.visited }

pub erase_head : (k : String) (xs : List String) → erase k (k ∷ xs) ≡ xs
erase_head k xs = rw (beq_refl k)

branches :
    (t u : Bool) (o : Option (List String)) (run : List String → Result PlanError Marks)
    (finish : Marks → Marks) (m m' : Marks)
    → (if t
        then err cycle_detected
        else if u
        then ok m
        else (do deps ← or_key_error o; m1 ← run deps; ok (finish m1)))
      ≡ ok m'
    → (t ≡ false)
      × (((u ≡ true) × (m ≡ m'))
          ⊎ ((u ≡ false)
              × (deps : List String) × (o ≡ some deps)
              × (m1 : Marks) × (run deps ≡ ok m1)
              × (finish m1 ≡ m')))
branches true u o run finish m m' h = cc
branches false true o run finish m m' h = (refl, inl (refl, cc))
branches false false none run finish m m' h = cc
branches false false (some deps) run finish m m' h =
    let (m1, ran, ended) = >>=-eq-ok (run deps) (λ x. ok (finish x)) h in
    (refl, inr (refl, deps, refl, m1, ran, cc))

module _ (dependencies : String → Option (List String)) where
  abbrev pub DependsOn : String → String → Type 0
  DependsOn k d = (deps : List String) × (dependencies k ≡ some deps) × In d deps

  -- A chain of at least one dependency.
  pub data Reaches (k : String) : String → Type 0 where
    direct : (d : String) → DependsOn k d → Reaches k d
    further : {d : String} → Reaches k d → (c : String) → DependsOn d c → Reaches k c

  -- Newest first: each key stands once, before all that it depends on.
  abbrev pub IsOrdered : List String → Type 0
  IsOrdered [] = Unit
  IsOrdered (k ∷ rest) = (¬ In k rest) × ((d : String) → DependsOn k d → In d rest) × IsOrdered rest

  -- The marks between two calls: nothing is both visiting and visited.
  pub record IsSound (m : Marks) : Type 0 where
    pub ordered : IsOrdered m.visited
    pub apart : (x : String) → In x m.visiting → ¬ In x m.visited

  -- What a call that returns has done: `visiting` is as before, and `visited` has only grown.
  pub record Grows (m m' : Marks) : Type 0 where
    pub restored : m'.visiting ≡ m.visiting
    pub kept : (x : String) → In x m.visited → In x m'.visited
    pub sound : IsSound m'

  pub visit_each-Grows :
      (go : String → Marks → Result PlanError Marks)
      → ((k : String) (m m' : Marks) → IsSound m → go k m ≡ ok m' → Grows m m' × In k m'.visited)
      → (keys : List String) (m m' : Marks) → IsSound m
      → visit_each go keys m ≡ ok m'
      → Grows m m' × ((k : String) → In k keys → In k m'.visited)
  unfolding visit_each
  visit_each-Grows go step [] m m' s h =
      let same : m ≡ m' = cc in
      (
        record {
          restored = sym (ap (λ (x : Marks). x.visiting) same);
          kept = λ x. subst (λ n. In x n.visited) same;
          sound = subst IsSound same s;
        },
        λ k b. elim b [ ],
      )
  visit_each-Grows go step (k ∷ keys) m m' s h =
      let (m1, first, rest) = >>=-eq-ok (go k m) (visit_each go keys) h in
      let (g1, here) = step k m m1 s first in
      let (g2, there) = visit_each-Grows go step keys m1 m' g1.sound rest in
      (
        record {
          restored = g2.restored ∙ g1.restored;
          kept = λ x old. g2.kept x (g1.kept x old);
          sound = g2.sound;
        },
        λ x. elim [
          | inl same ↦ subst (λ y. In y m'.visited) (sym same) (g2.kept k here)
          | inr later ↦ there x later
        ],
      )

  -- How a call that returns has run.
  visit_inversion :
      (fuel : ℕ) (k : String) (m m' : Marks)
      → visit dependencies (suc fuel) k m ≡ ok m'
      → (contains k m.visiting ≡ false)
        × (((contains k m.visited ≡ true) × (m ≡ m'))
            ⊎ ((contains k m.visited ≡ false)
                × (deps : List String) × (dependencies k ≡ some deps)
                × (m1 : Marks) × (visit_each (visit dependencies fuel) deps (entered k m) ≡ ok m1)
                × (left_marks k m1 ≡ m')))
  unfolding visit
  visit_inversion fuel k m m' h =
      branches (contains k m.visiting) (contains k m.visited) (dependencies k)
        (λ deps. visit_each (visit dependencies fuel) deps (entered k m)) (left_marks k) m m' h

  entered-IsSound :
      (k : String) (m : Marks) → IsSound m → contains k m.visited ≡ false → IsSound (entered k m)
  entered-IsSound k m s unseen = record {
    ordered = s.ordered;
    apart = λ x. elim [
      | inl same ↦ subst (λ y. ¬ In y m.visited) (sym same) (not-In_of_contains k m.visited unseen)
      | inr older ↦ s.apart x older
    ];
  }

  -- Leaving the key that was entered last.
  left-Grows :
      (k : String) (m m1 : Marks) (deps : List String)
      → dependencies k ≡ some deps
      → IsSound m
      → contains k m.visiting ≡ false
      → Grows (entered k m) m1
      → ((d : String) → In d deps → In d m1.visited)
      → Grows m (left_marks k m1)
  left-Grows k m m1 deps found s fresh g done = record {
    restored = back;
    kept = λ x old. inr (g.kept x old);
    sound = record {
      ordered = (
        g.sound.apart k (subst (In k) (sym g.restored) (inl refl)),
        λ d (ds, e, into). done d (let alike : ds ≡ deps = cc in subst (In d) alike into),
        g.sound.ordered,
      );
      apart = λ x before. elim [
        | inl same ↦
            not-In_of_contains k m.visiting fresh
              (subst (In k) back (subst (λ y. In y (erase k m1.visiting)) same before))
        | inr seen ↦
            g.sound.apart x (subst (In x) (sym g.restored) (inr (subst (In x) back before))) seen
      ];
    };
  }
    where
      back : erase k m1.visiting ≡ m.visiting
      back = ap (erase k) g.restored ∙ erase_head k m.visiting

  pub visit-Grows :
      (fuel : ℕ) (k : String) (m m' : Marks)
      → IsSound m
      → visit dependencies fuel k m ≡ ok m'
      → Grows m m' × In k m'.visited
  unfolding visit
  visit-Grows zero k m m' s h = cc
  visit-Grows (suc fuel) k m m' s h =
      let (fresh, way) = visit_inversion fuel k m m' h in
      elim way [
        | inl (seen, same) ↦ (
          record {
            restored = ap (λ (x : Marks). x.visiting) (sym same);
            kept = λ x. subst (λ n. In x n.visited) same;
            sound = subst IsSound same s;
          },
          subst (λ n. In k n.visited) same (In-of_contains k m.visited seen),
        )
        | inr (unseen, deps, found, m1, ran, same) ↦
            let (g, done) =
              visit_each-Grows (visit dependencies fuel) (visit-Grows fuel) deps (entered k m) m1
                (entered-IsSound k m s unseen) ran in
            (
              subst (Grows m) same (left-Grows k m m1 deps found s fresh g done),
              subst (λ n. In k n.visited) same (inl refl),
            )
      ]

  -- An ordered list is closed under dependencies, and no key in it leads to itself.
  dependency_In : (l : List String) (k d : String) → IsOrdered l → In k l → DependsOn k d → In d l
  dependency_In [] k d o m h = elim m [ ]
  dependency_In (x ∷ rest) k d o (inl same) h = inr (o.1 d (subst (λ y. DependsOn y d) same h))
  dependency_In (x ∷ rest) k d o (inr m) h = inr (dependency_In rest k d o.2 m h)

  after_head : (x c : String) (rest : List String) → IsOrdered (x ∷ rest) → Reaches x c → In c rest
  after_head x c rest o (direct d h) = o.1 d h
  after_head x c rest o (further {d = d} r e h) =
      dependency_In rest d e o.2 (after_head x d rest o r) h

  pub ordered_acyclic : (l : List String) (k : String) → IsOrdered l → In k l → ¬ Reaches k k
  ordered_acyclic [] k o m r = elim m [ ]
  ordered_acyclic (x ∷ rest) k o (inl same) r =
      o.0 (after_head x x rest o (subst (λ y. Reaches y y) same r))
  ordered_acyclic (x ∷ rest) k o (inr m) r = ordered_acyclic rest k o.2 m r
