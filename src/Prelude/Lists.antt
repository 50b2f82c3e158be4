-- ===== src/Prelude/Lists.antt =====
-- Lists measured by native numbers, and membership as a test and as a predicate by recursion.
use Prim.Native.Nat.{ℕ, suc, ◌+◌, ◌≤◌}
use mathlib.Core.Path.{◌≡◌, refl, sym, subst}
use mathlib.Core.Logic.{◌⊎◌, inl, inr, ◌≢◌, ◌↔◌}
use mathlib.Core.Bool.{Bool, true, false, ◌||◌, ◌&&◌, not}
use mathlib.Core.List.{List, [], ◌∷◌, ◌++◌, map}
use native.Mathlib.Omega.{arith}
use the_creation_os.Prelude.Tests.{if◌then◌else◌, Bool-cases}
use the_creation_os.Prelude.Equality.{Eq, ◌==◌}

module _ {ℓ} {A : Type ℓ} where
  abbrev pub length : List A → ℕ
  length [] = 0
  length (x ∷ xs) = suc (length xs)

  abbrev pub any : (A → Bool) → List A → Bool
  any p [] = false
  any p (x ∷ xs) = p x || any p xs

  abbrev pub all : (A → Bool) → List A → Bool
  all p [] = true
  all p (x ∷ xs) = p x && all p xs

  -- [x for x in xs if p(x)]
  abbrev pub keep_if : (A → Bool) → List A → List A
  keep_if p [] = []
  keep_if p (x ∷ xs) = let rest = keep_if p xs in if p x then x ∷ rest else rest

module _ {A : Type 0} where
  abbrev pub In : A → List A → Type 0
  In x [] = ⊥
  In x (y ∷ ys) = (x ≡ y) ⊎ In x ys

  pub In-append_left : (x : A) (xs ys : List A) → In x xs → In x (xs ++ ys)
  In-append_left x [] ys h = elim h [ ]
  In-append_left x (y ∷ xs) ys (inl e) = inl e
  In-append_left x (y ∷ xs) ys (inr h) = inr (In-append_left x xs ys h)

  pub In-append_right : (x : A) (xs ys : List A) → In x ys → In x (xs ++ ys)
  In-append_right x [] ys h = h
  In-append_right x (y ∷ xs) ys h = inr (In-append_right x xs ys h)

module _ {ℓ κ} {A : Type ℓ} where
  abbrev pub All : (A → Type κ) → List A → Type κ
  All P [] = Unit
  All P (x ∷ xs) = P x × All P xs

module _ {κ} {A : Type 0} where
  pub All-In : (P : A → Type κ) (x : A) (xs : List A) → All P xs → In x xs → P x
  All-In P x [] h m = elim m [ ]
  All-In P x (y ∷ ys) h (inl e) = subst P (sym e) h.0
  All-In P x (y ∷ ys) h (inr m) = All-In P x ys h.1 m

  pub All-of_In : (P : A → Type κ) (xs : List A) → ((x : A) → In x xs → P x) → All P xs
  All-of_In P [] f = tt
  All-of_In P (x ∷ xs) f = (f x (inl refl), All-of_In P xs (λ y m. f y (inr m)))

module _ {A : Type 0} where
  pub all_iff : (p : A → Bool) (xs : List A) → (all p xs ≡ true) ↔ ((x : A) → In x xs → p x ≡ true)
  all_iff p [] = (λ _ x m. elim m [ ], λ _. refl)
  all_iff p (y ∷ ys) = (
    λ h x. elim [ inl same ↦ rw same (ground arith) | inr m ↦ (all_iff p ys).0 (ground arith) x m ],
    λ f. rw (f y (inl refl)) ((all_iff p ys).1 (λ x m. f x (inr m))),
  )

module _ {A : Type 0} ⦃e : Eq A⦄ where
  -- `x in xs`
  abbrev pub contains : A → List A → Bool
  contains x [] = false
  contains x (y ∷ ys) = (x == y) || contains x ys

  pub In-of_contains : (x : A) (xs : List A) → contains x xs ≡ true → In x xs
  In-of_contains x [] h = cc
  In-of_contains x (y ∷ ys) h = ground (arith, e.beq_iff x y, In-of_contains x ys)

  pub contains-of_In : (x : A) (xs : List A) → In x xs → contains x xs ≡ true
  contains-of_In x [] h = elim h [ ]
  contains-of_In x (y ∷ ys) (inl h) = ground (arith, e.beq_iff x y)
  contains-of_In x (y ∷ ys) (inr h) = ground (arith, contains-of_In x ys h)

  pub not-In_of_contains : (x : A) (xs : List A) → contains x xs ≡ false → ¬ In x xs
  not-In_of_contains x xs h m = cc (contains-of_In x xs m, h)

  pub not-contains_of_In : (x : A) (xs : List A) → (¬ In x xs) → contains x xs ≡ false
  not-contains_of_In x xs h = elim (Bool-cases (contains x xs)) [
    | inl e ↦ absurd (h (In-of_contains x xs e))
    | inr e ↦ e
  ]

  -- `s.remove(x)` on a list of distinct values: the first occurrence goes.
  abbrev pub erase : A → List A → List A
  erase x [] = []
  erase x (y ∷ ys) = let rest = erase x ys in if x == y then ys else y ∷ rest

  -- `len(xs) == len(set(xs))`
  abbrev pub distinct : List A → Bool
  distinct [] = true
  distinct (x ∷ xs) = not (contains x xs) && distinct xs

module _ {ℓ κ} {A : Type ℓ} {B : Type κ} where
  pub length-map : (f : A → B) (xs : List A) → length (map f xs) ≡ length xs
  length-map f [] = refl
  length-map f (x ∷ xs) = omega (arith, length-map f xs)

module _ {A B : Type 0} where
  pub In-map : (f : A → B) (x : A) (xs : List A) → In x xs → In (f x) (map f xs)
  In-map f x [] h = elim h [ ]
  In-map f x (y ∷ ys) (inl e) = inl (λ i. f (e i))
  In-map f x (y ∷ ys) (inr m) = inr (In-map f x ys m)

module _ {A : Type 0} ⦃e : Eq A⦄ where
  abbrev pub Distinct : List A → Type 0
  Distinct [] = Unit
  Distinct (x ∷ xs) = (¬ In x xs) × Distinct xs

  pub Distinct_of_distinct : (xs : List A) → distinct xs ≡ true → Distinct xs
  Distinct_of_distinct [] h = tt
  Distinct_of_distinct (x ∷ xs) h =
      (not-In_of_contains x xs (ground arith), Distinct_of_distinct xs (ground arith))

  pub distinct_of_Distinct : (xs : List A) → Distinct xs → distinct xs ≡ true
  distinct_of_Distinct [] h = refl
  distinct_of_Distinct (x ∷ xs) h =
      ground (arith, distinct_of_Distinct xs h.1, not-contains_of_In x xs h.0)

  -- `set(xs)`, enumerated: the first occurrence of each value.
  abbrev pub set_of : List A → List A
  set_of [] = []
  set_of (x ∷ xs) = let rest = set_of xs in if contains x xs then rest else x ∷ rest

  pub In-set_of : (x : A) (xs : List A) → In x xs → In x (set_of xs)
  In-set_of x [] h = elim h [ ]
  In-set_of x (y ∷ ys) (inl h) = elim (Bool-cases (contains y ys)) [
    | inl old ↦ rw old (In-set_of x ys (subst (λ z. In z ys) (sym h) (In-of_contains y ys old)))
    | inr new ↦ rw new (inl h)
  ]
  In-set_of x (y ∷ ys) (inr h) = elim (Bool-cases (contains y ys)) [
    | inl old ↦ rw old (In-set_of x ys h)
    | inr new ↦ rw new (inr (In-set_of x ys h))
  ]

  pub In-of_set_of : (x : A) (xs : List A) → In x (set_of xs) → In x xs
  In-of_set_of x [] h = elim h [ ]
  In-of_set_of x (y ∷ ys) h = ground (arith, In-of_set_of x ys)

  length-erase : (x : A) (xs : List A) → In x xs → suc (length (erase x xs)) ≡ length xs
  length-erase x [] h = elim h [ ]
  length-erase x (y ∷ ys) h = ground (arith, e.beq_iff x y, length-erase x ys)

  In-erase : (z x : A) (xs : List A) → z ≢ x → In z xs → In z (erase x xs)
  In-erase z x [] n h = elim h [ ]
  In-erase z x (y ∷ ys) n h = ground (arith, e.beq_iff x y, In-erase z x ys n)

  -- Distinct values among those of a list are at most as many as it has.
  pub length-le_of_Distinct :
      (xs ys : List A) → Distinct xs → ((x : A) → In x xs → In x ys) → length xs ≤ length ys
  length-le_of_Distinct [] ys d f = omega arith
  length-le_of_Distinct (x ∷ xs) ys d f = omega (
    arith,
    length-erase x ys (f x (inl refl)),
    length-le_of_Distinct xs (erase x ys) d.1
        λ z m. In-erase z x ys (λ same. d.0 (subst (λ v. In v xs) same m)) (f z (inr m)),
  )

-- len([x for x in xs if p(x)])
abbrev pub count_if {ℓ} : {A : Type ℓ} → (A → Bool) → List A → ℕ
count_if p [] = 0
count_if p (x ∷ xs) = let rest = count_if p xs in if p x then suc rest else rest

pub count_if-append :
    {A : Type 0} (p : A → Bool) (xs ys : List A)
    → count_if p (xs ++ ys) ≡ count_if p xs + count_if p ys
count_if-append p [] ys = omega arith
count_if-append p (x ∷ xs) ys = ground (arith, count_if-append p xs ys)
