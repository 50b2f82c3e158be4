-- ===== src/Prelude/Tests.antt =====
-- Boolean tests on the native numbers, the conditional, and case splits that keep their equation.
use Prim.Native.Nat.{ℕ, ◌≤◌, ◌<◌, compare, Ordering}
use mathlib.Core.Path.{◌≡◌, refl}
use mathlib.Core.Logic.{◌↔◌, ◌⊎◌, inl, inr}
use mathlib.Core.Bool.{Bool, true, false, ◌&&◌}
use mathlib.Core.Option.{Option, none, some}
use native.Mathlib.Omega.{arith}

abbrev pub ltb : ℕ → ℕ → Bool
ltb a b = elim (compare a b) [ Ordering.lt ↦ true | _ ↦ false ]

abbrev pub leb : ℕ → ℕ → Bool
leb a b = elim (compare a b) [ Ordering.gt ↦ false | _ ↦ true ]

abbrev pub nat_beq : ℕ → ℕ → Bool
nat_beq a b = elim (compare a b) [ Ordering.eq ↦ true | _ ↦ false ]

infix 1 if◌then◌else◌
abbrev pub if◌then◌else◌ {ℓ} : {A : Type ℓ} → Bool → A → A → A
if true then x else y = x
if false then x else y = y

pub nat_beq_iff : (a b : ℕ) → (nat_beq a b ≡ true) ↔ (a ≡ b)
nat_beq_iff a b = ground arith

pub ltb→lt : (a b : ℕ) → ltb a b ≡ true → a < b
ltb→lt a b h = ground arith

pub leb→le : (a b : ℕ) → leb a b ≡ true → a ≤ b
leb→le a b h = ground arith

pub le→leb : (a b : ℕ) → a ≤ b → leb a b ≡ true
le→leb a b h = ground arith

pub Bool-cases : (b : Bool) → (b ≡ true) ⊎ (b ≡ false)
Bool-cases true = inl refl
Bool-cases false = inr refl

pub Option-cases {ℓ} : {A : Type ℓ} (o : Option A) → (o ≡ none) ⊎ ((a : A) × (o ≡ some a))
Option-cases none = inl refl
Option-cases (some a) = inr (a, refl)

pub &&-eq-true : (a b : Bool) → (a && b) ≡ true → (a ≡ true) × (b ≡ true)
&&-eq-true a b h = ground arith

abbrev pub is_some {ℓ} : {A : Type ℓ} → Option A → Bool
is_some none = false
is_some (some a) = true

-- Python's `a or b` on an optional value.
abbrev pub or_else {ℓ} : {A : Type ℓ} → Option A → A → A
or_else none d = d
or_else (some a) d = a

-- What holds of both branches holds of the conditional.
-- A predicate of a conditional, where both branches have it or the test is known.
module _ {ℓ κ} {A : Type ℓ} (P : A → Type κ) where
  pub if_both : (test : Bool) {s t : A} → P s → P t → P (if test then s else t)
  if_both false in_then in_else = in_else
  if_both true in_then in_else = in_then

  pub if_taken : (test : Bool) {s : A} (t : A) → test ≡ true → P s → P (if test then s else t)
  if_taken false t h in_then = cc
  if_taken true t h in_then = in_then

  pub if_untaken : (test : Bool) (s : A) {t : A} → test ≡ false → P t → P (if test then s else t)
  if_untaken false s h in_else = in_else
  if_untaken true s h in_else = cc

-- The two ways in which a conditional has a value.
pub if-eq_cases {ℓ} :
    {A : Type ℓ} (test : Bool) (x y z : A)
    → (if test then x else y) ≡ z
    → ((test ≡ true) × (x ≡ z)) ⊎ ((test ≡ false) × (y ≡ z))
if-eq_cases true x y z h = inl (refl, h)
if-eq_cases false x y z h = inr (refl, h)
