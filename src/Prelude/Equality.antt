-- ===== src/Prelude/Equality.antt =====
-- Boolean equality as an interface: row identifiers are numbers, names and keys are texts.
use Prim.Native.Nat.{ℕ}
use Prim.Native.String.{String}
use mathlib.Core.Path.{◌≡◌, refl}
use mathlib.Core.Logic.{◌↔◌, ◌≢◌}
use mathlib.Core.Bool.{Bool, true, false, false≢true}
use native.Mathlib.Omega.{arith}
use text.Mathlib.Text.{◌==◌ as str_eq}
use text.Mathlib.TextEquality.{eq_iff}
use the_creation_os.Prelude.Tests.{nat_beq, nat_beq_iff}

-- An enum's equality, from the decision that `hlevel` derives.
abbrev pub test {ℓ} : {A : Type ℓ} → Dec A → Bool
test (yes p) = true
test (no n) = false

pub test_iff {ℓ} : {A : Type ℓ} (d : Dec A) → (test d ≡ true) ↔ A
test_iff (yes a) = (λ _. a, λ _. refl)
test_iff (no n) = (λ e. absurd (false≢true e), λ a. absurd (n a))

-- The Boolean test of a type, which decides its paths.
pub record Eq {ℓ} (A : Type ℓ) : Type ℓ where
  pub beq : A → A → Bool
  pub beq_iff : (x y : A) → (beq x y ≡ true) ↔ (x ≡ y)

abbrev pub enum_eq {ℓ} : {A : Type ℓ} → Discrete A → Eq A
enum_eq d = record { beq = λ x y. test (d x y); beq_iff = λ x y. test_iff (d x y) }

-- Keys and names.
instance abbrev pub string_eq : Eq String
string_eq = record { beq = str_eq; beq_iff = eq_iff }

-- Row identifiers and counts.
instance abbrev pub nat_eq : Eq ℕ
nat_eq = record { beq = nat_beq; beq_iff = nat_beq_iff }

infix 50 ◌==◌
abbrev pub ◌==◌ {ℓ} : {X : Type ℓ} ⦃d : Eq X⦄ (x y : X) → Bool
◌==◌ ⦃d⦄ x y = d.beq x y

module _ {ℓ} {X : Type ℓ} ⦃d : Eq X⦄ where
  pub beq_ne : (x y : X) → x ≢ y → (x == y) ≡ false
  beq_ne x y h = ground (arith, d.beq_iff x y)

  pub beq_refl : (x : X) → (x == x) ≡ true
  beq_refl x = (d.beq_iff x x).1 refl
