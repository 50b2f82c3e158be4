-- ===== src/Prelude/Names.antt =====
-- `name.strip().lower()` as the list of code points that it holds. Letters and white space outside
-- ASCII are left as they are. And texts that are joined.
use Prim.Native.Nat.{ℕ, ◌+◌}
use Prim.Native.Char.{code}
use Prim.Native.String.{String}
use Prim.Native.String as Text
use mathlib.Core.Path.{◌≡◌, refl}
use mathlib.Core.Logic.{◌↔◌}
use mathlib.Core.Bool.{Bool, true, false, ◌&&◌, ◌||◌}
use mathlib.Core.List.{List, [], ◌∷◌, reverse, map}
use native.Mathlib.Omega.{arith}
use the_creation_os.Prelude.Tests.{leb, nat_beq, if◌then◌else◌}
use the_creation_os.Prelude.Equality.{Eq}

abbrev pub codes : String → List ℕ
codes String.[] = []
codes (String.◌∷◌ c s) = code c ∷ codes s

abbrev is_space : ℕ → Bool
is_space c = (leb 9 c && leb c 13) || (leb 28 c && leb c 32)

abbrev drop_spaces : List ℕ → List ℕ
drop_spaces [] = []
drop_spaces (c ∷ cs) = let rest = drop_spaces cs in if is_space c then rest else c ∷ cs

abbrev pub lower : ℕ → ℕ
lower c = if leb b'A' c && leb c b'Z' then c + 32 else c

unfoldable pub normalize : String → List ℕ
normalize name = map lower (reverse (drop_spaces (reverse (drop_spaces (codes name)))))

abbrev pub codes_beq : List ℕ → List ℕ → Bool
codes_beq [] [] = true
codes_beq (c ∷ cs) (d ∷ ds) = nat_beq c d && codes_beq cs ds
codes_beq _ _ = false

pub codes_beq_iff : (a b : List ℕ) → (codes_beq a b ≡ true) ↔ (a ≡ b)
codes_beq_iff [] [] = (λ _. refl, λ _. refl)
codes_beq_iff [] (d ∷ ds) = ground arith
codes_beq_iff (c ∷ cs) [] = ground arith
codes_beq_iff (c ∷ cs) (d ∷ ds) = ground (arith, codes_beq_iff cs ds)

instance abbrev pub codes_eq : Eq (List ℕ)
codes_eq = record { beq = codes_beq; beq_iff = codes_beq_iff }

-- Texts joined without a separator, as in an f-string.
unfoldable pub join_texts : List String → String
join_texts [] = ""
join_texts (t ∷ ts) = Text.◌++◌ t (join_texts ts)

-- The characters of a text, each a text.
abbrev pub characters : String → List String
characters String.[] = []
characters (String.◌∷◌ c s) = String.◌∷◌ c String.[] ∷ characters s
