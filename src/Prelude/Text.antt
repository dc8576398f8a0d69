-- ===== src/Prelude/Text.antt =====
-- Texts as the lists of their code points.
use Prim.Native.Nat.{ℕ}
use Prim.Native.Char.{code}
use Prim.Native.String.{String}
use mathlib.Core.Path.{◌≡◌, refl}
use mathlib.Core.Logic.{◌↔◌}
use mathlib.Core.Bool.{Bool, true, false, ◌&&◌}
use mathlib.Core.List.{List, [], ◌∷◌}
use native.Mathlib.Omega.{arith}
use mps4_prototyping_board.Prelude.Tests.{◌==◌}
use mps4_prototyping_board.Prelude.Sets.{Equality}

abbrev pub Name : Type 0
Name = List ℕ

-- The code points of a literal.
abbrev pub codes : String → Name
codes String.[] = []
codes (String.◌∷◌ c s) = code c ∷ codes s

abbrev pub same_name : Name → Name → Bool
same_name [] [] = true
same_name [] (d ∷ ds) = false
same_name (c ∷ cs) [] = false
same_name (c ∷ cs) (d ∷ ds) = c == d && same_name cs ds

pub same_name_iff : (s t : Name) → (same_name s t ≡ true) ↔ (s ≡ t)
same_name_iff [] [] = (λ h. refl, λ h. refl)
same_name_iff [] (d ∷ ds) = (λ h. cc h, λ h. cc h)
same_name_iff (c ∷ cs) [] = (λ h. cc h, λ h. cc h)
same_name_iff (c ∷ cs) (d ∷ ds) = ground (arith, same_name_iff cs ds)

instance abbrev pub name_equality : Equality Name
name_equality = record { same = same_name; same_iff = same_name_iff }
