-- ===== src/Prelude/Texts.antt =====
-- Texts of C: bytes without the terminating 0, and strcmp() as a test.
use Prim.Native.Nat.{ℕ}
use mathlib.Core.Path.{◌≡◌, refl}
use mathlib.Core.Bool.{Bool, true, false, ◌&&◌}
use mathlib.Core.List.{List, [], ◌∷◌}
use native.Mathlib.Omega.{arith}
use drbd_utils.Prelude.Tests.{◌==◌}

abbrev pub Text : Type 0
Text = List ℕ

-- `!strcmp(a, b)`
unfoldable pub eq_text : Text → Text → Bool
eq_text [] [] = true
eq_text [] (d ∷ b) = false
eq_text (c ∷ a) [] = false
eq_text (c ∷ a) (d ∷ b) = c == d && eq_text a b

pub eq_of_eq_text : (a b : Text) → eq_text a b ≡ true → a ≡ b
unfolding eq_text
eq_of_eq_text [] [] e = refl
eq_of_eq_text [] (d ∷ b) e = cc
eq_of_eq_text (c ∷ a) [] e = cc
eq_of_eq_text (c ∷ a) (d ∷ b) e = let rest = eq_of_eq_text a b in ground (arith, rest)

pub eq_text_self : (a : Text) → eq_text a a ≡ true
unfolding eq_text
eq_text_self [] = refl
eq_text_self (c ∷ a) = let rest = eq_text_self a in ground (arith, rest)
