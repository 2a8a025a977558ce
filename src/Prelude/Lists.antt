-- ===== src/Prelude/Lists.antt =====
-- Lists measured and indexed by native numbers, under the library's names.
use Prim.Native.Nat.{ℕ, zero, suc, ◌+◌, ◌<◌}
use mathlib.Core.Path.{◌≡◌}
use mathlib.Core.List.{List, [], ◌∷◌, ◌++◌}
use mathlib.Core.Option.{Option, none, some}
use native.Mathlib.Omega.{arith}

module _ {ℓ} {A : Type ℓ} where
  abbrev pub length : List A → ℕ
  length [] = 0
  length (x ∷ xs) = suc (length xs)

  abbrev pub get_elem? : List A → ℕ → Option A
  get_elem? [] i = none
  get_elem? (x ∷ xs) zero = some x
  get_elem? (x ∷ xs) (suc i) = get_elem? xs i

  pub length-append : (xs ys : List A) → length (xs ++ ys) ≡ length xs + length ys
  length-append [] ys = omega arith
  length-append (x ∷ xs) ys = omega (arith, length-append xs ys)

-- Numbers that rise.
abbrev pub IsAbove : ℕ → List ℕ → Type 0
IsAbove n [] = Unit
IsAbove n (m ∷ ms) = (n < m) × IsAbove n ms

abbrev pub IsRising : List ℕ → Type 0
IsRising [] = Unit
IsRising (m ∷ ms) = IsAbove m ms × IsRising ms

pub IsAbove-trans : (n m : ℕ) (ms : List ℕ) → n < m → IsAbove m ms → IsAbove n ms
IsAbove-trans n m [] lt h = tt
IsAbove-trans n m (k ∷ ms) lt (a, h) = (omega arith, IsAbove-trans n m ms lt h)

-- What holds of every element.
abbrev pub All {ℓ κ} : {A : Type ℓ} → (A → Type κ) → List A → Type κ
All P [] = Unit
All P (x ∷ xs) = P x × All P xs
