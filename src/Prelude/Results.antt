-- ===== src/Prelude/Results.antt =====
-- A program that may end the process: `stop` carries the code given to `exit`, or `abort` for a
-- failed ASSERT.
use Prim.Native.Nat.{ℕ}
use mathlib.Core.Path.{◌≡◌, refl}
use mathlib.Core.Bool.{Bool, true, false}
use drbd_utils.Prelude.Tests.{if◌then◌else◌}

pub data Exit : Type 0 where
  abort : Exit
  exit : ℕ → Exit

pub data Result {ℓ} (A : Type ℓ) : Type ℓ where
  stop : Exit → Result A
  ok : A → Result A

-- What follows a call: nothing, if the process has ended.
infixl 5 ◌>>=◌
abbrev pub ◌>>=◌ {ℓ κ} : {X : Type ℓ} {Y : Type κ} → Result X → (X → Result Y) → Result Y
stop code >>= next = stop code
ok x >>= next = next x

-- ASSERT(b).
abbrev pub assert : Bool → Result (Unit {0})
assert true = ok tt
assert false = stop abort

infixl 5 ◌>>◌
abbrev pub ◌>>◌ {κ} : {Y : Type κ} → Result (Unit {0}) → Result Y → Result Y
first >> second = first >>= λ _. second

-- `if (b) exit(code);`
abbrev pub exit_if : Bool → ℕ → Result (Unit {0})
exit_if true code = stop (exit code)
exit_if false code = ok tt

pub ok-injective {ℓ} : {A : Type ℓ} {a b : A} → ok a ≡ ok b → a ≡ b
ok-injective h = cc

-- A run that ends well has a first part that ends well.
pub >>=-eq-ok {ℓ κ} :
    {X : Type ℓ} {Y : Type κ} (m : Result X) (next : X → Result Y) {y : Y}
    → (m >>= next) ≡ ok y
    → (x : X) × (m ≡ ok x) × (next x ≡ ok y)
>>=-eq-ok (stop code) next run = cc
>>=-eq-ok (ok x) next run = (x, refl, run)

-- The program goes on, with a result that satisfies `P`.
abbrev pub Ends {ℓ κ} : {A : Type ℓ} → (A → Type κ) → Result A → Type (ℓ ⊔ κ)
Ends P m = (x : _) × (m ≡ ok x) × P x

pub >>=-Ends {ℓ κ ι ν} :
    {X : Type ℓ} {Y : Type κ} {P : X → Type ι} {Q : Y → Type ν} (m : Result X) (next : X → Result Y)
    → Ends P m
    → ((x : X) → P x → Ends Q (next x))
    → Ends Q (m >>= next)
>>=-Ends m next (x, e, p) h = rw e (h x p)

pub if_Ends {ℓ κ} :
    {A : Type ℓ} {P : A → Type κ} (b : Bool) (m n : Result A)
    → Ends P m
    → Ends P n
    → Ends P (if b then m else n)
if_Ends true m n h k = h
if_Ends false m n h k = k
