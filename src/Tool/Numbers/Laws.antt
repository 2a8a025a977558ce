-- ===== src/Tool/Numbers/Laws.antt =====
-- The range of what ppsize() prints, and the value of new_strtoll().
use drbd_utils.Prelude.{
  Text, ℕ, zero, suc, ◌+◌, ◌-◌, ◌*◌, ◌/◌, ◌^◌, ◌≤◌, ◌<◌, ◌≡◌, ◌⊎◌, inl, inr, Bool, true, false, ◌∷◌,
  some, ltb, ◌==◌, ◌||◌, if◌then◌else◌, Bool-cases, arith,
}
use drbd_utils.Tool.Numbers.{
  shift_and_round, scale, ppsize, StrtollErr, mse_ok, mse_out_of_range, Scanned, default_shift,
  unit_shift, convert, new_strtoll,
}

shift_and_round-bound : (m size : ℕ) → size ≤ m * 1024 → shift_and_round size ≤ m
unfolding shift_and_round
shift_and_round-bound m size le = omega arith

-- 2^14 times 2^10 for each unit that is left.
abbrev limit : ℕ → ℕ
limit zero = 2 ^ 14
limit (suc left) = limit left * 1024

scale-bound :
    (left base size : ℕ)
    → size ≤ limit left
    → (scale left base size).0 ≤ 2 ^ 14
      × ((scale left base size).0 < 10000 ⊎ (scale left base size).1 ≡ base + left)
unfolding scale
scale-bound zero base size le = (le, inr (omega arith))
scale-bound (suc left) base size le =
    let (a, b) =
      scale-bound left (base + 1) (shift_and_round size)
        (shift_and_round-bound (limit left) size le) in
    (ground arith, ground arith)

-- What ppsize() prints for a 64-bit size fits the 9 bytes that it asks for: the number is at most
-- 16384, and below 10000 unless the unit is the last one, E.
pub ppsize-fits :
    (size : ℕ)
    → size < 2 ^ 64
    → (ppsize size).0 ≤ 16384 × ((ppsize size).0 < 10000 ⊎ (ppsize size).1 ≡ 5)
unfolding ppsize
ppsize-fits size lt = scale-bound 5 0 size (omega arith)

-- The bytes that a unit stands for, and those of a default unit.
abbrev pub bytes_of : ℕ → ℕ
bytes_of c =
    if c == b's'
    then 512
    else if c == b'K' || c == b'k'
    then 2 ^ 10
    else if c == b'M' || c == b'm'
    then 2 ^ 20
    else 2 ^ 30

abbrev pub is_unit : ℕ → Bool
is_unit c = c == b's' || c == b'K' || c == b'k' || c == b'M' || c == b'm' || c == b'G' || c == b'g'

abbrev pub default_bytes : ℕ → ℕ
default_bytes c = if c == b'K' || c == b'k' then 2 ^ 10 else if c == b's' then 512 else 1

abbrev pub is_default : ℕ → Bool
is_default c = c == b's' || c == b'K' || c == b'k' || c == b'1' || c == 0 || c == 1

-- The number of default units, rounded up.
abbrev pub rounded_up : ℕ → ℕ → ℕ → ℕ
rounded_up number unit default = (number * unit + default - 1) / default

abbrev pub expected : ℕ → ℕ → ℕ → StrtollErr × ℕ
expected number unit default =
    if ltb (rounded_up number unit default) (2 ^ 64)
    then (mse_ok, rounded_up number unit default)
    else (mse_out_of_range, number)

abbrev Agrees : ℕ → ℕ → ℕ → ℕ → Type 0
Agrees up down unit default = (n : ℕ) → n < 2 ^ 64 - 1 → convert up down n ≡ expected n unit default

-- A default unit: how far it shifts, and its bytes.
data IsDefault : ℕ → ℕ → Type 0 where
  bytes : IsDefault 0 1
  kilobytes : IsDefault 10 (2 ^ 10)
  sectors : IsDefault 9 512

convert_sectors : (down default : ℕ) → IsDefault down default → Agrees 9 down 512 default
unfolding convert
convert_sectors _ _ bytes n lt = ground arith
convert_sectors _ _ kilobytes n lt = ground arith
convert_sectors _ _ sectors n lt = ground arith

convert_kilobytes : (down default : ℕ) → IsDefault down default → Agrees 10 down (2 ^ 10) default
unfolding convert
convert_kilobytes _ _ bytes n lt = ground arith
convert_kilobytes _ _ kilobytes n lt = ground arith
convert_kilobytes _ _ sectors n lt = ground arith

convert_megabytes : (down default : ℕ) → IsDefault down default → Agrees 20 down (2 ^ 20) default
unfolding convert
convert_megabytes _ _ bytes n lt = ground arith
convert_megabytes _ _ kilobytes n lt = ground arith
convert_megabytes _ _ sectors n lt = ground arith

convert_gigabytes : (down default : ℕ) → IsDefault down default → Agrees 30 down (2 ^ 30) default
unfolding convert
convert_gigabytes _ _ bytes n lt = ground arith
convert_gigabytes _ _ kilobytes n lt = ground arith
convert_gigabytes _ _ sectors n lt = ground arith

IsDefault-cases :
    (c : ℕ)
    → is_default c ≡ true
    → (down : ℕ) × (default_shift c ≡ some down) × IsDefault down (default_bytes c)
unfolding default_shift
IsDefault-cases c d = elim (Bool-cases (c == b'K' || c == b'k')) [
  | inl e ↦ (10, ground arith, rw (e) kilobytes)
  | inr e ↦ elim (Bool-cases (c == b's')) [
    | inl f ↦ (9, ground arith, rw (e, f) sectors)
    | inr f ↦ (0, ground arith, rw (e, f) bytes)
  ]
]

unit-cases :
    (c : ℕ)
    → is_unit c ≡ true
    → (up : ℕ) × (unit_shift c ≡ some up)
      × ((down default : ℕ) → IsDefault down default → Agrees up down (bytes_of c) default)
unfolding unit_shift
unit-cases c u = elim (Bool-cases (c == b's')) [
  | inl e ↦ (9, ground arith, rw (e) convert_sectors)
  | inr e ↦ elim (Bool-cases (c == b'K' || c == b'k')) [
    | inl f ↦ (10, ground arith, rw (e, f) convert_kilobytes)
    | inr f ↦ elim (Bool-cases (c == b'M' || c == b'm')) [
      | inl g ↦ (20, ground arith, rw (e, f, g) convert_megabytes)
      | inr g ↦ (30, ground arith, rw (e, f, g) convert_gigabytes)
    ]
  ]
]

not_zero : (c : ℕ) → is_unit c ≡ true → (c == 0) ≡ false
not_zero c u = ground arith

-- For a text of a number below 2^64 - 1 and a unit, new_strtoll() returns the number of default
-- units that it stands for, rounded up; if that needs more than 64 bits it returns MSE_OUT_OF_RANGE
-- and leaves the number as it was read.
pub new_strtoll-rounds_up :
    (sscanf : Text → ℕ → Scanned) (c : ℕ) (cs : Text) (def_unit rv : ℕ)
    → is_default def_unit ≡ true
    → let r = sscanf (c ∷ cs) rv in
      r.count ≡ 2
      → is_unit r.unit ≡ true
      → r.number < 2 ^ 64 - 1
      → new_strtoll sscanf (some (c ∷ cs)) def_unit rv
        ≡ expected r.number (bytes_of r.unit) (default_bytes def_unit)
unfolding new_strtoll
new_strtoll-rounds_up sscanf c cs def_unit rv d two u lt =
    let (down, e, is) = IsDefault-cases def_unit d in
    let (up, f, agrees) = unit-cases (sscanf (c ∷ cs) rv).unit u in
    let given : ((sscanf (c ∷ cs) rv).unit == 0) ≡ false = not_zero (sscanf (c ∷ cs) rv).unit u in
    rw (new_strtoll, e, two, given, f) (agrees down _ is _ lt)
