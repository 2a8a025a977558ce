-- ===== src/Tool/Numbers.antt =====
-- user/shared/shared_tool.c: ppsize() and new_strtoll(). The numbers are 64 bits wide. What
-- sscanf() reads of a text is a value of `Scanned`, and `sscanf` a parameter.
pub mod Laws
use drbd_utils.Prelude.{
  Text, ℕ, zero, suc, ◌+◌, ◌-◌, ◌*◌, ◌/◌, ◌%◌, ◌^◌, Bool, true, false, List, [], ◌∷◌, Option, none,
  some, not, ◌&&◌, ◌||◌, ltb, leb, ◌==◌, if◌then◌else◌,
}

-- `(size >> 10) + !!(size & (1<<9))`
unfoldable pub shift_and_round : ℕ → ℕ
shift_and_round size = size / 2 ^ 10 + size / 2 ^ 9 % 2

-- The loop: `left` units are left, the result is the size and `base`.
unfoldable pub scale : ℕ → ℕ → ℕ → ℕ × ℕ
unfolding shift_and_round
scale zero base size = (size, base)
scale (suc left) base size =
    let further = scale left (base + 1) (shift_and_round size) in
    if leb 10000 size then further else (size, base)

-- The number that is printed and the index of its unit in K, M, G, T, P, E.
unfoldable pub ppsize : ℕ → ℕ × ℕ
unfolding scale
ppsize size = scale 5 0 size

pub data StrtollErr : Type 0 where
  mse_ok mse_default_unit mse_missing_number mse_invalid_number mse_invalid_unit mse_out_of_range :
      StrtollErr

-- sscanf(s, "%llu%c%c", rv, &unit, &dummy): how many were read, `*rv` and `unit` afterwards.
pub record Scanned : Type 0 where
  pub count : ℕ
  pub number : ℕ
  pub unit : ℕ

-- How far the default unit shifts to the right.
unfoldable pub default_shift : ℕ → Option ℕ
default_shift c =
    if c == 0 || c == 1 || c == b'1'
    then some 0
    else if c == b'K' || c == b'k'
    then some 10
    else if c == b's'
    then some 9
    else none

unfoldable pub unit_shift : ℕ → Option ℕ
unit_shift c =
    if c == b'K' || c == b'k'
    then some 10
    else if c == b'M' || c == b'm'
    then some 20
    else if c == b'G' || c == b'g'
    then some 30
    else if c == b's'
    then some 9
    else none

-- The three cases at the end; `down` is the shift of the default unit, `up` that of the text's.
unfoldable pub convert : ℕ → ℕ → ℕ → StrtollErr × ℕ
convert up down rv =
    if ltb up down
    then (mse_ok, (rv + 2 ^ (down - up) - 1) % 2 ^ 64 / 2 ^ (down - up))
    else if ltb ((2 ^ 64 - 1) / 2 ^ (up - down)) rv
    then (mse_out_of_range, rv)
    else (mse_ok, rv * 2 ^ (up - down) % 2 ^ 64)

-- `rv` is what `*rv` holds before the call; the text is `none` for a null pointer.
unfoldable pub new_strtoll : (Text → ℕ → Scanned) → Option Text → ℕ → ℕ → StrtollErr × ℕ
unfolding default_shift unit_shift convert
new_strtoll sscanf s def_unit rv = elim (default_shift def_unit) [
  | none ↦ (mse_default_unit, rv)
  | some d ↦ elim s [
    | none ↦ (mse_missing_number, rv)
    | some [] ↦ (mse_missing_number, rv)
    | some (c ∷ cs) ↦
        let r = sscanf (c ∷ cs) rv in
        if not (r.count == 1) && not (r.count == 2)
        then (mse_invalid_number, r.number)
        else if r.unit == 0
        then (mse_ok, r.number)
        else elim (unit_shift r.unit) [
          | none ↦ (mse_invalid_unit, r.number)
          | some up ↦ convert up d r.number
        ]
  ]
]
