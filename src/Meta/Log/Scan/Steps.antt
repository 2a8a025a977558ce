-- ===== src/Meta/Log/Scan/Steps.antt =====
-- The numbers of the transactions of a ring as ints, and where the cursors of the scan stand.
use drbd_utils.Prelude.{
  ◌||◌, ℕ, ◌+◌, ◌-◌, ◌%◌, ◌^◌, ◌≤◌, ◌<◌, ◌≡◌, ltb, leb, ◌==◌, ℤ, s32, u32, pos_part, neg_part, not,
  sub_ℕ, if◌then◌else◌, arith,
}
use drbd_utils.Meta.Log.Scan.{is_before, is_after}

-- The age of block `b`: block `first` is the oldest of `mx`, and the ring goes on from there.
abbrev pub age : ℕ → ℕ → ℕ → ℕ
age mx first b = if ltb b first then b + mx - first else b - first

-- The number of the step `i` from `base`.
abbrev pub step : ℕ → ℕ → ℕ
step base i = (base + i) % 2 ^ 32

-- As ints, the numbers go up with the steps.
step_eq :
    (mx base i : ℕ)
    → pos_part (s32 (u32 base)) + mx ≤ 2 ^ 31
    → i < mx
    → pos_part (s32 (step base i)) + neg_part (s32 (u32 base))
      ≡ pos_part (s32 (u32 base)) + i + neg_part (s32 (step base i))
step_eq mx base i fits lt = ground arith

pub step-is_before :
    (mx base i j : ℕ)
    → pos_part (s32 (u32 base)) + mx ≤ 2 ^ 31
    → i < mx
    → j < mx
    → is_before (step base i) (step base j) ≡ ltb i j
unfolding is_before
step-is_before mx base i j fits li lj =
    let a = step_eq mx base i fits li in
    let b = step_eq mx base j fits lj in
    parts_lem (s32 (step base i)) (s32 (step base j)) (s32 (u32 base)) i j a b
  where
    parts_lem :
        (x y z : ℤ) (i j : ℕ)
        → pos_part x + neg_part z ≡ pos_part z + i + neg_part x
        → pos_part y + neg_part z ≡ pos_part z + j + neg_part y
        → not (neg_part (sub_ℕ (pos_part x + neg_part y) (neg_part x + pos_part y)) == 0) ≡ ltb i j
    parts_lem x y z i j a b = ground arith

pub step-is_after :
    (mx base i j : ℕ)
    → pos_part (s32 (u32 base)) + mx ≤ 2 ^ 31
    → i < mx
    → j < mx
    → is_after (step base i) (step base j) ≡ ltb j i
unfolding is_after
step-is_after mx base i j fits li lj =
    let a = step_eq mx base i fits li in
    let b = step_eq mx base j fits lj in
    parts_lem (s32 (step base i)) (s32 (step base j)) (s32 (u32 base)) i j a b
  where
    parts_lem :
        (x y z : ℤ) (i j : ℕ)
        → pos_part x + neg_part z ≡ pos_part z + i + neg_part x
        → pos_part y + neg_part z ≡ pos_part z + j + neg_part y
        → not (pos_part (sub_ℕ (pos_part x + neg_part y) (neg_part x + pos_part y)) == 0) ≡ ltb j i
    parts_lem x y z i j a b = ground arith

-- After `n` rounds: where the cursors stand.
abbrev pub oldest_at : ℕ → ℕ → ℕ
oldest_at first n = if leb n first then 0 else first

abbrev pub newest_at : ℕ → ℕ → ℕ
newest_at first n = if leb n first then n - 1 else if first == 0 then n - 1 else first - 1

pub age_lt : (mx first b : ℕ) → first < mx → b < mx → age mx first b < mx
age_lt mx first b lt le = ground arith

pub oldest_at_lt : (mx first n : ℕ) → first < mx → n < mx → oldest_at first n < mx
oldest_at_lt mx first n lt le = ground arith

pub newest_at_lt : (mx first n : ℕ) → first < mx → n < mx → newest_at first n < mx
newest_at_lt mx first n lt le = ground arith

pub oldest_test :
    (mx first n : ℕ)
    → 1 ≤ n
    → n < mx
    → first < mx
    → ltb (age mx first n) (age mx first (oldest_at first n)) ≡ (n == first)
oldest_test mx first n pos le lt = ground arith

pub newest_test :
    (mx first n : ℕ)
    → 1 ≤ n
    → n < mx
    → first < mx
    → ltb (age mx first (newest_at first n)) (age mx first n) ≡ (ltb n first || first == 0)
newest_test mx first n pos le lt = ground arith
