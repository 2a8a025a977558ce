-- ===== src/Meta/Log/Scan/Order.antt =====
-- The cursors of the scan on a log that was filled in ring order.
use drbd_utils.Prelude.{
  ◌∙◌, inl, inr, Bool-cases, ◌||◌, ℕ, zero, suc, ◌+◌, ◌-◌, ◌%◌, ◌^◌, ◌≤◌, ◌<◌, ◌≡◌, ◌≢◌, refl, true,
  false, ltb, ◌==◌, s32, u32, pos_part, if◌then◌else◌, arith,
}
use native.Mathlib.Nat.{mod-eq_of_lt, add-mod_right}
use drbd_utils.Meta.Log.Scan.Steps.{
  step, age, oldest_at, newest_at, age_lt, oldest_at_lt, newest_at_lt, oldest_test, newest_test,
  step-is_before, step-is_after,
}
use drbd_utils.Headers.{Headers}
use drbd_utils.Meta.Log.Scan.{Al4kCpu, Scan, scan, scan_84, note_update, start, is_before, is_after}

-- Every block of the log holds a valid update, and the numbers go up by one from `base` at `first`,
-- from 2^32 - 1 on to 0. Read as ints they do not pass the greatest one, 2^31 - 1, so that no
-- difference of two of them overflows.
pub record IsFilled (h : Headers) (mx first base : ℕ) (al : ℕ → Al4kCpu) : Type 0 where
  pub valid : (b : ℕ) → b < mx → (al b).is_valid ≡ true
  pub update : (b : ℕ) → b < mx → (al b).transaction_type ≢ h.al_tr_initialized
  pub number : (b : ℕ) → b < mx → (al b).tr_number ≡ (base + age mx first b) % 2 ^ 32
  pub fits : pos_part (s32 (u32 base)) + mx ≤ 2 ^ 31

pub ring_before :
    (first n : ℕ) → first ≤ n → (first + suc n - 1) % suc n ≡ (if first == 0 then n else first - 1)
ring_before zero n le =
    let e : 0 + suc n - 1 ≡ n = omega arith in
    let small : n < suc n = omega arith in rw (e, mod-eq_of_lt small)
ring_before (suc k) n le =
    let e : suc k + suc n - 1 ≡ k + suc n = omega arith in
    let small : k < suc n = omega arith in
    let z : (suc k == 0) ≡ false = ground arith in
    rw (e, z, add-mod_right, mod-eq_of_lt small) (omega arith)

module _ (h : Headers) (mx first base : ℕ) (al : ℕ → Al4kCpu) where
  module _ (f : IsFilled h mx first base al) (lt : first < mx) (small : mx < 2 ^ 31) where
    next_oldest : (n : ℕ) → oldest_at first (suc n) ≡ (if n == first then n else oldest_at first n)
    next_oldest n = ground arith

    next_newest :
        (n : ℕ)
        → 1 ≤ n
        → newest_at first (suc n) ≡ (if ltb n first || first == 0 then n else newest_at first n)
    next_newest n pos = ground arith

    -- What the tests of the loop say of block `n`.
    is_oldest :
        (n : ℕ)
        → 1 ≤ n
        → n < mx
        → is_before (step base (age mx first n)) (step base (age mx first (oldest_at first n)))
          ≡ (n == first)
    is_oldest n pos le =
        step-is_before mx base (age mx first n) (age mx first (oldest_at first n)) f.fits
          (age_lt mx first n lt le)
          (age_lt mx first (oldest_at first n) lt (oldest_at_lt mx first n lt le))
        ∙ oldest_test mx first n pos le lt

    is_newest :
        (n : ℕ)
        → 1 ≤ n
        → n < mx
        → is_after (step base (age mx first n)) (step base (age mx first (newest_at first n)))
          ≡ (ltb n first || first == 0)
    is_newest n pos le =
        step-is_after mx base (age mx first n) (age mx first (newest_at first n)) f.fits
          (age_lt mx first n lt le)
          (age_lt mx first (newest_at first n) lt (newest_at_lt mx first n lt le))
        ∙ newest_test mx first n pos le lt

    record IsAt (n : ℕ) (s : Scan) : Type 0 where
      counted : (s.found_valid ≡ n) × (s.found_updates ≡ n)
      oldest : s.oldest.i ≡ oldest_at first n
      oldest_number : s.oldest.tr_number ≡ (base + age mx first (oldest_at first n)) % 2 ^ 32
      newest : s.newest.i ≡ newest_at first n
      newest_number : s.newest.tr_number ≡ (base + age mx first (newest_at first n)) % 2 ^ 32

    note_update-IsAt :
        (n : ℕ) (s : Scan)
        → 1 ≤ n
        → n < mx
        → IsAt n s
        → IsAt (suc n) (
            note_update n
              ((base + age mx first n) % 2 ^ 32)
              (record s { found_valid = s.found_valid + 1 }))
    unfolding note_update
    note_update-IsAt n s pos le a =
        let filled : (s.found_updates == 0) ≡ false = rw (a.counted.1) (ground arith) in
        let old = is_oldest n pos le in
        let new = is_newest n pos le in
        rw (filled, a.oldest_number, a.newest_number, old, new)
          (record {
            counted = (omega (arith, a.counted.0), omega (arith, a.counted.1));
            oldest = elim (Bool-cases (n == first)) [
              | inl e ↦ rw (next_oldest n, e) refl
              | inr e ↦ rw (next_oldest n, e) a.oldest
            ];
            oldest_number = elim (Bool-cases (n == first)) [
              | inl e ↦ rw (next_oldest n, e) refl
              | inr e ↦ rw (next_oldest n, e) refl
            ];
            newest = elim (Bool-cases (ltb n first || first == 0)) [
              | inl e ↦ rw (next_newest n pos, e) refl
              | inr e ↦ rw (next_newest n pos, e) a.newest
            ];
            newest_number = elim (Bool-cases (ltb n first || first == 0)) [
              | inl e ↦ rw (next_newest n pos, e) refl
              | inr e ↦ rw (next_newest n pos, e) refl
            ];
          })

    round_84 :
        (n : ℕ) (s : Scan)
        → n < mx
        → scan_84 h (al n) n s
          ≡ note_update n
              ((base + age mx first n) % 2 ^ 32)
              (record s { found_valid = s.found_valid + 1 })
    unfolding scan_84
    round_84 n s le =
        let other : ((al n).transaction_type == h.al_tr_initialized) ≡ false =
          ground (arith, f.update n) in
        rw (f.valid n le, other, f.number n le)

    scan-IsAt : (n : ℕ) → suc n ≤ mx → IsAt (suc n) (scan (scan_84 h) al (suc n))
    unfolding scan
    scan-IsAt zero le = rw (round_84 0 start le) (first_IsAt le)
      where
        first_IsAt :
            1 ≤ mx
            → IsAt 1 (
                note_update 0
                  ((base + age mx first 0) % 2 ^ 32)
                  (record start { found_valid = 0 + 1 }))
        first_IsAt one =
            unfold note_update in
            record {
              counted = ground arith;
              oldest = ground arith;
              oldest_number = ground arith;
              newest = ground arith;
              newest_number = ground arith;
            }
    scan-IsAt (suc n) le =
        let before = scan-IsAt n (omega arith) in
        rw (round_84 (suc n) (scan (scan_84 h) al (suc n)) le)
          (note_update-IsAt (suc n) _ (omega arith) le before)

    -- On a log of fewer than 2^31 blocks that was filled in ring order (IsFilled: each block has a
    -- valid update, and the numbers go up by one and, read as ints, do not pass 2^31 - 1, so that
    -- their differences do not overflow), the scan of replay_al_84() counts every block, and finds the
    -- block that was written first as the oldest and the one before it in the ring as the newest, also
    -- where the numbers go from 2^32 - 1 on to 0.
    pub scan_84-finds_ends :
        let s = scan (scan_84 h) al mx in
        (s.found_valid ≡ mx)
        × (s.found_updates ≡ mx)
        × (s.oldest.i ≡ first)
        × (s.newest.i ≡ (first + mx - 1) % mx)
    scan_84-finds_ends = ends mx refl
      where
        ends :
            (n : ℕ)
            → n ≡ mx
            → let s = scan (scan_84 h) al n in
              (s.found_valid ≡ n)
              × (s.found_updates ≡ n)
              × (s.oldest.i ≡ first)
              × (s.newest.i ≡ (first + n - 1) % n)
        ends zero e = absurd (omega arith)
        ends (suc n) e =
            let a = scan-IsAt n (omega arith) in
            (
              a.counted.0,
              a.counted.1,
              ground arith,
              ground (arith, ring_before first n (omega arith)),
            )
