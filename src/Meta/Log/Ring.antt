-- ===== src/Meta/Log/Ring.antt =====
-- Transaction number to block: the log is a ring of `mx` blocks, striped.
use drbd_utils.Prelude.{ℕ, ◌+◌, ◌*◌, ◌/◌, ◌%◌, ◌^◌, u32, ◌<◌, ◌≡◌, sym, ap, ◌∙◌, arith}
use mathlib.Core.Path.{ap₂}
use native.Mathlib.Decide.{dec_lt}
use native.Mathlib.Nat.{div-add-mod, mod-lt, mul-le-mul_right, mod-eq_of_lt}

-- al_tr_number_to_on_disk_slot()
unfoldable pub al_tr_number_to_on_disk_slot : ℕ → ℕ → ℕ → ℕ → ℕ
al_tr_number_to_on_disk_slot stripes stripe_size_4k b mx =
    let t = b % mx in u32 (u32 (t % stripes * stripe_size_4k) + t / stripes)

module _ (stripes size : ℕ) (pos : 0 < stripes) (small : stripes * size < 2 ^ 32) where
  abbrev slot : ℕ → ℕ
  slot b = al_tr_number_to_on_disk_slot stripes size b (stripes * size)

  row_lt : (t : ℕ) → t < stripes * size → t / stripes < size
  row_lt t lt = grind (arith, div-add-mod t stripes)

  place_lt : (b : ℕ) → b < stripes * size → b % stripes * size + b / stripes < stripes * size
  place_lt b lt =
      let row = row_lt b lt in
      let col : b % stripes < stripes = mod-lt b pos in omega (arith, mul-le-mul_right size col)

  slot_eq : (b : ℕ) → b < stripes * size → slot b ≡ b % stripes * size + b / stripes
  unfolding al_tr_number_to_on_disk_slot
  slot_eq b lt =
      let place = place_lt b lt in
      let part : b % stripes * size < 2 ^ 32 = omega (arith, place) in
      rw (mod-eq_of_lt lt, mod-eq_of_lt part) (mod-eq_of_lt (omega (arith, place)))

  row_apart : (r q r' q' : ℕ) → q < size → r < r' → r * size + q ≡ r' * size + q' → ⊥
  row_apart r q r' q' lt below e = omega (arith, mul-le-mul_right size below)

  digits_eq :
      (r q r' q' : ℕ) → q < size → q' < size → r * size + q ≡ r' * size + q' → (r ≡ r') × (q ≡ q')
  digits_eq r q r' q' lt lt' e = elim (dec_lt r r') [
    | yes below ↦ absurd (row_apart r q r' q' lt below e)
    | no above ↦ elim (dec_lt r' r) [
      | yes below ↦ absurd (row_apart r' q' r q lt' below (sym e))
      | no over ↦
          let same : r ≡ r' = omega arith in (same, omega (arith, ap (λ (t : ℕ). t * size) same))
    ]
  ]

  -- The blocks of a striped log are a permutation of the ring: each transaction number below the
  -- size of the log has a block of its own within the log. There is at least one stripe, and the log
  -- has fewer than 2^32 blocks, so that the product of its 32-bit sizes does not wrap.
  pub slot-IsPermutation :
      ((b : ℕ) → b < stripes * size → slot b < stripes * size)
      × ((a b : ℕ) → a < stripes * size → b < stripes * size → slot a ≡ slot b → a ≡ b)
  slot-IsPermutation = (inside, apart)
    where
      inside : (b : ℕ) → b < stripes * size → slot b < stripes * size
      inside b lt = rw (slot_eq b lt) (place_lt b lt)

      apart : (a b : ℕ) → a < stripes * size → b < stripes * size → slot a ≡ slot b → a ≡ b
      apart a b la lb e =
          let here = sym (slot_eq a la) ∙ e ∙ slot_eq b lb in
          let (col, row) =
            digits_eq (a % stripes) (a / stripes) (b % stripes) (b / stripes) (row_lt a la)
              (row_lt b lb) here in
          sym (div-add-mod a stripes)
          ∙ ap₂ (λ (x y : ℕ). stripes * x + y) row col
          ∙ div-add-mod b stripes
