-- ===== src/Meta/Dump/Words.antt =====
-- parse_bitmap_window_one_peer() of user/shared/drbdmeta.c in the first window: the places of the
-- words.
use drbd_utils.Prelude.{
  ℕ, zero, suc, ◌+◌, ◌/◌, ◌^◌, ◌%◌, ◌≤◌, ◌<◌, ◌⊎◌, ◌≡◌, ◌≢◌, refl, sym, ap, ◌∙◌, true, false, List,
  [], ◌∷◌, ◌++◌, Option, none, some, some_inj, Bool-cases, ==_iff, inl, inr, leb, ltb, ◌==◌, ℤ, pos,
  ◌+ℤ◌, store32, s32-bits32, bits64, u32, arith,
}
use mathlib.Core.Path.{subst}
use native.Mathlib.Nat.{add-div_right, add-mod_right}
use drbd_utils.Meta.Dump.{
  Window, Entry, word, run, buffer_words, half_word, store_half, assign_32_of_64bit, assign_64,
}

-- The values that the entries stand for, and the words of 32 bits that values stand for.
abbrev pub copies : ℕ → ℕ → List ℕ
copies zero v = []
copies (suc n) v = v ∷ copies n v

abbrev pub expand : List Entry → List ℕ
expand [] = []
expand (word v ∷ entries) = v ∷ expand entries
expand (run n v ∷ entries) = copies (u32 n) v ++ expand entries

abbrev pub word_at : List ℕ → ℕ → Option ℕ
word_at [] j = none
word_at (v ∷ values) zero = some (v % 2 ^ 32)
word_at (v ∷ values) (suc zero) = some (v / 2 ^ 32 % 2 ^ 32)
word_at (v ∷ values) (suc (suc j)) = word_at values j

-- The place of the `j`-th word from place `n` on.
abbrev pub slot : ℕ → ℕ → ℕ → ℕ
slot max_peers n zero = n
slot max_peers n (suc j) = slot max_peers (n + max_peers) j

slot_from : (max_peers n j : ℕ) → n ≤ slot max_peers n j
slot_from max_peers n zero = omega arith
slot_from max_peers n (suc j) = omega (arith, slot_from max_peers (n + max_peers) j)

abbrev pub assign_all : ℕ → List ℕ → Window → Window
assign_all max_peers [] w = w
assign_all max_peers (v ∷ values) w = assign_all max_peers values (assign_64 max_peers v w)

module _ (max_peers : ℕ) (less : max_peers ≤ 64) where
  assign_in :
      (v n : ℕ) (w : Window)
      → w.i ≡ pos n
      → n < buffer_words
      → assign_32_of_64bit max_peers v w
        ≡ record { bm = store_half max_peers v (pos n) w.bm; i = pos (n + max_peers) }
  unfolding assign_32_of_64bit
  assign_in v n w e lt =
      let within : leb buffer_words (bits64 (pos n)) ≡ false = ground arith in
      let sum : (pos n +ℤ pos max_peers) ≡ pos (n + max_peers) = ground arith in
      let next : store32 (pos n +ℤ pos max_peers) ≡ pos (n + max_peers) =
        ap store32 sum ∙ s32-bits32 (pos (n + max_peers)) (omega arith) in
      let at : ℤ → Window = λ z. record { bm = store_half max_peers v (pos n) w.bm; i = z } in
      rw (e, within) (ap at next)

  assign_out :
      (v n : ℕ) (w : Window)
      → w.i ≡ pos n
      → n < buffer_words + 64
      → buffer_words ≤ n
      → assign_32_of_64bit max_peers v w ≡ w
  unfolding assign_32_of_64bit
  assign_out v n w e lt le =
      let late : leb buffer_words (bits64 (pos n)) ≡ true = ground arith in rw (e, late) refl

  -- From the buffer `bm` and place `n` on, nothing was written before place `n`, nor for another peer.
  pub record Kept (bm : ℕ → ℕ) (n : ℕ) (w : Window) : Type 0 where
    pub index : ℕ
    pub here : w.i ≡ pos index
    pub from : n ≤ index
    pub near : index < buffer_words + 64
    pub same_peer : index % max_peers ≡ n % max_peers
    pub same : (k : ℕ) → (k < n) ⊎ (k % max_peers ≢ n % max_peers) → w.bm k ≡ bm k

  Kept-other :
      (n index k : ℕ)
      → n ≤ index
      → index % max_peers ≡ n % max_peers
      → (k < n) ⊎ (k % max_peers ≢ n % max_peers)
      → (k == index) ≡ false
  Kept-other n index k le e (inl lt) = ground arith
  Kept-other n index k le e (inr other) = elim (Bool-cases (k == index)) [
    | inl same ↦ absurd (other (ap (λ m. m % max_peers) ((==_iff k index).0 same) ∙ e))
    | inr h ↦ h
  ]

  assign-Kept :
      (bm : ℕ → ℕ) (n v : ℕ) (w : Window)
      → Kept bm n w
      → Kept bm n (assign_32_of_64bit max_peers v w)
  assign-Kept bm n v w h = elim (Bool-cases (ltb h.index buffer_words)) [
    | inl e ↦
        let lt : h.index < buffer_words = ground arith in
        let next : Window = record {
          bm = store_half max_peers v (pos h.index) w.bm;
          i = pos (h.index + max_peers);
        } in
        let kept : Kept bm n next = record {
          index = h.index + max_peers;
          here = refl;
          from = omega (arith, h.from);
          near = omega arith;
          same_peer = add-mod_right h.index max_peers ∙ h.same_peer;
          same = λ k o. rw (Kept-other n h.index k h.from h.same_peer o) (h.same k o);
        } in
        subst (Kept bm n) (sym (assign_in v h.index w h.here lt)) kept
    | inr e ↦
        let le : buffer_words ≤ h.index = ground arith in
        subst (Kept bm n) (sym (assign_out v h.index w h.here h.near le)) h
  ]

  pub assign_all-Kept :
      (bm : ℕ → ℕ) (n : ℕ) (values : List ℕ) (w : Window)
      → Kept bm n w
      → Kept bm n (assign_all max_peers values w)
  assign_all-Kept bm n [] w h = h
  assign_all-Kept bm n (v ∷ values) w h =
      assign_all-Kept bm n values (assign_64 max_peers v w)
        (assign-Kept bm n v (assign_32_of_64bit max_peers v w) (assign-Kept bm n v w h))

  pub Kept-self :
      (bm : ℕ → ℕ) (n : ℕ) → n < buffer_words + 64 → Kept bm n (record { bm = bm; i = pos n })
  Kept-self bm n lt = record {
    index = n;
    here = refl;
    from = omega arith;
    near = lt;
    same_peer = refl;
    same = λ k o. refl;
  }

  store_here :
      (v n : ℕ) (bm : ℕ → ℕ) → store_half max_peers v (pos n) bm n ≡ half_word v (n / max_peers)
  store_here v n bm = rw ((==_iff n n).1 refl) refl

  -- Both stores of a value.
  pub assign_both :
      (v n : ℕ) (bm : ℕ → ℕ)
      → n + max_peers < buffer_words
      → assign_64 max_peers v (record { bm = bm; i = pos n }) ≡ record {
        bm = store_half max_peers v (pos (n + max_peers)) (store_half max_peers v (pos n) bm);
        i = pos (n + max_peers + max_peers);
      }
  assign_both v n bm lt =
      let first : Window = record { bm = bm; i = pos n } in
      let next : Window = record {
        bm = store_half max_peers v (pos n) bm;
        i = pos (n + max_peers);
      } in
      ap (assign_32_of_64bit max_peers v) (assign_in v n first refl (omega arith))
      ∙ assign_in v (n + max_peers) next refl lt

  odd : (n : ℕ) → 0 < max_peers → n / max_peers % 2 ≡ 0 → (n + max_peers) / max_peers % 2 ≡ 1
  odd n more parity = omega (arith, add-div_right n more, parity)

  even :
      (n : ℕ)
      → 0 < max_peers
      → n / max_peers % 2 ≡ 0
      → (n + max_peers + max_peers) / max_peers % 2 ≡ 0
  even n more parity =
      omega (arith, add-div_right n more, add-div_right (n + max_peers) more, parity)

  low : (v m x : ℕ) → m % 2 ≡ 0 → some (v % 2 ^ 32) ≡ some x → half_word v m ≡ x
  low v m x parity e = rw parity (some_inj e)

  high : (v m x : ℕ) → m % 2 ≡ 1 → some (v / 2 ^ 32 % 2 ^ 32) ≡ some x → half_word v m ≡ x
  high v m x parity e = rw parity (some_inj e)

  -- The words of the values stand at the places of the peer, as far as these lie in the buffer.
  pub assign_all-word_at :
      (values : List ℕ) (bm : ℕ → ℕ) (n j x : ℕ)
      → 0 < max_peers
      → n / max_peers % 2 ≡ 0
      → word_at values j ≡ some x
      → slot max_peers n j < buffer_words
      → (assign_all max_peers values (record { bm = bm; i = pos n })).bm (slot max_peers n j) ≡ x
  assign_all-word_at [] bm n j x more parity e lt = cc
  assign_all-word_at (v ∷ values) bm n zero x more parity e lt =
      let first : Window = record { bm = bm; i = pos n } in
      let stored = store_half max_peers v (pos n) bm in
      let next : Window = record { bm = stored; i = pos (n + max_peers) } in
      let kept =
        assign-Kept stored (n + max_peers) v next
          (Kept-self stored (n + max_peers) (omega arith)) in
      ap (λ w. (assign_all max_peers values (assign_32_of_64bit max_peers v w)).bm n)
        (assign_in v n first refl lt)
      ∙ ((assign_all-Kept stored (n + max_peers) values (assign_32_of_64bit max_peers v next)
              kept).same
            n (inl (omega arith))
          ∙ (store_here v n bm ∙ low v (n / max_peers) x parity e))
  assign_all-word_at (v ∷ values) bm n (suc zero) x more parity e lt =
      let m = n + max_peers in
      let stored = store_half max_peers v (pos m) (store_half max_peers v (pos n) bm) in
      let next : Window = record { bm = stored; i = pos (m + max_peers) } in
      let kept = Kept-self stored (m + max_peers) (omega arith) in
      ap (λ w. (assign_all max_peers values w).bm m) (assign_both v n bm lt)
      ∙ ((assign_all-Kept stored (m + max_peers) values next kept).same m (inl (omega arith))
          ∙ (store_here v m (store_half max_peers v (pos n) bm)
              ∙ high v (m / max_peers) x (odd n more parity) e))
  assign_all-word_at (v ∷ values) bm n (suc (suc j)) x more parity e lt =
      let m = n + max_peers + max_peers in
      let stored =
        store_half max_peers v (pos (n + max_peers)) (store_half max_peers v (pos n) bm) in
      ap (λ w. (assign_all max_peers values w).bm (slot max_peers m j))
        (assign_both v n bm (omega (arith, slot_from max_peers m j, lt)))
      ∙ assign_all-word_at values stored m j x more (even n more parity) e lt
