-- ===== src/Meta/Dump/Count.antt =====
-- parse_bitmap_window_one_peer() of user/shared/drbdmeta.c on the text of a dump: how many words it counts.
use drbd_utils.Prelude.{
  ℕ, zero, suc, ◌+◌, ◌*◌, ◌≤◌, ◌<◌, ◌⊎◌, ◌≡◌, refl, sym, ap, ◌∙◌, true, false, List, [], ◌∷◌,
  length, some, some_inj, inl, inr, Ends, >>=-Ends, ℤ, pos, sub_ℕ, store32, s32-bits32, arith,
}
use mathlib.Core.Path.{subst}
use drbd_utils.Meta.Dump.{
  Token, Window, Entry, buffer_words, store_half, run_entries, words_of, window_start,
  parse_bitmap_window_one_peer, parse_peers,
}
use drbd_utils.Meta.Dump.Words.{expand, word_at, slot, assign_all, assign_both}
use drbd_utils.Meta.Dump.Reads.{
  dump_tokens, peer_tokens, peer_at, parse_head_lem, read_entries-tokens_of, run_entries-expand,
}

-- The place behind the words of the values.
unfoldable pub places : ℕ → ℕ → List ℕ → ℕ
places max_peers n [] = n
places max_peers n (v ∷ values) = places max_peers (n + max_peers + max_peers) values

pub places_lem :
    (max_peers n : ℕ) (values : List ℕ)
    → places max_peers n values ≡ n + length values * (2 * max_peers)
unfolding places
places_lem max_peers n [] = omega arith
places_lem max_peers n (v ∷ values) =
    omega (arith, places_lem max_peers (n + max_peers + max_peers) values)

places_from : (max_peers n : ℕ) (values : List ℕ) → n ≤ places max_peers n values
unfolding places
places_from max_peers n [] = omega arith
places_from max_peers n (v ∷ values) =
    omega (arith, places_from max_peers (n + max_peers + max_peers) values)

-- A word of the values stands before that place.
pub slot-before :
    (max_peers n j x : ℕ) (values : List ℕ)
    → word_at values j ≡ some x
    → slot max_peers n j + max_peers ≤ places max_peers n values
unfolding places
slot-before max_peers n j x [] e = cc
slot-before max_peers n zero x (v ∷ values) e =
    omega (arith, places_from max_peers (n + max_peers + max_peers) values)
slot-before max_peers n (suc zero) x (v ∷ values) e =
    omega (arith, places_from max_peers (n + max_peers + max_peers) values)
slot-before max_peers n (suc (suc j)) x (v ∷ values) e =
    slot-before max_peers (n + max_peers + max_peers) j x values e

assign_all_end :
    (max_peers : ℕ) (less : max_peers ≤ 64) (values : List ℕ) (bm : ℕ → ℕ) (n : ℕ)
    → places max_peers n values < buffer_words + max_peers
    → (assign_all max_peers values (record { bm = bm; i = pos n })).i
      ≡ pos (places max_peers n values)
unfolding places
assign_all_end max_peers less [] bm n lt = refl
assign_all_end max_peers less (v ∷ values) bm n lt =
    let m = n + max_peers + max_peers in
    let stored = store_half max_peers v (pos (n + max_peers)) (store_half max_peers v (pos n) bm) in
    ap (λ (w : Window). (assign_all max_peers values w).i)
      (assign_both max_peers less v n bm (omega (arith, places_from max_peers m values, lt)))
    ∙ assign_all_end max_peers less values stored m lt

words_of_lem :
    (peer_nr total : ℕ)
    → total < buffer_words
    → words_of (pos (peer_nr + total)) peer_nr ≡ pos total
words_of_lem peer_nr total lt =
    let rest : sub_ℕ (peer_nr + total) (0 + peer_nr) ≡ pos total = ground arith in
    ap store32 rest ∙ s32-bits32 (pos total) (omega arith)

-- The number of words that a call for one peer returns.
one_peer-words :
    (max_peers peer_nr : ℕ) (entries : List Entry) (rest : List Token) (bm : ℕ → ℕ)
    → max_peers ≤ 64
    → peer_nr < max_peers
    → length (expand entries) * (2 * max_peers) < buffer_words
    → Ends
        (λ (t : (ℕ → ℕ) × ℤ × List Token).
          (t.2 ≡ rest) × (t.1 ≡ pos (length (expand entries) * (2 * max_peers))))
        (parse_bitmap_window_one_peer true false max_peers 0 peer_nr
          (bm, peer_tokens peer_nr entries rest))
unfolding parse_bitmap_window_one_peer
one_peer-words max_peers peer_nr entries rest bm less lt small =
    let start : window_start 0 peer_nr ≡ pos peer_nr = ground arith in
    let first : Window = record { bm = bm; i = pos peer_nr } in
    let from_start : ℤ → Window = λ z. record { bm = bm; i = z } in
    let w = run_entries false max_peers entries (record { bm = bm; i = window_start 0 peer_nr }) in
    let values = expand entries in
    let total = length values * (2 * max_peers) in
    let same : w ≡ assign_all max_peers values first =
      ap (λ (z : ℤ). run_entries false max_peers entries (from_start z)) start
      ∙ run_entries-expand max_peers entries first in
    let end : w.i ≡ pos (peer_nr + total) =
      ap (λ (v : Window). v.i) same
      ∙ (assign_all_end max_peers less values bm peer_nr
            (omega (arith, places_lem max_peers peer_nr values))
          ∙ ap pos (places_lem max_peers peer_nr values)) in
    let words : words_of (pos (peer_nr + total)) peer_nr ≡ pos total =
      words_of_lem peer_nr total small in
    (
      (w.bm, words_of w.i peer_nr, rest),
      rw (parse_head_lem peer_nr entries rest) (rw (read_entries-tokens_of entries rest) refl),
      (refl, ap (λ (z : ℤ). words_of z peer_nr) end ∙ words),
    )

-- Every peer has `len` values.
abbrev pub HasLength : ℕ → List (List Entry) → Type 0
HasLength len [] = Unit
HasLength len (entries ∷ peers) = (length (expand entries) ≡ len) × HasLength len peers

pub peers-words :
    (max_peers peer_nr len : ℕ) (peers : List (List Entry)) (rest : List Token) (bm : ℕ → ℕ)
    (words : ℤ)
    → max_peers ≤ 64
    → peer_nr + length peers ≤ max_peers
    → HasLength len peers
    → len * (2 * max_peers) < buffer_words
    → (0 < length peers) ⊎ (words ≡ pos (len * (2 * max_peers)))
    → Ends
        (λ (t : (ℕ → ℕ) × ℤ × List Token). t.1 ≡ pos (len * (2 * max_peers)))
        (parse_peers false max_peers 0
          (length peers)
          peer_nr
          (bm, words, dump_tokens peer_nr peers rest))
unfolding parse_peers
peers-words max_peers peer_nr len [] rest bm words less le h small (inl more) = absurd (omega arith)
peers-words max_peers peer_nr len [] rest bm words less le h small (inr e) =
    ((bm, words, rest), refl, e)
peers-words max_peers peer_nr len (entries ∷ peers) rest bm words less le (same, h) small more =
    let later = dump_tokens (suc peer_nr) peers rest in
    let own = subst (λ n. n * (2 * max_peers) < buffer_words) (sym same) small in
    >>=-Ends
      (parse_bitmap_window_one_peer true false max_peers 0 peer_nr
        (bm, peer_tokens peer_nr entries later))
      (parse_peers false max_peers 0 (length peers) (suc peer_nr))
      (one_peer-words max_peers peer_nr entries later bm less (omega arith) own)
      (λ t (left, e).
        let e' = e ∙ ap (λ n. pos (n * (2 * max_peers))) same in
        let (u, done, w) =
          peers-words max_peers (suc peer_nr) len peers rest t.0 t.1 less (omega arith) h small
            (inr e') in
        (
          u,
          ap
                (λ (ts : List Token).
                  parse_peers false max_peers 0 (length peers) (suc peer_nr) (t.0, t.1, ts))
                left
              ∙ done,
          w,
        ))

pub peer_at-HasLength :
    (len q : ℕ) (peers : List (List Entry)) (entries : List Entry)
    → HasLength len peers
    → peer_at peers q ≡ some entries
    → (length (expand entries) ≡ len) × (q < length peers)
peer_at-HasLength len q [] entries h e = cc
peer_at-HasLength len zero (p ∷ peers) entries (same, h) e =
    (subst (λ (l : List Entry). length (expand l) ≡ len) (some_inj e) same, omega arith)
peer_at-HasLength len (suc q) (p ∷ peers) entries (same, h) e =
    let (a, b) = peer_at-HasLength len q peers entries h e in (a, omega (arith, b))
