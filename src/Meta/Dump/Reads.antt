-- ===== src/Meta/Dump/Reads.antt =====
-- parse_bitmap_window() of user/shared/drbdmeta.c on the text of a dump, in the first window.
use drbd_utils.Prelude.{
  ℕ, zero, suc, ◌+◌, ◌%◌, ◌≤◌, ◌<◌, ◌≡◌, ◌≢◌, refl, sym, ap, ◌∙◌, true, false, List, [], ◌∷◌, ◌++◌,
  length, Option, none, some, some_inj, ==_iff, inr, ok, Ends, >>=-Ends, ℤ, pos, u32, arith,
}
use mathlib.Core.Path.{subst}
use native.Mathlib.Nat.{add-mod_right, mod-eq_of_lt, div-eq_of_lt}
use drbd_utils.Meta.Dump.{
  Token, tk_bitmap, tk_times, semicolon, open_brace, close_brace, open_bracket, close_bracket,
  tk_num, tk_u64, expect, Window, Entry, word, run, buffer_words, assign_64, assign_times,
  run_entry, run_entries, words_of, window_start, read_entries, parse_head,
  parse_bitmap_window_one_peer, parse_peers, parse_bitmap_window,
}
use drbd_utils.Meta.Dump.Words.{
  copies, expand, word_at, slot, assign_all, Kept-self, assign_all-Kept, assign_all-word_at,
}

assign_all-append :
    (max_peers : ℕ) (xs ys : List ℕ) (w : Window)
    → assign_all max_peers (xs ++ ys) w ≡ assign_all max_peers ys (assign_all max_peers xs w)
assign_all-append max_peers [] ys w = refl
assign_all-append max_peers (x ∷ xs) ys w =
    assign_all-append max_peers xs ys (assign_64 max_peers x w)

assign_times-copies :
    (max_peers times v : ℕ) (w : Window)
    → assign_times max_peers times v w ≡ assign_all max_peers (copies times v) w
unfolding assign_times
assign_times-copies max_peers zero v w = refl
assign_times-copies max_peers (suc times) v w =
    assign_times-copies max_peers times v (assign_64 max_peers v w)

-- A repeated value is as good as its copies.
pub run_entries-expand :
    (max_peers : ℕ) (entries : List Entry) (w : Window)
    → run_entries false max_peers entries w ≡ assign_all max_peers (expand entries) w
unfolding run_entries run_entry
run_entries-expand max_peers [] w = refl
run_entries-expand max_peers (word v ∷ entries) w =
    run_entries-expand max_peers entries (assign_64 max_peers v w)
run_entries-expand max_peers (run n v ∷ entries) w =
    run_entries-expand max_peers entries (assign_times max_peers (u32 n) v w)
    ∙ (ap (assign_all max_peers (expand entries)) (assign_times-copies max_peers (u32 n) v w)
        ∙ sym (assign_all-append max_peers (copies (u32 n) v) (expand entries) w))

-- The text of the entries of a peer, and of the peers from `peer_nr` on.
abbrev pub tokens_of : List Entry → List Token → List Token
tokens_of [] rest = close_brace ∷ rest
tokens_of (word v ∷ entries) rest = tk_u64 v ∷ semicolon ∷ tokens_of entries rest
tokens_of (run n v ∷ entries) rest =
    tk_num n ∷ tk_times ∷ tk_u64 v ∷ semicolon ∷ tokens_of entries rest

abbrev pub peer_tokens : ℕ → List Entry → List Token → List Token
peer_tokens peer_nr entries rest =
    tk_bitmap ∷ open_bracket ∷ tk_num peer_nr ∷ close_bracket ∷ open_brace ∷ tokens_of entries rest

abbrev pub dump_tokens : ℕ → List (List Entry) → List Token → List Token
dump_tokens peer_nr [] rest = rest
dump_tokens peer_nr (entries ∷ peers) rest =
    peer_tokens peer_nr entries (dump_tokens (suc peer_nr) peers rest)

abbrev pub peer_at : List (List Entry) → ℕ → Option (List Entry)
peer_at [] q = none
peer_at (entries ∷ peers) zero = some entries
peer_at (entries ∷ peers) (suc q) = peer_at peers q

pub read_entries-tokens_of :
    (entries : List Entry) (rest : List Token)
    → read_entries (tokens_of entries rest) ≡ ok (entries, rest)
unfolding read_entries
read_entries-tokens_of [] rest = refl
read_entries-tokens_of (word v ∷ entries) rest = rw (read_entries-tokens_of entries rest) refl
read_entries-tokens_of (run n v ∷ entries) rest = rw (read_entries-tokens_of entries rest) refl

pub parse_head_lem :
    (peer_nr : ℕ) (entries : List Entry) (rest : List Token)
    → parse_head true peer_nr (peer_tokens peer_nr entries rest) ≡ ok (tokens_of entries rest)
unfolding parse_head expect
parse_head_lem peer_nr entries rest = rw ((==_iff peer_nr peer_nr).1 refl) refl

slot-mod : (max_peers n j : ℕ) → slot max_peers n j % max_peers ≡ n % max_peers
slot-mod max_peers n zero = refl
slot-mod max_peers n (suc j) = slot-mod max_peers (n + max_peers) j ∙ add-mod_right n max_peers

-- What one peer leaves in the buffer.
record Holds (max_peers peer_nr : ℕ) (entries : List Entry) (bm bm' : ℕ → ℕ) : Type 0 where
  own :
      (j x : ℕ)
      → word_at (expand entries) j ≡ some x
      → slot max_peers peer_nr j < buffer_words
      → bm' (slot max_peers peer_nr j) ≡ x
  other : (k : ℕ) → k % max_peers ≢ peer_nr % max_peers → bm' k ≡ bm k

one_peer-Holds :
    (max_peers peer_nr : ℕ) (entries : List Entry) (rest : List Token) (bm : ℕ → ℕ)
    → max_peers ≤ 64
    → peer_nr < max_peers
    → Ends
        (λ (t : (ℕ → ℕ) × ℤ × List Token). (t.2 ≡ rest) × Holds max_peers peer_nr entries bm t.0)
        (parse_bitmap_window_one_peer true false max_peers 0 peer_nr
          (bm, peer_tokens peer_nr entries rest))
unfolding parse_bitmap_window_one_peer
one_peer-Holds max_peers peer_nr entries rest bm less lt =
    let start : window_start 0 peer_nr ≡ pos peer_nr = ground arith in
    let first : Window = record { bm = bm; i = pos peer_nr } in
    let from_start : ℤ → Window = λ z. record { bm = bm; i = z } in
    let w = run_entries false max_peers entries (record { bm = bm; i = window_start 0 peer_nr }) in
    let same : w ≡ assign_all max_peers (expand entries) first =
      ap (λ (z : ℤ). run_entries false max_peers entries (from_start z)) start
      ∙ run_entries-expand max_peers entries first in
    let kept =
      assign_all-Kept max_peers less bm peer_nr (expand entries) first
        (Kept-self max_peers less bm peer_nr (omega arith)) in
    (
      (w.bm, words_of w.i peer_nr, rest),
      rw (parse_head_lem peer_nr entries rest) (rw (read_entries-tokens_of entries rest) refl),
      (
        refl,
        record {
          own = λ j x e within.
              ap (λ (v : Window). v.bm (slot max_peers peer_nr j)) same
              ∙ assign_all-word_at max_peers less (expand entries) bm peer_nr j x (omega arith)
                  (omega (arith, div-eq_of_lt lt)) e within;
          other = λ k different. ap (λ (v : Window). v.bm k) same ∙ kept.same k (inr different);
        },
      ),
    )

-- What the peers from `peer_nr` on leave in the buffer.
pub record AllHold (max_peers peer_nr : ℕ) (peers : List (List Entry)) (bm bm' : ℕ → ℕ)
    : Type 0 where
  pub own :
      (q : ℕ) (entries : List Entry) (j x : ℕ)
      → peer_at peers q ≡ some entries
      → word_at (expand entries) j ≡ some x
      → slot max_peers (peer_nr + q) j < buffer_words
      → bm' (slot max_peers (peer_nr + q) j) ≡ x
  pub below : (k : ℕ) → k % max_peers < peer_nr → bm' k ≡ bm k

AllHold-own :
    (max_peers peer_nr : ℕ) (entries : List Entry) (peers : List (List Entry)) (bm bm' bm'' : ℕ → ℕ)
    → peer_nr < max_peers
    → Holds max_peers peer_nr entries bm bm'
    → AllHold max_peers (suc peer_nr) peers bm' bm''
    → (q : ℕ) (es : List Entry) (j x : ℕ) → peer_at (entries ∷ peers) q ≡ some es
    → word_at (expand es) j ≡ some x
    → slot max_peers (peer_nr + q) j < buffer_words
    → bm'' (slot max_peers (peer_nr + q) j) ≡ x
AllHold-own max_peers peer_nr entries peers bm bm' bm'' lt h rest zero es j x e w within =
    let here : peer_nr + 0 ≡ peer_nr = omega arith in
    let k = slot max_peers peer_nr j in
    let w' = subst (λ (l : List Entry). word_at (expand l) j ≡ some x) (sym (some_inj e)) w in
    let low : k % max_peers < suc peer_nr =
      omega (arith, slot-mod max_peers peer_nr j, mod-eq_of_lt lt) in
    ap (λ n. bm'' (slot max_peers n j)) here
    ∙ (rest.below k low ∙ h.own j x w' (subst (λ n. slot max_peers n j < buffer_words) here within))
AllHold-own max_peers peer_nr entries peers bm bm' bm'' lt h rest (suc q) es j x e w within =
    let next : peer_nr + suc q ≡ suc peer_nr + q = omega arith in
    ap (λ n. bm'' (slot max_peers n j)) next
    ∙ rest.own q es j x e w (subst (λ n. slot max_peers n j < buffer_words) next within)

AllHold-∷ :
    (max_peers peer_nr : ℕ) (entries : List Entry) (peers : List (List Entry)) (bm bm' bm'' : ℕ → ℕ)
    → peer_nr < max_peers
    → Holds max_peers peer_nr entries bm bm'
    → AllHold max_peers (suc peer_nr) peers bm' bm''
    → AllHold max_peers peer_nr (entries ∷ peers) bm bm''
AllHold-∷ max_peers peer_nr entries peers bm bm' bm'' lt h rest =
    let mine : peer_nr % max_peers ≡ peer_nr = mod-eq_of_lt lt in
    record {
      own = AllHold-own max_peers peer_nr entries peers bm bm' bm'' lt h rest;
      below = λ k less.
          rest.below k (omega (arith, less))
          ∙ h.other k (λ same. absurd (omega (arith, same, mine, less)));
    }

peers-AllHold :
    (max_peers peer_nr : ℕ) (peers : List (List Entry)) (rest : List Token) (bm : ℕ → ℕ) (words : ℤ)
    → max_peers ≤ 64
    → peer_nr + length peers ≤ max_peers
    → Ends
        (λ (t : (ℕ → ℕ) × ℤ × List Token). (t.2 ≡ rest) × AllHold max_peers peer_nr peers bm t.0)
        (parse_peers false max_peers 0
          (length peers)
          peer_nr
          (bm, words, dump_tokens peer_nr peers rest))
unfolding parse_peers
peers-AllHold max_peers peer_nr [] rest bm words less le = (
  (bm, words, rest),
  refl,
  (refl, record { own = λ q es j x e w within. cc; below = λ k lt. refl }),
)
peers-AllHold max_peers peer_nr (entries ∷ peers) rest bm words less le =
    let later = dump_tokens (suc peer_nr) peers rest in
    >>=-Ends
      (parse_bitmap_window_one_peer true false max_peers 0 peer_nr
        (bm, peer_tokens peer_nr entries later))
      (parse_peers false max_peers 0 (length peers) (suc peer_nr))
      (one_peer-Holds max_peers peer_nr entries later bm less (omega arith))
      (λ t (left, h).
        let (u, e, (done, all)) =
          peers-AllHold max_peers (suc peer_nr) peers rest t.0 t.1 less (omega arith) in
        (
          u,
          ap
                (λ (ts : List Token).
                  parse_peers false max_peers 0 (length peers) (suc peer_nr) (t.0, t.1, ts))
                left
              ∙ e,
          (done, AllHold-∷ max_peers peer_nr entries peers bm t.0 u.0 (omega arith) h all),
        ))

-- On the text of a dump with a bitmap for each of up to 64 peers, parse_bitmap_window() reads to its end, and in the
-- first window the `j`-th word of peer `q` comes to stand at the place `q + j * max_peers` of the buffer,
-- as far as the buffer goes. A repeated value stands for its copies, and a value for its low word and
-- its high word.
pub parse_bitmap_window-AllHold :
    (peers : List (List Entry)) (rest : List Token) (bm : ℕ → ℕ)
    → length peers ≤ 64
    → Ends
        (λ (t : (ℕ → ℕ) × ℤ × List Token). (t.2 ≡ rest) × AllHold (length peers) 0 peers bm t.0)
        (parse_bitmap_window true false (length peers) 0 (bm, dump_tokens 0 peers rest))
unfolding parse_bitmap_window
parse_bitmap_window-AllHold peers rest bm less =
    peers-AllHold (length peers) 0 peers rest bm (pos 0) less (omega arith)
