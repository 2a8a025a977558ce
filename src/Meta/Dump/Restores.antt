-- ===== src/Meta/Dump/Restores.antt =====
-- parse_bitmap() of user/shared/drbdmeta.c on the text of a dump whose bitmap is smaller than the
-- buffer.
use drbd_utils.Prelude.{
  ℕ, zero, suc, ◌+◌, ◌-◌, ◌*◌, ◌≤◌, ◌<◌, ◌≡◌, refl, sym, ap, ◌∙◌, true, false, List, [], ◌∷◌, ◌++◌,
  length, some, ==_iff, inl, if◌then◌else◌, leb, ltb, ◌==◌, ok, Ends, ℤ, pos, ok-injective, bits64,
  arith,
}
use mathlib.Core.Path.{subst}
use native.Mathlib.Nat.{mul-pos}
use drbd_utils.Meta.Layout.{align}
use drbd_utils.Meta.Dump.{
  Token, Entry, buffer_words, buffer_bytes, parse_bitmap_window, Target, Write, Restore, room, cap,
  put, flush, parse_windows, parse_bitmap,
}
use drbd_utils.Meta.Dump.Words.{expand, word_at, slot}
use drbd_utils.Meta.Dump.Reads.{dump_tokens, peer_at, AllHold, parse_bitmap_window-AllHold}
use drbd_utils.Meta.Dump.Count.{
  places, places_lem, slot-before, HasLength, peers-words, peer_at-HasLength,
}

above_leb : (n k : ℕ) → k < n → leb n k ≡ false
above_leb n k lt = ground arith

leb_of_lt : (n : ℕ) → 0 < n → leb n 0 ≡ false
leb_of_lt n lt = ground arith

cap_whole : (n limit : ℕ) → n ≤ limit → cap n (limit - 0) ≡ n
cap_whole n limit le = ground arith

-- What is written of the first window.
record Flushed (cfg : Target) (words : ℕ) (bm : ℕ → ℕ) (r : Restore) : Type 0 where
  not_truncated : r.truncated ≡ false
  writes :
      r.writes
      ≡ record {
        offset = 0;
        bytes = align (words * 4) cfg.md_hard_sect_size;
        words = λ k. if leb words k then 0 else bm k;
      }
        ∷ []

flush-Flushed :
    (cfg : Target) (words : ℕ) (bm : ℕ → ℕ)
    → 0 < words
    → words < buffer_words
    → 0 < room cfg
    → align (words * 4) cfg.md_hard_sect_size ≤ room cfg
    → Ends
        (Flushed cfg words bm)
        (flush cfg false 0 words (record { bm = bm; truncated = false; writes = [] }))
unfolding flush
flush-Flushed cfg words bm more less some_room fits =
    let bytes = align (words * 4) cfg.md_hard_sect_size in
    let w = put cfg 0 bytes (λ k. if leb words k then 0 else bm k) in
    let positive : (words == 0) ≡ false = ground arith in
    let within : ltb buffer_bytes (words * 4) ≡ false = ground arith in
    let before : leb (room cfg) 0 ≡ false = leb_of_lt (room cfg) some_room in
    let whole : cap bytes (room cfg - 0) ≡ bytes = cap_whole bytes (room cfg) fits in
    (
      record w { writes = w.writes ++ [] },
      rw (positive, within, before) refl,
      record {
        not_truncated = rw (whole, (==_iff bytes bytes).1 refl) refl;
        writes = rw whole refl;
      },
    )

small_ends : (n : ℕ) → n < buffer_words → (bits64 (pos n) == buffer_words) ≡ false
small_ends n lt = ground arith

slot_lem : (max_peers n j : ℕ) → slot max_peers n j ≡ n + j * max_peers
slot_lem max_peers n zero = omega arith
slot_lem max_peers n (suc j) = omega (arith, slot_lem max_peers (n + max_peers) j)

-- A word of a peer is one of those that are written.
written_word :
    (len q j x : ℕ) (peers : List (List Entry)) (entries : List Entry) (bm bm' : ℕ → ℕ)
    → HasLength len peers
    → len * (2 * length peers) < buffer_words
    → AllHold (length peers) 0 peers bm bm'
    → peer_at peers q ≡ some entries
    → word_at (expand entries) j ≡ some x
    → (if leb (len * (2 * length peers)) (q + j * length peers)
        then 0
        else bm' (q + j * length peers))
      ≡ x
written_word len q j x peers entries bm bm' h small all e w =
    let mp = length peers in
    let k = q + j * mp in
    let (same, lt) = peer_at-HasLength len q peers entries h e in
    let zero_q : 0 + q ≡ q = omega arith in
    let at : slot mp (0 + q) j ≡ k = ap (λ n. slot mp n j) zero_q ∙ slot_lem mp q j in
    let end : places mp q (expand entries) ≡ q + len * (2 * mp) =
      places_lem mp q (expand entries) ∙ ap (λ n. q + n * (2 * mp)) same in
    let below : k < len * (2 * mp) =
      omega (arith, slot-before mp q j x (expand entries) w, slot_lem mp q j, end, lt) in
    let inside : leb (len * (2 * mp)) k ≡ false = above_leb (len * (2 * mp)) k below in
    rw inside (
      ap bm' (sym at)
      ∙ all.own q entries j x e w
          (subst (λ n. n < buffer_words) (sym at) (omega (arith, below, small))))

-- One window is the whole loop.
one_window :
    (cfg : Target) (n : ℕ) (tokens : List Token) (bm : ℕ → ℕ) (t : (ℕ → ℕ) × ℤ × List Token)
    (s : Restore)
    → parse_bitmap_window cfg.nine false cfg.max_peers 0 (bm, tokens) ≡ ok t
    → t.1 ≡ pos n
    → n < buffer_words
    → flush cfg false 0 n (record { bm = t.0; truncated = false; writes = [] }) ≡ ok s
    → parse_bitmap cfg false tokens bm ≡ some (ok (s, t.2))
unfolding parse_bitmap parse_windows
one_window cfg n tokens bm t s read counted small flushed =
    let ends : (bits64 t.1 == buffer_words) ≡ false = rw counted (small_ends n small) in
    rw (read, parse_windows) (rw (counted, flushed) (rw ends refl))

-- A restore of a dump with a bitmap of `len` values for each of 1 to 64 peers, which is smaller than the buffer of
-- 8388608 words and has room on the device: it ends, reads the text to its end, and makes one write, at
-- the start of the bitmap and of whole sectors, in which the `j`-th word of peer `q` stands at the place
-- `q + j * max_peers`. A repeated value stands for its copies, and a
-- value for its low word and its high word.
pub parse_bitmap-restores :
    (cfg : Target) (len : ℕ) (peers : List (List Entry)) (rest : List Token) (bm : ℕ → ℕ)
    → cfg.nine ≡ true
    → cfg.max_peers ≡ length peers
    → 0 < length peers
    → length peers ≤ 64
    → 0 < len
    → HasLength len peers
    → len * (2 * length peers) < buffer_words
    → 0 < room cfg
    → align (len * (2 * length peers) * 4) cfg.md_hard_sect_size ≤ room cfg
    → (r : Restore) × (w : Write) × (parse_bitmap cfg false (dump_tokens 0 peers rest) bm
        ≡ some (ok (r, rest)))
      × (r.writes ≡ w ∷ [])
      × (w.offset ≡ 0)
      × (w.bytes ≡ align (len * (2 * length peers) * 4) cfg.md_hard_sect_size)
      × ((q : ℕ) (entries : List Entry) (j x : ℕ)
          → peer_at peers q ≡ some entries
          → word_at (expand entries) j ≡ some x
          → w.words (q + j * length peers) ≡ x)
unfolding parse_bitmap_window
parse_bitmap-restores cfg len peers rest bm nine max_peers some_peers less some_values h small
      some_room fits =
    let n = len * (2 * length peers) in
    let tokens = dump_tokens 0 peers rest in
    let (t, read, (left, all)) = parse_bitmap_window-AllHold peers rest bm less in
    let (u, read', count) =
      peers-words (length peers) 0 len peers rest bm (pos 0) less (omega arith) h small
        (inl some_peers) in
    let counted : t.1 ≡ pos n =
      ap (λ (v : (ℕ → ℕ) × ℤ × List Token). v.1) (ok-injective (sym read ∙ read')) ∙ count in
    let (s, flushed, f) =
      flush-Flushed cfg n t.0 (mul-pos some_values (omega arith)) small some_room fits in
    (
      s,
      record {
        offset = 0;
        bytes = align (n * 4) cfg.md_hard_sect_size;
        words = λ k. if leb n k then 0 else t.0 k;
      },
      one_window cfg n tokens bm t s (rw (nine, max_peers) read) counted small flushed
          ∙ ap (λ ts. some (ok (s, ts))) left,
      f.writes,
      refl,
      refl,
      λ q entries j x e w. written_word len q j x peers entries bm t.0 h small all e w,
    )
