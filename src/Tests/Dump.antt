-- ===== src/Tests/Dump.antt =====
-- A dump with bitmaps of two peers, and dumps of a bitmap that is larger than the buffer of drbdmeta.
use drbd_utils.Prelude.{
  ℕ, ◌+◌, ◌*◌, ◌^◌, ◌≡◌, refl, Bool, true, false, List, [], ◌∷◌, Option, none, some, Result, ok,
  stop, abort, ℤ, pos, arith,
}
use drbd_utils.Meta.Dump.{
  Token, tk_bm, tk_num, tk_times, tk_u64, semicolon, open_brace, close_brace, Entry, word, run,
  Target, Restore, Write, parse_bitmap_window, parse_bitmap,
}
use drbd_utils.Meta.Dump.First.{WritesOnce, parse_bitmap-WritesOnce}
use drbd_utils.Meta.Layout.{align}
use drbd_utils.Meta.Dump.Words.{word_at, expand}
use drbd_utils.Meta.Dump.Restores.{parse_bitmap-restores}
use drbd_utils.Meta.Dump.Reads.{peer_at, dump_tokens}

abbrev peers : List (List Entry)
peers = (word (5 * 2 ^ 32 + 6) ∷ run 2 7 ∷ []) ∷ (run 3 (2 ^ 32) ∷ []) ∷ []

abbrev empty : ℕ → ℕ
empty k = 0

-- The first places of the buffer, and the number of words.
abbrev first_places : Result ((ℕ → ℕ) × ℤ × List Token) → List ℕ × ℤ
first_places (stop code) = ([], pos 0)
first_places (ok t) = (t.0 0 ∷ t.0 1 ∷ t.0 2 ∷ t.0 3 ∷ t.0 4 ∷ t.0 5 ∷ [], t.1)

window_places :
    first_places (parse_bitmap_window true false 2 0 (empty, dump_tokens 0 peers []))
    ≡ (6 ∷ 0 ∷ 5 ∷ 1 ∷ 7 ∷ 0 ∷ [], pos 12)
unfolding parse_bitmap_window
window_places = refl

-- One peer in format 8, with `n` copies of a value.
abbrev old : ℕ → List Token
old n = tk_bm ∷ open_brace ∷ tk_num n ∷ tk_times ∷ tk_u64 9 ∷ semicolon ∷ close_brace ∷ []

abbrev target : ℕ → Target
target n = record { nine = false; max_peers = 1; bm_bytes = n * 8; md_hard_sect_size = 512 }

parse_bitmap-WritesOnce_example :
    (m : Result (Restore × List Token)) × (parse_bitmap (target 4194305) false (old 4194305) empty
      ≡ some m)
    × WritesOnce m
parse_bitmap-WritesOnce_example =
    parse_bitmap-WritesOnce (target 4194305) (old 4194305) empty (omega arith) (omega arith)

abbrev written : List Write → List (ℕ × ℕ × ℕ)
written [] = []
written (w ∷ ws) = (w.offset, w.bytes, w.words 0) ∷ written ws

abbrev outcome : Option (Result (Restore × List Token)) → Option (Result (Bool × List (ℕ × ℕ × ℕ)))
outcome none = none
outcome (some (stop code)) = some (stop code)
outcome (some (ok t)) = some (ok (t.0.truncated, written t.0.writes))

-- A small bitmap is written, up to the end of the sector.
small_restored :
    outcome (parse_bitmap (target 64) false (old 64) empty) ≡ some (ok (false, (0, 512, 9) ∷ []))
unfolding parse_bitmap
small_restored = refl

-- A check of a dump that has more than the buffer clears memory behind the buffer.
large_checked : outcome (parse_bitmap (target 4194305) true (old 4194305) empty) ≡ some (stop abort)
unfolding parse_bitmap
large_checked = refl

abbrev two_peers : Target
two_peers = record { nine = true; max_peers = 2; bm_bytes = 4096; md_hard_sect_size = 512 }

parse_bitmap-restores_example :
    (r : Restore) × (w : Write) × (parse_bitmap two_peers false (dump_tokens 0 peers []) empty
      ≡ some (ok (r, [])))
    × (r.writes ≡ w ∷ [])
    × (w.offset ≡ 0)
    × (w.bytes ≡ align 48 512)
    × ((q : ℕ) (entries : List Entry) (j x : ℕ)
        → peer_at peers q ≡ some entries
        → word_at (expand entries) j ≡ some x
        → w.words (q + j * 2) ≡ x)
unfolding align
parse_bitmap-restores_example =
    parse_bitmap-restores two_peers 3 peers [] empty refl refl (omega arith) (omega arith)
      (omega arith) (refl, (refl, tt)) (omega arith) (omega arith) (omega arith)
