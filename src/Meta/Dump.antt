-- ===== src/Meta/Dump.antt =====
-- user/shared/drbdmeta.c: the bitmap in a dump file, as restore-md reads it. The scanner, which flex
-- makes, is a parameter: the tokens of the file. The words of the buffer stand in the byte order of
-- the host, a little endian one.
pub mod First
pub mod Words
pub mod Reads
pub mod Count
pub mod Restores
use drbd_utils.Prelude.{
  ℕ, zero, suc, ◌+◌, ◌-◌, ◌*◌, ◌/◌, ◌%◌, ◌^◌, Bool, true, false, not, ◌&&◌, ◌||◌, ◌++◌, List, [],
  ◌∷◌, Option, none, some, if◌then◌else◌, leb, ltb, ◌==◌, Result, ok, stop, exit, abort, ◌>>=◌, ℤ,
  pos, negsuc, ◌+ℤ◌, sub_ℕ, pos_part, neg_part, store32, bits64, u32, u64,
}
use drbd_utils.Meta.Layout.{align}

-- What yylex() returns, with yylval.u64; the end of the file is the end of the list.
pub data Token : Type 0 where
  tk_bm tk_bitmap tk_times semicolon open_brace close_brace open_bracket close_bracket other : Token
  tk_num tk_u64 : ℕ → Token

-- The kinds of tokens, and EXP(); md_parse_error() ends in exit(10).
abbrev pub kind : Token → ℕ
kind tk_bm = 0
kind tk_bitmap = 1
kind tk_times = 2
kind semicolon = 3
kind open_brace = 4
kind close_brace = 5
kind open_bracket = 6
kind close_bracket = 7
kind other = 8
kind (tk_num n) = 9
kind (tk_u64 v) = 10

unfoldable pub expect : ℕ → List Token → Result (List Token)
expect k [] = stop (exit 10)
expect k (t ∷ rest) = if kind t == k then ok rest else stop (exit 10)

-- yylval.u64 behind the number that starts the list
abbrev pub number_of : List Token → ℕ
number_of (tk_num n ∷ rest) = n
number_of _ = 0

-- buffer_size / sizeof(*bm)
abbrev pub buffer_words : ℕ
buffer_words = 8388608

-- `bm` and `i` of parse_bitmap_window_one_peer()
pub record Window : Type 0 where
  pub bm : ℕ → ℕ
  pub i : ℤ

-- The low or the high half of a value, by the number of the word of the peer.
abbrev pub half_word : ℕ → ℕ → ℕ
half_word value n = if n % 2 == 0 then value % 2 ^ 32 else value / 2 ^ 32 % 2 ^ 32

abbrev pub store_half : ℕ → ℕ → ℤ → (ℕ → ℕ) → ℕ → ℕ
store_half max_peers value (pos n) bm =
    λ k. if k == n then half_word value (n / max_peers) else bm k
store_half max_peers value (negsuc n) bm = bm

-- `i` is an int, and `buffer_size / sizeof(*bm)` a size_t.
unfoldable pub assign_32_of_64bit : ℕ → ℕ → Window → Window
assign_32_of_64bit max_peers value w =
    if leb buffer_words (bits64 w.i)
    then w
    else record { bm = store_half max_peers value w.i w.bm; i = store32 (w.i +ℤ pos max_peers) }

abbrev pub assign_64 : ℕ → ℕ → Window → Window
assign_64 max_peers value w =
    assign_32_of_64bit max_peers value (assign_32_of_64bit max_peers value w)

unfoldable pub assign_times : ℕ → ℕ → ℕ → Window → Window
unfolding assign_32_of_64bit
assign_times max_peers zero value w = w
assign_times max_peers (suc times) value w =
    assign_times max_peers times value (assign_64 max_peers value w)

-- A value, or a value that stands for many.
pub data Entry : Type 0 where
  word : ℕ → Entry
  run : ℕ → ℕ → Entry

-- What the loop of parse_bitmap_window_one_peer() reads, up to the closing brace.
unfoldable pub read_entries : List Token → Result (List Entry × List Token)
read_entries [] = stop (exit 10)
read_entries (close_brace ∷ rest) = ok ([], rest)
read_entries (tk_u64 v ∷ semicolon ∷ rest) = read_entries rest >>= λ r. ok (word v ∷ r.0, r.1)
read_entries (tk_num n ∷ tk_times ∷ tk_u64 v ∷ semicolon ∷ rest) =
    read_entries rest >>= λ r. ok (run n v ∷ r.0, r.1)
read_entries _ = stop (exit 10)

-- What the loop does with it. `times` is an int; below zero it runs on to the wrap.
unfoldable pub run_entry : Bool → ℕ → Entry → Window → Window
unfolding assign_times assign_32_of_64bit
run_entry true max_peers (word v) w = record w { i = store32 (w.i +ℤ pos (max_peers * 2)) }
run_entry true max_peers (run n v) w = record w {
  i = store32 (w.i +ℤ pos (u32 (u32 n * max_peers) * 2));
}
run_entry false max_peers (word v) w = assign_64 max_peers v w
run_entry false max_peers (run n v) w = assign_times max_peers (u32 n) v w

unfoldable pub run_entries : Bool → ℕ → List Entry → Window → Window
unfolding run_entry
run_entries parse_only max_peers [] w = w
run_entries parse_only max_peers (e ∷ entries) w =
    run_entries parse_only max_peers entries (run_entry parse_only max_peers e w)

-- The head of the bitmap of a peer.
unfoldable pub parse_head : Bool → ℕ → List Token → Result (List Token)
unfolding expect
parse_head false peer_nr tokens = expect 0 tokens >>= expect 4
parse_head true peer_nr tokens = expect 1 tokens >>= expect 6 >>= λ number.
    expect 9 number >>= expect 7 >>= λ rest.
    if number_of number == peer_nr then expect 4 rest else stop (exit 10)

-- `peer_nr - window * (buffer_size / sizeof(*bm))`, and `i - peer_nr`
abbrev pub window_start : ℕ → ℕ → ℤ
window_start window peer_nr = store32 (sub_ℕ peer_nr (window * buffer_words))

abbrev pub words_of : ℤ → ℕ → ℤ
words_of i peer_nr = store32 (sub_ℕ (pos_part i) (neg_part i + peer_nr))

-- The buffer after the call, what the call returns, and the tokens that are left. `nine` is set from
-- version 9 on.
unfoldable pub parse_bitmap_window_one_peer :
    Bool → Bool → ℕ → ℕ → ℕ → (ℕ → ℕ) × List Token → Result ((ℕ → ℕ) × ℤ × List Token)
unfolding parse_head read_entries run_entries
parse_bitmap_window_one_peer nine parse_only max_peers window peer_nr (bm, tokens) =
    parse_head nine peer_nr tokens >>= read_entries >>= λ r.
    let w =
      run_entries parse_only max_peers r.0 (record { bm = bm; i = window_start window peer_nr }) in
    ok (w.bm, words_of w.i peer_nr, r.1)

-- The loop over the peers from `peer_nr` on, `n` of them.
unfoldable pub parse_peers :
    Bool → ℕ → ℕ → ℕ → ℕ → (ℕ → ℕ) × ℤ × List Token → Result ((ℕ → ℕ) × ℤ × List Token)
unfolding parse_bitmap_window_one_peer
parse_peers parse_only max_peers window zero peer_nr (bm, words, tokens) = ok (bm, words, tokens)
parse_peers parse_only max_peers window (suc n) peer_nr (bm, words, tokens) =
    parse_bitmap_window_one_peer true parse_only max_peers window peer_nr (bm, tokens)
    >>= parse_peers parse_only max_peers window n (suc peer_nr)

unfoldable pub parse_bitmap_window :
    Bool → Bool → ℕ → ℕ → (ℕ → ℕ) × List Token → Result ((ℕ → ℕ) × ℤ × List Token)
unfolding parse_bitmap_window_one_peer parse_peers
parse_bitmap_window nine parse_only max_peers window (bm, tokens) =
    if nine
    then parse_peers parse_only max_peers window max_peers 0 (bm, pos 0, tokens)
    else parse_bitmap_window_one_peer nine parse_only max_peers window 0 (bm, tokens)

-- struct format, as far as parse_bitmap() reads it.
pub record Target : Type 0 where
  pub nine : Bool
  pub max_peers : ℕ
  pub bm_bytes : ℕ
  pub md_hard_sect_size : ℕ

-- A write to the device: its offset from the start of the bitmap, its length, and what it writes.
pub record Write : Type 0 where
  pub offset : ℕ
  pub bytes : ℕ
  pub words : ℕ → ℕ

-- The buffer, `truncated`, and the writes, the last one first.
pub record Restore : Type 0 where
  pub bm : ℕ → ℕ
  pub truncated : Bool
  pub writes : List Write

-- ALIGN(cfg->bm_bytes, 4096)
abbrev pub room : Target → ℕ
room cfg = align cfg.bm_bytes 4096

abbrev pub buffer_bytes : ℕ
buffer_bytes = buffer_words * 4

abbrev pub cap : ℕ → ℕ → ℕ
cap n limit = if ltb limit n then limit else n

-- pwrite_with_limit_or_die() behind its test for a late offset, and what it returns.
abbrev pub put : Target → ℕ → ℕ → (ℕ → ℕ) → Restore
put cfg offset bytes bm =
    let c = cap bytes (room cfg - offset) in
    record {
      bm = bm;
      truncated = not (bytes == c);
      writes = record { offset = offset; bytes = c; words = bm } ∷ [];
    }

-- What parse_bitmap() does with `words` words of a window. A memset() that goes on behind the end of
-- the buffer ends the program.
unfoldable pub flush : Target → Bool → ℕ → ℕ → Restore → Result Restore
unfolding align
flush cfg parse_only window words r =
    let bytes = align (words * 4) cfg.md_hard_sect_size in
    let offset = window * buffer_bytes in
    let bm = λ (k : ℕ). if leb words k then 0 else r.bm k in
    let w = put cfg offset bytes bm in
    if words == 0 || r.truncated
    then ok r
    else if ltb buffer_bytes (words * 4)
    then stop abort
    else if parse_only
    then ok (record r {
      bm = bm;
      truncated = not (bytes == cap bytes (u64 (room cfg + 2 ^ 64 - offset)));
    })
    else if leb (room cfg) offset
    then stop (exit 10)
    else ok (record w { writes = w.writes ++ r.writes })

-- The loop over the windows with fuel; `none` means that it ran out. Every window reads the tokens
-- from the start.
unfoldable pub parse_windows :
    Target → Bool → List Token → ℕ → ℕ → Restore → Option (Result (Restore × List Token))
unfolding parse_bitmap_window flush
parse_windows cfg parse_only tokens zero window r = none
parse_windows cfg parse_only tokens (suc fuel) window r =
    let more = λ (s : Restore). parse_windows cfg parse_only tokens fuel (suc window) s in
    elim (parse_bitmap_window cfg.nine parse_only cfg.max_peers window (r.bm, tokens)) [
      | stop code ↦ some (stop code)
      | ok t ↦ elim (flush cfg parse_only window (pos_part t.1) (record r { bm = t.0 })) [
        | stop code ↦ some (stop code)
        | ok s ↦ if bits64 t.1 == buffer_words then more s else some (ok (s, t.2))
      ]
    ]

-- Two windows are enough fuel when the bitmap is restored.
unfoldable pub parse_bitmap :
    Target → Bool → List Token → (ℕ → ℕ) → Option (Result (Restore × List Token))
unfolding parse_windows
parse_bitmap cfg parse_only tokens bm =
    parse_windows cfg parse_only tokens 2 0 (record { bm = bm; truncated = false; writes = [] })
