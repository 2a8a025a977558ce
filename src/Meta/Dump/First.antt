-- ===== src/Meta/Dump/First.antt =====
-- parse_bitmap() of user/shared/drbdmeta.c: its windows, the first and the others.
use drbd_utils.Prelude.{
  ℕ, zero, suc, ◌+◌, ◌-◌, ◌*◌, ◌^◌, ◌≤◌, ◌<◌, ◌⊎◌, ◌≡◌, refl, ap, ◌∙◌, Bool, true, false, List, [],
  ◌∷◌, ◌++◌, some, Bool-cases, inl, inr, if◌then◌else◌, leb, ltb, ◌==◌, ◌||◌, Result, Exit, ok,
  stop, exit, abort, ◌>>=◌, ℤ, pos, negsuc, pos_part, bits64, u32, arith,
}
use mathlib.Core.Path.{subst}
use drbd_utils.Meta.Layout.{align}
use drbd_utils.Meta.Dump.{
  Token, Write, Window, Entry, word, run, buffer_words, buffer_bytes, assign_32_of_64bit, assign_64,
  assign_times, run_entry, run_entries, read_entries, parse_head, window_start, words_of,
  parse_bitmap_window_one_peer, parse_peers, parse_bitmap_window, Target, Restore, room, put, flush,
  parse_windows, parse_bitmap,
}

-- What holds of the result, if the program goes on.
abbrev pub IfOk {ℓ} : {A : Type ℓ} → (A → Type 0) → Result A → Type 0
IfOk P (stop code) = Unit
IfOk P (ok x) = P x

>>=-IfOk {ℓ κ} :
    {X : Type ℓ} {Y : Type κ} (P : X → Type 0) (Q : Y → Type 0) (m : Result X) (next : X → Result Y)
    → IfOk P m
    → ((x : X) → P x → IfOk Q (next x))
    → IfOk Q (m >>= next)
>>=-IfOk P Q (stop code) next h k = tt
>>=-IfOk P Q (ok x) next h k = k x h

if_IfOk {ℓ} :
    {A : Type ℓ} (P : A → Type 0) (b : Bool) (m n : Result A)
    → IfOk P m
    → IfOk P n
    → IfOk P (if b then m else n)
if_IfOk P true m n h k = h
if_IfOk P false m n h k = k

Result-cases {ℓ} :
    {A : Type ℓ} (m : Result A) → ((code : Exit) × (m ≡ stop code)) ⊎ ((x : A) × (m ≡ ok x))
Result-cases (stop code) = inl (code, refl)
Result-cases (ok x) = inr (x, refl)

always_IfOk {ℓ} : {A : Type ℓ} {P : A → Type 0} (m : Result A) → ((x : A) → P x) → IfOk P m
always_IfOk (stop code) h = tt
always_IfOk (ok x) h = h x

-- A negative index stays where it is.
assign_stays :
    (max_peers value n : ℕ) (w : Window)
    → n < 2 ^ 31
    → w.i ≡ negsuc n
    → assign_32_of_64bit max_peers value w ≡ w
unfolding assign_32_of_64bit
assign_stays max_peers value n w lt e =
    let late : leb buffer_words (bits64 (negsuc n)) ≡ true = ground arith in rw (e, late) refl

assign_64_stays :
    (max_peers value n : ℕ) (w : Window)
    → n < 2 ^ 31
    → w.i ≡ negsuc n
    → assign_64 max_peers value w ≡ w
assign_64_stays max_peers value n w lt e =
    ap (assign_32_of_64bit max_peers value) (assign_stays max_peers value n w lt e)
    ∙ assign_stays max_peers value n w lt e

assign_times_stays :
    (max_peers times value n : ℕ) (w : Window)
    → n < 2 ^ 31
    → w.i ≡ negsuc n
    → assign_times max_peers times value w ≡ w
unfolding assign_times
assign_times_stays max_peers zero value n w lt e = refl
assign_times_stays max_peers (suc times) value n w lt e =
    ap (assign_times max_peers times value) (assign_64_stays max_peers value n w lt e)
    ∙ assign_times_stays max_peers times value n w lt e

run_entry_stays :
    (max_peers : ℕ) (entry : Entry) (n : ℕ) (w : Window)
    → n < 2 ^ 31
    → w.i ≡ negsuc n
    → run_entry false max_peers entry w ≡ w
unfolding run_entry
run_entry_stays max_peers (word v) n w lt e = assign_64_stays max_peers v n w lt e
run_entry_stays max_peers (run times v) n w lt e =
    assign_times_stays max_peers (u32 times) v n w lt e

run_entries_stays :
    (max_peers : ℕ) (entries : List Entry) (n : ℕ) (w : Window)
    → n < 2 ^ 31
    → w.i ≡ negsuc n
    → run_entries false max_peers entries w ≡ w
unfolding run_entries
run_entries_stays max_peers [] n w lt e = refl
run_entries_stays max_peers (entry ∷ entries) n w lt e =
    ap (run_entries false max_peers entries) (run_entry_stays max_peers entry n w lt e)
    ∙ run_entries_stays max_peers entries n w lt e

-- What a call for the second window returns: -(buffer_size / sizeof(*bm)).
abbrev IsLate : (ℕ → ℕ) × ℤ × List Token → Type 0
IsLate t = t.1 ≡ negsuc (buffer_words - 1)

one_peer-IsLate :
    (nine : Bool) (max_peers peer_nr : ℕ) (r : (ℕ → ℕ) × List Token)
    → peer_nr < 64
    → IfOk IsLate (parse_bitmap_window_one_peer nine false max_peers 1 peer_nr r)
unfolding parse_bitmap_window_one_peer
one_peer-IsLate nine max_peers peer_nr (bm, tokens) lt =
    let start : window_start 1 peer_nr ≡ negsuc (buffer_words - peer_nr - 1) = ground arith in
    let back : words_of (negsuc (buffer_words - peer_nr - 1)) peer_nr ≡ negsuc (buffer_words - 1) =
      ground arith in
    >>=-IfOk (λ r. Unit) IsLate (parse_head nine peer_nr tokens >>= read_entries)
      (λ r.
        let w = run_entries false max_peers r.0 (record { bm = bm; i = window_start 1 peer_nr }) in
        ok (w.bm, words_of w.i peer_nr, r.1))
      (always_IfOk (parse_head nine peer_nr tokens >>= read_entries) (λ r. tt))
      (λ r u.
        let w : Window = record { bm = bm; i = window_start 1 peer_nr } in
        let stays =
          run_entries_stays max_peers r.0 (buffer_words - peer_nr - 1) w (omega arith) start in
        ap (λ (v : Window). words_of v.i peer_nr) stays
        ∙ (ap (λ (z : ℤ). words_of z peer_nr) start ∙ back))

-- At least one peer is read.
peers-IsLate :
    (max_peers n peer_nr : ℕ) (r : (ℕ → ℕ) × ℤ × List Token)
    → peer_nr + n ≤ 64
    → 0 < n ⊎ IsLate r
    → IfOk IsLate (parse_peers false max_peers 1 n peer_nr r)
unfolding parse_peers
peers-IsLate max_peers zero peer_nr (bm, words, tokens) le (inl h) = absurd (omega arith)
peers-IsLate max_peers zero peer_nr (bm, words, tokens) le (inr h) = h
peers-IsLate max_peers (suc n) peer_nr (bm, words, tokens) le h =
    >>=-IfOk IsLate IsLate
      (parse_bitmap_window_one_peer true false max_peers 1 peer_nr (bm, tokens))
      (parse_peers false max_peers 1 n (suc peer_nr))
      (one_peer-IsLate true max_peers peer_nr (bm, tokens) (omega arith))
      (λ t late. peers-IsLate max_peers n (suc peer_nr) t (omega arith) (inr late))

window-IsLate :
    (nine : Bool) (max_peers : ℕ) (r : (ℕ → ℕ) × List Token)
    → 0 < max_peers
    → max_peers ≤ 64
    → IfOk IsLate (parse_bitmap_window nine false max_peers 1 r)
unfolding parse_bitmap_window
window-IsLate true max_peers (bm, tokens) more less =
    peers-IsLate max_peers max_peers 0 (bm, pos 0, tokens) (omega arith) (inl more)
window-IsLate false max_peers (bm, tokens) more less =
    one_peer-IsLate false max_peers 0 (bm, tokens) (omega arith)

-- No write, or one at the start of the bitmap.
abbrev pub IsStart : List Write → Type 0
IsStart [] = Unit
IsStart (w ∷ []) = w.offset ≡ 0
IsStart (w ∷ v ∷ writes) = ⊥

flush-IsStart :
    (cfg : Target) (words : ℕ) (bm : ℕ → ℕ)
    → IfOk
        (λ (s : Restore). IsStart s.writes)
        (flush cfg false 0 words (record { bm = bm; truncated = false; writes = [] }))
unfolding flush
flush-IsStart cfg words bm =
    let P : Restore → Type 0 = λ s. IsStart s.writes in
    let r : Restore = record { bm = bm; truncated = false; writes = [] } in
    let bytes = align (words * 4) cfg.md_hard_sect_size in
    let w = put cfg 0 bytes (λ k. if leb words k then 0 else bm k) in
    let done : Result Restore = ok (record w { writes = w.writes ++ [] }) in
    let written = if leb (room cfg) 0 then stop (exit 10) else done in
    if_IfOk P (words == 0 || false) (ok r)
      (if ltb buffer_bytes (words * 4) then stop abort else written) tt
      (if_IfOk P (ltb buffer_bytes (words * 4)) (stop abort) written tt
        (if_IfOk P (leb (room cfg) 0) (stop (exit 10)) done tt refl))

abbrev pub WritesOnce : Result (Restore × List Token) → Type 0
WritesOnce m = IfOk (λ (t : Restore × List Token). IsStart t.0.writes) m

second_window :
    (cfg : Target) (tokens : List Token) (r : Restore)
    → 0 < cfg.max_peers
    → cfg.max_peers ≤ 64
    → IsStart r.writes
    → (m : Result (Restore × List Token)) × (parse_windows cfg false tokens 1 1 r ≡ some m)
      × WritesOnce m
unfolding parse_windows
second_window cfg tokens r more less le =
    elim (Result-cases (parse_bitmap_window cfg.nine false cfg.max_peers 1 (r.bm, tokens))) [
      | inl (code, e) ↦ (stop code, rw (e, parse_windows) refl, tt)
      | inr (t, e) ↦
          let late : IsLate t =
            subst (IfOk IsLate) e (window-IsLate cfg.nine cfg.max_peers (r.bm, tokens) more less) in
          let stops : (bits64 t.1 == buffer_words) ≡ false = rw late refl in
          (ok (record r { bm = t.0 }, t.2), rw (e, late, parse_windows) (rw stops refl), le)
    ]

-- A restore of a bitmap for 1 to 64 peers ends within two windows, by exit() or abort(), or with no write or one write
-- at the start of the bitmap, whatever the dump has.
pub parse_bitmap-WritesOnce :
    (cfg : Target) (tokens : List Token) (bm : ℕ → ℕ)
    → 0 < cfg.max_peers
    → cfg.max_peers ≤ 64
    → (m : Result (Restore × List Token)) × (parse_bitmap cfg false tokens bm ≡ some m)
      × WritesOnce m
unfolding parse_bitmap parse_windows
parse_bitmap-WritesOnce cfg tokens bm more less =
    elim (Result-cases (parse_bitmap_window cfg.nine false cfg.max_peers 0 (bm, tokens))) [
      | inl (code, e) ↦ (stop code, rw (e, parse_windows) refl, tt)
      | inr (t, e) ↦
          let r : Restore = record { bm = t.0; truncated = false; writes = [] } in
          elim (Result-cases (flush cfg false 0 (pos_part t.1) r)) [
            | inl (code, f) ↦ (stop code, rw (e, f, parse_windows) refl, tt)
            | inr (s, f) ↦
                let once : IsStart s.writes =
                  subst (IfOk (λ (s : Restore). IsStart s.writes)) f
                    (flush-IsStart cfg (pos_part t.1) t.0) in
                elim (Bool-cases (bits64 t.1 == buffer_words)) [
                  | inl same ↦
                      let (m, ends, w) = second_window cfg tokens s more less once in
                      (m, rw (e, f, same, parse_windows) ends, w)
                  | inr other ↦ (ok (s, t.2), rw (e, f, other, parse_windows) refl, once)
                ]
          ]
    ]
