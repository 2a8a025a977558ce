-- ===== src/Meta/Log/Replay/Bounds.antt =====
-- What a replay may write, and what it returns.
use drbd_utils.Prelude.{
  ℕ, zero, suc, ◌+◌, ◌-◌, ◌%◌, ◌^◌, ◌≤◌, ◌<◌, ◌≡◌, refl, ◌∙◌, false, ltb, ◌==◌, if◌then◌else◌,
  arith,
}
use drbd_utils.Headers.{Headers}
use drbd_utils.Meta.Log.Scan.{Al4kCpu, scan, scan_84}
use drbd_utils.Meta.Log.Scan.Order.{IsFilled, ring_before, scan_84-finds_ends}
use drbd_utils.Meta.Log.Replay.{
  al_extents_max, mark, mark_context, mark_update, entries, replay_transaction, replay_from,
  replay_decoded, rounds, found,
}

-- A step that leaves every slot from `al_extents_max` on alone.
abbrev KeepsEnd : ((ℕ → ℕ) → ℕ → ℕ) → Type 0
KeepsEnd f = (hot : ℕ → ℕ) (q : ℕ) → al_extents_max ≤ q → f hot q ≡ hot q

mark-KeepsEnd : (slot extent : ℕ) → KeepsEnd (mark slot extent)
unfolding mark
mark-KeepsEnd slot extent hot q le = ground arith

entries-KeepsEnd :
    (body : ℕ → (ℕ → ℕ) → ℕ → ℕ) (n : ℕ) → ((i : ℕ) → KeepsEnd (body i)) → KeepsEnd (entries body n)
unfolding entries
entries-KeepsEnd body zero k hot q le = refl
entries-KeepsEnd body (suc n) k hot q le =
    k n (entries body n hot) q le ∙ entries-KeepsEnd body n k hot q le

context-KeepsEnd : (al : Al4kCpu) (i : ℕ) → KeepsEnd (mark_context al i)
unfolding mark_context
context-KeepsEnd al i hot q le =
    ground (arith, mark-KeepsEnd (al.context_start_slot_nr + i) (al.context i) hot q)

update-KeepsEnd : (al : Al4kCpu) (i : ℕ) → KeepsEnd (mark_update al i)
unfolding mark_update
update-KeepsEnd al i hot q le =
    ground (arith, mark-KeepsEnd (al.update_slot_nr i) (al.update_extent_nr i) hot q)

transaction-KeepsEnd : (h : Headers) (al : Al4kCpu) → KeepsEnd (replay_transaction h al)
unfolding replay_transaction
transaction-KeepsEnd h al hot q le =
    let c = entries-KeepsEnd (mark_context al) h.al_context_per_transaction (context-KeepsEnd al) in
    let u = entries-KeepsEnd (mark_update al) h.al_updates_per_transaction (update-KeepsEnd al) in
    ground (arith, c hot q, u (entries (mark_context al) h.al_context_per_transaction hot) q)

from-KeepsEnd :
    (h : Headers) (al : ℕ → Al4kCpu) (mx left b : ℕ)
    → KeepsEnd (replay_from (replay_transaction h) al mx left b)
unfolding replay_from
from-KeepsEnd h al mx zero b hot q le = refl
from-KeepsEnd h al mx (suc left) b hot q le =
    from-KeepsEnd h al mx left (b + 1) _ q le ∙ transaction-KeepsEnd h (al (b % mx)) hot q le

-- Whatever the blocks hold, the replay of the log of 8.4 writes no slot past the table of 65534.
pub replay_decoded-stays_inside :
    (h : Headers) (mx : ℕ) (al : ℕ → Al4kCpu) (hot : ℕ → ℕ) (q : ℕ)
    → al_extents_max ≤ q
    → (replay_decoded h mx al hot).1 q ≡ hot q
unfolding replay_decoded
replay_decoded-stays_inside h mx al hot q le =
    let s = scan (scan_84 h) al mx in
    ground (arith, from-KeepsEnd h al mx (rounds mx s) s.oldest.i hot q)

-- From the oldest block to the newest there are as many rounds as blocks.
whole_ring :
    (mx first newest : ℕ)
    → first < mx
    → newest ≡ (first + mx - 1) % mx
    → (if ltb newest first then newest + mx else newest) + 1 - first ≡ mx
whole_ring zero first newest lt e = absurd (omega arith)
whole_ring (suc n) first newest lt e =
    let b = e ∙ ring_before first n (omega arith) in rw (b) (ground arith)

-- A log of fewer than 2^31 blocks that was filled in ring order (IsFilled: each block has a valid
-- update, and the numbers go up by one and, read as ints, do not pass 2^31 - 1) is replayed whole, in
-- the order in which it was written: `mx` transactions from the oldest on.
pub replay_decoded-in_order :
    (h : Headers) (mx first base : ℕ) (al : ℕ → Al4kCpu) (hot : ℕ → ℕ)
    → IsFilled h mx first base al
    → first < mx
    → mx < 2 ^ 31
    → replay_decoded h mx al hot ≡ (found mx, replay_from (replay_transaction h) al mx mx first hot)
unfolding replay_decoded
replay_decoded-in_order h mx first base al hot f lt small =
    let (valid, updates, old, new) = scan_84-finds_ends h mx first base al f lt small in
    let filled : (mx == 0) ≡ false = ground arith in
    rw (valid, updates, filled, old, whole_ring mx first _ lt new) refl
