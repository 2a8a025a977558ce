-- ===== src/Adm/Deferred/Queue.antt =====
-- What scheduling and cancelling keep: a command depends on one that was scheduled before it, and
-- the counters agree with the commands that are pending.
use drbd_utils.Prelude.{
  ℕ, zero, suc, ◌+◌, ◌≤◌, ◌<◌, ◌≡◌, refl, ◌∙◌, Bool, true, false, ◌&&◌, Option, some, Option-cases,
  Bool-cases, inl, inr, ◌==◌, if◌then◌else◌, arith,
}
use drbd_utils.Adm.Deferred.{
  Stage, number, wait_connect, AdmCmd, CfgCtx, DeferredCmd, Sched, Flags, is_same, find_in_queue,
  schedule_deferred_cmd, cancel_deferred_cmd, cancel_waits_below, cancel_deferred_waits,
}

-- How many of the first `n` commands are not done.
abbrev pub pending : (ℕ → Bool) → ℕ → ℕ
pending done zero = 0
pending done (suc n) = (if done n then 0 else 1) + pending done n

pub record IsQueued (s : Sched) : Type 0 where
  pub before : (i j : ℕ) → i < s.count → (s.cmd i).depends_on ≡ some j → j < i
  pub pending_scheduled : pending s.done s.count ≤ s.scheduled
  pub scheduled_counted : s.scheduled ≤ s.executed + pending s.done s.count

-- Commands from `n` on are not counted.
pub pending_above :
    (done : ℕ → Bool) (n k : ℕ) (b : Bool)
    → n ≤ k
    → pending (λ i. if i == k then b else done i) n ≡ pending done n
pending_above done zero k b le = refl
pending_above done (suc n) k b le = let rest = pending_above done n k b in ground (arith, rest)

-- One that becomes done is one fewer.
pub pending_done :
    (done : ℕ → Bool) (n k : ℕ)
    → k < n
    → done k ≡ false
    → pending (λ i. if i == k then true else done i) n + 1 ≡ pending done n
pending_done done zero k lt e = absurd (omega arith)
pending_done done (suc n) k lt e = elim (Bool-cases (n == k)) [
  | inl same ↦ let rest = pending_above done n k true in ground (arith, rest)
  | inr other ↦ let rest = pending_done done n k in ground (arith, rest)
]

pub pending_pos : (done : ℕ → Bool) (n k : ℕ) → k < n → done k ≡ false → 1 ≤ pending done n
pending_pos done n k lt e = omega (arith, pending_done done n k lt e)

find-lt :
    (test : DeferredCmd → Bool) (stage : Stage) (cmd : ℕ → DeferredCmd) (n i : ℕ)
    → find_in_queue test stage cmd n ≡ some i
    → i < n
unfolding find_in_queue
find-lt test stage cmd zero i e = cc
find-lt test stage cmd (suc n) i e = let below = find-lt test stage cmd n i in ground (arith, below)

-- A new command may depend on any earlier one; one that is found again is returned unchanged.
pub schedule_deferred_cmd-IsQueued :
    (cmd : AdmCmd) (ctx : CfgCtx) (depends_on : Option ℕ) (flags : Flags) (s : Sched)
    → IsQueued s
    → ((j : ℕ) → depends_on ≡ some j → j < s.count)
    → let r = schedule_deferred_cmd cmd ctx depends_on flags s in IsQueued r.1 × (r.0 < r.1.count)
unfolding schedule_deferred_cmd
schedule_deferred_cmd-IsQueued cmd ctx depends_on flags s q dep =
    elim (Option-cases (find_in_queue (is_same flags cmd ctx) cmd.stage s.cmd s.count)) [
      | inl new ↦
          let same = pending_above s.done s.count s.count false in
          rw (new, schedule_deferred_cmd)
            (
              record {
                before = λ i j lt e. elim (Bool-cases (i == s.count)) [
                  | inl last ↦ ground (arith, dep j)
                  | inr older ↦ ground (arith, q.before i j)
                ];
                pending_scheduled = ground (arith, same);
                scheduled_counted = ground (arith, same);
              },
              omega arith,
            )
      | inr (i, old) ↦
          rw (old, schedule_deferred_cmd)
            (q, find-lt (is_same flags cmd ctx) cmd.stage s.cmd s.count i old)
    ]

pub cancel_deferred_cmd-IsQueued :
    (i : ℕ) (s : Sched) → i < s.count → IsQueued s → IsQueued (cancel_deferred_cmd i s)
unfolding cancel_deferred_cmd
cancel_deferred_cmd-IsQueued i s lt q = elim (Bool-cases (s.done i)) [
  | inl e ↦ rw e q
  | inr e ↦
      let fewer = pending_done s.done s.count i lt e in
      rw e (record {
        before = q.before;
        pending_scheduled = omega (arith, q.pending_scheduled, fewer);
        scheduled_counted = omega (arith, q.pending_scheduled, q.scheduled_counted, fewer);
      })
]

cancel-count : (i : ℕ) (s : Sched) → (cancel_deferred_cmd i s).count ≡ s.count
unfolding cancel_deferred_cmd
cancel-count i s = ground arith

cancel_waits_below-IsQueued :
    (res n : ℕ) (s : Sched)
    → n ≤ s.count
    → IsQueued s
    → IsQueued (cancel_waits_below res n s) × ((cancel_waits_below res n s).count ≡ s.count)
unfolding cancel_waits_below
cancel_waits_below-IsQueued res zero s le q = (q, refl)
cancel_waits_below-IsQueued res (suc n) s le q =
    let t = cancel_waits_below res n s in
    let (h, c) = cancel_waits_below-IsQueued res n s (omega arith) q in
    elim (Bool-cases
      (number (t.cmd n).ctx.cmd.stage == number wait_connect && (t.cmd n).ctx.res == res)) [
        | inl e ↦ rw e (cancel_deferred_cmd-IsQueued n t (omega (arith, c)) h, cancel-count n t ∙ c)
        | inr e ↦ rw e (h, c)
      ]

pub cancel_deferred_waits-IsQueued :
    (res : ℕ) (s : Sched) → IsQueued s → IsQueued (cancel_deferred_waits res s)
unfolding cancel_deferred_waits
cancel_deferred_waits-IsQueued res s q =
    (cancel_waits_below-IsQueued res s.count s (omega arith) q).0
