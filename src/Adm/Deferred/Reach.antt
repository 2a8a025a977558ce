-- ===== src/Adm/Deferred/Reach.antt =====
-- The deferred commands of user/v9/drbdadm_main.c as drbdadm uses them: scheduled and cancelled in
-- any order, and then run.
use drbd_utils.Prelude.{
  ℤ, ℕ, zero, suc, ◌+◌, none, refl, ◌&&◌, ◌==◌, ◌≤◌, ◌<◌, ◌≡◌, sym, ◌∙◌, Bool, true, false, ◌||◌,
  List, [], Option, some, Bool-cases, Option-cases, inl, inr, arith,
}
use drbd_utils.Adm.Deferred.{
  Stage, always, number, wait_connect, AdmCmd, CfgCtx, DeferredCmd, Sched, Flags, is_same,
  find_in_queue, schedule_deferred_cmd, cancel_deferred_cmd, cancel_waits_below,
  cancel_deferred_waits, run_deferred_cmds,
}
use drbd_utils.Adm.Deferred.Queue.{
  IsQueued, schedule_deferred_cmd-IsQueued, cancel_deferred_cmd-IsQueued,
  cancel_deferred_waits-IsQueued,
}
use drbd_utils.Adm.Deferred.Rounds.{run_deferred_cmds_ends}
use drbd_utils.Adm.Deferred.Done.{IsNonneg, IsExact, run_deferred_cmds_done}
use drbd_utils.Adm.Deferred.Order.{was_called, InOrder, done_called, run-InOrder}

-- The states of the queue before it is run. A command depends on one that was returned before.
pub data Reach : Sched → Type 0 where
  start :
      (s : Sched)
      → s.count ≡ 0
      → s.scheduled ≡ 0
      → s.executed ≡ 0
      → ((q : ℕ) → s.skip q ≡ false)
      → s.calls ≡ []
      → Reach s
  schedule :
      {s : Sched} (cmd : AdmCmd) (ctx : CfgCtx) (depends_on : Option ℕ) (flags : Flags)
      → ((j : ℕ) → depends_on ≡ some j → j < s.count)
      → Reach s
      → Reach (schedule_deferred_cmd cmd ctx depends_on flags s).1
  cancel : {s : Sched} (i : ℕ) → i < s.count → Reach s → Reach (cancel_deferred_cmd i s)
  cancel_waits : {s : Sched} (res : ℕ) → Reach s → Reach (cancel_deferred_waits res s)

-- Nothing was run yet.
pub record IsFresh (s : Sched) : Type 0 where
  executed : s.executed ≡ 0
  no_skip : (q : ℕ) → s.skip q ≡ false
  calls : s.calls ≡ []

schedule-IsFresh :
    (cmd : AdmCmd) (ctx : CfgCtx) (depends_on : Option ℕ) (flags : Flags) (s : Sched)
    → IsFresh s
    → IsFresh (schedule_deferred_cmd cmd ctx depends_on flags s).1
unfolding schedule_deferred_cmd
schedule-IsFresh cmd ctx depends_on flags s f =
    elim (Option-cases (find_in_queue (is_same flags cmd ctx) cmd.stage s.cmd s.count)) [
      | inl new ↦
          rw (new, schedule_deferred_cmd)
            (record { executed = f.executed; no_skip = f.no_skip; calls = f.calls })
      | inr (i, old) ↦ rw (old, schedule_deferred_cmd) f
    ]

cancel-IsFresh : (i : ℕ) (s : Sched) → IsFresh s → IsFresh (cancel_deferred_cmd i s)
unfolding cancel_deferred_cmd
cancel-IsFresh i s f = elim (Bool-cases (s.done i)) [
  | inl e ↦ rw e f
  | inr e ↦ rw e (record { executed = f.executed; no_skip = f.no_skip; calls = f.calls })
]

waits-IsFresh : (res n : ℕ) (s : Sched) → IsFresh s → IsFresh (cancel_waits_below res n s)
unfolding cancel_waits_below
waits-IsFresh res zero s f = f
waits-IsFresh res (suc n) s f =
    let t = cancel_waits_below res n s in
    let rest = waits-IsFresh res n s f in
    elim (Bool-cases
      (number (t.cmd n).ctx.cmd.stage == number wait_connect && (t.cmd n).ctx.res == res)) [
        | inl e ↦ rw e (cancel-IsFresh n t rest)
        | inr e ↦ rw e rest
      ]

pub Reach-IsFresh : {s : Sched} → Reach s → IsFresh s
unfolding cancel_deferred_waits
Reach-IsFresh (start s a b c d e) = record { executed = c; no_skip = d; calls = e }
Reach-IsFresh (schedule {s = s} cmd ctx depends_on flags dep h) =
    schedule-IsFresh cmd ctx depends_on flags s (Reach-IsFresh h)
Reach-IsFresh (cancel {s = s} i lt h) = cancel-IsFresh i s (Reach-IsFresh h)
Reach-IsFresh (cancel_waits {s = s} res h) = waits-IsFresh res s.count s (Reach-IsFresh h)

Reach-IsQueued : {s : Sched} → Reach s → IsQueued s
Reach-IsQueued (start s a b c d e) = record {
  before = λ i j lt dep. absurd (omega (arith, a));
  pending_scheduled = rw (a, b) (omega arith);
  scheduled_counted = rw b (omega arith);
}
Reach-IsQueued (schedule {s = s} cmd ctx depends_on flags dep h) =
    (schedule_deferred_cmd-IsQueued cmd ctx depends_on flags s (Reach-IsQueued h) dep).0
Reach-IsQueued (cancel {s = s} i lt h) = cancel_deferred_cmd-IsQueued i s lt (Reach-IsQueued h)
Reach-IsQueued (cancel_waits {s = s} res h) =
    cancel_deferred_waits-IsQueued res s (Reach-IsQueued h)

-- In every state that scheduling and cancelling lead to, a command depends on an earlier one only,
-- no resource is to be skipped, and scheduled_deferred_cmds is the number of the executed commands
-- and of those that wait.
pub Reach-IsExact : {s : Sched} → Reach s → IsExact s
Reach-IsExact h =
    let q = Reach-IsQueued h in
    let f = Reach-IsFresh h in
    record {
      queued = q;
      no_skip = f.no_skip;
      counted = omega (arith, f.executed, q.pending_scheduled, q.scheduled_counted);
    }

-- From a queue that was built by scheduling and cancelling, where no call in a prerequisite stage
-- returns a negative number (IsNonneg), the run ends; and if it returns 0, it has called every
-- command of the queue that was not cancelled.
pub run_deferred_cmds_runs :
    (call : List ℕ → DeferredCmd → ℤ) (progress : Bool) (s : Sched)
    → IsNonneg call
    → Reach s
    → (r : Sched × ℕ) × (run_deferred_cmds call progress s ≡ some r)
      × (r.1 ≡ 0 → (i : ℕ) → i < s.count → (s.done i || was_called i r.0.calls) ≡ true)
run_deferred_cmds_runs call progress s sign h =
    let x = Reach-IsExact h in
    let calls = (Reach-IsFresh h).calls in
    let (r, e) = run_deferred_cmds_ends call progress s x.queued in
    (
      r,
      e,
      λ ok i lt.
          sym (done_called call progress s r calls e i)
          ∙ run_deferred_cmds_done call progress s r sign x e ok i lt,
    )

-- The calls of any run from such a queue are in order.
pub Reach-InOrder :
    (call : List ℕ → DeferredCmd → ℤ) (progress : Bool) (s : Sched) (r : Sched × ℕ)
    → Reach s
    → run_deferred_cmds call progress s ≡ some r
    → InOrder call s r.0.calls
Reach-InOrder call progress s r h e = run-InOrder call progress s r (Reach-IsFresh h).calls e

finds_none :
    (stage : Stage) (cmd : ℕ → DeferredCmd) (n : ℕ) → find_in_queue (λ d. false) stage cmd n ≡ none
unfolding find_in_queue
finds_none stage cmd zero = refl
finds_none stage cmd (suc n) = rw (finds_none stage cmd n) (ground arith)

-- A call that makes a new command: the state after it.
pub record Appends (d : DeferredCmd) (s : Sched) (r : ℕ × Sched) : Type 0 where
  pub number : r.0 ≡ s.count
  pub count : r.1.count ≡ s.count + 1
  pub here : r.1.cmd s.count ≡ d
  pub before : (k : ℕ) → k < s.count → r.1.cmd k ≡ s.cmd k
  pub fresh : r.1.done s.count ≡ false
  pub done : (k : ℕ) → k < s.count → r.1.done k ≡ s.done k

pub schedule_deferred_cmd-Appends :
    (cmd : AdmCmd) (ctx : CfgCtx) (depends_on : Option ℕ) (s : Sched)
    → Appends
        (record { ctx = record ctx { cmd = cmd }; depends_on = depends_on })
        s
        (schedule_deferred_cmd cmd ctx depends_on always s)
unfolding schedule_deferred_cmd is_same
schedule_deferred_cmd-Appends cmd ctx depends_on s =
    rw (finds_none cmd.stage s.cmd s.count, schedule_deferred_cmd)
      (record {
        number = refl;
        count = refl;
        here = ground arith;
        before = λ k lt. ground arith;
        fresh = ground arith;
        done = λ k lt. ground arith;
      })

-- What a call returns is a command of the queue, which only grows.
pub schedule_deferred_cmd-below :
    (cmd : AdmCmd) (ctx : CfgCtx) (depends_on : Option ℕ) (flags : Flags) (s : Sched)
    → Reach s
    → ((j : ℕ) → depends_on ≡ some j → j < s.count)
    → let r = schedule_deferred_cmd cmd ctx depends_on flags s in
      (r.0 < r.1.count) × (s.count ≤ r.1.count)
unfolding schedule_deferred_cmd
schedule_deferred_cmd-below cmd ctx depends_on flags s h dep =
    let q = schedule_deferred_cmd-IsQueued cmd ctx depends_on flags s (Reach-IsQueued h) dep in
    (
      q.1,
      elim (Option-cases (find_in_queue (is_same flags cmd ctx) cmd.stage s.cmd s.count)) [
        | inl new ↦ rw (new, schedule_deferred_cmd) (omega arith)
        | inr (i, old) ↦ rw (old, schedule_deferred_cmd) (omega arith)
      ],
    )
