-- ===== src/Tests/Adm.antt =====
-- A run of drbdadm: three commands of one resource, one of them cancelled, and the runs that follow.
use drbd_utils.Prelude.{
  ℤ, pos, negsuc, ℕ, ◌<◌, ◌≡◌, refl, true, false, ◌||◌, List, [], ◌∷◌, Option, none, some, ◌==◌,
  if◌then◌else◌, arith,
}
use drbd_utils.Adm.Deferred.{
  Stage, AdmCmd, CfgCtx, DeferredCmd, Sched, always, schedule_once, prereq, disk, disk_prep_up, net,
  schedule_deferred_cmd, cancel_deferred_cmd, run_deferred_cmds,
}
use drbd_utils.Adm.Deferred.Done.{IsExact}
use drbd_utils.Adm.Deferred.Done.{IsNonneg}
use drbd_utils.Adm.Deferred.Order.{was_called, InOrder, run_deferred_cmds-InOrder}
use drbd_utils.Adm.Deferred.Reach.{
  Reach, start, schedule, cancel, Reach-IsExact, run_deferred_cmds_runs,
}

abbrev command : ℕ → Stage → AdmCmd
command ident stage = record { ident = ident; stage = stage }

abbrev context : CfgCtx
context = record {
  cmd = command 0 prereq;
  res = 1;
  res_name = 114 ∷ 48 ∷ [];
  conn = 0;
  vnr = 0;
  path = 0;
}

abbrev empty_queue : Sched
empty_queue = record {
  count = 0;
  cmd = λ i. record { ctx = context; depends_on = none };
  done = λ i. false;
  scheduled = 0;
  executed = 0;
  skip = λ q. false;
  calls = [];
}

-- new-minor; attach, which depends on it; a net-options that is cancelled; new-minor once more.
abbrev with_minor : Sched
with_minor =
    (schedule_deferred_cmd (command 1 disk_prep_up) context none schedule_once empty_queue).1

abbrev with_attach : Sched
with_attach = (schedule_deferred_cmd (command 2 disk) context (some 0) always with_minor).1

abbrev with_options : Sched
with_options = (schedule_deferred_cmd (command 3 net) context none always with_attach).1

abbrev after_cancel : Sched
after_cancel = cancel_deferred_cmd 2 with_options

abbrev queue : Sched
queue = (schedule_deferred_cmd (command 1 disk_prep_up) context none schedule_once after_cancel).1

queue_scheduled : queue.scheduled ≡ 2
unfolding schedule_deferred_cmd cancel_deferred_cmd
queue_scheduled = refl

queue-Reach : Reach queue
unfolding schedule_deferred_cmd cancel_deferred_cmd
queue-Reach =
    schedule (command 1 disk_prep_up) context none schedule_once (λ j e. cc)
      (cancel 2 (omega arith) (
        schedule (command 3 net) context none always (λ j e. cc)
          (schedule (command 2 disk) context (some 0) always (λ j e. ground (arith, e))
            (schedule (command 1 disk_prep_up) context none schedule_once (λ j e. cc)
              (start empty_queue refl refl refl (λ q. refl) refl)))))

Reach-IsExact_example : IsExact queue
Reach-IsExact_example = Reach-IsExact queue-Reach

-- The commands with the number 2 fail.
abbrev call : List ℕ → DeferredCmd → ℤ
call before d = if d.ctx.cmd.ident == 2 then pos 17 else pos 0

call-IsNonneg : IsNonneg call
call-IsNonneg before d pre = ground arith

run_deferred_cmds_runs_example :
    (r : Sched × ℕ) × (run_deferred_cmds call true queue ≡ some r)
    × (r.1 ≡ 0 → (i : ℕ) → i < queue.count → (queue.done i || was_called i r.0.calls) ≡ true)
run_deferred_cmds_runs_example = run_deferred_cmds_runs call true queue call-IsNonneg queue-Reach

-- The child of the command 1, in a prerequisite stage, is killed by a signal.
abbrev killed : List ℕ → DeferredCmd → ℤ
killed before d = if d.ctx.cmd.ident == 1 then negsuc 0 else pos 0

run_deferred_cmds-InOrder_example :
    (r : Sched × ℕ) × (run_deferred_cmds killed false queue ≡ some r)
    × InOrder killed queue r.0.calls
    × ((i : ℕ) → r.0.done i ≡ (queue.done i || was_called i r.0.calls))
unfolding schedule_deferred_cmd cancel_deferred_cmd
run_deferred_cmds-InOrder_example =
    run_deferred_cmds-InOrder killed false queue (Reach-IsExact queue-Reach).queued refl

abbrev calls_of : Option (Sched × ℕ) → List ℕ × ℕ
calls_of none = ([], 0)
calls_of (some r) = (r.0.calls, r.1)

-- The device is made before it is attached, and the error ends the run.
run_queue : calls_of (run_deferred_cmds call false queue) ≡ (1 ∷ 0 ∷ [], 1)
unfolding schedule_deferred_cmd cancel_deferred_cmd run_deferred_cmds
run_queue = refl

-- Where the child was killed, the run returns 0, and has not attached the device.
run_killed : calls_of (run_deferred_cmds killed false queue) ≡ (0 ∷ [], 0)
unfolding schedule_deferred_cmd cancel_deferred_cmd run_deferred_cmds
run_killed = refl
