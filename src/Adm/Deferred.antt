-- ===== src/Adm/Deferred.antt =====
-- user/v9/drbdadm_main.c: the commands that drbdadm schedules and runs later, stage by stage. A
-- pointer to a command is its number in the order of scheduling, so the queue of a stage is the
-- commands of that stage by rising number. Other pointers are numbers too, and 0 is NULL.
pub mod Queue
pub mod Run
pub mod Rounds
pub mod Done
pub mod Order
pub mod Reach
pub mod Waits
use drbd_utils.Prelude.{
  Text, eq_text, ℕ, zero, suc, ◌+◌, ◌-◌, Bool, true, false, not, ◌&&◌, ◌||◌, List, [], ◌∷◌, Option,
  none, some, ℤ, pos, pos_part, eq_ℤ, ltb, ◌==◌, if◌then◌else◌,
}

-- enum drbd_cfg_stage
pub data Stage : Type 0 where
  prereq resource disk_prep_down disk_prep_up net_disconnect net_prep_down net_prep_up net_path
        net :
      Stage
  peer_device disk net_connect wait_connect : Stage

abbrev pub number : Stage → ℕ
number prereq = 0
number resource = 1
number disk_prep_down = 2
number disk_prep_up = 3
number net_disconnect = 4
number net_prep_down = 5
number net_prep_up = 6
number net_path = 7
number net = 8
number peer_device = 9
number disk = 10
number net_connect = 11
number wait_connect = 12

abbrev pub all_stages : List Stage
all_stages =
    prereq ∷ resource ∷ disk_prep_down ∷ disk_prep_up ∷ net_disconnect ∷ net_prep_down ∷ net_prep_up
    ∷ net_path ∷ net ∷ peer_device ∷ disk ∷ net_connect ∷ wait_connect ∷ []

-- struct adm_cmd: which command it is, and its stage.
pub record AdmCmd : Type 0 where
  pub ident : ℕ
  pub stage : Stage

-- struct cfg_ctx; `res_name` is ctx->res->name, and `vnr` is ctx->vol->vnr.
pub record CfgCtx : Type 0 where
  pub cmd : AdmCmd
  pub res : ℕ
  pub res_name : Text
  pub conn : ℕ
  pub vnr : ℕ
  pub path : ℕ

-- struct deferred_cmd without `done`
pub record DeferredCmd : Type 0 where
  pub ctx : CfgCtx
  pub depends_on : Option ℕ

-- The global variables: the commands below `count` with their `done`, the two counters, and the
-- resources with skip_further_deferred_command. `calls` are the commands that were called, the last
-- one first.
pub record Sched : Type 0 where
  pub count : ℕ
  pub cmd : ℕ → DeferredCmd
  pub done : ℕ → Bool
  pub scheduled : ℕ
  pub executed : ℕ
  pub skip : ℕ → Bool
  pub calls : List ℕ

pub data Flags : Type 0 where
  always schedule_once sched_once_p_resource : Flags

-- The command of the loop over the queue that is taken instead of a new one.
unfoldable pub is_same : Flags → AdmCmd → CfgCtx → DeferredCmd → Bool
is_same always cmd ctx d = false
is_same schedule_once cmd ctx d =
    d.ctx.cmd.ident == cmd.ident
    && (d.ctx.res == ctx.res || eq_text d.ctx.res_name ctx.res_name)
    && d.ctx.conn == ctx.conn
    && d.ctx.vnr == ctx.vnr
is_same sched_once_p_resource cmd ctx d =
    d.ctx.cmd.ident == cmd.ident && (d.ctx.res == ctx.res || eq_text d.ctx.res_name ctx.res_name)

-- The first of the commands below `n` in the queue of `stage` that passes the test.
unfoldable pub find_in_queue : (DeferredCmd → Bool) → Stage → (ℕ → DeferredCmd) → ℕ → Option ℕ
find_in_queue test stage cmd zero = none
find_in_queue test stage cmd (suc n) = elim (find_in_queue test stage cmd n) [
  | some i ↦ some i
  | none ↦ if number (cmd n).ctx.cmd.stage == number stage && test (cmd n) then some n else none
]

-- The command that the call returns, and the state after it.
unfoldable pub schedule_deferred_cmd : AdmCmd → CfgCtx → Option ℕ → Flags → Sched → ℕ × Sched
unfolding is_same find_in_queue
schedule_deferred_cmd cmd ctx depends_on flags s =
    let d : DeferredCmd = record { ctx = record ctx { cmd = cmd }; depends_on = depends_on } in
    elim (find_in_queue (is_same flags cmd ctx) cmd.stage s.cmd s.count) [
      | some i ↦ (i, s)
      | none ↦ (
        s.count,
        record s {
          count = s.count + 1;
          cmd = λ i. if i == s.count then d else s.cmd i;
          done = λ i. if i == s.count then false else s.done i;
          scheduled = s.scheduled + 1;
        },
      )
    ]

unfoldable pub cancel_deferred_cmd : ℕ → Sched → Sched
cancel_deferred_cmd i s =
    if s.done i
    then s
    else record s { done = λ k. if k == i then true else s.done k; scheduled = s.scheduled - 1 }

-- The loop over the queue of the stage CFG_WAIT_CONNECT, up to command `n`.
unfoldable pub cancel_waits_below : ℕ → ℕ → Sched → Sched
unfolding cancel_deferred_cmd
cancel_waits_below res zero s = s
cancel_waits_below res (suc n) s =
    let t = cancel_waits_below res n s in
    if number (t.cmd n).ctx.cmd.stage == number wait_connect && (t.cmd n).ctx.res == res
    then cancel_deferred_cmd n t
    else t

unfoldable pub cancel_deferred_waits : ℕ → Sched → Sched
unfolding cancel_waits_below
cancel_deferred_waits res s = cancel_waits_below res s.count s

unfoldable pub has_unmet_dependency : Sched → ℕ → Bool
has_unmet_dependency s i = elim (s.cmd i).depends_on [ none ↦ false | some j ↦ not (s.done j) ]

-- The stages whose failure ends the work on a resource.
abbrev pub is_prerequisite : Stage → Bool
is_prerequisite prereq = true
is_prerequisite disk_prep_down = true
is_prerequisite disk_prep_up = true
is_prerequisite net_prep_down = true
is_prerequisite net_prep_up = true
is_prerequisite _ = false

-- What __call_cmd_fn() returns for a command, after the calls that were made: an int, which is
-- negative where m__system() finds that its child was killed by a signal.
module _ (call : List ℕ → DeferredCmd → ℤ) where
  -- The part of the body behind the test for an earlier error.
  unfoldable pub call_deferred : Stage → ℕ → Sched → Sched × ℤ
  call_deferred stage i s =
      let r = call s.calls (s.cmd i) in
      let failed = not (eq_ℤ r (pos 0)) && is_prerequisite stage in
      let res = (s.cmd i).ctx.res in
      (
        record s {
          done = λ k. if k == i then true else s.done k;
          skip = λ q. if q == res then failed || s.skip q else s.skip q;
          executed = s.executed + 1;
          calls = i ∷ s.calls;
        },
        r,
      )

  -- One command of the queue; the second number is `rv`, which starts at 0 and only rises: a
  -- negative `r` leaves it as it is.
  unfoldable pub visit : Stage → ℕ → Sched × ℕ → Sched × ℕ
  unfolding has_unmet_dependency call_deferred
  visit stage i (s, rv) =
      let (t, r) = call_deferred stage i s in
      if not (number (s.cmd i).ctx.cmd.stage == number stage)
        || has_unmet_dependency s i
        || s.done i
      then (s, rv)
      else if s.skip (s.cmd i).ctx.res
      then (record s { executed = s.executed + 1 }, rv)
      else (t, if ltb rv (pos_part r) then pos_part r else rv)

  -- The walk through the queue of a stage, up to command `n`.
  unfoldable pub walk : Stage → ℕ → Sched → Sched × ℕ
  unfolding visit
  walk stage zero s = (s, 0)
  walk stage (suc n) s = visit stage n (walk stage n s)

  unfoldable pub run_stage : Stage → Sched → Sched × ℕ
  unfolding walk
  run_stage stage s = walk stage s.count s

  -- One round of the loop of run_deferred_cmds(): `ret`, and whether the function returned.
  unfoldable pub sweep : Bool → List Stage → Sched → ℕ → Sched × ℕ × Bool
  unfolding run_stage
  sweep progress [] s ret = (s, ret, false)
  sweep progress (stage ∷ rest) s ret =
      let t = run_stage stage s in
      let more = sweep progress rest t.0 (if t.1 == 0 then ret else 1) in
      if not (t.1 == 0) && not progress then (t.0, 1, true) else more

  -- The loop with fuel; `none` means that it ran out.
  unfoldable pub run_sweeps : Bool → ℕ → Sched → ℕ → Option (Sched × ℕ)
  unfolding sweep
  run_sweeps progress zero s ret = none
  run_sweeps progress (suc fuel) s ret =
      let t = sweep progress all_stages s ret in
      let more = run_sweeps progress fuel t.0 t.1 in
      if t.2 || not (ltb t.0.executed t.0.scheduled) then some (t.0, t.1) else more

  -- The fuel is enough: every round adds one to `executed`.
  unfoldable pub run_deferred_cmds : Bool → Sched → Option (Sched × ℕ)
  unfolding run_sweeps
  run_deferred_cmds progress s = run_sweeps progress (s.scheduled + 1) s 0
