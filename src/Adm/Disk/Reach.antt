-- ===== src/Adm/Disk/Reach.antt =====
-- adjust_disk() of user/v9/drbdadm_adjust.c: its commands depend on earlier ones.
use drbd_utils.Prelude.{
  ℕ, ◌≤◌, ◌<◌, ◌≡◌, Bool, true, false, List, [], ◌∷◌, Option, none, some, some_inj, ◌==◌,
  Bool-cases, inl, inr, if◌then◌else◌, arith,
}
use mathlib.Core.Path.{subst}
use drbd_utils.Adm.Volumes.{Volume, matching_volume}
use drbd_utils.Adm.Deferred.{AdmCmd, CfgCtx, Sched, Flags, always, sched_once_p_resource}
use drbd_utils.Adm.Deferred.Reach.{Reach, schedule, schedule_deferred_cmd-below}
use drbd_utils.Adm.Commands.{
  attach_cmd, detach_cmd, del_minor_cmd, disk_options_defaults_cmd, disk_options_early_defaults_cmd,
  resize_cmd, output_res_name_cmd, sh_list_adjustable,
}
use drbd_utils.Adm.Disk.{
  adj_schedule_deferred_cmd, schedule_if, schedule_next, bitmap_will_be_enabled, adjust_volume,
  is_wanted, adjust_disk,
}

-- A reachable queue, with the command on which what follows depends.
pub record IsReady (r : Option ℕ × Sched) : Type 0 where
  pub reach : Reach r.1
  pub below : (j : ℕ) → r.0 ≡ some j → j < r.1.count

pub adj_schedule-Reach :
    (cmd : AdmCmd) (ctx : CfgCtx) (depends_on : Option ℕ) (flags : Flags) (s : Sched)
    → IsReady (depends_on, s)
    → let r = adj_schedule_deferred_cmd cmd ctx depends_on flags s in
      Reach r.1 × (r.0 < r.1.count) × (s.count ≤ r.1.count)
unfolding adj_schedule_deferred_cmd
adj_schedule-Reach cmd ctx depends_on flags s h =
    elim (Bool-cases (ctx.cmd.ident == sh_list_adjustable.ident)) [
      | inl e ↦
          let (a, b) =
            schedule_deferred_cmd-below output_res_name_cmd ctx depends_on sched_once_p_resource s
              h.reach h.below in
          rw e (
            schedule output_res_name_cmd ctx depends_on sched_once_p_resource h.below h.reach,
            a,
            b,
          )
      | inr e ↦
          let (a, b) = schedule_deferred_cmd-below cmd ctx depends_on flags s h.reach h.below in
          rw e (schedule cmd ctx depends_on flags h.below h.reach, a, b)
    ]

pub if-IsReady :
    (flag : Bool) (cmd : AdmCmd) (ctx : CfgCtx) (depends_on : Option ℕ) (s : Sched)
    → IsReady (depends_on, s)
    → IsReady (depends_on, schedule_if flag cmd ctx depends_on s)
unfolding schedule_if
if-IsReady false cmd ctx depends_on s h = h
if-IsReady true cmd ctx depends_on s h =
    let (r, lt, le) = adj_schedule-Reach cmd ctx depends_on always s h in
    record { reach = r; below = λ j e. omega (arith, h.below j e) }

pub next-IsReady :
    (flag : Bool) (cmd : AdmCmd) (ctx : CfgCtx) (r : Option ℕ × Sched)
    → IsReady r
    → IsReady (schedule_next flag cmd ctx r)
unfolding schedule_next
next-IsReady false cmd ctx r h = record { reach = h.reach; below = h.below }
next-IsReady true cmd ctx (depends_on, s) h =
    let (r, lt, le) = adj_schedule-Reach cmd ctx depends_on always s h in
    record {
      reach = r;
      below = λ j e.
          subst (λ n. n < (adj_schedule_deferred_cmd cmd ctx depends_on always s).1.count)
            (some_inj e) lt;
    }

adjust_volume-IsReady :
    (ctx : CfgCtx) (running : List Volume) (vol : Volume) (r : Option ℕ × Sched)
    → IsReady r
    → IsReady (adjust_volume ctx running vol r)
unfolding adjust_volume
adjust_volume-IsReady ctx running vol (depends_on, s) h =
    let tmp : CfgCtx = record ctx { conn = 0; vnr = vol.vnr; path = 0 } in
    let early : Bool = elim (matching_volume vol.vnr running) [
      | none ↦ false
      | some k ↦ bitmap_will_be_enabled vol k
    ] in
    let a = schedule_next vol.adj_detach detach_cmd tmp (depends_on, s) in
    let b = schedule_next vol.adj_del_minor del_minor_cmd tmp a in
    let hb =
      next-IsReady vol.adj_del_minor del_minor_cmd tmp a
        (next-IsReady vol.adj_detach detach_cmd tmp (depends_on, s) h) in
    let options = if early then disk_options_early_defaults_cmd else disk_options_defaults_cmd in
    let c = schedule_if vol.adj_attach attach_cmd tmp b.0 b.1 in
    let d = schedule_if vol.adj_disk_opts options tmp b.0 c in
    if-IsReady vol.adj_resize resize_cmd tmp b.0 d (
      if-IsReady vol.adj_disk_opts options tmp b.0 c
        (if-IsReady vol.adj_attach attach_cmd tmp b.0 b.1 hb))

-- From a queue that scheduling and cancelling lead to, and a command of it (or none) to depend on,
-- adjust_disk(), also under sh-list-adjustable, leads to such a queue and such a command.
pub adjust_disk-IsReady :
    (ctx : CfgCtx) (only : Option ℕ) (running vols : List Volume) (r : Option ℕ × Sched)
    → IsReady r
    → IsReady (adjust_disk ctx only running vols r)
unfolding adjust_disk
adjust_disk-IsReady ctx only running [] r h = h
adjust_disk-IsReady ctx only running (vol ∷ rest) r h = elim (Bool-cases (is_wanted only vol.vnr)) [
  | inl e ↦ rw e (
      adjust_disk-IsReady ctx only running rest (adjust_volume ctx running vol r)
        (adjust_volume-IsReady ctx running vol r h))
  | inr e ↦ rw e (adjust_disk-IsReady ctx only running rest r h)
]
