-- ===== src/Adm/Disk/Swap.antt =====
-- adjust_disk() of user/v9/drbdadm_adjust.c for a volume whose disk is replaced, and the run of its
-- commands by run_deferred_cmds() of user/v9/drbdadm_main.c.
pub mod Run
use drbd_utils.Prelude.{
  ℕ, ℤ, ◌+◌, ◌≤◌, ◌<◌, ◌≡◌, refl, ap, ◌∙◌, ◌⊎◌, inl, inr, Bool, true, false, not, ◌&&◌, ◌||◌, List,
  [], ◌∷◌, Option, none, some, Option-cases, ◌==◌, ==_iff, Bool-cases, if◌then◌else◌, arith,
}
use mathlib.Core.Path.{subst}
use drbd_utils.Adm.Volumes.{Volume, matching_volume}
use drbd_utils.Adm.Deferred.{
  AdmCmd, CfgCtx, DeferredCmd, Sched, always, schedule_deferred_cmd, run_deferred_cmds,
}
use drbd_utils.Adm.Deferred.Order.{was_called, all_met, InOrder}
use drbd_utils.Adm.Deferred.Rounds.{run_deferred_cmds_ends}
use drbd_utils.Adm.Deferred.Reach.{
  Appends, schedule_deferred_cmd-Appends, Reach-IsExact, Reach-InOrder,
}
use drbd_utils.Adm.Commands.{
  attach_cmd, detach_cmd, del_minor_cmd, disk_options_defaults_cmd, disk_options_early_defaults_cmd,
  resize_cmd, sh_list_adjustable,
}
use drbd_utils.Adm.Disk.{
  adj_schedule_deferred_cmd, schedule_if, schedule_next, bitmap_will_be_enabled, adjust_volume,
  is_wanted, adjust_disk,
}
use drbd_utils.Adm.Disk.Reach.{IsReady, adjust_disk-IsReady}

-- The queue has only grown.
pub record Extends (s t : Sched) : Type 0 where
  grows : s.count ≤ t.count
  before : (k : ℕ) → k < s.count → t.cmd k ≡ s.cmd k
  done : (k : ℕ) → k < s.count → t.done k ≡ s.done k

pub Extends-self : (s : Sched) → Extends s s
Extends-self s = record { grows = omega arith; before = λ k lt. refl; done = λ k lt. refl }

pub Extends-trans : (s t u : Sched) → Extends s t → Extends t u → Extends s u
Extends-trans s t u a b = record {
  grows = omega (arith, a.grows, b.grows);
  before = λ k lt. b.before k (omega (arith, a.grows)) ∙ a.before k lt;
  done = λ k lt. b.done k (omega (arith, a.grows)) ∙ a.done k lt;
}

-- Command `i` of the queue is `cmd` in the context `ctx`, depends on `depends_on`, and is to be
-- executed.
pub record Holds (s : Sched) (i : ℕ) (cmd : AdmCmd) (ctx : CfgCtx) (depends_on : Option ℕ)
    : Type 0 where
  pub below : i < s.count
  pub is : s.cmd i ≡ record { ctx = record ctx { cmd = cmd }; depends_on = depends_on }
  pub waits : s.done i ≡ false

Holds-later :
    (s t : Sched) (i : ℕ) (cmd : AdmCmd) (ctx : CfgCtx) (depends_on : Option ℕ)
    → Extends s t
    → Holds s i cmd ctx depends_on
    → Holds t i cmd ctx depends_on
Holds-later s t i cmd ctx depends_on e h = record {
  below = omega (arith, e.grows, h.below);
  is = e.before i h.below ∙ h.is;
  waits = e.done i h.below ∙ h.waits;
}

module _ (ctx : CfgCtx) (runs : (ctx.cmd.ident == sh_list_adjustable.ident) ≡ false) where
  adj_schedule_lem :
      (cmd : AdmCmd) (vnr : ℕ) (depends_on : Option ℕ) (s : Sched)
      → let tmp : CfgCtx = record ctx { conn = 0; vnr = vnr; path = 0 } in
        let r = adj_schedule_deferred_cmd cmd tmp depends_on always s in
        Extends s r.1 × Holds r.1 r.0 cmd tmp depends_on
  unfolding adj_schedule_deferred_cmd
  adj_schedule_lem cmd vnr depends_on s =
      let tmp : CfgCtx = record ctx { conn = 0; vnr = vnr; path = 0 } in
      let a = schedule_deferred_cmd-Appends cmd tmp depends_on s in
      rw runs (
        record { grows = omega (arith, a.count); before = a.before; done = a.done },
        rw (a.number) (record { below = omega (arith, a.count); is = a.here; waits = a.fresh }),
      )

  if-Extends :
      (flag : Bool) (cmd : AdmCmd) (vnr : ℕ) (depends_on : Option ℕ) (s : Sched)
      → Extends s (schedule_if flag cmd (record ctx { conn = 0; vnr = vnr; path = 0 }) depends_on s)
  unfolding schedule_if
  if-Extends false cmd vnr depends_on s = Extends-self s
  if-Extends true cmd vnr depends_on s = (adj_schedule_lem cmd vnr depends_on s).0

  next-Extends :
      (flag : Bool) (cmd : AdmCmd) (vnr : ℕ) (r : Option ℕ × Sched)
      → Extends r.1 (schedule_next flag cmd (record ctx { conn = 0; vnr = vnr; path = 0 }) r).1
  unfolding schedule_next
  next-Extends false cmd vnr (depends_on, s) = Extends-self s
  next-Extends true cmd vnr (depends_on, s) = (adj_schedule_lem cmd vnr depends_on s).0

  -- What `vol` has between the detach and the attach: the deletion of its minor, or nothing.
  abbrev pub Links : Bool → CfgCtx → Sched → ℕ → ℕ → Type 0
  Links true tmp t last detach = Holds t last del_minor_cmd tmp (some detach)
  Links false tmp t last detach = last ≡ detach

  -- A detach, the deletion of the minor where there is one, and an attach, each of which depends on
  -- the one before.
  pub record Swaps (deletes : Bool) (tmp : CfgCtx) (t : Sched) : Type 0 where
    pub detach : ℕ
    pub last : ℕ
    pub attach : ℕ
    pub depends_on : Option ℕ
    pub detaches : Holds t detach detach_cmd tmp depends_on
    pub links : Links deletes tmp t last detach
    pub attaches : Holds t attach attach_cmd tmp (some last)

  Links-later :
      (deletes : Bool) (tmp : CfgCtx) (s t : Sched) (last detach : ℕ)
      → Extends s t
      → Links deletes tmp s last detach
      → Links deletes tmp t last detach
  Links-later true tmp s t last detach e l =
      Holds-later s t last del_minor_cmd tmp (some detach) e l
  Links-later false tmp s t last detach e l = l

  pub Swaps-later :
      (deletes : Bool) (tmp : CfgCtx) (s t : Sched)
      → Extends s t
      → Swaps deletes tmp s
      → Swaps deletes tmp t
  Swaps-later deletes tmp s t e w = record {
    detach = w.detach;
    last = w.last;
    attach = w.attach;
    depends_on = w.depends_on;
    detaches = Holds-later s t w.detach detach_cmd tmp w.depends_on e w.detaches;
    links = Links-later deletes tmp s t w.last w.detach e w.links;
    attaches = Holds-later s t w.attach attach_cmd tmp (some w.last) e w.attaches;
  }

  steps-Swaps :
      (deletes : Bool) (vnr : ℕ) (depends_on : Option ℕ) (s : Sched)
      → let tmp : CfgCtx = record ctx { conn = 0; vnr = vnr; path = 0 } in
        let b =
          schedule_next deletes del_minor_cmd tmp
            (schedule_next true detach_cmd tmp (depends_on, s)) in
        Swaps deletes tmp (schedule_if true attach_cmd tmp b.0 b.1)
  unfolding schedule_next schedule_if
  steps-Swaps false vnr depends_on s =
      let tmp : CfgCtx = record ctx { conn = 0; vnr = vnr; path = 0 } in
      let d = adj_schedule_deferred_cmd detach_cmd tmp depends_on always s in
      let t = adj_schedule_deferred_cmd attach_cmd tmp (some d.0) always d.1 in
      let (ed, hd) = adj_schedule_lem detach_cmd vnr depends_on s in
      let (et, ht) = adj_schedule_lem attach_cmd vnr (some d.0) d.1 in
      record {
        detach = d.0;
        last = d.0;
        attach = t.0;
        depends_on = depends_on;
        detaches = Holds-later d.1 t.1 d.0 detach_cmd tmp depends_on et hd;
        links = refl;
        attaches = ht;
      }
  steps-Swaps true vnr depends_on s =
      let tmp : CfgCtx = record ctx { conn = 0; vnr = vnr; path = 0 } in
      let d = adj_schedule_deferred_cmd detach_cmd tmp depends_on always s in
      let m = adj_schedule_deferred_cmd del_minor_cmd tmp (some d.0) always d.1 in
      let t = adj_schedule_deferred_cmd attach_cmd tmp (some m.0) always m.1 in
      let (ed, hd) = adj_schedule_lem detach_cmd vnr depends_on s in
      let (em, hm) = adj_schedule_lem del_minor_cmd vnr (some d.0) d.1 in
      let (et, ht) = adj_schedule_lem attach_cmd vnr (some m.0) m.1 in
      record {
        detach = d.0;
        last = m.0;
        attach = t.0;
        depends_on = depends_on;
        detaches =
            Holds-later d.1 t.1 d.0 detach_cmd tmp depends_on (Extends-trans d.1 m.1 t.1 em et) hd;
        links = Holds-later m.1 t.1 m.0 del_minor_cmd tmp (some d.0) et hm;
        attaches = ht;
      }

  pub volume-Extends :
      (running : List Volume) (vol : Volume) (r : Option ℕ × Sched)
      → let tmp : CfgCtx = record ctx { conn = 0; vnr = vol.vnr; path = 0 } in
        let b =
          schedule_next vol.adj_del_minor del_minor_cmd tmp
            (schedule_next vol.adj_detach detach_cmd tmp r) in
        let c = schedule_if vol.adj_attach attach_cmd tmp b.0 b.1 in
        let t = (adjust_volume ctx running vol r).1 in Extends r.1 t × Extends c t
  unfolding adjust_volume
  volume-Extends running vol (depends_on, s) =
      let tmp : CfgCtx = record ctx { conn = 0; vnr = vol.vnr; path = 0 } in
      let early : Bool = elim (matching_volume vol.vnr running) [
        | none ↦ false
        | some k ↦ bitmap_will_be_enabled vol k
      ] in
      let options = if early then disk_options_early_defaults_cmd else disk_options_defaults_cmd in
      let a = schedule_next vol.adj_detach detach_cmd tmp (depends_on, s) in
      let b = schedule_next vol.adj_del_minor del_minor_cmd tmp a in
      let c = schedule_if vol.adj_attach attach_cmd tmp b.0 b.1 in
      let d = schedule_if vol.adj_disk_opts options tmp b.0 c in
      let e = schedule_if vol.adj_resize resize_cmd tmp b.0 d in
      let ab =
        Extends-trans s a.1 b.1 (next-Extends vol.adj_detach detach_cmd vol.vnr (depends_on, s))
          (next-Extends vol.adj_del_minor del_minor_cmd vol.vnr a) in
      let bc = if-Extends vol.adj_attach attach_cmd vol.vnr b.0 b.1 in
      let ce =
        Extends-trans c d e (if-Extends vol.adj_disk_opts options vol.vnr b.0 c)
          (if-Extends vol.adj_resize resize_cmd vol.vnr b.0 d) in
      (Extends-trans s c e (Extends-trans s b.1 c ab bc) ce, ce)

  pub volume-Swaps :
      (running : List Volume) (vol : Volume) (r : Option ℕ × Sched)
      → vol.adj_detach ≡ true
      → vol.adj_attach ≡ true
      → Swaps vol.adj_del_minor
          (record ctx { conn = 0; vnr = vol.vnr; path = 0 })
          (adjust_volume ctx running vol r).1
  volume-Swaps running vol (depends_on, s) detaches attaches =
      let tmp : CfgCtx = record ctx { conn = 0; vnr = vol.vnr; path = 0 } in
      let b =
        schedule_next vol.adj_del_minor del_minor_cmd tmp
          (schedule_next vol.adj_detach detach_cmd tmp (depends_on, s)) in
      Swaps-later vol.adj_del_minor tmp (schedule_if vol.adj_attach attach_cmd tmp b.0 b.1)
        (adjust_volume ctx running vol (depends_on, s)).1
        (volume-Extends running vol (depends_on, s)).1
        (rw (detaches, attaches) (steps-Swaps vol.adj_del_minor vol.vnr depends_on s))
