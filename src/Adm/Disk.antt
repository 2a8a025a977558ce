-- ===== src/Adm/Disk.antt =====
-- user/v9/drbdadm_adjust.c: the commands that bring the disks from the running to the configured
-- state.
pub mod Reach
pub mod Swap
use drbd_utils.Prelude.{
  ℕ, Text, eq_text, Bool, true, false, ◌&&◌, ◌||◌, List, [], ◌∷◌, Option, none, some, ◌==◌,
  if◌then◌else◌, Result, ok, stop, abort,
}
use drbd_utils.Adm.Options.{DOption, find_opt}
use drbd_utils.Adm.Volumes.{Volume, matching_volume}
use drbd_utils.Adm.Deferred.{
  AdmCmd, CfgCtx, Sched, Flags, always, sched_once_p_resource, schedule_deferred_cmd,
}
use drbd_utils.Adm.Commands.{
  attach_cmd, detach_cmd, del_minor_cmd, disk_options_defaults_cmd, disk_options_early_defaults_cmd,
  resize_cmd, output_res_name_cmd, sh_list_adjustable,
}

abbrev pub bitmap_word : Text
bitmap_word = 98 ∷ 105 ∷ 116 ∷ 109 ∷ 97 ∷ 112 ∷ []

abbrev pub no_word : Text
no_word = 110 ∷ 111 ∷ []

abbrev pub yes_word : Text
yes_word = 121 ∷ 101 ∷ 115 ∷ []

-- `opt->value && !strcmp(opt->value, word)`
abbrev pub has_value : Text → Option Text → Bool
has_value word none = false
has_value word (some value) = eq_text value word

unfoldable pub bitmap_will_be_enabled : Volume → Volume → Bool
unfolding find_opt
bitmap_will_be_enabled conf kern =
    elim (find_opt kern.disk_options bitmap_word) [
      | none ↦ false
      | some o ↦ has_value no_word o.value
    ]
    && elim (find_opt conf.disk_options bitmap_word) [
      | none ↦ true
      | some o ↦ has_value yes_word o.value
    ]

unfoldable pub adj_schedule_deferred_cmd : AdmCmd → CfgCtx → Option ℕ → Flags → Sched → ℕ × Sched
unfolding schedule_deferred_cmd
adj_schedule_deferred_cmd cmd ctx depends_on flags s =
    if ctx.cmd.ident == sh_list_adjustable.ident
    then schedule_deferred_cmd output_res_name_cmd ctx depends_on sched_once_p_resource s
    else schedule_deferred_cmd cmd ctx depends_on flags s

-- A command if the flag is set; `depends_on` stays as it was.
unfoldable pub schedule_if : Bool → AdmCmd → CfgCtx → Option ℕ → Sched → Sched
unfolding adj_schedule_deferred_cmd
schedule_if flag cmd ctx depends_on s =
    if flag then (adj_schedule_deferred_cmd cmd ctx depends_on always s).1 else s

-- A command if the flag is set, on which what follows depends.
unfoldable pub schedule_next : Bool → AdmCmd → CfgCtx → Option ℕ × Sched → Option ℕ × Sched
unfolding adj_schedule_deferred_cmd
schedule_next flag cmd ctx (depends_on, s) =
    let t = adj_schedule_deferred_cmd cmd ctx depends_on always s in
    if flag then (some t.0, t.1) else (depends_on, s)

-- The commands of one volume; `running` are the volumes of the running resource.
unfoldable pub adjust_volume : CfgCtx → List Volume → Volume → Option ℕ × Sched → Option ℕ × Sched
unfolding schedule_if schedule_next bitmap_will_be_enabled matching_volume
adjust_volume ctx running vol (depends_on, s) =
    let tmp : CfgCtx = record ctx { conn = 0; vnr = vol.vnr; path = 0 } in
    let early : Bool = elim (matching_volume vol.vnr running) [
      | none ↦ false
      | some k ↦ bitmap_will_be_enabled vol k
    ] in
    let a = schedule_next vol.adj_detach detach_cmd tmp (depends_on, s) in
    let b = schedule_next vol.adj_del_minor del_minor_cmd tmp a in
    let c = schedule_if vol.adj_attach attach_cmd tmp b.0 b.1 in
    let d =
      schedule_if vol.adj_disk_opts
        (if early then disk_options_early_defaults_cmd else disk_options_defaults_cmd) tmp b.0 c in
    (b.0, schedule_if vol.adj_resize resize_cmd tmp b.0 d)

-- Whether the volume is one of those to be adjusted: all, or the one of the context.
abbrev pub is_wanted : Option ℕ → ℕ → Bool
is_wanted none vnr = true
is_wanted (some only) vnr = vnr == only

unfoldable pub adjust_disk :
    CfgCtx → Option ℕ → List Volume → List Volume → Option ℕ × Sched → Option ℕ × Sched
unfolding adjust_volume
adjust_disk ctx only running [] r = r
adjust_disk ctx only running (vol ∷ rest) r =
    adjust_disk ctx only running rest
      (if is_wanted only vol.vnr then adjust_volume ctx running vol r else r)
