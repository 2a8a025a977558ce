-- ===== src/Adm/Adjust/Steps.antt =====
-- The steps of adjust_drbd() of user/v9/drbdadm_adjust.c: what they schedule.
use drbd_utils.Prelude.{
  ℕ, Bool, true, false, not, ◌&&◌, refl, List, [], ◌∷◌, Option, none, some, Bool-cases, inl, inr,
  if◌then◌else◌, ok, ◌>>=◌, Ends, >>=-Ends, if_Ends,
}
use drbd_utils.Adm.Options.{DOption, FieldDef, opts_equal}
use drbd_utils.Adm.Options.Known.{AllFields, opts_equal-Ends}
use drbd_utils.Adm.Volumes.{Volume, matching_volume}
use drbd_utils.Adm.Deferred.{CfgCtx, Sched}
use drbd_utils.Adm.Commands.{
  new_resource_cmd, new_minor_cmd, res_options_defaults_cmd, attach_cmd, detach_cmd, del_minor_cmd,
  disk_options_defaults_cmd, disk_options_early_defaults_cmd, resize_cmd, Connection,
}
use drbd_utils.Adm.Disk.{
  schedule_if, schedule_next, bitmap_will_be_enabled, is_wanted, adjust_volume, adjust_disk,
}
use drbd_utils.Adm.Disk.Reach.{IsReady}
use drbd_utils.Adm.Net.Reach.{
  Grows-trans, Follows, Follows-trans, Follows-self, Follows-Grows, IsReady-Grows,
  schedule_if-Grows, schedule_next-Follows,
}
use drbd_utils.Adm.Net.Connections.{options_of_volume, schedule_peer_device_options}
use drbd_utils.Adm.Net.Adjusted.{options_of_volume-Follows}
use drbd_utils.Adm.Adjust.{adjust_minors, adjust_resource}

adjust_volume-Follows :
    (ctx : CfgCtx) (running : List Volume) (vol : Volume) (r : Option ℕ × Sched)
    → IsReady r
    → Follows r (adjust_volume ctx running vol r)
unfolding adjust_volume
adjust_volume-Follows ctx running vol (depends_on, s) h =
    let tmp : CfgCtx = record ctx { conn = 0; vnr = vol.vnr; path = 0 } in
    let early : Bool = elim (matching_volume vol.vnr running) [
      | none ↦ false
      | some k ↦ bitmap_will_be_enabled vol k
    ] in
    let options = if early then disk_options_early_defaults_cmd else disk_options_defaults_cmd in
    let a = schedule_next vol.adj_detach detach_cmd tmp (depends_on, s) in
    let b = schedule_next vol.adj_del_minor del_minor_cmd tmp a in
    let c = schedule_if vol.adj_attach attach_cmd tmp b.0 b.1 in
    let d = schedule_if vol.adj_disk_opts options tmp b.0 c in
    let e = schedule_if vol.adj_resize resize_cmd tmp b.0 d in
    let fa = schedule_next-Follows vol.adj_detach detach_cmd tmp (depends_on, s) h in
    let fb =
      Follows-trans fa (schedule_next-Follows vol.adj_del_minor del_minor_cmd tmp a fa.ready) in
    let gc = schedule_if-Grows vol.adj_attach attach_cmd tmp b.0 b.1 fb.ready in
    let rc = IsReady-Grows b.0 b.1 c fb.ready gc in
    let gd = schedule_if-Grows vol.adj_disk_opts options tmp b.0 c rc in
    let ge = schedule_if-Grows vol.adj_resize resize_cmd tmp b.0 d (IsReady-Grows b.0 c d rc gd) in
    Follows-trans fb (Follows-Grows b e fb.ready (Grows-trans gc (Grows-trans gd ge)))

pub adjust_disk-Follows :
    (ctx : CfgCtx) (only : Option ℕ) (running vols : List Volume) (r : Option ℕ × Sched)
    → IsReady r
    → Follows r (adjust_disk ctx only running vols r)
unfolding adjust_disk
adjust_disk-Follows ctx only running [] r h = Follows-self r h
adjust_disk-Follows ctx only running (vol ∷ rest) r h = elim (Bool-cases (is_wanted only vol.vnr)) [
  | inl e ↦
      let f = adjust_volume-Follows ctx running vol r h in
      rw (e, adjust_disk)
        (Follows-trans f
          (adjust_disk-Follows ctx only running rest (adjust_volume ctx running vol r) f.ready))
  | inr e ↦ rw (e, adjust_disk) (adjust_disk-Follows ctx only running rest r h)
]

pub adjust_resource-Ends :
    (fields : List FieldDef) (ctx : CfgCtx) (conf : List DOption) (running : Option (List DOption))
    (s : Sched)
    → AllFields fields conf
    → AllFields fields (elim running [ none ↦ [] | some o ↦ o ])
    → IsReady (none, s)
    → Ends
        (λ (o : List DOption × (Option ℕ × Sched)). AllFields fields o.0 × IsReady o.1)
        (adjust_resource fields ctx conf running s)
unfolding adjust_resource
adjust_resource-Ends fields ctx conf none s hc hr h = (
  (conf, schedule_next true new_resource_cmd ctx (none, s)),
  refl,
  (hc, (schedule_next-Follows true new_resource_cmd ctx (none, s) h).ready),
)
adjust_resource-Ends fields ctx conf (some running) s hc hr h =
    >>=-Ends (opts_equal fields conf running)
      (λ equal. ok (equal.1, schedule_next (not equal.0) res_options_defaults_cmd ctx (none, s)))
      (opts_equal-Ends fields conf running hc hr)
      (λ equal kept. (
        (equal.1, schedule_next (not equal.0) res_options_defaults_cmd ctx (none, s)),
        refl,
        (
          kept,
          (schedule_next-Follows (not equal.0) res_options_defaults_cmd ctx (none, s) h).ready,
        ),
      ))

pub adjust_minors-Ends :
    (ctx : CfgCtx) (both : Bool) (only : Option ℕ) (connections : List Connection)
    (volumes : List Volume) (r : Option ℕ × Sched)
    → IsReady r
    → Ends IsReady (adjust_minors ctx both only connections volumes r)
unfolding adjust_minors
adjust_minors-Ends ctx both only connections [] r h = (r, refl, h)
adjust_minors-Ends ctx both only connections (vol ∷ volumes) r h =
    let tmp : CfgCtx = record ctx { conn = 0; vnr = vol.vnr; path = 0 } in
    let t = schedule_next true new_minor_cmd tmp r in
    let f = schedule_next-Follows true new_minor_cmd tmp r h in
    let o = options_of_volume-Follows tmp vol.vnr connections t f.ready in
    let u : Option ℕ × Sched = (t.0, (options_of_volume tmp vol.vnr connections t).1) in
    let new =
      if both
      then schedule_peer_device_options tmp (some vol) none [] connections t >>= (λ s. ok (t.0, s))
      else ok t in
    let done : Ends IsReady new =
      if_Ends both
        (schedule_peer_device_options tmp (some vol) none [] connections t >>= (λ s. ok (t.0, s)))
        (ok t) (u, refl, (Follows-Grows t u.1 f.ready o.grows).ready) (t, refl, f.ready) in
    >>=-Ends (if is_wanted only vol.vnr && vol.adj_new_minor then new else ok r)
      (adjust_minors ctx both only connections volumes)
      (if_Ends (is_wanted only vol.vnr && vol.adj_new_minor) new (ok r) done (r, refl, h))
      (λ m k. adjust_minors-Ends ctx both only connections volumes m k)
