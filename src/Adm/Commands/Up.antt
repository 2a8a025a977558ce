-- ===== src/Adm/Commands/Up.antt =====
-- adm_up() of user/v9/drbdadm_main.c: what it schedules depends on what makes the object for it.
use drbd_utils.Prelude.{
  ℕ, ◌<◌, ◌≡◌, refl, ap, ◌∙◌, ◌⊎◌, inl, inr, Bool, true, false, ◌&&◌, ◌||◌, List, [], ◌∷◌, Option,
  none, some, some_inj, ◌==◌, ==_iff, Bool-cases, if◌then◌else◌, arith,
}
use mathlib.Core.Path.{subst}
use drbd_utils.Adm.Volumes.{Volume, is_set, matching_volume}
use drbd_utils.Adm.Deferred.{AdmCmd, CfgCtx, DeferredCmd, Sched, always, schedule_deferred_cmd}
use drbd_utils.Adm.Deferred.Reach.{Reach, schedule, Appends, schedule_deferred_cmd-Appends}
use drbd_utils.Adm.Commands.{
  new_resource_cmd, new_minor_cmd, attach_cmd, new_peer_cmd, new_path_cmd, connect_cmd,
  peer_device_options_cmd, PeerDevice, Connection, is_empty, up_volumes, up_peer_devices,
  up_connection, up_connections, adm_up,
}

-- Whether a command in the context `e` makes the object that one in the context `d` works on: the minor of a volume for its
-- attach, the resource for a minor and a peer, and the peer for its paths, its connection and the
-- options of its devices.
abbrev pub makes : CfgCtx → CfgCtx → Bool
makes e d =
    (e.res == d.res)
    && (if d.cmd.ident == attach_cmd.ident
        then e.cmd.ident == new_minor_cmd.ident && (e.vnr == d.vnr)
        else if d.cmd.ident == new_minor_cmd.ident || (d.cmd.ident == new_peer_cmd.ident)
        then e.cmd.ident == new_resource_cmd.ident
        else e.cmd.ident == new_peer_cmd.ident && (e.conn == d.conn))

-- The command makes a resource, or depends on the one that makes its object.
abbrev pub IsServed : Sched → DeferredCmd → Type 0
IsServed s d =
    (d.ctx.cmd ≡ new_resource_cmd)
    ⊎ ((j : ℕ) × (j < s.count) × (d.depends_on ≡ some j) × (makes (s.cmd j).ctx d.ctx ≡ true))

pub record IsChained (s : Sched) : Type 0 where
  pub reach : Reach s
  pub served : (i : ℕ) → i < s.count → IsServed s (s.cmd i)

-- Command `j` is `cmd` in the context `ctx`.
record IsMade (s : Sched) (j : ℕ) (cmd : AdmCmd) (ctx : CfgCtx) : Type 0 where
  below : j < s.count
  is : (s.cmd j).ctx ≡ record ctx { cmd = cmd }

-- What a call that makes a new command leaves.
record Step (new_cmd : AdmCmd) (new_ctx : CfgCtx) (s : Sched) (r : ℕ × Sched) : Type 0 where
  chained : IsChained r.1
  made : IsMade r.1 r.0 new_cmd new_ctx
  keeps : (j : ℕ) (cmd : AdmCmd) (ctx : CfgCtx) → IsMade s j cmd ctx → IsMade r.1 j cmd ctx

IsServed-keeps :
    (d e : DeferredCmd) (s : Sched) (r : ℕ × Sched) → Appends d s r → IsServed s e → IsServed r.1 e
IsServed-keeps d e s r a (inl new) = inl new
IsServed-keeps d e s r a (inr (j, lt, dep, m)) =
    inr (j, omega (arith, a.count), dep, rw (a.before j lt) m)

step :
    (cmd : AdmCmd) (ctx : CfgCtx) (depends_on : Option ℕ) (s : Sched)
    → IsChained s
    → ((j : ℕ) → depends_on ≡ some j → j < s.count)
    → IsServed s (record { ctx = record ctx { cmd = cmd }; depends_on = depends_on })
    → Step cmd ctx s (schedule_deferred_cmd cmd ctx depends_on always s)
step cmd ctx depends_on s h dep sv =
    let d : DeferredCmd = record { ctx = record ctx { cmd = cmd }; depends_on = depends_on } in
    let r = schedule_deferred_cmd cmd ctx depends_on always s in
    let a = schedule_deferred_cmd-Appends cmd ctx depends_on s in
    record {
      chained = record {
        reach = schedule cmd ctx depends_on always dep h.reach;
        served = λ i lt. elim (Bool-cases (i == s.count)) [
          | inl last ↦
              let e : r.1.cmd i ≡ d = rw ((==_iff i s.count).0 last) a.here in
              rw e (IsServed-keeps d d s r a sv)
          | inr older ↦
              let below : i < s.count = let c = a.count in ground (arith, c) in
              rw (a.before i below) (IsServed-keeps d (s.cmd i) s r a (h.served i below))
        ];
      };
      made = record { below = omega (arith, a.number, a.count); is = rw (a.number, a.here) refl };
      keeps = λ j cmd' ctx' m. record {
        below = omega (arith, a.count, m.below);
        is = ap (λ (x : DeferredCmd). x.ctx) (a.before j m.below) ∙ m.is;
      };
    }

-- A command that depends on one that is made.
step_on :
    (cmd : AdmCmd) (ctx : CfgCtx) (j : ℕ) (cmd' : AdmCmd) (ctx' : CfgCtx) (s : Sched)
    → IsChained s
    → IsMade s j cmd' ctx'
    → makes (record ctx' { cmd = cmd' }) (record ctx { cmd = cmd }) ≡ true
    → Step cmd ctx s (schedule_deferred_cmd cmd ctx (some j) always s)
step_on cmd ctx j cmd' ctx' s h m e =
    step cmd ctx (some j) s h (λ k same. subst (λ n. n < s.count) (some_inj same) m.below)
      (inr (j, m.below, refl, rw m.is e))

up_volumes-IsChained :
    (base : CfgCtx) (new_res : ℕ) (vols : List Volume) (ctx : CfgCtx) (s : Sched)
    → IsChained s
    → IsMade s new_res new_resource_cmd base
    → (base.res == ctx.res) ≡ true
    → let r = up_volumes new_res vols (ctx, s) in
      IsChained r.1 × IsMade r.1 new_res new_resource_cmd base × ((base.res == r.0.res) ≡ true)
unfolding up_volumes
up_volumes-IsChained base new_res [] ctx s h m e = (h, m, e)
up_volumes-IsChained base new_res (vol ∷ rest) ctx s h m e =
    let tmp : CfgCtx = record ctx { vnr = vol.vnr } in
    let t = schedule_deferred_cmd new_minor_cmd tmp (some new_res) always s in
    let u = schedule_deferred_cmd attach_cmd tmp (some t.0) always t.1 in
    let a = step_on new_minor_cmd tmp new_res new_resource_cmd base s h m (rw e refl) in
    let b = step_on attach_cmd tmp t.0 new_minor_cmd tmp t.1 a.chained a.made (ground arith) in
    let m' = a.keeps new_res new_resource_cmd base m in
    elim (Bool-cases (is_set vol.disk)) [
      | inl attaches ↦
          rw (attaches, up_volumes)
            (up_volumes-IsChained base new_res rest tmp u.1 b.chained
              (b.keeps new_res new_resource_cmd base m') e)
      | inr bare ↦
          rw (bare, up_volumes) (up_volumes-IsChained base new_res rest tmp t.1 a.chained m' e)
    ]

up_peer_devices-IsChained :
    (ctx : CfgCtx) (peer_volumes : List Volume) (new_peer : ℕ) (pds : List PeerDevice) (s : Sched)
    → IsChained s
    → IsMade s new_peer new_peer_cmd ctx
    → (new_res : ℕ) (base : CfgCtx) → IsMade s new_res new_resource_cmd base
    → let r = up_peer_devices ctx peer_volumes new_peer pds s in
      IsChained r × IsMade r new_res new_resource_cmd base
unfolding up_peer_devices
up_peer_devices-IsChained ctx peer_volumes new_peer [] s h m new_res base n = (h, n)
up_peer_devices-IsChained ctx peer_volumes new_peer (pd ∷ rest) s h m new_res base n =
    let t =
      schedule_deferred_cmd peer_device_options_cmd (record ctx { vnr = pd.vnr }) (some new_peer)
        always s in
    let a =
      step_on peer_device_options_cmd (record ctx { vnr = pd.vnr }) new_peer new_peer_cmd ctx s h m
        (ground arith) in
    let same = up_peer_devices-IsChained ctx peer_volumes new_peer rest s h m new_res base n in
    let more =
      up_peer_devices-IsChained ctx peer_volumes new_peer rest t.1 a.chained
        (a.keeps new_peer new_peer_cmd ctx m) new_res base
        (a.keeps new_res new_resource_cmd base n) in
    let found : Bool = elim (matching_volume pd.vnr peer_volumes) [
      | none ↦ false
      | some vol ↦ true
    ] in
    elim (Bool-cases (is_empty pd.pd_options)) [
      | inl empty ↦ rw empty same
      | inr full ↦ elim (Bool-cases found) [ inl f ↦ rw (full, f) more | inr f ↦ rw (full, f) same ]
    ]

up_connections-IsChained :
    (base : CfgCtx) (new_res : ℕ) (ctx : CfgCtx) (conns : List Connection) (s : Sched)
    → IsChained s
    → IsMade s new_res new_resource_cmd base
    → (base.res == ctx.res) ≡ true
    → IsChained (up_connections new_res ctx conns s)
unfolding up_connections up_connection
up_connections-IsChained base new_res ctx [] s h m e = h
up_connections-IsChained base new_res ctx (conn ∷ rest) s h m e =
    let tmp : CfgCtx = record ctx { conn = conn.ident } in
    let p = schedule_deferred_cmd new_peer_cmd tmp (some new_res) always s in
    let q = schedule_deferred_cmd new_path_cmd tmp (some p.0) always p.1 in
    let r = schedule_deferred_cmd connect_cmd tmp (some p.0) always q.1 in
    let a = step_on new_peer_cmd tmp new_res new_resource_cmd base s h m (rw e refl) in
    let b = step_on new_path_cmd tmp p.0 new_peer_cmd tmp p.1 a.chained a.made (ground arith) in
    let peer' = b.keeps p.0 new_peer_cmd tmp a.made in
    let c = step_on connect_cmd tmp p.0 new_peer_cmd tmp q.1 b.chained peer' (ground arith) in
    let m' =
      c.keeps new_res new_resource_cmd base
        (b.keeps new_res new_resource_cmd base (a.keeps new_res new_resource_cmd base m)) in
    let (h', n) =
      up_peer_devices-IsChained tmp conn.peer_volumes p.0 conn.peer_devices r.1 c.chained
        (c.keeps p.0 new_peer_cmd tmp peer') new_res base m' in
    elim (Bool-cases conn.ignore) [
      | inl ignored ↦ rw ignored (up_connections-IsChained base new_res ctx rest s h m e)
      | inr used ↦ rw used (
          up_connections-IsChained base new_res ctx rest
            (up_peer_devices tmp conn.peer_volumes p.0 conn.peer_devices r.1) h' n e)
    ]

-- adm_up() keeps a queue in which every command other than new-resource depends on the earlier
-- command that makes its object (see makes): an attach on the new-minor of its volume, a new-minor
-- or new-peer on the new-resource, and all that concerns a connection on its new-peer.
pub adm_up-IsChained :
    (ctx : CfgCtx) (volumes : List Volume) (connections : List Connection) (s : Sched)
    → IsChained s
    → IsChained (adm_up ctx volumes connections s)
unfolding adm_up
adm_up-IsChained ctx volumes connections s h =
    let r = schedule_deferred_cmd new_resource_cmd ctx none always s in
    let a = step new_resource_cmd ctx none s h (λ j e. cc) (inl refl) in
    let v = up_volumes r.0 volumes (record ctx { conn = 0 }, r.1) in
    let (h', m, e) =
      up_volumes-IsChained ctx r.0 volumes (record ctx { conn = 0 }) r.1 a.chained a.made
        (ground arith) in
    up_connections-IsChained ctx r.0 v.0 connections v.1 h' m e
