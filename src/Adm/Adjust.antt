-- ===== src/Adm/Adjust.antt =====
-- adjust_drbd() of user/v9/drbdadm_adjust.c: all commands that bring a resource from the running to
-- the configured state. What the parser makes of the output of drbdsetup is the running resource.
pub mod Steps
pub mod Run
use drbd_utils.Prelude.{
  ℕ, Text, Bool, true, false, not, ◌&&◌, List, [], ◌∷◌, Option, none, some, if◌then◌else◌, Result,
  ok, ◌>>=◌,
}
use drbd_utils.Adm.Options.{DOption, FieldDef, opts_equal}
use drbd_utils.Adm.Volumes.{Volume, Contexts, compare_volumes}
use drbd_utils.Adm.Deferred.{CfgCtx, Sched}
use drbd_utils.Adm.Commands.{new_resource_cmd, new_minor_cmd, res_options_defaults_cmd, Connection}
use drbd_utils.Adm.Disk.{schedule_next, is_wanted, adjust_disk}
use drbd_utils.Adm.Net.{ConnStates, InetPton, NetContexts}
use drbd_utils.Adm.Net.Connections.{schedule_peer_device_options, adjust_net}

-- struct d_resource, as far as the adjustment reads or writes it; `volumes` are me->volumes, and
-- `ident` is its address.
pub record Resource : Type 0 where
  pub ident : ℕ
  pub res_options : List DOption
  pub volumes : List Volume
  pub connections : List Connection

-- The bits ADJUST_DISK and ADJUST_NET
pub record AdjustFlags : Type 0 where
  pub disk : Bool
  pub net : Bool

-- What the adjustment asks of the rest of the program and of the system.
pub record Surroundings : Type 0 where
  pub is_same_disk : Text → Text → Bool
  pub pton : InetPton
  pub states : ConnStates
  pub disk_contexts : Contexts
  pub net_contexts : NetContexts
  pub resource_options_ctx : List FieldDef

-- The loop over the volumes with a new minor; `both` is set if the net and the disk are adjusted.
unfoldable pub adjust_minors :
    CfgCtx
    → Bool
    → Option ℕ
    → List Connection
    → List Volume
    → Option ℕ × Sched
    → Result (Option ℕ × Sched)
unfolding schedule_next schedule_peer_device_options
adjust_minors ctx both only connections [] r = ok r
adjust_minors ctx both only connections (vol ∷ volumes) r =
    let tmp : CfgCtx = record ctx { conn = 0; vnr = vol.vnr; path = 0 } in
    let t = schedule_next true new_minor_cmd tmp r in
    (if is_wanted only vol.vnr && vol.adj_new_minor
      then if both
        then schedule_peer_device_options tmp (some vol) none [] connections t
          >>= (λ s. ok (t.0, s))
        else ok t
      else ok r)
    >>= adjust_minors ctx both only connections volumes

-- The options of the configured resource after their comparison, and the first command.
unfoldable pub adjust_resource :
    List FieldDef
    → CfgCtx
    → List DOption
    → Option (List DOption)
    → Sched
    → Result (List DOption × (Option ℕ × Sched))
unfolding schedule_next
adjust_resource fields ctx conf none s =
    ok (conf, schedule_next true new_resource_cmd ctx (none, s))
adjust_resource fields ctx conf (some running) s = opts_equal fields conf running >>= λ equal.
    ok (equal.1, schedule_next (not equal.0) res_options_defaults_cmd ctx (none, s))

module _ (around : Surroundings) where
  -- adjust_disk() and adjust_net(), if they are asked for.
  unfoldable pub adjust_parts :
      AdjustFlags
      → CfgCtx
      → Option ℕ
      → List Volume
      → List Volume
      → List Connection
      → Option (ℕ × List Connection)
      → Option ℕ × Sched
      → Result (List Connection × Sched)
  unfolding adjust_disk adjust_net
  adjust_parts flags ctx only running_volumes volumes connections running r =
      let s = if flags.disk then (adjust_disk ctx only running_volumes volumes r).1 else r.1 in
      if flags.net
      then adjust_net around.pton around.states around.net_contexts volumes ctx connections running
          (r.0, s)
      else ok (connections, s)

  -- The configured resource and the queue after the call. `only` is the volume of the context, if
  -- it has one.
  unfoldable pub adjust_drbd :
      AdjustFlags
      → CfgCtx
      → Option ℕ
      → Resource
      → Option Resource
      → Sched
      → Result (Resource × Sched)
  unfolding adjust_resource adjust_minors adjust_parts compare_volumes
  adjust_drbd flags ctx only conf running s =
      let running_volumes : List Volume = elim running [ none ↦ [] | some k ↦ k.volumes ] in
      let running_options : Option (List DOption) = elim running [
        | none ↦ none
        | some k ↦ some k.res_options
      ] in
      let pool : Option (ℕ × List Connection) = elim running [
        | none ↦ none
        | some k ↦ some (k.ident, k.connections)
      ] in
      compare_volumes around.is_same_disk around.disk_contexts conf.volumes running_volumes >>= λ v.
      adjust_resource around.resource_options_ctx ctx conf.res_options running_options s >>= λ o.
      adjust_minors ctx (flags.net && flags.disk) only conf.connections v.0 o.1 >>= λ m.
      adjust_parts flags ctx only v.1 v.0 conf.connections pool m >>= λ n.
      ok (record conf { res_options = o.0; volumes = v.0; connections = n.0 }, n.1)
