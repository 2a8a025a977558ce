-- ===== src/Adm/Commands.antt =====
-- The table of commands in user/v9/drbdadm_main.c, as far as adm_up() and adjust_drbd() schedule
-- them, and adm_up(). A command's number stands for its address.
pub mod Up
use drbd_utils.Prelude.{
  ℕ, Text, Bool, true, false, ◌&&◌, ◌||◌, List, [], ◌∷◌, Option, none, some, ◌==◌, if◌then◌else◌,
}
use drbd_utils.Adm.Options.{DOption}
use drbd_utils.Adm.Volumes.{Volume, is_set, matching_volume}
use drbd_utils.Adm.Deferred.{
  net_prep_down, net_disconnect, net, wait_connect, prereq, resource, disk_prep_down, disk_prep_up,
  net_prep_up, net_path, peer_device, disk, net_connect, AdmCmd, CfgCtx, Sched, always,
  schedule_deferred_cmd,
}

abbrev pub new_resource_cmd : AdmCmd
new_resource_cmd = record { ident = 1; stage = prereq }

abbrev pub new_minor_cmd : AdmCmd
new_minor_cmd = record { ident = 2; stage = disk_prep_up }

abbrev pub attach_cmd : AdmCmd
attach_cmd = record { ident = 3; stage = disk }

abbrev pub new_peer_cmd : AdmCmd
new_peer_cmd = record { ident = 4; stage = net_prep_up }

abbrev pub new_path_cmd : AdmCmd
new_path_cmd = record { ident = 5; stage = net_path }

abbrev pub connect_cmd : AdmCmd
connect_cmd = record { ident = 6; stage = net_connect }

abbrev pub peer_device_options_cmd : AdmCmd
peer_device_options_cmd = record { ident = 7; stage = peer_device }

abbrev pub detach_cmd : AdmCmd
detach_cmd = record { ident = 8; stage = disk_prep_down }

abbrev pub del_minor_cmd : AdmCmd
del_minor_cmd = record { ident = 9; stage = disk_prep_down }

abbrev pub disk_options_defaults_cmd : AdmCmd
disk_options_defaults_cmd = record { ident = 10; stage = disk }

abbrev pub disk_options_early_defaults_cmd : AdmCmd
disk_options_early_defaults_cmd = record { ident = 11; stage = disk_prep_up }

abbrev pub resize_cmd : AdmCmd
resize_cmd = record { ident = 12; stage = disk }

abbrev pub output_res_name_cmd : AdmCmd
output_res_name_cmd = record { ident = 13; stage = prereq }

abbrev pub sh_list_adjustable : AdmCmd
sh_list_adjustable = record { ident = 14; stage = prereq }

abbrev pub del_peer_cmd : AdmCmd
del_peer_cmd = record { ident = 15; stage = net_prep_down }

abbrev pub disconnect_cmd : AdmCmd
disconnect_cmd = record { ident = 16; stage = net_disconnect }

abbrev pub net_options_defaults_cmd : AdmCmd
net_options_defaults_cmd = record { ident = 17; stage = net }

abbrev pub del_path_cmd : AdmCmd
del_path_cmd = record { ident = 18; stage = net_prep_down }

abbrev pub wait_c_adj_cmd : AdmCmd
wait_c_adj_cmd = record { ident = 19; stage = wait_connect }

abbrev pub res_options_defaults_cmd : AdmCmd
res_options_defaults_cmd = record { ident = 20; stage = resource }

abbrev pub peer_device_options_defaults_cmd : AdmCmd
peer_device_options_defaults_cmd = record { ident = 21; stage = peer_device }

-- struct peer_device
pub record PeerDevice : Type 0 where
  pub vnr : ℕ
  pub pd_options : List DOption

-- struct d_address
pub record Address : Type 0 where
  pub addr : Text
  pub port : Text
  pub af : Text

-- struct path; `ident` is its address.
pub record NetPath : Type 0 where
  pub ident : ℕ
  pub my_address : Address
  pub connect_to : Address
  pub ignore : Bool
  pub adj_seen : Bool

-- struct connection; `ident` is its address, `node_id` is conn->peer->node_id, and `peer_volumes` is
-- conn->peer->volumes. `has_peer` is `conn->peer != NULL`.
pub record Connection : Type 0 where
  pub ident : ℕ
  pub ignore : Bool
  pub me : Bool
  pub has_peer : Bool
  pub node_id : Text
  pub peer_devices : List PeerDevice
  pub peer_volumes : List Volume
  pub paths : List NetPath
  pub net_options : List DOption
  pub cstate : ℕ
  pub adj_seen : Bool

-- STAILQ_EMPTY
abbrev pub is_empty : List DOption → Bool
is_empty [] = true
is_empty (o ∷ opts) = false

-- The loop over the volumes: the context is the one of the last volume.
unfoldable pub up_volumes : ℕ → List Volume → CfgCtx × Sched → CfgCtx × Sched
unfolding schedule_deferred_cmd
up_volumes new_res [] (ctx, s) = (ctx, s)
up_volumes new_res (vol ∷ rest) (ctx, s) =
    let tmp : CfgCtx = record ctx { vnr = vol.vnr } in
    let t = schedule_deferred_cmd new_minor_cmd tmp (some new_res) always s in
    let u = schedule_deferred_cmd attach_cmd tmp (some t.0) always t.1 in
    up_volumes new_res rest (tmp, if is_set vol.disk then u.1 else t.1)

unfoldable pub up_peer_devices : CfgCtx → List Volume → ℕ → List PeerDevice → Sched → Sched
unfolding schedule_deferred_cmd matching_volume
up_peer_devices ctx peer_volumes new_peer [] s = s
up_peer_devices ctx peer_volumes new_peer (pd ∷ rest) s =
    let t =
      schedule_deferred_cmd peer_device_options_cmd (record ctx { vnr = pd.vnr }) (some new_peer)
        always s in
    let found : Bool = elim (matching_volume pd.vnr peer_volumes) [
      | none ↦ false
      | some vol ↦ true
    ] in
    up_peer_devices ctx peer_volumes new_peer rest
      (if is_empty pd.pd_options then s else if found then t.1 else s)

-- One round of the loop over the connections
unfoldable pub up_connection : ℕ → CfgCtx → Connection → Sched → Sched
unfolding schedule_deferred_cmd up_peer_devices
up_connection new_res ctx conn s =
    let tmp : CfgCtx = record ctx { conn = conn.ident } in
    let p = schedule_deferred_cmd new_peer_cmd tmp (some new_res) always s in
    let q = schedule_deferred_cmd new_path_cmd tmp (some p.0) always p.1 in
    let r = schedule_deferred_cmd connect_cmd tmp (some p.0) always q.1 in
    up_peer_devices tmp conn.peer_volumes p.0 conn.peer_devices r.1

unfoldable pub up_connections : ℕ → CfgCtx → List Connection → Sched → Sched
unfolding up_connection
up_connections new_res ctx [] s = s
up_connections new_res ctx (conn ∷ rest) s =
    up_connections new_res ctx rest (if conn.ignore then s else up_connection new_res ctx conn s)

-- `volumes` are ctx->res->me->volumes, `connections` are ctx->res->connections.
unfoldable pub adm_up : CfgCtx → List Volume → List Connection → Sched → Sched
unfolding schedule_deferred_cmd up_volumes up_connections
adm_up ctx volumes connections s =
    let r = schedule_deferred_cmd new_resource_cmd ctx none always s in
    let v = up_volumes r.0 volumes (record ctx { conn = 0 }, r.1) in
    up_connections r.0 v.0 connections v.1
