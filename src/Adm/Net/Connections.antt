-- ===== src/Adm/Net/Connections.antt =====
-- user/v9/drbdadm_adjust.c: adjust_net() with what it does for each connection.
use drbd_utils.Prelude.{
  ℕ, Bool, true, false, not, ◌&&◌, ◌||◌, List, [], ◌∷◌, Option, none, some, ltb, ◌==◌,
  if◌then◌else◌, Result, stop, ok, exit, ◌>>=◌,
}
use drbd_utils.Adm.Options.{DOption, FieldDef, del_opt, opts_equal, opt_equal}
use drbd_utils.Adm.Volumes.{Volume}
use drbd_utils.Adm.Deferred.{
  CfgCtx, Sched, schedule_once, cancel_deferred_cmd, cancel_deferred_waits,
}
use drbd_utils.Adm.Commands.{
  new_peer_cmd, new_path_cmd, connect_cmd, del_peer_cmd, net_options_defaults_cmd, wait_c_adj_cmd,
  peer_device_options_defaults_cmd, PeerDevice, NetPath, Connection, is_empty,
}
use drbd_utils.Adm.Disk.{adj_schedule_deferred_cmd, schedule_if, schedule_next}
use drbd_utils.Adm.Net.{
  ConnStates, InetPton, NetContexts, transport_word, balance_word, adjust_paths, matching_conn,
  set_paths, matching_peer_device, adjust_peer_devices,
}

-- One round of the loops of schedule_peer_device_options()
unfoldable pub schedule_options : CfgCtx → Option PeerDevice → Option ℕ × Sched → Option ℕ × Sched
unfolding adj_schedule_deferred_cmd
schedule_options ctx none r = r
schedule_options ctx (some pd) (depends_on, s) =
    let t =
      adj_schedule_deferred_cmd peer_device_options_defaults_cmd ctx depends_on schedule_once s in
    if is_empty pd.pd_options then (depends_on, s) else (some t.0, t.1)

-- The loop over the volumes, for a connection
unfoldable pub options_of_conn :
    CfgCtx → Connection → List Volume → Option ℕ × Sched → Option ℕ × Sched
unfolding schedule_options matching_peer_device
options_of_conn ctx conn [] r = r
options_of_conn ctx conn (vol ∷ volumes) r = options_of_conn ctx conn volumes (
    schedule_options (record ctx { vnr = vol.vnr }) (matching_peer_device vol.vnr conn.peer_devices)
      r)

-- The loop over the connections, for a volume
unfoldable pub options_of_volume :
    CfgCtx → ℕ → List Connection → Option ℕ × Sched → Option ℕ × Sched
unfolding schedule_options matching_peer_device
options_of_volume ctx vnr [] r = r
options_of_volume ctx vnr (conn ∷ connections) r =
    let found = if conn.has_peer then matching_peer_device vnr conn.peer_devices else none in
    options_of_volume ctx vnr connections
      (schedule_options (record ctx { conn = conn.ident }) found r)

abbrev pub e_thinko : ℕ
e_thinko = 42

-- `vol` and `conn` are those of the context; `volumes` are ctx->res->me->volumes.
unfoldable pub schedule_peer_device_options :
    CfgCtx
    → Option Volume
    → Option Connection
    → List Volume
    → List Connection
    → Option ℕ × Sched
    → Result Sched
unfolding options_of_conn options_of_volume
schedule_peer_device_options ctx none none volumes connections r = stop (exit e_thinko)
schedule_peer_device_options ctx none (some conn) volumes connections r =
    ok (options_of_conn ctx conn volumes r).1
schedule_peer_device_options ctx (some vol) none volumes connections r =
    ok (options_of_volume ctx vol.vnr connections r).1
schedule_peer_device_options ctx (some vol) (some conn) volumes connections r = stop (exit e_thinko)

-- What adjust_conn() carries through its loop: the running connections, the last command with the
-- queue, and `*disconnect`.
pub record Adjusting : Type 0 where
  pub running : Option (List Connection)
  pub last : Option ℕ × Sched
  pub disconnect : Bool

-- Whether the options of a connection that differ need it to be made anew.
unfoldable pub is_immutable_change : List FieldDef → List DOption → List DOption → Result Bool
unfolding opt_equal
is_immutable_change fields conf running = opt_equal fields balance_word conf running >>= λ same.
    if same
    then opt_equal fields transport_word conf running >>= (λ same'. ok (not same'))
    else ok true

module _ (pton : InetPton) (states : ConnStates) (contexts : NetContexts)
    (volumes : List Volume) where
  -- The branch for a connection that is not running: what follows depends on new-peer.
  unfoldable pub make_conn : CfgCtx → Connection → Option ℕ × Sched → Result (Option ℕ × Sched)
  unfolding schedule_next schedule_if schedule_peer_device_options
  make_conn ctx conn r =
      let a = schedule_next true new_peer_cmd ctx r in
      schedule_peer_device_options ctx none (some conn) volumes []
        (a.0, schedule_if true new_path_cmd ctx a.0 a.1)
      >>= λ s. ok (a.0, s)

  -- The branch for different options: the configured options, the state, and whether the connection
  -- is made anew.
  unfoldable pub change_conn :
      CfgCtx
      → Connection
      → List DOption
      → List DOption
      → Option ℕ × Sched
      → Result (List DOption × (Option ℕ × Sched) × Bool)
  unfolding schedule_next schedule_if schedule_peer_device_options is_immutable_change del_opt
  change_conn ctx conn options running r =
      is_immutable_change contexts.show_net_options_ctx options running >>= λ anew.
      let b = schedule_next true new_peer_cmd ctx (schedule_next true del_peer_cmd ctx r) in
      let kept = del_opt (del_opt options transport_word) balance_word in
      if anew
      then schedule_peer_device_options ctx none (some conn) volumes [] b
        >>= (λ s. ok (options, (b.0, s), true))
      else ok (kept, (r.0, schedule_if true net_options_defaults_cmd ctx r.0 r.1), false)

  -- The branch for a connection that runs: the configured connection, the paths of the running one, the
  -- state, whether to connect, and whether to disconnect.
  unfoldable pub keep_conn :
      CfgCtx
      → Connection
      → Connection
      → Option ℕ × Sched
      → Result (Connection × List NetPath × (Option ℕ × Sched) × Bool × Bool)
  unfolding change_conn adjust_peer_devices adjust_paths schedule_next
  keep_conn ctx conn running r =
      opts_equal contexts.show_net_options_ctx conn.net_options running.net_options >>= λ equal.
      (if equal.0
        then ok (equal.1, r, false)
        else change_conn ctx conn equal.1 running.net_options r)
      >>= λ c.
          adjust_peer_devices contexts.peer_device_options_ctx ctx conn.peer_devices
            running.peer_devices c.1.0 c.1.1
          >>= λ d.
              let conn' : Connection = record conn { net_options = c.0; peer_devices = d.0 } in
              let p = adjust_paths pton states ctx conn running c.1.0 d.1 in
              let connect = running.cstate == states.c_standalone in
              if c.2
              then ok (
                conn',
                running.paths,
                schedule_next true new_path_cmd ctx (c.1.0, d.1),
                true,
                true,
              )
              else ok (conn', p.0, (c.1.0, p.1), connect || p.2, p.2)

  -- The end of a round of the loop
  unfoldable pub end_round : CfgCtx → Bool → Option ℕ × Sched → Option ℕ × Sched
  unfolding schedule_next
  end_round ctx connect r =
      schedule_next connect wait_c_adj_cmd ctx (schedule_next connect connect_cmd ctx r)

  -- One round of the loop
  unfoldable pub adjust_one : CfgCtx → ℕ → Connection → Adjusting → Result (Connection × Adjusting)
  unfolding make_conn keep_conn end_round matching_conn set_paths
  adjust_one ctx max_cstate conn a =
      let tmp : CfgCtx = record ctx { conn = conn.ident; vnr = 0; path = 0 } in
      let found : Option Connection = elim a.running [
        | none ↦ none
        | some pool ↦ matching_conn conn.node_id pool false
      ] in
      if conn.ignore || conn.adj_seen then ok (conn, a) else elim found [
        | none ↦ make_conn tmp conn a.last >>= λ r.
            ok (record conn { adj_seen = true }, record a { last = end_round tmp true r })
        | some running ↦
            if ltb max_cstate running.cstate
            then ok (conn, a)
            else keep_conn tmp conn running a.last >>= λ k. ok (
              record k.0 { adj_seen = true },
              record {
                running = elim a.running [
                  | none ↦ none
                  | some pool ↦ some (set_paths conn.node_id pool k.1)
                ];
                last = end_round tmp k.3 k.2;
                disconnect = a.disconnect || k.4;
              },
            )
      ]

  unfoldable pub adjust_conn :
      CfgCtx → ℕ → List Connection → Adjusting → Result (List Connection × Adjusting)
  unfolding adjust_one
  adjust_conn ctx max_cstate [] a = ok ([], a)
  adjust_conn ctx max_cstate (conn ∷ connections) a =
      adjust_one ctx max_cstate conn a
      >>= (λ r. adjust_conn ctx max_cstate connections r.1 >>= λ t. ok (r.0 ∷ t.0, t.1))

  abbrev pub any_connected : List Connection → Bool
  any_connected [] = false
  any_connected (conn ∷ pool) = conn.cstate == states.c_connected || any_connected pool

  -- The loop over the running connections; `running_res` is the address of the running resource.
  unfoldable pub del_conns :
      CfgCtx
      → ℕ
      → List Connection
      → List Connection
      → (Option ℕ × Sched) × Bool
      → (Option ℕ × Sched) × Bool
  unfolding matching_conn schedule_next
  del_conns ctx running_res connections [] r = r
  del_conns ctx running_res connections (conn ∷ pool) (r, disconnect) =
      let tmp : CfgCtx = record ctx { res = running_res; conn = conn.ident; vnr = 0; path = 0 } in
      let gone : Bool = elim (matching_conn conn.node_id connections true) [
        | none ↦ true
        | some c ↦ false
      ] in
      del_conns ctx running_res connections pool
        (schedule_next gone del_peer_cmd tmp r, disconnect || gone)

  -- `deferred_cmd(dcmd) == &wait_c_adj_cmd`
  abbrev pub is_wait : Option ℕ → Sched → Bool
  is_wait none s = false
  is_wait (some i) s = (s.cmd i).ctx.cmd.ident == wait_c_adj_cmd.ident

  -- The end of adjust_net()
  unfoldable pub cancel_waits : ℕ → Bool → Option ℕ × Sched → Sched
  unfolding cancel_deferred_waits cancel_deferred_cmd
  cancel_waits res keep (last, s) =
      let t = if keep then s else cancel_deferred_waits res s in
      elim last [ none ↦ t | some i ↦ if is_wait (some i) t then cancel_deferred_cmd i t else t ]

  -- The configured connections and the queue after the call. `running` is the address of the running
  -- resource with its connections.
  unfoldable pub adjust_net :
      CfgCtx
      → List Connection
      → Option (ℕ × List Connection)
      → Option ℕ × Sched
      → Result (List Connection × Sched)
  unfolding adjust_conn del_conns cancel_waits
  adjust_net ctx connections running r =
      let pool : Option (List Connection) = elim running [ none ↦ none | some x ↦ some x.1 ] in
      let one_was_connected : Bool = elim running [ none ↦ false | some x ↦ any_connected x.1 ] in
      adjust_conn ctx states.c_connecting connections
        (record { running = pool; last = r; disconnect = false })
      >>= λ a. adjust_conn ctx states.c_connected a.0 a.1 >>= λ b.
          let d : (Option ℕ × Sched) × Bool = elim running [
            | none ↦ (b.1.last, b.1.disconnect)
            | some x ↦ elim b.1.running [
              | none ↦ (b.1.last, b.1.disconnect)
              | some pool' ↦ del_conns ctx x.0 b.0 pool' (b.1.last, b.1.disconnect)
            ]
          ] in
          ok (b.0, cancel_waits ctx.res (d.1 && one_was_connected) d.0)
