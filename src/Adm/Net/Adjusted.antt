-- ===== src/Adm/Net/Adjusted.antt =====
-- adjust_conn() of user/v9/drbdadm_adjust.c: what it schedules for one connection, and the options
-- it leaves.
use drbd_utils.Prelude.{
  ℕ, refl, Bool, true, false, not, ◌||◌, List, [], ◌∷◌, Option, none, some, Bool-cases, inl, inr,
  if◌then◌else◌, ◌==◌, Result, ok, ◌>>=◌, Ends, >>=-Ends, if_Ends,
}
use drbd_utils.Adm.Options.{DOption, FieldDef, opts_equal, opt_equal, del_opt}
use drbd_utils.Adm.Options.Known.{
  IsField, AllFields, del_opt-AllFields, opts_equal-Ends, opt_equal-Ends,
}
use drbd_utils.Adm.Volumes.{Volume}
use drbd_utils.Adm.Deferred.{CfgCtx, Sched, schedule_once}
use drbd_utils.Adm.Commands.{
  new_peer_cmd, new_path_cmd, connect_cmd, del_peer_cmd, net_options_defaults_cmd, wait_c_adj_cmd,
  peer_device_options_defaults_cmd, PeerDevice, NetPath, Connection, is_empty,
}
use drbd_utils.Adm.Disk.{schedule_if, schedule_next}
use drbd_utils.Adm.Disk.Reach.{IsReady}
use drbd_utils.Adm.Net.{
  ConnStates, InetPton, NetContexts, transport_word, balance_word, adjust_paths,
  matching_peer_device, adjust_peer_devices,
}
use drbd_utils.Adm.Net.Reach.{
  Grows-trans, Follows, Follows-trans, Follows-self, Follows-Grows, schedule_if-Grows,
  adj_schedule-Follows, schedule_next-Follows, adjust_paths-Grows, HasOptions,
  adjust_peer_devices-Ends,
}
use drbd_utils.Adm.Net.Connections.{
  schedule_options, options_of_conn, options_of_volume, is_immutable_change, make_conn, change_conn,
  keep_conn, end_round,
}

schedule_options-Follows :
    (ctx : CfgCtx) (found : Option PeerDevice) (r : Option ℕ × Sched)
    → IsReady r
    → Follows r (schedule_options ctx found r)
unfolding schedule_options
schedule_options-Follows ctx none r h = Follows-self r h
schedule_options-Follows ctx (some pd) (depends_on, s) h =
    elim (Bool-cases (is_empty pd.pd_options)) [
      | inl e ↦ rw e (Follows-self (depends_on, s) h)
      | inr e ↦ rw e (
          adj_schedule-Follows peer_device_options_defaults_cmd ctx schedule_once (depends_on, s) h)
    ]

pub options_of_conn-Follows :
    (ctx : CfgCtx) (conn : Connection) (volumes : List Volume) (r : Option ℕ × Sched)
    → IsReady r
    → Follows r (options_of_conn ctx conn volumes r)
unfolding options_of_conn
options_of_conn-Follows ctx conn [] r h = Follows-self r h
options_of_conn-Follows ctx conn (vol ∷ volumes) r h =
    let tmp : CfgCtx = record ctx { vnr = vol.vnr } in
    let found = matching_peer_device vol.vnr conn.peer_devices in
    let f = schedule_options-Follows tmp found r h in
    Follows-trans f
      (options_of_conn-Follows ctx conn volumes (schedule_options tmp found r) f.ready)

pub options_of_volume-Follows :
    (ctx : CfgCtx) (vnr : ℕ) (connections : List Connection) (r : Option ℕ × Sched)
    → IsReady r
    → Follows r (options_of_volume ctx vnr connections r)
unfolding options_of_volume
options_of_volume-Follows ctx vnr [] r h = Follows-self r h
options_of_volume-Follows ctx vnr (conn ∷ connections) r h =
    let tmp : CfgCtx = record ctx { conn = conn.ident } in
    let found = if conn.has_peer then matching_peer_device vnr conn.peer_devices else none in
    let f = schedule_options-Follows tmp found r h in
    Follows-trans f
      (options_of_volume-Follows ctx vnr connections (schedule_options tmp found r) f.ready)

is_immutable_change-Ends :
    (fields : List FieldDef) (conf running : List DOption)
    → IsField fields balance_word
    → IsField fields transport_word
    → Ends (λ (b : Bool). Unit {0}) (is_immutable_change fields conf running)
unfolding is_immutable_change
is_immutable_change-Ends fields conf running hb ht =
    >>=-Ends (opt_equal fields balance_word conf running)
      (λ same.
        if same
        then opt_equal fields transport_word conf running >>= (λ same'. ok (not same'))
        else ok true)
      (opt_equal-Ends fields balance_word conf running hb)
      (λ same u.
        if_Ends same (opt_equal fields transport_word conf running >>= (λ same'. ok (not same')))
          (ok true)
          (>>=-Ends (opt_equal fields transport_word conf running) (λ same'. ok (not same'))
            (opt_equal-Ends fields transport_word conf running ht) (λ b v. (not b, refl, tt)))
          (true, refl, tt))

-- The tables have the two options that no connection changes while it exists.
pub record HasTables (contexts : NetContexts) : Type 0 where
  pub balance : IsField contexts.show_net_options_ctx balance_word
  pub transport : IsField contexts.show_net_options_ctx transport_word

-- The options of the connection and of its peer devices are ones of the tables.
pub record IsKnown (contexts : NetContexts) (conn : Connection) : Type 0 where
  pub options : AllFields contexts.show_net_options_ctx conn.net_options
  pub devices : HasOptions contexts.peer_device_options_ctx conn.peer_devices

module _ (pton : InetPton) (states : ConnStates) (contexts : NetContexts)
    (volumes : List Volume) where
  pub make_conn-Ends :
      (ctx : CfgCtx) (conn : Connection) (r : Option ℕ × Sched)
      → IsReady r
      → Ends (λ t. Follows r t) (make_conn pton states contexts volumes ctx conn r)
  unfolding make_conn
  make_conn-Ends ctx conn r h =
      let a = schedule_next true new_peer_cmd ctx r in
      let s = schedule_if true new_path_cmd ctx a.0 a.1 in
      let f = schedule_next-Follows true new_peer_cmd ctx r h in
      let g = Follows-Grows a s f.ready (schedule_if-Grows true new_path_cmd ctx a.0 a.1 f.ready) in
      let o = options_of_conn-Follows ctx conn volumes (a.0, s) g.ready in
      let t = options_of_conn ctx conn volumes (a.0, s) in
      (
        (a.0, t.1),
        refl,
        Follows-trans f (Follows-Grows a t.1 f.ready (Grows-trans g.grows o.grows)),
      )

  change_conn-Ends :
      (ctx : CfgCtx) (conn : Connection) (options running : List DOption) (r : Option ℕ × Sched)
      → HasTables contexts
      → AllFields contexts.show_net_options_ctx options
      → IsReady r
      → Ends
          (λ (c : List DOption × (Option ℕ × Sched) × Bool).
            AllFields contexts.show_net_options_ctx c.0 × Follows r c.1)
          (change_conn pton states contexts volumes ctx conn options running r)
  unfolding change_conn
  change_conn-Ends ctx conn options running r tables known h =
      let fields = contexts.show_net_options_ctx in
      let a = schedule_next true del_peer_cmd ctx r in
      let b = schedule_next true new_peer_cmd ctx a in
      let fa = schedule_next-Follows true del_peer_cmd ctx r h in
      let fb = schedule_next-Follows true new_peer_cmd ctx a fa.ready in
      let o = options_of_conn-Follows ctx conn volumes b fb.ready in
      let s = (options_of_conn ctx conn volumes b).1 in
      let kept = del_opt (del_opt options transport_word) balance_word in
      let same_peer : Result (List DOption × (Option ℕ × Sched) × Bool) =
        ok (kept, (r.0, schedule_if true net_options_defaults_cmd ctx r.0 r.1), false) in
      >>=-Ends (is_immutable_change fields options running)
        (λ anew. if anew then ok (options, (b.0, s), true) else same_peer)
        (is_immutable_change-Ends fields options running tables.balance tables.transport)
        (λ anew u.
          if_Ends anew (ok (options, (b.0, s), true)) same_peer
            (
              (options, (b.0, s), true),
              refl,
              (known, Follows-trans fa (Follows-trans fb (Follows-Grows b s fb.ready o.grows))),
            )
            (
              (kept, (r.0, schedule_if true net_options_defaults_cmd ctx r.0 r.1), false),
              refl,
              (
                del_opt-AllFields fields (del_opt options transport_word) balance_word
                    (del_opt-AllFields fields options transport_word known),
                Follows-Grows r (schedule_if true net_options_defaults_cmd ctx r.0 r.1) h
                    (schedule_if-Grows true net_options_defaults_cmd ctx r.0 r.1 h),
              ),
            ))

  -- What keep_conn() leaves for the configured connection and the queue.
  pub keep_conn-Ends :
      (ctx : CfgCtx) (conn running : Connection) (r : Option ℕ × Sched)
      → HasTables contexts
      → IsKnown contexts conn
      → IsKnown contexts running
      → IsReady r
      → Ends
          (λ (k : Connection × List NetPath × (Option ℕ × Sched) × Bool × Bool).
            IsKnown contexts k.0 × Follows r k.2)
          (keep_conn pton states contexts volumes ctx conn running r)
  unfolding keep_conn
  keep_conn-Ends ctx conn running r tables kc kr h =
      let fields = contexts.show_net_options_ctx in
      let devices = contexts.peer_device_options_ctx in
      let first = λ (equal : Bool × List DOption).
        if equal.0
        then ok (equal.1, r, false)
        else change_conn pton states contexts volumes ctx conn equal.1 running.net_options r in
      let last = λ (c : List DOption × (Option ℕ × Sched) × Bool) (d : List PeerDevice × Sched).
        let conn' : Connection = record conn { net_options = c.0; peer_devices = d.0 } in
        let p = adjust_paths pton states ctx conn running c.1.0 d.1 in
        let connect = running.cstate == states.c_standalone in
        if c.2
        then ok (conn', running.paths, schedule_next true new_path_cmd ctx (c.1.0, d.1), true, true)
        else ok (conn', p.0, (c.1.0, p.1), connect || p.2, p.2) in
      let second = λ (c : List DOption × (Option ℕ × Sched) × Bool).
        adjust_peer_devices devices ctx conn.peer_devices running.peer_devices c.1.0 c.1.1
        >>= last c in
      >>=-Ends (opts_equal fields conn.net_options running.net_options)
        (λ equal. first equal >>= second)
        (opts_equal-Ends fields conn.net_options running.net_options kc.options kr.options)
        (λ equal known.
          >>=-Ends
            {P = λ (c : List DOption × (Option ℕ × Sched) × Bool).
              AllFields fields c.0 × Follows r c.1}
            (first equal) second
            (if_Ends equal.0 (ok (equal.1, r, false))
              (change_conn pton states contexts volumes ctx conn equal.1 running.net_options r)
              ((equal.1, r, false), refl, (known, Follows-self r h))
              (change_conn-Ends ctx conn equal.1 running.net_options r tables known h))
            (λ c (kept, f).
              >>=-Ends
                (adjust_peer_devices devices ctx conn.peer_devices running.peer_devices c.1.0 c.1.1)
                (last c)
                (adjust_peer_devices-Ends devices ctx conn.peer_devices running.peer_devices c.1.0
                  c.1.1 kc.devices kr.devices f.ready)
                (λ d (kd, g).
                  let conn' : Connection = record conn { net_options = c.0; peer_devices = d.0 } in
                  let fd = Follows-trans f (Follows-Grows c.1 d.1 f.ready g) in
                  let p = adjust_paths pton states ctx conn running c.1.0 d.1 in
                  let connect = running.cstate == states.c_standalone in
                  let is_known : IsKnown contexts conn' = record { options = kept; devices = kd } in
                  let new = schedule_next true new_path_cmd ctx (c.1.0, d.1) in
                  if_Ends c.2 (ok (conn', running.paths, new, true, true))
                    (ok (conn', p.0, (c.1.0, p.1), connect || p.2, p.2))
                    (
                      (conn', running.paths, new, true, true),
                      refl,
                      (
                        is_known,
                        Follows-trans fd
                            (schedule_next-Follows true new_path_cmd ctx (c.1.0, d.1) fd.ready),
                      ),
                    )
                    (
                      (conn', p.0, (c.1.0, p.1), connect || p.2, p.2),
                      refl,
                      (
                        is_known,
                        Follows-trans fd (
                            Follows-Grows (c.1.0, d.1) p.1 fd.ready
                              (adjust_paths-Grows pton states ctx conn running c.1.0 d.1 fd.ready)),
                      ),
                    ))))

  pub end_round-Follows :
      (ctx : CfgCtx) (connect : Bool) (r : Option ℕ × Sched)
      → IsReady r
      → Follows r (end_round pton states contexts volumes ctx connect r)
  unfolding end_round
  end_round-Follows ctx connect r h =
      let f = schedule_next-Follows connect connect_cmd ctx r h in
      Follows-trans f (
        schedule_next-Follows connect wait_c_adj_cmd ctx (schedule_next connect connect_cmd ctx r)
          f.ready)
