-- ===== src/Adm/Net/Done.antt =====
-- adjust_net() of user/v9/drbdadm_adjust.c as a whole.
use drbd_utils.Prelude.{
  ℕ, ◌≡◌, refl, Bool, true, false, ◌&&◌, ◌||◌, List, [], ◌∷◌, Option, none, some, Option-cases,
  Bool-cases, inl, inr, if◌then◌else◌, ok, ◌>>=◌, Ends, >>=-Ends, arith,
}
use drbd_utils.Adm.Volumes.{Volume}
use drbd_utils.Adm.Deferred.{CfgCtx, Sched, cancel_deferred_waits}
use drbd_utils.Adm.Deferred.Waits.{cancel_deferred_waits_lem}
use drbd_utils.Adm.Deferred.Reach.{Reach, cancel, cancel_waits}
use drbd_utils.Adm.Commands.{del_peer_cmd, Connection}
use drbd_utils.Adm.Disk.{schedule_next}
use drbd_utils.Adm.Disk.Reach.{IsReady, next-IsReady}
use drbd_utils.Adm.Net.{ConnStates, InetPton, NetContexts, matching_conn}
use drbd_utils.Adm.Net.Adjusted.{HasTables}
use drbd_utils.Adm.Net.Connections
use drbd_utils.Adm.Net.Connections.{
  make_conn, keep_conn, end_round, adjust_one, adjust_conn, any_connected, del_conns, is_wait,
  adjust_net, Adjusting,
}
use drbd_utils.Adm.Net.Rounds.{AllConns, PoolKnown, adjust_conn-Ends}

module _ (pton : InetPton) (states : ConnStates) (contexts : NetContexts)
    (volumes : List Volume) where
  del_conns-IsReady :
      (ctx : CfgCtx) (running_res : ℕ) (connections pool : List Connection) (r : Option ℕ × Sched)
      (disconnect : Bool)
      → IsReady r
      → IsReady
          (del_conns pton states contexts volumes ctx running_res connections pool
            (r, disconnect)).0
  unfolding del_conns
  del_conns-IsReady ctx running_res connections [] r disconnect h = h
  del_conns-IsReady ctx running_res connections (conn ∷ pool) r disconnect h =
      let tmp : CfgCtx = record ctx { res = running_res; conn = conn.ident; vnr = 0; path = 0 } in
      let gone : Bool = elim (matching_conn conn.node_id connections true) [
        | none ↦ true
        | some c ↦ false
      ] in
      del_conns-IsReady ctx running_res connections pool (schedule_next gone del_peer_cmd tmp r)
        (disconnect || gone) (next-IsReady gone del_peer_cmd tmp r h)

  waits-Reach :
      (res : ℕ) (keep : Bool) (s : Sched)
      → Reach s
      → Reach (if keep then s else cancel_deferred_waits res s)
  waits-Reach res true s h = h
  waits-Reach res false s h = cancel_waits res h

  waits-count :
      (res : ℕ) (keep : Bool) (s : Sched)
      → (if keep then s else cancel_deferred_waits res s).count ≡ s.count
  waits-count res true s = refl
  waits-count res false s = (cancel_deferred_waits_lem res s).count

  cancel_waits-Reach :
      (res : ℕ) (keep : Bool) (r : Option ℕ × Sched)
      → IsReady r
      → Reach (Connections.cancel_waits pton states contexts volumes res keep r)
  unfolding Connections.cancel_waits
  cancel_waits-Reach res keep (none, s) h = waits-Reach res keep s h.reach
  cancel_waits-Reach res keep (some i, s) h =
      let t = if keep then s else cancel_deferred_waits res s in
      let reach = waits-Reach res keep s h.reach in
      elim (Bool-cases (is_wait pton states contexts volumes (some i) t)) [
        | inl e ↦ rw e (cancel i (omega (arith, h.below i refl, waits-count res keep s)) reach)
        | inr e ↦ rw e reach
      ]

  end-Reach :
      (ctx : CfgCtx) (connections : List Connection) (running : Option (ℕ × List Connection))
      (b : Adjusting)
      → IsReady b.last
      → let d : (Option ℕ × Sched) × Bool = elim running [
        | none ↦ (b.last, b.disconnect)
        | some x ↦ elim b.running [
          | none ↦ (b.last, b.disconnect)
          | some pool ↦
              del_conns pton states contexts volumes ctx x.0 connections pool (b.last, b.disconnect)
        ]
      ] in
        IsReady d.0
  end-Reach ctx connections none b h = h
  end-Reach ctx connections (some x) b h = elim (Option-cases b.running) [
    | inl e ↦ rw e h
    | inr (pool, e) ↦ rw e (del_conns-IsReady ctx x.0 connections pool b.last b.disconnect h)
  ]

  -- When the tables have the options of the connections, the configured and the running ones, and of
  -- their peer devices, adjust_net() goes on to its end: from a queue that scheduling and cancelling
  -- lead to, and a command of it (or none) to depend on, it leads to such a queue.
  pub adjust_net-Ends :
      (ctx : CfgCtx) (connections : List Connection) (running : Option (ℕ × List Connection))
      (r : Option ℕ × Sched)
      → HasTables contexts
      → AllConns contexts connections
      → PoolKnown contexts (elim running [ none ↦ none | some x ↦ some x.1 ])
      → IsReady r
      → Ends
          (λ (t : List Connection × Sched). AllConns contexts t.0 × Reach t.1)
          (adjust_net pton states contexts volumes ctx connections running r)
  unfolding adjust_net
  adjust_net-Ends ctx connections running r tables ks kp h =
      let pool : Option (List Connection) = elim running [ none ↦ none | some x ↦ some x.1 ] in
      let one_was_connected : Bool = elim running [
        | none ↦ false
        | some x ↦ any_connected pton states contexts volumes x.1
      ] in
      let first : Adjusting = record { running = pool; last = r; disconnect = false } in
      let at_end : List Connection × Adjusting → List Connection × Sched = λ b.
        let d : (Option ℕ × Sched) × Bool = elim running [
          | none ↦ (b.1.last, b.1.disconnect)
          | some x ↦ elim b.1.running [
            | none ↦ (b.1.last, b.1.disconnect)
            | some pool' ↦
                del_conns pton states contexts volumes ctx x.0 b.0 pool' (b.1.last, b.1.disconnect)
          ]
        ] in
        (
          b.0,
          Connections.cancel_waits pton states contexts volumes ctx.res (d.1 && one_was_connected)
              d.0,
        ) in
      let go = λ (max_cstate : ℕ) (cs : List Connection) (a : Adjusting).
        adjust_conn pton states contexts volumes ctx max_cstate cs a in
      >>=-Ends (go states.c_connecting connections first)
        (λ a. go states.c_connected a.0 a.1 >>= λ b. ok (at_end b))
        (adjust_conn-Ends pton states contexts volumes ctx states.c_connecting connections first
          tables ks (record { pool = kp; last = h }))
        (λ a (ka, ha).
          >>=-Ends (go states.c_connected a.0 a.1) (λ b. ok (at_end b))
            (adjust_conn-Ends pton states contexts volumes ctx states.c_connected a.0 a.1 tables ka
              ha)
            (λ b (kb, hb).
              let d : (Option ℕ × Sched) × Bool = elim running [
                | none ↦ (b.1.last, b.1.disconnect)
                | some x ↦ elim b.1.running [
                  | none ↦ (b.1.last, b.1.disconnect)
                  | some pool' ↦
                      del_conns pton states contexts volumes ctx x.0 b.0 pool'
                        (b.1.last, b.1.disconnect)
                ]
              ] in
              (
                at_end b,
                refl,
                (
                  kb,
                  cancel_waits-Reach ctx.res (d.1 && one_was_connected) d.0
                      (end-Reach ctx b.0 running b.1 hb.last),
                ),
              )))
