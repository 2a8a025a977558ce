-- ===== src/Adm/Net/Rounds.antt =====
-- The rounds of adjust_conn() of user/v9/drbdadm_adjust.c.
use drbd_utils.Prelude.{
  ℕ, ◌≡◌, refl, Bool, true, false, not, ◌&&◌, ◌||◌, List, [], ◌∷◌, Option, none, some, Text,
  some_inj, Option-cases, Bool-cases, inl, inr, eq_text, ltb, ok, ◌>>=◌, Ends, >>=-Ends, All,
}
use mathlib.Core.Path.{subst}
use drbd_utils.Adm.Volumes.{Volume}
use drbd_utils.Adm.Deferred.{CfgCtx, Sched}
use drbd_utils.Adm.Commands.{NetPath, Connection}
use drbd_utils.Adm.Disk.Reach.{IsReady}
use drbd_utils.Adm.Net.{ConnStates, InetPton, NetContexts, matching_conn, set_paths}
use drbd_utils.Adm.Net.Adjusted.{
  HasTables, IsKnown, make_conn-Ends, keep_conn-Ends, end_round-Follows,
}
use drbd_utils.Adm.Net.Connections.{
  make_conn, keep_conn, end_round, adjust_one, adjust_conn, Adjusting,
}

abbrev pub AllConns : NetContexts → List Connection → Type 0
AllConns contexts pool = All (λ c. IsKnown contexts c) pool

-- The connections of a resource that may not run.
abbrev pub PoolKnown : NetContexts → Option (List Connection) → Type 0
PoolKnown contexts none = Unit
PoolKnown contexts (some pool) = AllConns contexts pool

matching_conn-IsKnown :
    (contexts : NetContexts) (node_id : Text) (pool : List Connection) (ret_me : Bool)
    (conn : Connection)
    → AllConns contexts pool
    → matching_conn node_id pool ret_me ≡ some conn
    → IsKnown contexts conn
unfolding matching_conn
matching_conn-IsKnown contexts node_id [] ret_me conn h e = cc
matching_conn-IsKnown contexts node_id (c ∷ pool) ret_me conn (a, h) e =
    elim (Bool-cases (ret_me && c.me)) [
      | inl me ↦ subst (λ (x : Connection). IsKnown contexts x) (some_inj (rw me at e)) a
      | inr other ↦ elim (Bool-cases (not c.ignore && eq_text node_id c.node_id)) [
        | inl found ↦
            subst (λ (x : Connection). IsKnown contexts x) (some_inj (rw (other, found) at e)) a
        | inr no_node ↦
            matching_conn-IsKnown contexts node_id pool ret_me conn h (rw (other, no_node) at e)
      ]
    ]

set_paths-IsKnown :
    (contexts : NetContexts) (node_id : Text) (pool : List Connection) (paths : List NetPath)
    → AllConns contexts pool
    → AllConns contexts (set_paths node_id pool paths)
unfolding set_paths
set_paths-IsKnown contexts node_id [] paths h = tt
set_paths-IsKnown contexts node_id (c ∷ pool) paths (a, h) =
    elim (Bool-cases (not c.ignore && eq_text node_id c.node_id)) [
      | inl found ↦ rw found (record { options = a.options; devices = a.devices }, h)
      | inr other ↦ rw other (a, set_paths-IsKnown contexts node_id pool paths h)
    ]

set_paths-PoolKnown :
    (contexts : NetContexts) (node_id : Text) (pool : Option (List Connection))
    (paths : List NetPath)
    → PoolKnown contexts pool
    → PoolKnown contexts (elim pool [ none ↦ none | some p ↦ some (set_paths node_id p paths) ])
set_paths-PoolKnown contexts node_id none paths h = tt
set_paths-PoolKnown contexts node_id (some pool) paths h =
    set_paths-IsKnown contexts node_id pool paths h

-- What holds between the rounds of the loop.
pub record IsSound (contexts : NetContexts) (a : Adjusting) : Type 0 where
  pub pool : PoolKnown contexts a.running
  pub last : IsReady a.last

module _ (pton : InetPton) (states : ConnStates) (contexts : NetContexts)
    (volumes : List Volume) where
  abbrev IsStep : Connection × Adjusting → Type 0
  IsStep r = IsKnown contexts r.0 × IsSound contexts r.1

  adjust_new :
      (ctx : CfgCtx) (conn : Connection) (a : Adjusting)
      → IsKnown contexts conn
      → IsSound contexts a
      → Ends IsStep (
          make_conn pton states contexts volumes ctx conn a.last >>= λ r. ok (
            record conn { adj_seen = true },
            record a { last = end_round pton states contexts volumes ctx true r },
          ))
  adjust_new ctx conn a k h =
      let done = λ (r : Option ℕ × Sched). record a {
        last = end_round pton states contexts volumes ctx true r;
      } in
      >>=-Ends (make_conn pton states contexts volumes ctx conn a.last)
        (λ r. ok (record conn { adj_seen = true }, done r))
        (make_conn-Ends pton states contexts volumes ctx conn a.last h.last)
        (λ r f. (
          (record conn { adj_seen = true }, done r),
          refl,
          (
            record { options = k.options; devices = k.devices },
            record {
              pool = h.pool;
              last = (end_round-Follows pton states contexts volumes ctx true r f.ready).ready;
            },
          ),
        ))

  adjust_running :
      (ctx : CfgCtx) (conn running : Connection) (a : Adjusting)
      → HasTables contexts
      → IsKnown contexts conn
      → IsKnown contexts running
      → IsSound contexts a
      → Ends IsStep (
          keep_conn pton states contexts volumes ctx conn running a.last >>= λ k. ok (
            record k.0 { adj_seen = true },
            record {
              running = elim a.running [
                | none ↦ none
                | some pool ↦ some (set_paths conn.node_id pool k.1)
              ];
              last = end_round pton states contexts volumes ctx k.3 k.2;
              disconnect = a.disconnect || k.4;
            },
          ))
  adjust_running ctx conn running a tables kc kr h =
      let done : Connection × List NetPath × (Option ℕ × Sched) × Bool × Bool
          → Connection × Adjusting =
        λ k.
          let next : Adjusting = record {
            running = elim a.running [
              | none ↦ none
              | some pool ↦ some (set_paths conn.node_id pool k.1)
            ];
            last = end_round pton states contexts volumes ctx k.3 k.2;
            disconnect = a.disconnect || k.4;
          } in
          let seen : Connection = record k.0 { adj_seen = true } in (seen, next) in
      >>=-Ends (keep_conn pton states contexts volumes ctx conn running a.last) (λ k. ok (done k))
        (keep_conn-Ends pton states contexts volumes ctx conn running a.last tables kc kr h.last)
        (λ k (known, f). (
          done k,
          refl,
          (
            record { options = known.options; devices = known.devices },
            record {
              pool = set_paths-PoolKnown contexts conn.node_id a.running k.1 h.pool;
              last = (end_round-Follows pton states contexts volumes ctx k.3 k.2 f.ready).ready;
            },
          ),
        ))

  adjust_one-Ends :
      (ctx : CfgCtx) (max_cstate : ℕ) (conn : Connection) (a : Adjusting)
      → HasTables contexts
      → IsKnown contexts conn
      → IsSound contexts a
      → Ends IsStep (adjust_one pton states contexts volumes ctx max_cstate conn a)
  unfolding adjust_one
  adjust_one-Ends ctx max_cstate conn a tables k h =
      let tmp : CfgCtx = record ctx { conn = conn.ident; vnr = 0; path = 0 } in
      elim (Bool-cases (conn.ignore || conn.adj_seen)) [
        | inl skip ↦ rw skip ((conn, a), refl, (k, h))
        | inr e ↦ elim (Option-cases a.running) [
          | inl absent ↦ rw (e, absent) (adjust_new tmp conn a k h)
          | inr (pool, runs) ↦
              let kp : AllConns contexts pool = subst (PoolKnown contexts) runs h.pool in
              elim (Option-cases (matching_conn conn.node_id pool false)) [
                | inl new ↦ rw (e, runs, new) (adjust_new tmp conn a k h)
                | inr (running, found) ↦
                    let kr =
                      matching_conn-IsKnown contexts conn.node_id pool false running kp found in
                    elim (Bool-cases (ltb max_cstate running.cstate)) [
                      | inl later ↦ rw (e, runs, found, later) ((conn, a), refl, (k, h))
                      | inr now ↦
                          rw (e, runs, found, now) (adjust_running tmp conn running a tables k kr h)
                    ]
              ]
        ]
      ]

  pub adjust_conn-Ends :
      (ctx : CfgCtx) (max_cstate : ℕ) (connections : List Connection) (a : Adjusting)
      → HasTables contexts
      → AllConns contexts connections
      → IsSound contexts a
      → Ends
          (λ (r : List Connection × Adjusting). AllConns contexts r.0 × IsSound contexts r.1)
          (adjust_conn pton states contexts volumes ctx max_cstate connections a)
  unfolding adjust_conn
  adjust_conn-Ends ctx max_cstate [] a tables ks h = (([], a), refl, (tt, h))
  adjust_conn-Ends ctx max_cstate (conn ∷ connections) a tables (k, ks) h =
      let go =
        λ (b : Adjusting). adjust_conn pton states contexts volumes ctx max_cstate connections b in
      >>=-Ends (adjust_one pton states contexts volumes ctx max_cstate conn a)
        (λ r. go r.1 >>= λ t. ok (r.0 ∷ t.0, t.1))
        (adjust_one-Ends ctx max_cstate conn a tables k h)
        (λ r (kr, s).
          >>=-Ends (go r.1) (λ t. ok (r.0 ∷ t.0, t.1))
            (adjust_conn-Ends ctx max_cstate connections r.1 tables ks s)
            (λ t (kt, s'). ((r.0 ∷ t.0, t.1), refl, ((kr, kt), s'))))
