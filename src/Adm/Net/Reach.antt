-- ===== src/Adm/Net/Reach.antt =====
-- The functions of user/v9/drbdadm_adjust.c for paths and peer devices: what they schedule.
use drbd_utils.Prelude.{
  ℕ, ◌≤◌, ◌<◌, ◌≡◌, refl, Bool, true, false, not, ◌&&◌, List, [], ◌∷◌, Option, none, some, some_inj,
  Option-cases, Bool-cases, inl, inr, ◌==◌, if◌then◌else◌, ok, ◌>>=◌, Ends, >>=-Ends, All, arith,
}
use mathlib.Core.Path.{subst}
use native.Mathlib.Nat.{le_trans}
use drbd_utils.Adm.Options.{FieldDef, opts_equal}
use drbd_utils.Adm.Options.Known.{AllFields, opts_equal-Ends}
use drbd_utils.Adm.Deferred.{AdmCmd, CfgCtx, Sched, Flags, always, schedule_once}
use drbd_utils.Adm.Deferred.Reach.{Reach}
use drbd_utils.Adm.Commands.{
  new_path_cmd, disconnect_cmd, del_path_cmd, peer_device_options_defaults_cmd, PeerDevice, NetPath,
  Connection,
}
use drbd_utils.Adm.Disk.{adj_schedule_deferred_cmd, schedule_if, schedule_next}
use drbd_utils.Adm.Disk.Reach.{IsReady, adj_schedule-Reach}
use drbd_utils.Adm.Net.{
  ConnStates, InetPton, find_path_by_addrs, see_path, add_paths, is_one, any_unseen, del_paths,
  adjust_paths, matching_peer_device, adjust_peer_devices,
}

-- From the queue `s` to the queue `t`.
pub record Grows (s t : Sched) : Type 0 where
  pub reach : Reach t
  pub grows : s.count ≤ t.count

pub Grows-trans : {s t u : Sched} → Grows s t → Grows t u → Grows s u
Grows-trans a b = record { reach = b.reach; grows = le_trans a.grows b.grows }

pub IsReady-Grows :
    (depends_on : Option ℕ) (s t : Sched)
    → IsReady (depends_on, s)
    → Grows s t
    → IsReady (depends_on, t)
IsReady-Grows depends_on s t h g = record {
  reach = g.reach;
  below = λ j e. omega (arith, h.below j e, g.grows);
}

pub IsReady-self : (r : Option ℕ × Sched) → IsReady r → Grows r.1 r.1
IsReady-self r h = record { reach = h.reach; grows = omega arith }

pub adj_schedule-Grows :
    (cmd : AdmCmd) (ctx : CfgCtx) (depends_on : Option ℕ) (flags : Flags) (s : Sched)
    → IsReady (depends_on, s)
    → Grows s (adj_schedule_deferred_cmd cmd ctx depends_on flags s).1
adj_schedule-Grows cmd ctx depends_on flags s h =
    let (r, lt, le) = adj_schedule-Reach cmd ctx depends_on flags s h in
    record { reach = r; grows = le }

pub schedule_if-Grows :
    (flag : Bool) (cmd : AdmCmd) (ctx : CfgCtx) (depends_on : Option ℕ) (s : Sched)
    → IsReady (depends_on, s)
    → Grows s (schedule_if flag cmd ctx depends_on s)
unfolding schedule_if
schedule_if-Grows false cmd ctx depends_on s h = IsReady-self (depends_on, s) h
schedule_if-Grows true cmd ctx depends_on s h = adj_schedule-Grows cmd ctx depends_on always s h

-- A step to a queue with a command to depend on.
pub record Follows (r t : Option ℕ × Sched) : Type 0 where
  pub ready : IsReady t
  pub grows : Grows r.1 t.1

pub Follows-trans : {r t u : Option ℕ × Sched} → Follows r t → Follows t u → Follows r u
Follows-trans a b = record { ready = b.ready; grows = Grows-trans a.grows b.grows }

pub Follows-self : (r : Option ℕ × Sched) → IsReady r → Follows r r
Follows-self r h = record { ready = h; grows = IsReady-self r h }

pub Follows-Grows :
    (r : Option ℕ × Sched) (t : Sched) → IsReady r → Grows r.1 t → Follows r (r.0, t)
Follows-Grows (depends_on, s) t h g = record { ready = IsReady-Grows depends_on s t h g; grows = g }

-- The command that a call returns, and the queue.
pub adj_schedule-Follows :
    (cmd : AdmCmd) (ctx : CfgCtx) (flags : Flags) (r : Option ℕ × Sched)
    → IsReady r
    → Follows r (
      some (adj_schedule_deferred_cmd cmd ctx r.0 flags r.1).0,
      (adj_schedule_deferred_cmd cmd ctx r.0 flags r.1).1,
    )
adj_schedule-Follows cmd ctx flags (depends_on, s) h =
    let (r, lt, le) = adj_schedule-Reach cmd ctx depends_on flags s h in
    record {
      ready = record {
        reach = r;
        below = λ j e.
            subst (λ n. n < (adj_schedule_deferred_cmd cmd ctx depends_on flags s).1.count)
              (some_inj e) lt;
      };
      grows = record { reach = r; grows = le };
    }

pub schedule_next-Follows :
    (flag : Bool) (cmd : AdmCmd) (ctx : CfgCtx) (r : Option ℕ × Sched)
    → IsReady r
    → Follows r (schedule_next flag cmd ctx r)
unfolding schedule_next
schedule_next-Follows false cmd ctx (depends_on, s) h = Follows-self (depends_on, s) h
schedule_next-Follows true cmd ctx (depends_on, s) h =
    adj_schedule-Follows cmd ctx always (depends_on, s) h

add_paths-Grows :
    (pton : InetPton) (configured running : List NetPath) (depends_on : Option ℕ) (ctx : CfgCtx)
    (s : Sched)
    → IsReady (depends_on, s)
    → Grows s (add_paths pton configured running depends_on (ctx, s)).2
unfolding add_paths
add_paths-Grows pton [] running depends_on ctx s h = IsReady-self (depends_on, s) h
add_paths-Grows pton (path ∷ configured) running depends_on ctx s h =
    let tmp : CfgCtx = record ctx { path = path.ident } in
    let t = schedule_if true new_path_cmd tmp depends_on s in
    let seen = if path.ignore then running else see_path pton running path in
    let add : Bool = elim (find_path_by_addrs pton running path) [ none ↦ true | some p ↦ false ] in
    let g = schedule_if-Grows true new_path_cmd tmp depends_on s h in
    elim (Bool-cases (not path.ignore && add)) [
      | inl e ↦
          rw (e, add_paths)
            (Grows-trans g (
              add_paths-Grows pton configured seen depends_on tmp t
                (IsReady-Grows depends_on s t h g)))
      | inr e ↦ rw (e, add_paths) (add_paths-Grows pton configured seen depends_on ctx s h)
    ]

del_paths-Grows :
    (ctx : CfgCtx) (paths : List NetPath) (depends_on : Option ℕ) (s : Sched)
    → IsReady (depends_on, s)
    → Grows s (del_paths ctx paths depends_on s)
unfolding del_paths
del_paths-Grows ctx [] depends_on s h = IsReady-self (depends_on, s) h
del_paths-Grows ctx (path ∷ paths) depends_on s h =
    let tmp : CfgCtx = record ctx { path = path.ident } in
    let t = schedule_if (not path.adj_seen) del_path_cmd tmp depends_on s in
    let g = schedule_if-Grows (not path.adj_seen) del_path_cmd tmp depends_on s h in
    Grows-trans g (del_paths-Grows ctx paths depends_on t (IsReady-Grows depends_on s t h g))

pub adjust_paths-Grows :
    (pton : InetPton) (states : ConnStates) (ctx : CfgCtx) (conf running : Connection)
    (depends_on : Option ℕ) (s : Sched)
    → IsReady (depends_on, s)
    → Grows s (adjust_paths pton states ctx conf running depends_on s).1
unfolding adjust_paths
adjust_paths-Grows pton states ctx conf running depends_on s h =
    let a = add_paths pton conf.paths running.paths depends_on (ctx, s) in
    let last = is_one a.0 && any_unseen a.0 in
    let flag = last && not (running.cstate == states.c_standalone) in
    let d = schedule_next flag disconnect_cmd a.1 (depends_on, a.2) in
    let g = add_paths-Grows pton conf.paths running.paths depends_on ctx s h in
    let f =
      schedule_next-Follows flag disconnect_cmd a.1 (depends_on, a.2)
        (IsReady-Grows depends_on s a.2 h g) in
    Grows-trans g (Grows-trans f.grows (del_paths-Grows a.1 a.0 d.0 d.1 f.ready))

-- The options of all peer devices are ones of the table.
abbrev pub HasOptions : List FieldDef → List PeerDevice → Type 0
HasOptions fields pds = All (λ pd. AllFields fields pd.pd_options) pds

matching-AllFields :
    (fields : List FieldDef) (vnr : ℕ) (pool : List PeerDevice) (pd : PeerDevice)
    → HasOptions fields pool
    → matching_peer_device vnr pool ≡ some pd
    → AllFields fields pd.pd_options
unfolding matching_peer_device
matching-AllFields fields vnr [] pd h e = cc
matching-AllFields fields vnr (p ∷ pool) pd (a, h) e = elim (Bool-cases (vnr == p.vnr)) [
  | inl same ↦ subst (λ (x : PeerDevice). AllFields fields x.pd_options) (some_inj (rw same at e)) a
  | inr other ↦ matching-AllFields fields vnr pool pd h (rw other at e)
]

pub adjust_peer_devices-Ends :
    (fields : List FieldDef) (ctx : CfgCtx) (pds running : List PeerDevice) (depends_on : Option ℕ)
    (s : Sched)
    → HasOptions fields pds
    → HasOptions fields running
    → IsReady (depends_on, s)
    → Ends
        (λ (r : List PeerDevice × Sched). HasOptions fields r.0 × Grows s r.1)
        (adjust_peer_devices fields ctx pds running depends_on s)
unfolding adjust_peer_devices
adjust_peer_devices-Ends fields ctx [] running depends_on s hc hr h =
    (([], s), refl, (tt, IsReady-self (depends_on, s) h))
adjust_peer_devices-Ends fields ctx (pd ∷ rest) running depends_on s (a, hc) hr h =
    let tmp : CfgCtx = record ctx { vnr = pd.vnr } in
    let cmd = peer_device_options_defaults_cmd in
    elim (Option-cases (matching_peer_device pd.vnr running)) [
      | inl absent ↦
          let t = (adj_schedule_deferred_cmd cmd tmp depends_on schedule_once s).1 in
          let g = adj_schedule-Grows cmd tmp depends_on schedule_once s h in
          rw (absent, adjust_peer_devices)
            (>>=-Ends (adjust_peer_devices fields ctx rest running depends_on t)
              (λ r. ok (pd ∷ r.0, r.1))
              (adjust_peer_devices-Ends fields ctx rest running depends_on t hc hr
                (IsReady-Grows depends_on s t h g))
              (λ r (k, g'). ((pd ∷ r.0, r.1), refl, ((a, k), Grows-trans g g'))))
      | inr (q, found) ↦
          let known = matching-AllFields fields pd.vnr running q hr found in
          rw (found, adjust_peer_devices)
            (>>=-Ends (opts_equal fields pd.pd_options q.pd_options)
              (λ equal.
                adjust_peer_devices fields ctx rest running depends_on
                  (schedule_if (not equal.0) cmd tmp depends_on s)
                >>= λ r. ok (record pd { pd_options = equal.1 } ∷ r.0, r.1))
              (opts_equal-Ends fields pd.pd_options q.pd_options a known)
              (λ equal kept.
                let t = schedule_if (not equal.0) cmd tmp depends_on s in
                let g = schedule_if-Grows (not equal.0) cmd tmp depends_on s h in
                >>=-Ends (adjust_peer_devices fields ctx rest running depends_on t)
                  (λ r. ok (record pd { pd_options = equal.1 } ∷ r.0, r.1))
                  (adjust_peer_devices-Ends fields ctx rest running depends_on t hc hr
                    (IsReady-Grows depends_on s t h g))
                  (λ r (k, g'). (
                    (record pd { pd_options = equal.1 } ∷ r.0, r.1),
                    refl,
                    ((kept, k), Grows-trans g g'),
                  ))))
    ]
