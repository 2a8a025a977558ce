-- ===== src/Adm/Net.antt =====
-- user/v9/drbdadm_adjust.c: the commands that bring the paths and the peer devices of a resource from the running to
-- the configured state, and the comparison of addresses in user/v9/drbdadm_postparse.c. What
-- inet_pton() makes of an address is a parameter, and so are the tables of fields. volume_by_vnr() is
-- taken to find the volume of a peer device.
pub mod Connections
pub mod Reach
pub mod Adjusted
pub mod Rounds
pub mod Done
pub mod Settled
use drbd_utils.Prelude.{
  ℕ, ◌+◌, Text, eq_text, Bool, true, false, not, ◌&&◌, ◌||◌, List, [], ◌∷◌, Option, none, some, ltb,
  leb, ◌==◌, if◌then◌else◌, Result, stop, ok, exit, ◌>>=◌,
}
use drbd_utils.Adm.Options.{DOption, FieldDef, del_opt, opts_equal, opt_equal}
use drbd_utils.Adm.Volumes.{Volume}
use drbd_utils.Adm.Deferred.{
  AdmCmd, CfgCtx, Sched, always, schedule_once, cancel_deferred_cmd, cancel_deferred_waits,
}
use drbd_utils.Adm.Commands.{
  new_peer_cmd, new_path_cmd, connect_cmd, del_peer_cmd, disconnect_cmd, net_options_defaults_cmd,
  del_path_cmd, wait_c_adj_cmd, peer_device_options_defaults_cmd, PeerDevice, Address, NetPath,
  Connection, is_empty,
}
use drbd_utils.Adm.Disk.{adj_schedule_deferred_cmd, schedule_if, schedule_next}

-- What the files of the kernel's headers define of enum drbd_conn_state.
pub record ConnStates : Type 0 where
  pub c_standalone : ℕ
  pub c_connecting : ℕ
  pub c_connected : ℕ

-- inet_pton() for AF_INET and for AF_INET6: the number of an address.
pub record InetPton : Type 0 where
  pub inet4 : Text → Option ℕ
  pub inet6 : Text → Option ℕ

-- The tables that the comparison of a connection uses.
pub record NetContexts : Type 0 where
  pub show_net_options_ctx : List FieldDef
  pub peer_device_options_ctx : List FieldDef

abbrev pub ipv4_word : Text
ipv4_word = 105 ∷ 112 ∷ 118 ∷ 52 ∷ []

abbrev pub ipv6_word : Text
ipv6_word = 105 ∷ 112 ∷ 118 ∷ 54 ∷ []

abbrev pub transport_word : Text
transport_word = 116 ∷ 114 ∷ 97 ∷ 110 ∷ 115 ∷ 112 ∷ 111 ∷ 114 ∷ 116 ∷ []

-- "load-balance-paths"
abbrev pub balance_word : Text
balance_word =
    108 ∷ 111 ∷ 97 ∷ 100 ∷ 45 ∷ 98 ∷ 97 ∷ 108 ∷ 97 ∷ 110 ∷ 99 ∷ 101 ∷ 45 ∷ 112 ∷ 97 ∷ 116 ∷ 104
    ∷ 115 ∷ []

-- The letters of ASCII
abbrev pub to_lower : ℕ → ℕ
to_lower c = if leb 65 c && leb c 90 then c + 32 else c

-- `!strcasecmp(a, b)`
unfoldable pub eq_nocase : Text → Text → Bool
eq_nocase [] [] = true
eq_nocase [] (d ∷ b) = false
eq_nocase (c ∷ a) [] = false
eq_nocase (c ∷ a) (d ∷ b) = to_lower c == to_lower d && eq_nocase a b

-- ipv4_addresses_match() and ipv6_addresses_match()
unfoldable pub addresses_match : (Text → Option ℕ) → Text → Text → Bool
addresses_match pton a b = elim (pton a) [
  | none ↦ false
  | some x ↦ elim (pton b) [ none ↦ false | some y ↦ x == y ]
]

-- `addresses_cmp(a, b) == 0`
unfoldable pub addresses_equal : InetPton → Address → Address → Bool
unfolding addresses_match eq_nocase
addresses_equal pton a b =
    let ips_match =
      if eq_nocase a.af ipv4_word && eq_nocase b.af ipv4_word
      then addresses_match pton.inet4 a.addr b.addr
      else if eq_nocase a.af ipv6_word && eq_nocase b.af ipv6_word
      then addresses_match pton.inet6 a.addr b.addr
      else false in
    (ips_match || eq_text a.addr b.addr) && eq_text a.port b.port && eq_text a.af b.af

abbrev pub is_pattern : InetPton → NetPath → NetPath → Bool
is_pattern pton pattern path =
    addresses_equal pton path.my_address pattern.my_address
    && addresses_equal pton path.connect_to pattern.connect_to

unfoldable pub find_path_by_addrs : InetPton → List NetPath → NetPath → Option NetPath
find_path_by_addrs pton [] pattern = none
find_path_by_addrs pton (path ∷ paths) pattern =
    if is_pattern pton pattern path then some path else find_path_by_addrs pton paths pattern

-- `running_path->adj_seen = 1` for the path that find_path_by_addrs() finds
unfoldable pub see_path : InetPton → List NetPath → NetPath → List NetPath
see_path pton [] pattern = []
see_path pton (path ∷ paths) pattern =
    if is_pattern pton pattern path
    then record path { adj_seen = true } ∷ paths
    else path ∷ see_path pton paths pattern

-- The first loop of adjust_paths(): the running paths, and the context with the last new path.
unfoldable pub add_paths :
    InetPton
    → List NetPath
    → List NetPath
    → Option ℕ
    → CfgCtx × Sched
    → List NetPath × CfgCtx × Sched
unfolding find_path_by_addrs see_path
add_paths pton [] running depends_on (ctx, s) = (running, ctx, s)
add_paths pton (path ∷ configured) running depends_on (ctx, s) =
    let tmp : CfgCtx = record ctx { path = path.ident } in
    let new : CfgCtx × Sched = (tmp, schedule_if true new_path_cmd tmp depends_on s) in
    let add : Bool = elim (find_path_by_addrs pton running path) [ none ↦ true | some p ↦ false ] in
    add_paths pton configured (if path.ignore then running else see_path pton running path)
      depends_on (if not path.ignore && add then new else (ctx, s))

abbrev pub any_unseen : List NetPath → Bool
any_unseen [] = false
any_unseen (path ∷ paths) = not path.adj_seen || any_unseen paths

abbrev pub is_one : List NetPath → Bool
is_one [] = false
is_one (path ∷ []) = true
is_one (path ∷ other ∷ paths) = false

-- The last loop of adjust_paths()
unfoldable pub del_paths : CfgCtx → List NetPath → Option ℕ → Sched → Sched
del_paths ctx [] depends_on s = s
del_paths ctx (path ∷ paths) depends_on s =
    del_paths ctx paths depends_on
      (schedule_if (not path.adj_seen) del_path_cmd (record ctx { path = path.ident }) depends_on s)

-- The running paths, the state and what the call returns.
unfoldable pub adjust_paths :
    InetPton
    → ConnStates
    → CfgCtx
    → Connection
    → Connection
    → Option ℕ
    → Sched
    → List NetPath × Sched × Bool
unfolding add_paths del_paths
adjust_paths pton states ctx conf running depends_on s =
    let a = add_paths pton conf.paths running.paths depends_on (ctx, s) in
    let last = is_one a.0 && any_unseen a.0 in
    let d =
      schedule_next (last && not (running.cstate == states.c_standalone)) disconnect_cmd a.1
        (depends_on, a.2) in
    (a.0, del_paths a.1 a.0 d.0 d.1, last)

unfoldable pub matching_conn : Text → List Connection → Bool → Option Connection
matching_conn node_id [] ret_me = none
matching_conn node_id (conn ∷ pool) ret_me =
    if ret_me && conn.me
    then some conn
    else if not conn.ignore && eq_text node_id conn.node_id
    then some conn
    else matching_conn node_id pool ret_me

-- The paths of the connection that `matching_conn(.., false)` finds
unfoldable pub set_paths : Text → List Connection → List NetPath → List Connection
set_paths node_id [] paths = []
set_paths node_id (conn ∷ pool) paths =
    if not conn.ignore && eq_text node_id conn.node_id
    then record conn { paths = paths } ∷ pool
    else conn ∷ set_paths node_id pool paths

unfoldable pub matching_peer_device : ℕ → List PeerDevice → Option PeerDevice
matching_peer_device vnr [] = none
matching_peer_device vnr (pd ∷ pool) =
    if vnr == pd.vnr then some pd else matching_peer_device vnr pool

-- The devices of the configured connection after the call, with what opts_equal() did to them.
unfoldable pub adjust_peer_devices :
    List FieldDef
    → CfgCtx
    → List PeerDevice
    → List PeerDevice
    → Option ℕ
    → Sched
    → Result (List PeerDevice × Sched)
unfolding matching_peer_device
adjust_peer_devices fields ctx [] running depends_on s = ok ([], s)
adjust_peer_devices fields ctx (pd ∷ rest) running depends_on s =
    let tmp : CfgCtx = record ctx { vnr = pd.vnr } in
    let cmd = peer_device_options_defaults_cmd in
    elim (matching_peer_device pd.vnr running) [
      | none ↦
          adjust_peer_devices fields ctx rest running depends_on
            (adj_schedule_deferred_cmd cmd tmp depends_on schedule_once s).1
          >>= λ r. ok (pd ∷ r.0, r.1)
      | some running_pd ↦ opts_equal fields pd.pd_options running_pd.pd_options >>= (λ equal.
          adjust_peer_devices fields ctx rest running depends_on
            (schedule_if (not equal.0) cmd tmp depends_on s)
          >>= λ r. ok (record pd { pd_options = equal.1 } ∷ r.0, r.1))
    ]
