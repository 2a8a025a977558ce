-- ===== src/Tests/Adjust.antt =====
-- drbdadm adjust of a resource with two volumes and two peers, of which one runs with other options
-- and on another path; the kernel has a third peer.
use drbd_utils.Prelude.{
  ℤ, pos, ℕ, zero, suc, ◌≡◌, ◌<◌, ◌||◌, refl, Text, eq_text, Bool, true, false, List, [], ◌∷◌,
  Option, none, some, Result, ok, stop, Ends, arith,
}
use drbd_utils.Adm.Deferred.Done.{IsNonneg}
use drbd_utils.Adm.Options.{del_opt, DOption, FieldDef, field_def_of}
use drbd_utils.Adm.Options.Known.{IsField}
use drbd_utils.Adm.Volumes.{Volume, internal, size_word}
use drbd_utils.Adm.Deferred.{
  CfgCtx, Sched, DeferredCmd, prereq, resource, run_deferred_cmds, schedule_deferred_cmd, always,
  cancel_deferred_waits,
}
use drbd_utils.Adm.Deferred.Reach.{Reach, start}
use drbd_utils.Adm.Deferred.Waits.{WaitsDone, cancel_deferred_waits_lem}
use drbd_utils.Adm.Deferred.Order.{was_called, InOrder}
use drbd_utils.Adm.Commands.{Address, NetPath, Connection, wait_c_adj_cmd}
use drbd_utils.Adm.Net.{
  ConnStates, InetPton, NetContexts, balance_word, transport_word, adjust_paths,
}
use drbd_utils.Adm.Net.{adjust_paths}
use drbd_utils.Adm.Net.Settled.{all_seen, adjust_paths-settled}
use drbd_utils.Adm.Net.Connections.{adjust_net}
use drbd_utils.Adm.Net.Adjusted.{IsKnown}
use drbd_utils.Adm.Net.Rounds.{AllConns}
use drbd_utils.Adm.Net.Done.{adjust_net-Ends}
use drbd_utils.Adm.Adjust.{Resource, AdjustFlags, Surroundings, adjust_drbd}
use drbd_utils.Adm.Adjust.Run.{KnowsTables, IsParsed, adjust_drbd_runs}

abbrev same_option : Option Text → Option Text → Bool
same_option none none = true
same_option (some a) (some b) = eq_text a b
same_option _ _ = false

abbrev field : Text → FieldDef
field name = record {
  name = name;
  same_value = same_option;
  default_value = same_option (some (48 ∷ []));
}

abbrev timeout_word : Text
timeout_word = 116 ∷ []

abbrev net_fields : List FieldDef
net_fields = field balance_word ∷ field transport_word ∷ field timeout_word ∷ []

abbrev size_fields : List FieldDef
size_fields = field size_word ∷ []

abbrev around : Surroundings
around = record {
  is_same_disk = eq_text;
  pton = record { inet4 = λ t. none; inet6 = λ t. none };
  states = record { c_standalone = 0; c_connecting = 2; c_connected = 10 };
  disk_contexts = record {
    attach_cmd_ctx = field size_word ∷ field timeout_word ∷ [];
    disk_options_ctx = field timeout_word ∷ [];
  };
  net_contexts = record {
    show_net_options_ctx = net_fields;
    peer_device_options_ctx = size_fields;
  };
  resource_options_ctx = size_fields;
}

abbrev option : Text → Text → DOption
option name value = record {
  name = name;
  value = some value;
  mentioned = false;
  unknown = false;
  adj_skip = false;
  inherited = false;
}

abbrev volume : ℕ → List DOption → Volume
volume n options = record {
  vnr = n;
  device_minor = n;
  disk = some (97 ∷ []);
  meta_disk = internal;
  meta_index = [];
  disk_options = options;
  adj_del_minor = false;
  adj_new_minor = false;
  adj_detach = false;
  adj_attach = false;
  adj_resize = false;
  adj_disk_opts = false;
}

abbrev address : ℕ → Address
address n = record { addr = n ∷ []; port = 55 ∷ []; af = [] }

abbrev path : ℕ → NetPath
path n = record {
  ident = n;
  my_address = address 1;
  connect_to = address n;
  ignore = false;
  adj_seen = false;
}

abbrev peer : ℕ → List NetPath → List DOption → Connection
peer n paths options = record {
  ident = n;
  ignore = false;
  me = false;
  has_peer = true;
  node_id = n ∷ [];
  peer_devices = record { vnr = 0; pd_options = option size_word (56 ∷ []) ∷ [] } ∷ [];
  peer_volumes = [];
  paths = paths;
  net_options = options;
  cstate = 10;
  adj_seen = false;
}

abbrev timeout : Text → List DOption
timeout value = option timeout_word value ∷ []

abbrev conf : Resource
conf = record {
  ident = 1;
  res_options = option size_word (56 ∷ []) ∷ [];
  volumes =
      volume 0 [] ∷ volume 1 (option size_word (57 ∷ []) ∷ option timeout_word (55 ∷ []) ∷ []) ∷ [];
  connections = peer 5 (path 8 ∷ []) (timeout (56 ∷ [])) ∷ peer 6 [] [] ∷ [];
}

abbrev kernel : Resource
kernel = record {
  ident = 2;
  res_options = option size_word (57 ∷ []) ∷ [];
  volumes = volume 1 (option size_word (56 ∷ []) ∷ []) ∷ [];
  connections = peer 5 (path 9 ∷ []) (timeout (57 ∷ [])) ∷ peer 7 [] [] ∷ [];
}

abbrev context : CfgCtx
context = record {
  cmd = record { ident = 0; stage = prereq };
  res = 1;
  res_name = 114 ∷ 48 ∷ [];
  conn = 0;
  vnr = 0;
  path = 0;
}

abbrev nothing : Sched
nothing = record {
  count = 0;
  cmd = λ i. record { ctx = context; depends_on = none };
  done = λ i. false;
  scheduled = 0;
  executed = 0;
  skip = λ q. false;
  calls = [];
}

nothing-Reach : Reach nothing
nothing-Reach = start nothing refl refl refl (λ q. refl) refl

size-IsField : IsField size_fields size_word
unfolding field_def_of eq_text
size-IsField = (field size_word, refl, tt)

timeout-IsField : IsField net_fields timeout_word
unfolding field_def_of eq_text
timeout-IsField = (field timeout_word, refl, tt)

tables : KnowsTables around
unfolding field_def_of eq_text
tables = record {
  size = (field size_word, refl, tt);
  net = record {
    balance = (field balance_word, refl, tt);
    transport = (field transport_word, refl, tt);
  };
}

peer-IsKnown : (n : ℕ) (paths : List NetPath) → IsKnown around.net_contexts (peer n paths [])
peer-IsKnown n paths = record { options = tt; devices = ((size-IsField, tt), tt) }

timeout-IsKnown :
    (n : ℕ) (paths : List NetPath) (value : Text)
    → IsKnown around.net_contexts (peer n paths (timeout value))
timeout-IsKnown n paths value = record {
  options = (timeout-IsField, tt);
  devices = ((size-IsField, tt), tt);
}

disk_timeout-IsField : IsField around.disk_contexts.disk_options_ctx timeout_word
unfolding field_def_of eq_text
disk_timeout-IsField = (field timeout_word, refl, tt)

conf-IsParsed : IsParsed around conf
unfolding del_opt eq_text
conf-IsParsed = record {
  options = (size-IsField, tt);
  known = (tt, ((disk_timeout-IsField, tt), tt));
  rising = ((omega arith, tt), (tt, tt));
  connections = (timeout-IsKnown 5 (path 8 ∷ []) (56 ∷ []), (peer-IsKnown 6 [], tt));
}

kernel-IsParsed : IsParsed around kernel
unfolding del_opt eq_text
kernel-IsParsed = record {
  options = (size-IsField, tt);
  known = (tt, tt);
  rising = (tt, tt);
  connections = (timeout-IsKnown 5 (path 9 ∷ []) (57 ∷ []), (peer-IsKnown 7 [], tt));
}

abbrev both : AdjustFlags
both = record { disk = true; net = true }

-- Every call succeeds.
abbrev call : List ℕ → DeferredCmd → ℤ
call calls d = pos 0

-- The commands of the queue, with what they depend on and whether they are cancelled.
abbrev listed : Sched → ℕ → List (ℕ × Option ℕ × Bool)
listed s zero = []
listed s (suc n) = ((s.cmd n).ctx.cmd.ident, (s.cmd n).depends_on, s.done n) ∷ listed s n

abbrev queue_of : Result (Resource × Sched) → List (ℕ × Option ℕ × Bool)
queue_of (stop code) = []
queue_of (ok r) = listed r.1 r.1.count

adjust_listed :
    queue_of (adjust_drbd around both context none conf (some kernel) nothing)
    ≡ (15, some 16, false)
      ∷ (19, some 15, false)
      ∷ (6, some 10, false)
      ∷ (18, some 13, false)
      ∷ (16, some 10, false)
      ∷ (5, some 10, false)
      ∷ (17, some 10, false)
      ∷ (19, some 9, false)
      ∷ (6, some 7, false)
      ∷ (5, some 7, false)
      ∷ (4, some 1, false)
      ∷ (12, some 1, false)
      ∷ (10, some 1, false)
      ∷ (3, some 1, false)
      ∷ (21, some 2, false)
      ∷ (21, some 1, false)
      ∷ (2, some 0, false)
      ∷ (20, none, false)
      ∷ []
unfolding adjust_drbd eq_text drbd_utils.Adm.Net.addresses_equal
adjust_listed = refl

call-IsNonneg : IsNonneg call
call-IsNonneg before d pre = refl

adjust_drbd_runs_example :
    Ends
      (λ (t : Resource × Sched).
        (r : Sched × ℕ) × (run_deferred_cmds call false t.1 ≡ some r)
        × InOrder call t.1 r.0.calls
        × (r.1 ≡ 0 → (i : ℕ) → i < t.1.count → (t.1.done i || was_called i r.0.calls) ≡ true))
      (adjust_drbd around both context none conf (some kernel) nothing)
adjust_drbd_runs_example =
    adjust_drbd_runs around both context none conf (some kernel) nothing call false tables
      conf-IsParsed kernel-IsParsed call-IsNonneg nothing-Reach

adjust_net-Ends_example :
    Ends
      (λ (t : List Connection × Sched). AllConns around.net_contexts t.0 × Reach t.1)
      (adjust_net around.pton around.states around.net_contexts conf.volumes context
        conf.connections
        (some (2, kernel.connections))
        (none, nothing))
adjust_net-Ends_example =
    adjust_net-Ends around.pton around.states around.net_contexts conf.volumes context
      conf.connections (some (2, kernel.connections)) (none, nothing) tables.net
      conf-IsParsed.connections kernel-IsParsed.connections
      (record { reach = nothing-Reach; below = λ j e. cc })

-- A queue with two commands, the second of which waits.
abbrev waiting : Sched
waiting =
    (schedule_deferred_cmd wait_c_adj_cmd context none always
      (schedule_deferred_cmd (record { ident = 20; stage = resource }) context none always
        nothing).1).1

cancel_deferred_waits_lem_example :
    WaitsDone 1 waiting.count waiting (cancel_deferred_waits 1 waiting)
cancel_deferred_waits_lem_example = cancel_deferred_waits_lem 1 waiting

waits_listed :
    listed (cancel_deferred_waits 1 waiting) 2 ≡ (19, none, true) ∷ (20, none, false) ∷ []
unfolding cancel_deferred_waits schedule_deferred_cmd
waits_listed = refl

adjust_paths-settled_example :
    adjust_paths around.pton around.states context
      (peer 5 (path 8 ∷ path 9 ∷ []) [])
      (peer 5 (path 8 ∷ path 9 ∷ []) [])
      none
      nothing
    ≡ (all_seen (path 8 ∷ path 9 ∷ []), nothing, false)
unfolding drbd_utils.Adm.Net.addresses_equal eq_text
adjust_paths-settled_example =
    adjust_paths-settled around.pton around.states context (peer 5 (path 8 ∷ path 9 ∷ []) [])
      (peer 5 (path 8 ∷ path 9 ∷ []) []) none nothing (refl, refl, (refl, tt), (refl, refl, tt, tt))
