-- ===== src/Tests/Up.antt =====
-- drbdadm up of a resource with two volumes, one of them without a disk, and one peer; and the
-- commands for a volume whose disk has changed.
use drbd_utils.Prelude.{
  ℤ, pos, inl, ◌==◌, if◌then◌else◌, ℕ, zero, suc, ◌≡◌, refl, Bool, true, false, List, [], ◌∷◌,
  Option, none, some, arith,
}
use drbd_utils.Adm.Volumes.{Volume, internal}
use drbd_utils.Adm.Deferred.{CfgCtx, DeferredCmd, Sched, prereq, run_deferred_cmds}
use drbd_utils.Adm.Deferred.Reach.{Reach, start}
use drbd_utils.Adm.Commands.{PeerDevice, Connection, adm_up}
use drbd_utils.Adm.Commands.Up.{IsChained, adm_up-IsChained}
use drbd_utils.Adm.Disk.{adjust_disk}
use drbd_utils.Adm.Disk.Swap.{Swaps}
use drbd_utils.Adm.Disk.Swap.Run.{called_before, adjust_disk_detaches_first}

abbrev context : CfgCtx
context = record {
  cmd = record { ident = 0; stage = prereq };
  res = 1;
  res_name = 114 ∷ 48 ∷ [];
  conn = 0;
  vnr = 0;
  path = 0;
}

abbrev nothing : Sched
nothing = record {
  count = 0;
  cmd = λ i. record { ctx = context; depends_on = none };
  done = λ i. false;
  scheduled = 0;
  executed = 0;
  skip = λ q. false;
  calls = [];
}

nothing-Reach : Reach nothing
nothing-Reach = start nothing refl refl refl (λ q. refl) refl

abbrev volume : ℕ → Option (List ℕ) → Bool → Volume
volume n disk changed = record {
  vnr = n;
  device_minor = n;
  disk = disk;
  meta_disk = internal;
  meta_index = [];
  disk_options = [];
  adj_del_minor = false;
  adj_new_minor = false;
  adj_detach = changed;
  adj_attach = changed;
  adj_resize = false;
  adj_disk_opts = false;
}

abbrev volumes : List Volume
volumes = volume 0 (some (97 ∷ [])) true ∷ volume 1 none false ∷ []

abbrev peer : ℕ → Bool → List PeerDevice → Connection
peer ident ignore devices = record {
  ident = ident;
  ignore = ignore;
  me = false;
  has_peer = true;
  node_id = ident ∷ [];
  peer_devices = devices;
  peer_volumes = [];
  paths = [];
  net_options = [];
  cstate = 0;
  adj_seen = false;
}

abbrev connections : List Connection
connections = peer 5 false (record { vnr = 0; pd_options = [] } ∷ []) ∷ peer 6 true [] ∷ []

adm_up-IsChained_example : IsChained (adm_up context volumes connections nothing)
adm_up-IsChained_example =
    adm_up-IsChained context volumes connections nothing
      (record { reach = nothing-Reach; served = λ i lt. absurd (omega arith) })

-- The numbers of the commands, and what they depend on.
abbrev listed : Sched → ℕ → List (ℕ × Option ℕ)
listed s zero = []
listed s (suc n) = ((s.cmd n).ctx.cmd.ident, (s.cmd n).depends_on) ∷ listed s n

up_listed :
    listed (adm_up context volumes connections nothing) 7
    ≡ (6, some 4)
      ∷ (5, some 4)
      ∷ (4, some 0)
      ∷ (2, some 0)
      ∷ (3, some 1)
      ∷ (2, some 0)
      ∷ (1, none)
      ∷ []
unfolding adm_up
up_listed = refl

disk_listed :
    listed (adjust_disk context none volumes volumes (none, nothing)).1 2
    ≡ (3, some 0) ∷ (8, none) ∷ []
unfolding adjust_disk
disk_listed = refl

-- A volume that moves to another minor and to another disk.
abbrev moved : List Volume
moved = record (volume 0 (some (97 ∷ [])) true) { adj_del_minor = true } ∷ volume 1 none false ∷ []

run_moved :
    listed (adjust_disk context none moved moved (none, nothing)).1 3
    ≡ (3, some 1) ∷ (9, some 0) ∷ (8, none) ∷ []
unfolding adjust_disk
run_moved = refl

-- The deletion of a minor fails.
abbrev call : List ℕ → DeferredCmd → ℤ
call before d = if d.ctx.cmd.ident == 9 then pos 10 else pos 0

adjust_disk_detaches_first_example :
    let t = (adjust_disk context none moved moved (none, nothing)).1 in
    (w : Swaps context refl true (record context { conn = 0; vnr = 0; path = 0 }) t) × (run : Sched
      × ℕ)
    × (run_deferred_cmds call true t ≡ some run)
    × (called_before w.detach w.attach run.0.calls ≡ true)
    × (called_before w.last w.attach run.0.calls ≡ true)
adjust_disk_detaches_first_example =
    adjust_disk_detaches_first context refl none moved moved
      (record (volume 0 (some (97 ∷ [])) true) { adj_del_minor = true }) (none, nothing) call true
      (record { reach = nothing-Reach; below = λ j e. cc }) (inl refl) refl refl refl
