-- ===== src/Adm/Adjust/Run.antt =====
-- adjust_drbd() of user/v9/drbdadm_adjust.c and run_deferred_cmds() of user/v9/drbdadm_main.c, one
-- after the other.
use drbd_utils.Prelude.{
  ℤ, IsRising, ◌≡◌, ◌<◌, ◌||◌, ℕ, true, Bool, true, ◌&&◌, refl, List, [], Option, none, some,
  Bool-cases, inl, inr, if◌then◌else◌, ok, ◌>>=◌, Ends, >>=-Ends, if_Ends,
}
use drbd_utils.Adm.Options.{DOption}
use drbd_utils.Adm.Options.Known.{IsField, AllFields}
use drbd_utils.Adm.Volumes.{Volume, size_word, compare_volumes}
use drbd_utils.Adm.Volumes.Insert.{vnrs}
use drbd_utils.Adm.Volumes.Merge.{AllKnown}
use drbd_utils.Adm.Volumes.Known.{HasFields, compare_volumes_lem}
use drbd_utils.Adm.Deferred.{CfgCtx, Sched, DeferredCmd, run_deferred_cmds}
use drbd_utils.Adm.Deferred.Order.{was_called, InOrder}
use drbd_utils.Adm.Deferred.Reach.{Reach, Reach-InOrder, run_deferred_cmds_runs}
use drbd_utils.Adm.Deferred.Done.{IsNonneg}
use drbd_utils.Adm.Commands.{Connection}
use drbd_utils.Adm.Disk.{adjust_disk}
use drbd_utils.Adm.Disk.Reach.{IsReady}
use drbd_utils.Adm.Net.Reach.{Follows-Grows}
use drbd_utils.Adm.Net.Connections.{adjust_net}
use drbd_utils.Adm.Net.Adjusted.{HasTables}
use drbd_utils.Adm.Net.Rounds.{AllConns, PoolKnown}
use drbd_utils.Adm.Net.Done.{adjust_net-Ends}
use drbd_utils.Adm.Adjust.{
  Resource, AdjustFlags, Surroundings, adjust_minors, adjust_resource, adjust_parts, adjust_drbd,
}
use drbd_utils.Adm.Adjust.Steps.{adjust_disk-Follows, adjust_resource-Ends, adjust_minors-Ends}

start-IsReady : (s : Sched) → Reach s → IsReady (none, s)
start-IsReady s h = record { reach = h; below = λ j e. cc }

module _ (around : Surroundings) where
  -- The tables have the options that the program itself looks up.
  pub record KnowsTables : Type 0 where
    pub size : IsField around.disk_contexts.attach_cmd_ctx size_word
    pub net : HasTables around.net_contexts

  -- The options of the resource are ones of the tables, and its volumes stand by rising number.
  pub record IsParsed (res : Resource) : Type 0 where
    pub options : AllFields around.resource_options_ctx res.res_options
    pub known : AllKnown (HasFields around.is_same_disk around.disk_contexts) res.volumes
    pub rising : IsRising (vnrs res.volumes)
    pub connections : AllConns around.net_contexts res.connections

  abbrev pub IsRunning : Option Resource → Type 0
  IsRunning none = Unit
  IsRunning (some running) = IsParsed running

  running-AllKnown :
      (running : Option Resource)
      → IsRunning running
      → AllKnown
          (HasFields around.is_same_disk around.disk_contexts)
          (elim running [ none ↦ [] | some k ↦ k.volumes ])
  running-AllKnown none h = tt
  running-AllKnown (some k) h = h.known

  running-IsRising :
      (running : Option Resource)
      → IsRunning running
      → IsRising (vnrs (elim running [ none ↦ [] | some k ↦ k.volumes ]))
  running-IsRising none h = tt
  running-IsRising (some k) h = h.rising

  running-AllFields :
      (running : Option Resource)
      → IsRunning running
      → AllFields around.resource_options_ctx
          (elim (elim running as (λ x. Option (List DOption)) [
            | none ↦ none
            | some k ↦ some k.res_options
          ]) [ none ↦ [] | some o ↦ o ])
  running-AllFields none h = tt
  running-AllFields (some k) h = h.options

  running-PoolKnown :
      (running : Option Resource)
      → IsRunning running
      → PoolKnown around.net_contexts
          (elim (elim running as (λ x. Option (ℕ × List Connection)) [
            | none ↦ none
            | some k ↦ some (k.ident, k.connections)
          ]) [ none ↦ none | some x ↦ some x.1 ])
  running-PoolKnown none h = tt
  running-PoolKnown (some k) h = h.connections

  adjust_parts-Ends :
      (flags : AdjustFlags) (ctx : CfgCtx) (only : Option ℕ) (running_volumes volumes : List Volume)
      (connections : List Connection) (running : Option (ℕ × List Connection))
      (r : Option ℕ × Sched)
      → HasTables around.net_contexts
      → AllConns around.net_contexts connections
      → PoolKnown around.net_contexts (elim running [ none ↦ none | some x ↦ some x.1 ])
      → IsReady r
      → Ends
          (λ (n : List Connection × Sched). AllConns around.net_contexts n.0 × Reach n.1)
          (adjust_parts around flags ctx only running_volumes volumes connections running r)
  unfolding adjust_parts
  adjust_parts-Ends flags ctx only running_volumes volumes connections running r tables kc kr h =
      let s = if flags.disk then (adjust_disk ctx only running_volumes volumes r).1 else r.1 in
      let ready : IsReady (r.0, s) = elim (Bool-cases flags.disk) [
        | inl e ↦
            let f = adjust_disk-Follows ctx only running_volumes volumes r h in
            rw e
              (Follows-Grows r (adjust_disk ctx only running_volumes volumes r).1 h f.grows).ready
        | inr e ↦ rw e h
      ] in
      if_Ends flags.net
        (adjust_net around.pton around.states around.net_contexts volumes ctx connections running
          (r.0, s))
        (ok (connections, s))
        (adjust_net-Ends around.pton around.states around.net_contexts volumes ctx connections
          running (r.0, s) tables kc kr ready)
        ((connections, s), refl, (kc, ready.reach))

  -- adjust_drbd() goes on to its end, and the queue stays one that scheduling and cancelling lead to.
  adjust_drbd-Ends :
      (flags : AdjustFlags) (ctx : CfgCtx) (only : Option ℕ) (conf : Resource)
      (running : Option Resource) (s : Sched)
      → KnowsTables
      → IsParsed conf
      → IsRunning running
      → Reach s
      → Ends
          (λ (t : Resource × Sched). Reach t.1)
          (adjust_drbd around flags ctx only conf running s)
  unfolding adjust_drbd
  adjust_drbd-Ends flags ctx only conf running s tables pc pr h =
      let running_volumes : List Volume = elim running [ none ↦ [] | some k ↦ k.volumes ] in
      let running_options : Option (List DOption) = elim running [
        | none ↦ none
        | some k ↦ some k.res_options
      ] in
      let pool : Option (ℕ × List Connection) = elim running [
        | none ↦ none
        | some k ↦ some (k.ident, k.connections)
      ] in
      let fields = around.resource_options_ctx in
      let parts = λ (v : List Volume × List Volume) (m : Option ℕ × Sched).
        adjust_parts around flags ctx only v.1 v.0 conf.connections pool m in
      let minors = λ (v : List Volume × List Volume) (r : Option ℕ × Sched).
        adjust_minors ctx (flags.net && flags.disk) only conf.connections v.0 r in
      let res =
        λ (v : List Volume × List Volume) (o : List DOption × (Option ℕ × Sched))
            (n : List Connection × Sched).
          let done : Resource = record conf {
            res_options = o.0;
            volumes = v.0;
            connections = n.0;
          } in
          ok (done, n.1) in
      >>=-Ends
        (compare_volumes around.is_same_disk around.disk_contexts conf.volumes running_volumes)
        (λ v. adjust_resource fields ctx conf.res_options running_options s >>= λ o.
          minors v o.1 >>= λ m. parts v m >>= res v o)
        (compare_volumes_lem around.is_same_disk around.disk_contexts conf.volumes running_volumes
          tables.size pc.known (running-AllKnown running pr) pc.rising
          (running-IsRising running pr))
        (λ v sorted.
          >>=-Ends (adjust_resource fields ctx conf.res_options running_options s)
            (λ o. minors v o.1 >>= λ m. parts v m >>= res v o)
            (adjust_resource-Ends fields ctx conf.res_options running_options s pc.options
              (running-AllFields running pr) (start-IsReady s h))
            (λ o (kept, ready).
              >>=-Ends (minors v o.1) (λ m. parts v m >>= res v o)
                (adjust_minors-Ends ctx (flags.net && flags.disk) only conf.connections v.0 o.1
                  ready)
                (λ m rm.
                  >>=-Ends (parts v m) (res v o)
                    (adjust_parts-Ends flags ctx only v.1 v.0 conf.connections pool m tables.net
                      pc.connections (running-PoolKnown running pr) rm)
                    (λ n (kn, rn).
                      let done : Resource = record conf {
                        res_options = o.0;
                        volumes = v.0;
                        connections = n.0;
                      } in
                      ((done, n.1), refl, rn)))))

  -- A run of drbdadm that adjusts a resource. The tables have the options that the program looks up and
  -- those of the resource, configured and running (of a volume all but its first `size`), and both have
  -- their volumes by rising number. No call in a prerequisite stage returns a negative number
  -- (IsNonneg). From a queue that scheduling and cancelling lead to, adjust_drbd() does not end the
  -- program, and run_deferred_cmds() returns on the queue that it leaves: the calls are in order (see
  -- InOrder), and if it returns 0, every command that was not cancelled has been called.
  pub adjust_drbd_runs :
      (flags : AdjustFlags) (ctx : CfgCtx) (only : Option ℕ) (conf : Resource)
      (running : Option Resource) (s : Sched) (call : List ℕ → DeferredCmd → ℤ) (progress : Bool)
      → KnowsTables
      → IsParsed conf
      → IsRunning running
      → IsNonneg call
      → Reach s
      → Ends
          (λ (t : Resource × Sched).
            (r : Sched × ℕ) × (run_deferred_cmds call progress t.1 ≡ some r)
            × InOrder call t.1 r.0.calls
            × (r.1 ≡ 0 → (i : ℕ) → i < t.1.count → (t.1.done i || was_called i r.0.calls) ≡ true))
          (adjust_drbd around flags ctx only conf running s)
  adjust_drbd_runs flags ctx only conf running s call progress tables pc pr sign h =
      let (t, e, reach) = adjust_drbd-Ends flags ctx only conf running s tables pc pr h in
      let (r, runs, all) = run_deferred_cmds_runs call progress t.1 sign reach in
      (t, e, (r, runs, Reach-InOrder call progress t.1 r reach runs, all))
