-- ===== src/Adm/Deferred/Rounds.antt =====
-- run_deferred_cmds() of user/v9/drbdadm_main.c: its rounds end, and what a run without an error
-- leaves.
use drbd_utils.Prelude.{
  ℤ, ℕ, zero, suc, ◌+◌, ◌≤◌, ◌<◌, ◌≡◌, refl, Bool, true, false, not, ◌||◌, List, some, Option-cases,
  Bool-cases, inl, inr, ltb, ◌==◌, arith,
}
use drbd_utils.Adm.Deferred.{
  Stage, all_stages, prereq, resource, disk_prep_down, disk_prep_up, net_disconnect, net_prep_down,
  net_prep_up, net_path, net, peer_device, disk, net_connect, wait_connect, DeferredCmd, Sched,
  has_unmet_dependency, sweep, run_sweeps, run_deferred_cmds,
}
use drbd_utils.Adm.Deferred.Queue.{pending, IsQueued}
use drbd_utils.Adm.Deferred.Run.{sweep-keeps, AllPassed, Passed, sweep-idle}

pending_zero : (done : ℕ → Bool) (n : ℕ) → ((i : ℕ) → i < n → done i ≡ true) → pending done n ≡ 0
pending_zero done zero h = refl
pending_zero done (suc n) h =
    let rest = pending_zero done n (λ i lt. h i (omega arith)) in
    let here = h n (omega arith) in ground (arith, rest, here)

Passed-at :
    (stage : Stage) (s : Sched) → AllPassed all_stages s → (i : ℕ) → i < s.count → Passed stage s i
Passed-at prereq s h = h.0
Passed-at resource s h = h.1.0
Passed-at disk_prep_down s h = h.1.1.0
Passed-at disk_prep_up s h = h.1.1.1.0
Passed-at net_disconnect s h = h.1.1.1.1.0
Passed-at net_prep_down s h = h.1.1.1.1.1.0
Passed-at net_prep_up s h = h.1.1.1.1.1.1.0
Passed-at net_path s h = h.1.1.1.1.1.1.1.0
Passed-at net s h = h.1.1.1.1.1.1.1.1.0
Passed-at peer_device s h = h.1.1.1.1.1.1.1.1.1.0
Passed-at disk s h = h.1.1.1.1.1.1.1.1.1.1.0
Passed-at net_connect s h = h.1.1.1.1.1.1.1.1.1.1.1.0
Passed-at wait_connect s h = h.1.1.1.1.1.1.1.1.1.1.1.1.0

-- Where every command was passed, the first ones are done, and so what depends on them.
pub passed_done :
    (s : Sched)
    → IsQueued s
    → AllPassed all_stages s
    → (n i : ℕ) → i < n
    → i < s.count
    → s.done i ≡ true
unfolding has_unmet_dependency Passed
passed_done s q h zero i lt below = absurd (omega arith)
passed_done s q h (suc n) i lt below =
    let met : has_unmet_dependency s i ≡ false = elim (Option-cases (s.cmd i).depends_on) [
      | inl e ↦ rw (e, has_unmet_dependency) refl
      | inr (j, e) ↦
          let older = q.before i j below e in
          rw
            (
              e,
              has_unmet_dependency,
              passed_done s q h n j (omega (arith, older)) (omega (arith, older)),
            )
            refl
    ] in
    Passed-at (s.cmd i).ctx.cmd.stage s h i below refl met

pub goes_on : (b : Bool) (m n : ℕ) → (b || not (ltb m n)) ≡ false → m < n
goes_on b m n e = ground arith

module _ (call : List ℕ → DeferredCmd → ℤ) where
  -- A round after which the loop goes on has counted a command.
  round_counts :
      (progress : Bool) (s : Sched) (ret : ℕ)
      → IsQueued s
      → (sweep call progress all_stages s ret).0.executed
        < (sweep call progress all_stages s ret).0.scheduled
      → s.executed < (sweep call progress all_stages s ret).0.executed
  round_counts progress s ret q goes =
      let t = sweep call progress all_stages s ret in
      let (h, same, le) = sweep-keeps call progress all_stages s ret q in
      elim (Bool-cases (t.0.executed == s.executed)) [
        | inl e ↦
            let idle = sweep-idle call progress all_stages s ret q (ground arith) in
            let none_left =
              pending_zero s.done s.count (λ i lt. passed_done s q idle s.count i lt lt) in
            absurd (omega (arith, q.scheduled_counted, none_left, same.scheduled))
        | inr e ↦ ground arith
      ]

  run_sweeps_ends :
      (progress : Bool) (fuel : ℕ) (s : Sched) (ret : ℕ)
      → IsQueued s
      → 1 ≤ fuel
      → s.scheduled < fuel + s.executed
      → (r : Sched × ℕ) × (run_sweeps call progress fuel s ret ≡ some r)
  unfolding run_sweeps
  run_sweeps_ends progress zero s ret q pos enough = absurd (omega arith)
  run_sweeps_ends progress (suc fuel) s ret q pos enough =
      let t = sweep call progress all_stages s ret in
      let (h, same, le) = sweep-keeps call progress all_stages s ret q in
      elim (Bool-cases (t.2 || not (ltb t.0.executed t.0.scheduled))) [
        | inl e ↦ rw e ((t.0, t.1), refl)
        | inr e ↦
            let goes : t.0.executed < t.0.scheduled = goes_on t.2 t.0.executed t.0.scheduled e in
            let more = round_counts progress s ret q goes in
            rw e (
              run_sweeps_ends progress fuel t.0 t.1 h (omega (arith, same.scheduled))
                (omega (arith, same.scheduled)))
      ]

  pub run_deferred_cmds_ends :
      (progress : Bool) (s : Sched)
      → IsQueued s
      → (r : Sched × ℕ) × (run_deferred_cmds call progress s ≡ some r)
  unfolding run_deferred_cmds
  run_deferred_cmds_ends progress s q =
      run_sweeps_ends progress (s.scheduled + 1) s 0 q (omega arith) (omega arith)
