-- ===== src/Adm/Deferred/Done.antt =====
-- run_deferred_cmds() of user/v9/drbdadm_main.c, where no command fails: all of them are called.
use drbd_utils.Prelude.{
  ℤ, pos, pos_part, neg_part, eq_ℤ, ◌&&◌, ℕ, zero, suc, ◌+◌, ◌≤◌, ◌<◌, ◌≡◌, refl, ap, ◌∙◌, Bool,
  true, false, not, ◌||◌, List, [], ◌∷◌, some, some_inj, Bool-cases, inl, inr, ltb, ◌==◌,
  if◌then◌else◌, arith,
}
use mathlib.Core.Path.{subst}
use drbd_utils.Adm.Deferred.{
  Stage, is_prerequisite, all_stages, DeferredCmd, Sched, call_deferred, walk, run_stage, sweep,
  run_sweeps, run_deferred_cmds,
}
use drbd_utils.Adm.Deferred.Queue.{pending, IsQueued, pending_done, pending_pos}
use drbd_utils.Adm.Deferred.Run.{
  is_prerequisite_same, Visits, passes, skips, calls, visit-Visits, Visits-keeps, walk-keeps,
  sweep-keeps,
}

-- Nothing is skipped, and what was counted is done.
pub record IsExact (s : Sched) : Type 0 where
  pub queued : IsQueued s
  pub no_skip : (q : ℕ) → s.skip q ≡ false
  pub counted : s.scheduled ≡ s.executed + pending s.done s.count

not_less : (m n : ℕ) → not (ltb m n) ≡ true → n ≤ m
not_less m n e = ground arith

max_zero : (m n : ℕ) → (if ltb m n then n else m) ≡ 0 → (m ≡ 0) × (n ≡ 0)
max_zero m n e = ground arith

call_succeeds :
    (b : Bool) (r : ℤ)
    → pos_part r ≡ 0
    → (b ≡ true → neg_part r ≡ 0)
    → (not (eq_ℤ r (pos 0)) && b) ≡ false
call_succeeds b r e h = ground (arith, h)

-- No call in a stage whose failure ends the work on a resource returns a negative number.
abbrev pub IsNonneg : (List ℕ → DeferredCmd → ℤ) → Type 0
IsNonneg call =
    (before : List ℕ) (d : DeferredCmd)
    → is_prerequisite d.ctx.cmd.stage ≡ true
    → neg_part (call before d) ≡ 0

module _ (call : List ℕ → DeferredCmd → ℤ) where
  Visits-IsExact :
      (stage : Stage) (i : ℕ) (s : Sched) (rv : ℕ) {r : Sched × ℕ}
      → IsNonneg call
      → i < s.count
      → Visits call stage i s rv r
      → IsExact s
      → r.1 ≡ 0
      → IsExact r.0
  unfolding call_deferred
  Visits-IsExact stage i s rv sign lt (passes h) x e = x
  Visits-IsExact stage i s rv sign lt (skips f d) x e =
      absurd (let n = x.no_skip (s.cmd i).ctx.res in cc)
  Visits-IsExact stage i s rv sign lt (calls a b d f) x e =
      let (rv0, r0) = max_zero rv (pos_part (call s.calls (s.cmd i))) e in
      let succeeds =
        call_succeeds (is_prerequisite stage) (call s.calls (s.cmd i)) r0 (λ p.
          sign s.calls (s.cmd i) (is_prerequisite_same (s.cmd i).ctx.cmd.stage stage a ∙ p)) in
      let fewer = pending_done s.done s.count i lt d in
      let (q, same) = Visits-keeps call stage i s rv lt (calls a b d f) x.queued in
      record {
        queued = q;
        no_skip = λ k. let old = x.no_skip k in rw succeeds (ground (arith, old));
        counted = omega (arith, x.counted, fewer);
      }

  Visits-zero :
      (stage : Stage) (i : ℕ) (s : Sched) (rv : ℕ) {r : Sched × ℕ}
      → Visits call stage i s rv r
      → r.1 ≡ 0
      → rv ≡ 0
  Visits-zero stage i s rv (passes h) e = e
  Visits-zero stage i s rv (skips f d) e = e
  Visits-zero stage i s rv (calls a b d f) e = (max_zero rv (pos_part (call s.calls (s.cmd i))) e).0

  sweep_zero :
      (progress : Bool) (stages : List Stage) (s : Sched) (ret : ℕ)
      → (sweep call progress stages s ret).1 ≡ 0
      → ret ≡ 0
  unfolding sweep run_stage
  sweep_zero progress [] s ret e = e
  sweep_zero progress (stage ∷ rest) s ret e =
      let t = walk call stage s.count s in
      let more = sweep_zero progress rest t.0 (if t.1 == 0 then ret else 1) in ground (arith, more)

  walk-IsExact :
      (stage : Stage) (n : ℕ) (s : Sched)
      → IsNonneg call
      → n ≤ s.count
      → IsExact s
      → (walk call stage n s).1 ≡ 0
      → IsExact (walk call stage n s).0
  unfolding walk
  walk-IsExact stage zero s sign le x e = x
  walk-IsExact stage (suc n) s sign le x e =
      let t = walk call stage n s in
      let (h, same) = walk-keeps call stage n s (omega arith) x.queued in
      let ok = λ (y : IsExact t.0).
        Visits-IsExact stage n t.0 t.1 sign (omega (arith, same.count))
          (visit-Visits call stage n t.0 t.1) y e in
      let rv0 = Visits-zero stage n t.0 t.1 (visit-Visits call stage n t.0 t.1) e in
      ok (walk-IsExact stage n s sign (omega arith) x rv0)

  sweep-IsExact :
      (progress : Bool) (stages : List Stage) (s : Sched) (ret : ℕ)
      → IsNonneg call
      → IsExact s
      → (sweep call progress stages s ret).1 ≡ 0
      → IsExact (sweep call progress stages s ret).0
        × ((sweep call progress stages s ret).2 ≡ false)
  unfolding sweep run_stage
  sweep-IsExact progress [] s ret sign x e = (x, refl)
  sweep-IsExact progress (stage ∷ rest) s ret sign x e =
      let t = walk call stage s.count s in
      elim (Bool-cases (t.1 == 0)) [
        | inl ok ↦
            let y = walk-IsExact stage s.count s sign (omega arith) x (ground arith) in
            rw ok (sweep-IsExact progress rest t.0 ret sign y (rw ok at e))
        | inr bad ↦ elim (Bool-cases progress) [
          | inl p ↦
              let e' : (sweep call progress rest t.0 1).1 ≡ 0 = rw (bad, p) at e in
              absurd (omega (arith, sweep_zero progress rest t.0 1 e'))
          | inr p ↦ absurd (let e' = rw (bad, p) at e in omega (arith, e'))
        ]
      ]

  run_sweeps_zero :
      (progress : Bool) (fuel : ℕ) (s : Sched) (ret : ℕ) (r : Sched × ℕ)
      → run_sweeps call progress fuel s ret ≡ some r
      → r.1 ≡ 0
      → ret ≡ 0
  unfolding run_sweeps
  run_sweeps_zero progress zero s ret r e ok = cc
  run_sweeps_zero progress (suc fuel) s ret r e ok =
      let t = sweep call progress all_stages s ret in
      let from_round = sweep_zero progress all_stages s ret in
      elim (Bool-cases (t.2 || not (ltb t.0.executed t.0.scheduled))) [
        | inl ends ↦ from_round (ap (λ (y : Sched × ℕ). y.1) (some_inj (rw ends at e)) ∙ ok)
        | inr goes ↦ from_round (run_sweeps_zero progress fuel t.0 t.1 r (rw goes at e) ok)
      ]

  run_sweeps_done :
      (progress : Bool) (fuel : ℕ) (s : Sched) (ret : ℕ) (r : Sched × ℕ)
      → IsNonneg call
      → IsExact s
      → run_sweeps call progress fuel s ret ≡ some r
      → r.1 ≡ 0
      → IsExact r.0 × (r.0.count ≡ s.count) × (r.0.scheduled ≤ r.0.executed)
  unfolding run_sweeps
  run_sweeps_done progress zero s ret r sign x e ok = cc
  run_sweeps_done progress (suc fuel) s ret r sign x e ok =
      let t = sweep call progress all_stages s ret in
      let (h, same, le) = sweep-keeps call progress all_stages s ret x.queued in
      elim (Bool-cases (t.2 || not (ltb t.0.executed t.0.scheduled))) [
        | inl ends ↦
            let at_end : (t.0, t.1) ≡ r = some_inj (rw ends at e) in
            let ok' : t.1 ≡ 0 = ap (λ (y : Sched × ℕ). y.1) at_end ∙ ok in
            let (y, stays) = sweep-IsExact progress all_stages s ret sign x ok' in
            subst
              (λ (y : Sched × ℕ).
                IsExact y.0 × (y.0.count ≡ s.count) × (y.0.scheduled ≤ y.0.executed))
              at_end (y, same.count, not_less t.0.executed t.0.scheduled (rw stays at ends))
        | inr goes ↦
            let ret0 = run_sweeps_zero progress fuel t.0 t.1 r (rw goes at e) ok in
            let (y, stays) = sweep-IsExact progress all_stages s ret sign x ret0 in
            let (z, count, le') =
              run_sweeps_done progress fuel t.0 t.1 r sign y (rw goes at e) ok in
            (z, count ∙ same.count, le')
      ]

  -- From a queue in which nothing is skipped and the counters are exact, and where no call in a
  -- prerequisite stage returns a negative number, a run of
  -- run_deferred_cmds() that returns 0 has called every command that was not done or cancelled
  -- before: all of them are done.
  pub run_deferred_cmds_done :
      (progress : Bool) (s : Sched) (r : Sched × ℕ)
      → IsNonneg call
      → IsExact s
      → run_deferred_cmds call progress s ≡ some r
      → r.1 ≡ 0
      → (i : ℕ) → i < s.count
      → r.0.done i ≡ true
  unfolding run_deferred_cmds
  run_deferred_cmds_done progress s r sign x e ok i lt =
      let (y, count, le) = run_sweeps_done progress (s.scheduled + 1) s 0 r sign x e ok in
      elim (Bool-cases (r.0.done i)) [
        | inl d ↦ d
        | inr d ↦
            let left = pending_pos r.0.done r.0.count i (omega (arith, count)) d in
            absurd (omega (arith, left, y.counted))
      ]
