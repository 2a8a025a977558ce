-- ===== src/Adm/Deferred/Order.antt =====
-- run_deferred_cmds() of user/v9/drbdadm_main.c: which commands it calls, and in which order.
use drbd_utils.Prelude.{
  ℤ, pos, eq_ℤ, ℕ, zero, suc, ◌+◌, ◌≡◌, refl, sym, ap, ◌∙◌, Bool, true, false, not, ◌&&◌, ◌||◌,
  List, [], ◌∷◌, Option, none, some, some_inj, Option-cases, Bool-cases, inl, inr, ltb, ◌==◌,
  if◌then◌else◌, arith,
}
use mathlib.Core.Path.{subst}
use drbd_utils.Adm.Deferred.{
  Stage, number, all_stages, is_prerequisite, DeferredCmd, Sched, has_unmet_dependency,
  call_deferred, walk, run_stage, sweep, run_sweeps, run_deferred_cmds,
}
use drbd_utils.Adm.Deferred.Queue.{IsQueued}
use drbd_utils.Adm.Deferred.Rounds.{run_deferred_cmds_ends}
use drbd_utils.Adm.Deferred.Run.{is_prerequisite_same, Visits, passes, skips, calls, visit-Visits}

-- Whether command `i` is one of the calls.
abbrev pub was_called : ℕ → List ℕ → Bool
was_called i [] = false
was_called i (k ∷ before) = k == i || was_called i before

abbrev pub all_met : Option ℕ → (ℕ → Bool) → Bool
all_met none done = true
all_met (some j) done = done j

skip_step :
    (q r : ℕ) (failed pre t s h : Bool)
    → t ≡ (s || h)
    → (if q == r then failed && pre || t else t) ≡ (s || (r == q && failed && pre || h))
skip_step q r failed pre t s h e = ground arith

module _ (call : List ℕ → DeferredCmd → ℤ) where
  -- Whether a call for the resource failed in a stage that ends the work on it.
  abbrev pub has_failed : (ℕ → DeferredCmd) → ℕ → List ℕ → Bool
  has_failed cmd res [] = false
  has_failed cmd res (k ∷ before) =
      (cmd k).ctx.res == res
        && not (eq_ℤ (call before (cmd k)) (pos 0))
        && is_prerequisite (cmd k).ctx.cmd.stage
      || has_failed cmd res before

  -- The calls from state `s` on, the last one first: at each of them, the command was neither done
  -- nor called before, what it depends on was, and its resource was to go on.
  abbrev pub InOrder : Sched → List ℕ → Type 0
  InOrder s [] = Unit
  InOrder s (i ∷ before) =
      (s.done i || was_called i before ≡ false)
      × (all_met (s.cmd i).depends_on (λ j. s.done j || was_called j before) ≡ true)
      × (s.skip (s.cmd i).ctx.res || has_failed s.cmd (s.cmd i).ctx.res before ≡ false)
      × InOrder s before

  -- State `t` as it follows from `s` and the calls.
  record Follows (s t : Sched) : Type 0 where
    cmd : t.cmd ≡ s.cmd
    done : (i : ℕ) → t.done i ≡ (s.done i || was_called i t.calls)
    skip : (q : ℕ) → t.skip q ≡ (s.skip q || has_failed s.cmd q t.calls)
    in_order : InOrder s t.calls

  met_all :
      (s t : Sched) (i : ℕ)
      → Follows s t
      → has_unmet_dependency t i ≡ false
      → all_met (s.cmd i).depends_on (λ j. s.done j || was_called j t.calls) ≡ true
  unfolding has_unmet_dependency
  met_all s t i f e =
      let same : (t.cmd i).depends_on ≡ (s.cmd i).depends_on =
        ap (λ (c : ℕ → DeferredCmd). (c i).depends_on) f.cmd in
      elim (Option-cases (s.cmd i).depends_on) [
        | inl free ↦ rw free refl
        | inr (j, needs) ↦
            let e' : not (t.done j) ≡ false = rw (has_unmet_dependency, same, needs) at e in
            let d = f.done j in rw needs (ground (arith, e', d))
      ]

  Visits-Follows :
      (stage : Stage) (i : ℕ) (s t : Sched) (rv : ℕ) {r : Sched × ℕ}
      → Visits call stage i t rv r
      → Follows s t
      → Follows s r.0
  unfolding call_deferred
  Visits-Follows stage i s t rv (passes h) f = f
  Visits-Follows stage i s t rv (skips h e) f = record {
    cmd = f.cmd;
    done = f.done;
    skip = f.skip;
    in_order = f.in_order;
  }
  Visits-Follows stage i s t rv (calls at_stage met new goes) f =
      let c = ap (λ (c : ℕ → DeferredCmd). c i) f.cmd in
      let pre =
        is_prerequisite_same stage (s.cmd i).ctx.cmd.stage
          (sym at_stage ∙ ap (λ (d : DeferredCmd). number d.ctx.cmd.stage) c) in
      record {
        cmd = f.cmd;
        done = λ k. let old = f.done k in ground (arith, old);
        skip = λ q.
            rw (c, pre)
              (skip_step q (s.cmd i).ctx.res (not (eq_ℤ (call t.calls (s.cmd i)) (pos 0)))
                (is_prerequisite (s.cmd i).ctx.cmd.stage) (t.skip q) (s.skip q)
                (has_failed s.cmd q t.calls) (f.skip q));
        in_order = (
          sym (f.done i) ∙ new,
          met_all s t i f met,
          sym (f.skip (s.cmd i).ctx.res) ∙ (rw c at goes),
          f.in_order,
        );
      }

  walk-Follows :
      (stage : Stage) (n : ℕ) (s t : Sched) → Follows s t → Follows s (walk call stage n t).0
  unfolding walk
  walk-Follows stage zero s t f = f
  walk-Follows stage (suc n) s t f =
      let u = walk call stage n t in
      Visits-Follows stage n s u.0 u.1 (visit-Visits call stage n u.0 u.1)
        (walk-Follows stage n s t f)

  sweep-Follows :
      (progress : Bool) (stages : List Stage) (s t : Sched) (ret : ℕ)
      → Follows s t
      → Follows s (sweep call progress stages t ret).0
  unfolding sweep run_stage
  sweep-Follows progress [] s t ret f = f
  sweep-Follows progress (stage ∷ rest) s t ret f =
      let u = walk call stage t.count t in
      let here = walk-Follows stage t.count s t f in
      let more = sweep-Follows progress rest s u.0 (if u.1 == 0 then ret else 1) here in
      elim (Bool-cases (not (u.1 == 0) && not progress)) [ inl e ↦ rw e here | inr e ↦ rw e more ]

  run_sweeps-Follows :
      (progress : Bool) (fuel : ℕ) (s t : Sched) (ret : ℕ) (r : Sched × ℕ)
      → Follows s t
      → run_sweeps call progress fuel t ret ≡ some r
      → Follows s r.0
  unfolding run_sweeps
  run_sweeps-Follows progress zero s t ret r f e = cc
  run_sweeps-Follows progress (suc fuel) s t ret r f e =
      let u = sweep call progress all_stages t ret in
      let here = sweep-Follows progress all_stages s t ret f in
      elim (Bool-cases (u.2 || not (ltb u.0.executed u.0.scheduled))) [
        | inl ends ↦ subst (λ (y : Sched × ℕ). Follows s y.0) (some_inj (rw ends at e)) here
        | inr goes ↦ run_sweeps-Follows progress fuel s u.0 u.1 r here (rw goes at e)
      ]

  run-Follows :
      (progress : Bool) (s : Sched) (r : Sched × ℕ)
      → s.calls ≡ []
      → run_deferred_cmds call progress s ≡ some r
      → Follows s r.0
  unfolding run_deferred_cmds
  run-Follows progress s r start e =
      let start_follows : Follows s s = record {
        cmd = refl;
        done = λ i. rw start (ground arith);
        skip = λ q. rw start (ground arith);
        in_order = rw start tt;
      } in
      run_sweeps-Follows progress (s.scheduled + 1) s s 0 r start_follows e

  pub run-InOrder :
      (progress : Bool) (s : Sched) (r : Sched × ℕ)
      → s.calls ≡ []
      → run_deferred_cmds call progress s ≡ some r
      → InOrder s r.0.calls
  run-InOrder progress s r start e = (run-Follows progress s r start e).in_order

  -- What is done after the run was called by it, or done before.
  pub done_called :
      (progress : Bool) (s : Sched) (r : Sched × ℕ)
      → s.calls ≡ []
      → run_deferred_cmds call progress s ≡ some r
      → (i : ℕ) → r.0.done i ≡ (s.done i || was_called i r.0.calls)
  done_called progress s r start e = (run-Follows progress s r start e).done

  -- From a well-formed queue of which nothing was called yet, and whatever ints the commands return,
  -- run_deferred_cmds() returns. It calls a command at most once, never one that was done or
  -- cancelled before, only after the command that it depends on was called (or was done before), and
  -- not after a call for the same resource has failed, with any value but 0, in a prerequisite stage.
  -- Afterwards, done are exactly the commands that it called and those that were done before.
  pub run_deferred_cmds-InOrder :
      (progress : Bool) (s : Sched)
      → IsQueued s
      → s.calls ≡ []
      → (r : Sched × ℕ) × (run_deferred_cmds call progress s ≡ some r)
        × InOrder s r.0.calls
        × ((i : ℕ) → r.0.done i ≡ (s.done i || was_called i r.0.calls))
  run_deferred_cmds-InOrder progress s q start =
      let (r, e) = run_deferred_cmds_ends call progress s q in
      (r, e, run-InOrder progress s r start e, done_called progress s r start e)
