-- ===== src/Adm/Deferred/Run.antt =====
-- The rounds of run_deferred_cmds(): they end, and what they leave.
use drbd_utils.Prelude.{
  ℤ, pos_part, ℕ, zero, suc, ◌+◌, ◌≤◌, ◌<◌, ◌≡◌, refl, sym, ap, ◌∙◌, ◌⊎◌, Bool, true, false, not,
  ◌&&◌, ◌||◌, List, [], ◌∷◌, Bool-cases, ==_iff, inl, inr, ltb, ◌==◌, if◌then◌else◌, arith,
}
use mathlib.Core.Path.{subst}
use native.Mathlib.Nat.{le_trans}
use drbd_utils.Adm.Deferred.{
  Stage, prereq, resource, disk_prep_down, disk_prep_up, net_disconnect, net_prep_down, net_prep_up,
  net_path, net, peer_device, disk, net_connect, wait_connect, is_prerequisite, number, DeferredCmd,
  Sched, has_unmet_dependency, call_deferred, visit, walk, run_stage, sweep,
}
use drbd_utils.Adm.Deferred.Queue.{IsQueued, pending_done}

pub is_prerequisite_same :
    (a b : Stage) → number a ≡ number b → is_prerequisite a ≡ is_prerequisite b
is_prerequisite_same a b e =
    by_number a ∙ ap (λ n. n == 0 || n == 2 || n == 3 || n == 5 || n == 6) e ∙ sym (by_number b)
  where
    by_number :
        (a : Stage)
        → is_prerequisite a
          ≡ (number a == 0 || number a == 2 || number a == 3 || number a == 5 || number a == 6)
    by_number prereq = refl
    by_number resource = refl
    by_number disk_prep_down = refl
    by_number disk_prep_up = refl
    by_number net_disconnect = refl
    by_number net_prep_down = refl
    by_number net_prep_up = refl
    by_number net_path = refl
    by_number net = refl
    by_number peer_device = refl
    by_number disk = refl
    by_number net_connect = refl
    by_number wait_connect = refl

-- What no command changes.
pub record IsSameQueue (s t : Sched) : Type 0 where
  pub count : t.count ≡ s.count
  pub cmd : t.cmd ≡ s.cmd
  pub scheduled : t.scheduled ≡ s.scheduled

pub IsSameQueue-trans : {s t u : Sched} → IsSameQueue s t → IsSameQueue t u → IsSameQueue s u
IsSameQueue-trans a b = record {
  count = b.count ∙ a.count;
  cmd = b.cmd ∙ a.cmd;
  scheduled = b.scheduled ∙ a.scheduled;
}

-- What makes a walk pass a command by.
unfoldable pub Passed : Stage → Sched → ℕ → Type 0
Passed stage s i =
    number (s.cmd i).ctx.cmd.stage ≡ number stage
    → has_unmet_dependency s i ≡ false
    → s.done i ≡ true

abbrev pub AllPassed : List Stage → Sched → Type 0
AllPassed [] s = Unit
AllPassed (stage ∷ rest) s = ((i : ℕ) → i < s.count → Passed stage s i) × AllPassed rest s

module _ (call : List ℕ → DeferredCmd → ℤ) where
  -- The three things that a visit may do.
  pub data Visits (stage : Stage) (i : ℕ) (s : Sched) (rv : ℕ) : Sched × ℕ → Type 0 where
    passes :
        (number (s.cmd i).ctx.cmd.stage ≡ number stage
          → has_unmet_dependency s i ≡ false
          → s.done i ≡ true)
        → Visits stage i s rv (s, rv)
    skips :
        s.skip (s.cmd i).ctx.res ≡ true
        → s.done i ≡ false
        → Visits stage i s rv (record s { executed = s.executed + 1 }, rv)
    calls :
        number (s.cmd i).ctx.cmd.stage ≡ number stage
        → has_unmet_dependency s i ≡ false
        → s.done i ≡ false
        → s.skip (s.cmd i).ctx.res ≡ false
        → Visits stage i s rv (
          (call_deferred call stage i s).0,
          if ltb rv (pos_part (call s.calls (s.cmd i)))
              then pos_part (call s.calls (s.cmd i))
              else rv,
        )

  pub visit-Visits :
      (stage : Stage) (i : ℕ) (s : Sched) (rv : ℕ)
      → Visits stage i s rv (visit call stage i (s, rv))
  unfolding visit call_deferred
  visit-Visits stage i s rv =
      let d = s.cmd i in
      elim (Bool-cases
        (not (number d.ctx.cmd.stage == number stage) || has_unmet_dependency s i || s.done i)) [
          | inl e ↦ rw e (passes (λ same met. ground arith))
          | inr e ↦ elim (Bool-cases (s.skip d.ctx.res)) [
            | inl f ↦ rw (e, f) (skips f (ground arith))
            | inr f ↦ rw (e, f) (calls (ground arith) (ground arith) (ground arith) f)
          ]
        ]

  -- A visit keeps the queue, and does nothing or counts one command.
  pub Visits-keeps :
      (stage : Stage) (i : ℕ) (s : Sched) (rv : ℕ) {r : Sched × ℕ}
      → i < s.count
      → Visits stage i s rv r
      → IsQueued s
      → IsQueued r.0 × IsSameQueue s r.0
  unfolding call_deferred
  Visits-keeps stage i s rv lt (passes h) q =
      (q, record { count = refl; cmd = refl; scheduled = refl })
  Visits-keeps stage i s rv lt (skips h e) q = (
    record {
      before = q.before;
      pending_scheduled = q.pending_scheduled;
      scheduled_counted = omega (arith, q.scheduled_counted);
    },
    record { count = refl; cmd = refl; scheduled = refl },
  )
  Visits-keeps stage i s rv lt (calls a b e f) q =
      let fewer = pending_done s.done s.count i lt e in
      (
        record {
          before = q.before;
          pending_scheduled = omega (arith, q.pending_scheduled, fewer);
          scheduled_counted = omega (arith, q.scheduled_counted, fewer);
        },
        record { count = refl; cmd = refl; scheduled = refl },
      )

  Visits-moves :
      (stage : Stage) (i : ℕ) (s : Sched) (rv : ℕ) {r : Sched × ℕ}
      → Visits stage i s rv r
      → (r ≡ (s, rv)) ⊎ (r.0.executed ≡ s.executed + 1)
  unfolding call_deferred
  Visits-moves stage i s rv (passes h) = inl refl
  Visits-moves stage i s rv (skips h e) = inr refl
  Visits-moves stage i s rv (calls a b e f) = inr refl

  pub walk-keeps :
      (stage : Stage) (n : ℕ) (s : Sched)
      → n ≤ s.count
      → IsQueued s
      → IsQueued (walk call stage n s).0 × IsSameQueue s (walk call stage n s).0
  unfolding walk
  walk-keeps stage zero s le q = (q, record { count = refl; cmd = refl; scheduled = refl })
  walk-keeps stage (suc n) s le q =
      let (t, rv) = walk call stage n s in
      let (h, same) = walk-keeps stage n s (omega arith) q in
      let (h', same') =
        Visits-keeps stage n t rv (omega (arith, same.count)) (visit-Visits stage n t rv) h in
      (h', IsSameQueue-trans same same')

  -- A walk that counts nothing has changed nothing, and passed every command.
  Visits-idle :
      (stage : Stage) (i : ℕ) (s : Sched) (rv : ℕ) {r : Sched × ℕ}
      → Visits stage i s rv r
      → r.0.executed ≡ s.executed
      → (r ≡ (s, rv)) × Passed stage s i
  unfolding call_deferred Passed
  Visits-idle stage i s rv (passes h) e = (refl, h)
  Visits-idle stage i s rv (skips h d) e = absurd (omega arith)
  Visits-idle stage i s rv (calls a b d f) e = absurd (omega arith)

  walk-le : (stage : Stage) (n : ℕ) (s : Sched) → s.executed ≤ (walk call stage n s).0.executed
  unfolding walk
  walk-le stage zero s = omega arith
  walk-le stage (suc n) s =
      let (t, rv) = walk call stage n s in
      let before = walk-le stage n s in
      elim (Visits-moves stage n t rv (visit-Visits stage n t rv)) [
        | inl e ↦ rw e before
        | inr e ↦ omega arith
      ]

  walk-idle :
      (stage : Stage) (n : ℕ) (s : Sched)
      → (walk call stage n s).0.executed ≡ s.executed
      → (walk call stage n s ≡ (s, 0)) × ((i : ℕ) → i < n → Passed stage s i)
  unfolding walk
  walk-idle stage zero s e = (refl, λ i lt. absurd (omega arith))
  walk-idle stage (suc n) s e =
      let t = walk call stage n s in
      let v = visit-Visits stage n t.0 t.1 in
      let before = walk-le stage n s in
      let still : t.0.executed ≡ s.executed = elim (Visits-moves stage n t.0 t.1 v) [
        | inl same ↦ omega (arith, ap (λ (r : Sched × ℕ). r.0.executed) same)
        | inr more ↦ absurd (omega arith)
      ] in
      let (same, passed) = walk-idle stage n s still in
      let (r, here) = Visits-idle stage n t.0 t.1 v (omega arith) in
      let here' : Passed stage s n = subst (λ (x : Sched × ℕ). Passed stage x.0 n) same here in
      (
        r ∙ same,
        λ i lt. elim (Bool-cases (i == n)) [
          | inl last ↦ subst (Passed stage s) (sym ((==_iff i n).0 last)) here'
          | inr older ↦ passed i (ground arith)
        ],
      )

  pub sweep-keeps :
      (progress : Bool) (stages : List Stage) (s : Sched) (ret : ℕ)
      → IsQueued s
      → IsQueued (sweep call progress stages s ret).0
        × IsSameQueue s (sweep call progress stages s ret).0
        × (s.executed ≤ (sweep call progress stages s ret).0.executed)
  unfolding sweep run_stage
  sweep-keeps progress [] s ret q =
      (q, record { count = refl; cmd = refl; scheduled = refl }, omega arith)
  sweep-keeps progress (stage ∷ rest) s ret q =
      let t = walk call stage s.count s in
      let (h, same) = walk-keeps stage s.count s (omega arith) q in
      let le = walk-le stage s.count s in
      let (h', same', le') = sweep-keeps progress rest t.0 (if t.1 == 0 then ret else 1) h in
      elim (Bool-cases (not (t.1 == 0) && not progress)) [
        | inl e ↦ rw e (h, same, le)
        | inr e ↦ rw e (h', IsSameQueue-trans same same', le_trans le le')
      ]

  -- A round that counts nothing and goes on has passed every command of every stage.
  pub sweep-idle :
      (progress : Bool) (stages : List Stage) (s : Sched) (ret : ℕ)
      → IsQueued s
      → (sweep call progress stages s ret).0.executed ≡ s.executed
      → AllPassed stages s
  unfolding sweep run_stage
  sweep-idle progress [] s ret q e = tt
  sweep-idle progress (stage ∷ rest) s ret q e =
      let t = walk call stage s.count s in
      let (h, same) = walk-keeps stage s.count s (omega arith) q in
      let le = walk-le stage s.count s in
      let (h', same', le') = sweep-keeps progress rest t.0 (if t.1 == 0 then ret else 1) h in
      let still : t.0.executed ≡ s.executed = elim (Bool-cases (not (t.1 == 0) && not progress)) [
        | inl ends ↦ rw ends at e
        | inr goes ↦ let e' = rw goes at e in omega (arith, le, le', e')
      ] in
      let (idle, passed) = walk-idle stage s.count s still in
      let t0 : t.0 ≡ s = ap (λ (x : Sched × ℕ). x.0) idle in
      let t1 : t.1 ≡ 0 = ap (λ (x : Sched × ℕ). x.1) idle in
      let e' : (sweep call progress rest s ret).0.executed ≡ s.executed = rw (t1, t0) at e in
      (passed, sweep-idle progress rest s ret q e')
