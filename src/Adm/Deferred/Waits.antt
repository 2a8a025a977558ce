-- ===== src/Adm/Deferred/Waits.antt =====
-- cancel_deferred_waits() of user/v9/drbdadm_main.c: which commands it cancels.
use drbd_utils.Prelude.{
  ℕ, zero, suc, ◌≡◌, refl, sym, ◌∙◌, Bool, true, false, ◌&&◌, ◌||◌, Bool-cases, inl, inr, ltb, ◌==◌,
  ==_iff, compare-cases, arith,
}
use mathlib.Core.Path.{ap}
use drbd_utils.Adm.Deferred.{
  number, wait_connect, DeferredCmd, Sched, cancel_deferred_cmd, cancel_waits_below,
  cancel_deferred_waits,
}

abbrev pub is_wait_of : ℕ → DeferredCmd → Bool
is_wait_of res d = number d.ctx.cmd.stage == number wait_connect && d.ctx.res == res

-- The commands below `n` that wait for a connection of the resource are done in `t`, and nothing
-- else differs from `s` that the run of the queue looks at.
pub record WaitsDone (res n : ℕ) (s t : Sched) : Type 0 where
  pub count : t.count ≡ s.count
  pub cmd : (i : ℕ) → t.cmd i ≡ s.cmd i
  pub done : (i : ℕ) → t.done i ≡ (s.done i || (ltb i n && is_wait_of res (s.cmd i)))
  pub skip : (q : ℕ) → t.skip q ≡ s.skip q

cancel-count : (i : ℕ) (s : Sched) → (cancel_deferred_cmd i s).count ≡ s.count
unfolding cancel_deferred_cmd
cancel-count i s = ground arith

cancel-cmd : (i : ℕ) (s : Sched) (k : ℕ) → (cancel_deferred_cmd i s).cmd k ≡ s.cmd k
unfolding cancel_deferred_cmd
cancel-cmd i s k = elim (Bool-cases (s.done i)) [ inl e ↦ rw e refl | inr e ↦ rw e refl ]

cancel-skip : (i : ℕ) (s : Sched) (k : ℕ) → (cancel_deferred_cmd i s).skip k ≡ s.skip k
unfolding cancel_deferred_cmd
cancel-skip i s k = elim (Bool-cases (s.done i)) [ inl e ↦ rw e refl | inr e ↦ rw e refl ]

cancel-done : (i : ℕ) (s : Sched) (k : ℕ) → (cancel_deferred_cmd i s).done k ≡ (s.done k || k == i)
unfolding cancel_deferred_cmd
cancel-done i s k = elim (Bool-cases (k == i)) [
  | inl same ↦ let h : k ≡ i = (==_iff k i).0 same in ground (arith, h)
  | inr other ↦ ground (arith, other)
]

-- One more command that waits, or that does not.
done_more :
    (i n : ℕ) (d x : Bool)
    → (i ≡ n → x ≡ true)
    → ((d || (ltb i n && x)) || i == n) ≡ (d || (ltb i (suc n) && x))
done_more i n true x h = refl
done_more i n false x h = elim (compare-cases i n) [
  | inl (e, lt) ↦ ground arith
  | inr (inl (e, gt)) ↦ ground arith
  | inr (inr (e, same)) ↦ rw (h same) (ground arith)
]

done_skip :
    (i n : ℕ) (d x : Bool)
    → (i ≡ n → x ≡ false)
    → (d || (ltb i n && x)) ≡ (d || (ltb i (suc n) && x))
done_skip i n true x h = refl
done_skip i n false x h = elim (compare-cases i n) [
  | inl (e, lt) ↦ ground arith
  | inr (inl (e, gt)) ↦ ground arith
  | inr (inr (e, same)) ↦ rw (h same) (ground arith)
]

cancel_waits_below_lem : (res n : ℕ) (s : Sched) → WaitsDone res n s (cancel_waits_below res n s)
unfolding cancel_waits_below
cancel_waits_below_lem res zero s = record {
  count = refl;
  cmd = λ i. refl;
  done = λ i. ground arith;
  skip = λ q. refl;
}
cancel_waits_below_lem res (suc n) s =
    let t = cancel_waits_below res n s in
    let h = cancel_waits_below_lem res n s in
    let here : (i : ℕ) (b : Bool)
        → is_wait_of res (t.cmd n) ≡ b
        → i ≡ n
        → is_wait_of res (s.cmd i) ≡ b =
      λ i b e same.
        ap (λ k. is_wait_of res (s.cmd k)) same ∙ (ap (is_wait_of res) (sym (h.cmd n)) ∙ e) in
    elim (Bool-cases (is_wait_of res (t.cmd n))) [
      | inl e ↦ rw e (record {
        count = cancel-count n t ∙ h.count;
        cmd = λ i. cancel-cmd n t i ∙ h.cmd i;
        done = λ i.
            cancel-done n t i
            ∙ (ap (λ (b : Bool). b || i == n) (h.done i)
                ∙ done_more i n (s.done i) (is_wait_of res (s.cmd i)) (here i true e));
        skip = λ q. cancel-skip n t q ∙ h.skip q;
      })
      | inr e ↦ rw e (record {
        count = h.count;
        cmd = h.cmd;
        done = λ i. h.done i ∙ done_skip i n (s.done i) (is_wait_of res (s.cmd i)) (here i false e);
        skip = h.skip;
      })
    ]

-- cancel_deferred_waits() makes done the commands of the queue that are in the stage
-- CFG_WAIT_CONNECT and are for the resource, and no other; it adds and changes no command.
pub cancel_deferred_waits_lem :
    (res : ℕ) (s : Sched) → WaitsDone res s.count s (cancel_deferred_waits res s)
unfolding cancel_deferred_waits
cancel_deferred_waits_lem res s = cancel_waits_below_lem res s.count s
