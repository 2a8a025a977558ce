-- ===== src/Adm/Disk/Swap/Run.antt =====
-- The run of the commands that adjust_disk() of user/v9/drbdadm_adjust.c schedules.
use drbd_utils.Prelude.{
  ℕ, ℤ, ◌≡◌, refl, ap, ◌⊎◌, inl, inr, Bool, true, false, not, ◌&&◌, ◌||◌, List, [], ◌∷◌, Option,
  some, ◌==◌, ==_iff, Bool-cases, arith, sym,
}
use mathlib.Core.Path.{subst}
use drbd_utils.Adm.Volumes.{Volume}
use drbd_utils.Adm.Deferred.{CfgCtx, DeferredCmd, Sched, run_deferred_cmds}
use drbd_utils.Adm.Deferred.Order.{was_called, all_met, InOrder}
use drbd_utils.Adm.Deferred.Rounds.{run_deferred_cmds_ends}
use drbd_utils.Adm.Deferred.Reach.{Reach-IsExact, Reach-InOrder}
use drbd_utils.Adm.Commands.{sh_list_adjustable}
use drbd_utils.Adm.Disk.{adjust_volume, is_wanted, adjust_disk}
use drbd_utils.Adm.Disk.Reach.{IsReady, adjust_disk-IsReady}
use drbd_utils.Adm.Disk.Swap.{
  Extends, Extends-self, Extends-trans, volume-Extends, volume-Swaps, Swaps, Swaps-later, Links,
}

-- In a list of calls, the last one first: command `i` was called before each call of `j`.
abbrev pub called_before : ℕ → ℕ → List ℕ → Bool
called_before i j [] = true
called_before i j (k ∷ before) = (not (k == j) || was_called i before) && called_before i j before

abbrev pub IsIn : Volume → List Volume → Type 0
IsIn vol [] = ⊥
IsIn vol (v ∷ vols) = (v ≡ vol) ⊎ IsIn vol vols

needs_before :
    (call : List ℕ → DeferredCmd → ℤ) (s : Sched) (i j : ℕ) (calls : List ℕ)
    → (s.cmd j).depends_on ≡ some i
    → s.done i ≡ false
    → InOrder call s calls
    → called_before i j calls ≡ true
needs_before call s i j [] needs new o = refl
needs_before call s i j (k ∷ before) needs new (fresh, met, goes, o) =
    let rest = needs_before call s i j before needs new o in
    elim (Bool-cases (k == j)) [
      | inl same ↦
          let at_j : all_met (s.cmd j).depends_on (λ q. s.done q || was_called q before) ≡ true =
            subst
              (λ (q : ℕ).
                all_met (s.cmd q).depends_on (λ p. s.done p || was_called p before) ≡ true)
              ((==_iff k j).0 same) met in
          let here : (s.done i || was_called i before) ≡ true = rw needs at at_j in
          ground (arith, rest, here)
      | inr other ↦ rw (other, rest) refl
    ]

called_too :
    (i k : ℕ) (calls : List ℕ)
    → called_before i k calls ≡ true
    → was_called k calls ≡ true
    → was_called i calls ≡ true
called_too i k [] h e = e
called_too i k (q ∷ before) h e = let rest = called_too i k before in ground (arith, rest)

called_before_trans :
    (i k j : ℕ) (calls : List ℕ)
    → called_before i k calls ≡ true
    → called_before k j calls ≡ true
    → called_before i j calls ≡ true
called_before_trans i k j [] a b = refl
called_before_trans i k j (q ∷ before) a b =
    let rest = called_before_trans i k j before in
    let too = called_too i k before in ground (arith, rest, too)

module _ (ctx : CfgCtx) (runs : (ctx.cmd.ident == sh_list_adjustable.ident) ≡ false) where
  disk-Extends :
      (only : Option ℕ) (running vols : List Volume) (r : Option ℕ × Sched)
      → Extends r.1 (adjust_disk ctx only running vols r).1
  unfolding adjust_disk
  disk-Extends only running [] r = Extends-self r.1
  disk-Extends only running (vol ∷ rest) r = elim (Bool-cases (is_wanted only vol.vnr)) [
    | inl e ↦
        let t = adjust_volume ctx running vol r in
        rw (e, adjust_disk)
          (Extends-trans r.1 t.1 (adjust_disk ctx only running rest t).1
            (volume-Extends ctx runs running vol r).0 (disk-Extends only running rest t))
    | inr e ↦ rw (e, adjust_disk) (disk-Extends only running rest r)
  ]

  adjust_disk_cons :
      (only : Option ℕ) (running : List Volume) (vol : Volume) (rest : List Volume)
      (r : Option ℕ × Sched)
      → is_wanted only vol.vnr ≡ true
      → adjust_disk ctx only running (vol ∷ rest) r
        ≡ adjust_disk ctx only running rest (adjust_volume ctx running vol r)
  unfolding adjust_disk
  adjust_disk_cons only running vol rest r e = rw (e, adjust_disk) refl

  adjust_disk_skip :
      (only : Option ℕ) (running : List Volume) (vol : Volume) (rest : List Volume)
      (r : Option ℕ × Sched)
      → is_wanted only vol.vnr ≡ false
      → adjust_disk ctx only running (vol ∷ rest) r ≡ adjust_disk ctx only running rest r
  unfolding adjust_disk
  adjust_disk_skip only running vol rest r e = rw (e, adjust_disk) refl

  adjust_disk-Swaps :
      (only : Option ℕ) (running vols : List Volume) (vol : Volume) (r : Option ℕ × Sched)
      → IsIn vol vols
      → is_wanted only vol.vnr ≡ true
      → vol.adj_detach ≡ true
      → vol.adj_attach ≡ true
      → Swaps ctx runs vol.adj_del_minor
          (record ctx { conn = 0; vnr = vol.vnr; path = 0 })
          (adjust_disk ctx only running vols r).1
  adjust_disk-Swaps only running [] vol r member wanted det att = absurd member
  adjust_disk-Swaps only running (v ∷ rest) vol r (inl here) wanted det att =
      let tmp : CfgCtx = record ctx { conn = 0; vnr = vol.vnr; path = 0 } in
      let t = adjust_volume ctx running vol r in
      subst
        (λ (v : Volume).
          Swaps ctx runs vol.adj_del_minor tmp (adjust_disk ctx only running (v ∷ rest) r).1)
        (sym here)
        (rw (adjust_disk_cons only running vol rest r wanted) (
          Swaps-later ctx runs vol.adj_del_minor tmp t.1 (adjust_disk ctx only running rest t).1
            (disk-Extends only running rest t) (volume-Swaps ctx runs running vol r det att)))
  adjust_disk-Swaps only running (v ∷ rest) vol r (inr there) wanted det att =
      elim (Bool-cases (is_wanted only v.vnr)) [
        | inl e ↦ rw (adjust_disk_cons only running v rest r e) (
            adjust_disk-Swaps only running rest vol (adjust_volume ctx running v r) there wanted det
              att)
        | inr e ↦
            rw (adjust_disk_skip only running v rest r e)
              (adjust_disk-Swaps only running rest vol r there wanted det att)
      ]

  Links-before :
      (call : List ℕ → DeferredCmd → ℤ) (deletes : Bool) (tmp : CfgCtx) (s : Sched)
      (last detach j : ℕ) (calls : List ℕ)
      → Links ctx runs deletes tmp s last detach
      → s.done detach ≡ false
      → InOrder call s calls
      → called_before last j calls ≡ true
      → called_before detach j calls ≡ true
  Links-before call true tmp s last detach j calls l new o h =
      called_before_trans detach last j calls
        (needs_before call s detach last calls (ap (λ (d : DeferredCmd). d.depends_on) l.is) new o)
        h
  Links-before call false tmp s last detach j calls l new o h =
      subst (λ k. called_before k j calls ≡ true) l h

  last_waits :
      (deletes : Bool) (tmp : CfgCtx) (s : Sched) (last detach : ℕ)
      → Links ctx runs deletes tmp s last detach
      → s.done detach ≡ false
      → s.done last ≡ false
  last_waits true tmp s last detach l new = l.waits
  last_waits false tmp s last detach l new = subst (λ k. s.done k ≡ false) (sym l) new

  -- For a volume that is to be adjusted, and to be detached and attached, adjust_disk() schedules a
  -- detach, the deletion of the minor where it is to be deleted, and an attach (Swaps: each depends
  -- on the one before). From a reachable queue, and not under sh-list-adjustable, the run of
  -- run_deferred_cmds() returns, and whatever the commands return, it calls the attach only after the
  -- detach and after the deletion.
  pub adjust_disk_detaches_first :
      (only : Option ℕ) (running vols : List Volume) (vol : Volume) (r : Option ℕ × Sched)
      (call : List ℕ → DeferredCmd → ℤ) (progress : Bool)
      → IsReady r
      → IsIn vol vols
      → is_wanted only vol.vnr ≡ true
      → vol.adj_detach ≡ true
      → vol.adj_attach ≡ true
      → let t = (adjust_disk ctx only running vols r).1 in
        (w : Swaps ctx runs vol.adj_del_minor (record ctx { conn = 0; vnr = vol.vnr; path = 0 }) t)
        × (run : Sched × ℕ) × (run_deferred_cmds call progress t ≡ some run)
        × (called_before w.detach w.attach run.0.calls ≡ true)
        × (called_before w.last w.attach run.0.calls ≡ true)
  adjust_disk_detaches_first only running vols vol r call progress ready member wanted det att =
      let tmp : CfgCtx = record ctx { conn = 0; vnr = vol.vnr; path = 0 } in
      let t = (adjust_disk ctx only running vols r).1 in
      let reach = (adjust_disk-IsReady ctx only running vols r ready).reach in
      let w = adjust_disk-Swaps only running vols vol r member wanted det att in
      let (run, e) = run_deferred_cmds_ends call progress t (Reach-IsExact reach).queued in
      let ordered = Reach-InOrder call progress t run reach e in
      let calls = run.0.calls in
      let on_last = ap (λ (d : DeferredCmd). d.depends_on) (w.attaches.is) in
      let last =
        needs_before call t w.last w.attach calls on_last
          (last_waits vol.adj_del_minor tmp t w.last w.detach w.links w.detaches.waits) ordered in
      (
        w,
        run,
        e,
        Links-before call vol.adj_del_minor tmp t w.last w.detach w.attach calls w.links
            w.detaches.waits ordered last,
        last,
      )
