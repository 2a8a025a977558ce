-- ===== src/Adm/Net/Settled.antt =====
-- adjust_paths() of user/v9/drbdadm_adjust.c on a connection whose paths run as they are configured.
use drbd_utils.Prelude.{
  ℕ, ◌≡◌, refl, sym, ap, ◌∙◌, Bool, true, false, not, ◌&&◌, List, [], ◌∷◌, ◌++◌, Option, some,
  if◌then◌else◌,
}
use drbd_utils.Adm.Deferred.{CfgCtx, Sched}
use drbd_utils.Adm.Commands.{NetPath, Connection}
use drbd_utils.Adm.Disk.{schedule_if, schedule_next}
use drbd_utils.Adm.Net.{
  ConnStates, InetPton, is_pattern, find_path_by_addrs, see_path, add_paths, any_unseen, is_one,
  del_paths, adjust_paths,
}

-- No path of the list has the addresses of the path.
abbrev pub NoneMatches : InetPton → List NetPath → NetPath → Type 0
NoneMatches pton [] path = Unit
NoneMatches pton (c ∷ configured) path =
    (is_pattern pton c path ≡ false) × NoneMatches pton configured path

-- The configured and the running paths have the same addresses one by one, and no later configured path
-- has those of an earlier running one.
abbrev pub IsSettled : InetPton → List NetPath → List NetPath → Type 0
IsSettled pton [] [] = Unit
IsSettled pton [] (r ∷ running) = ⊥
IsSettled pton (c ∷ configured) [] = ⊥
IsSettled pton (c ∷ configured) (r ∷ running) =
    (c.ignore ≡ false)
    × (is_pattern pton c r ≡ true)
    × NoneMatches pton configured r
    × IsSettled pton configured running

NoneMatches-seen :
    (pton : InetPton) (configured : List NetPath) (r : NetPath)
    → NoneMatches pton configured r
    → NoneMatches pton configured (record r { adj_seen = true })
NoneMatches-seen pton [] r h = tt
NoneMatches-seen pton (c ∷ configured) r (a, h) = (a, NoneMatches-seen pton configured r h)

abbrev Passed : InetPton → List NetPath → List NetPath → Type 0
Passed pton configured [] = Unit
Passed pton configured (p ∷ before) = NoneMatches pton configured p × Passed pton configured before

-- All paths are marked as seen.
abbrev pub all_seen : List NetPath → List NetPath
all_seen [] = []
all_seen (r ∷ running) = record r { adj_seen = true } ∷ all_seen running

find-settled :
    (pton : InetPton) (c r : NetPath) (configured before running : List NetPath)
    → Passed pton (c ∷ configured) before
    → is_pattern pton c r ≡ true
    → find_path_by_addrs pton (before ++ (r ∷ running)) c ≡ some r
unfolding find_path_by_addrs
find-settled pton c r configured [] running h e = rw e refl
find-settled pton c r configured (p ∷ before) running ((a, b), h) e =
    rw (a, find_path_by_addrs) (find-settled pton c r configured before running h e)

see-settled :
    (pton : InetPton) (c r : NetPath) (configured before running : List NetPath)
    → Passed pton (c ∷ configured) before
    → is_pattern pton c r ≡ true
    → see_path pton (before ++ (r ∷ running)) c ≡ before ++ (record r { adj_seen = true } ∷ running)
unfolding see_path
see-settled pton c r configured [] running h e = rw e refl
see-settled pton c r configured (p ∷ before) running ((a, b), h) e =
    rw (a, see_path) (ap (λ l. p ∷ l) (see-settled pton c r configured before running h e))

Passed-tail :
    (pton : InetPton) (c : NetPath) (configured before : List NetPath)
    → Passed pton (c ∷ configured) before
    → Passed pton configured before
Passed-tail pton c configured [] h = tt
Passed-tail pton c configured (p ∷ before) ((a, b), h) = (b, Passed-tail pton c configured before h)

Passed-append :
    (pton : InetPton) (r : NetPath) (configured before : List NetPath)
    → Passed pton configured before
    → NoneMatches pton configured r
    → Passed pton configured (before ++ (r ∷ []))
Passed-append pton r configured [] h n = (n, tt)
Passed-append pton r configured (p ∷ before) (a, h) n =
    (a, Passed-append pton r configured before h n)

append_one :
    (before running : List NetPath) (r : NetPath)
    → (before ++ (r ∷ [])) ++ running ≡ before ++ (r ∷ running)
append_one [] running r = refl
append_one (p ∷ before) running r = ap (λ l. p ∷ l) (append_one before running r)

and_false : (b : Bool) → (b && false) ≡ false
and_false true = refl
and_false false = refl

if_false : (b : Bool) (x y : List NetPath) → b ≡ false → (if b then x else y) ≡ y
if_false b x y e = rw e refl

add_paths-settled :
    (pton : InetPton) (configured before running : List NetPath) (depends_on : Option ℕ)
    (ctx : CfgCtx) (s : Sched)
    → Passed pton configured before
    → IsSettled pton configured running
    → add_paths pton configured (before ++ running) depends_on (ctx, s)
      ≡ (before ++ all_seen running, ctx, s)
unfolding add_paths
add_paths-settled pton [] before [] depends_on ctx s p h = refl
add_paths-settled pton [] before (r ∷ running) depends_on ctx s p h = absurd h
add_paths-settled pton (c ∷ configured) before [] depends_on ctx s p h = absurd h
add_paths-settled pton (c ∷ configured) before (r ∷ running) depends_on ctx s p
      (used, same, later, h) =
    let seen : NetPath = record r { adj_seen = true } in
    let more =
      add_paths-settled pton configured (before ++ (seen ∷ [])) running depends_on ctx s
        (Passed-append pton seen configured before (Passed-tail pton c configured before p)
          (NoneMatches-seen pton configured r later))
        h in
    rw (find-settled pton c r configured before running p same, and_false (not c.ignore), add_paths)
      (ap (λ l. add_paths pton configured l depends_on (ctx, s))
          (if_false c.ignore (before ++ (r ∷ running)) (see_path pton (before ++ (r ∷ running)) c)
              used
            ∙ (see-settled pton c r configured before running p same
                ∙ sym (append_one before running seen)))
        ∙ (more ∙ ap (λ l. (l, ctx, s)) (append_one before (all_seen running) seen)))

any_unseen-all_seen : (running : List NetPath) → any_unseen (all_seen running) ≡ false
any_unseen-all_seen [] = refl
any_unseen-all_seen (r ∷ running) = any_unseen-all_seen running

del_paths-all_seen :
    (ctx : CfgCtx) (running : List NetPath) (depends_on : Option ℕ) (s : Sched)
    → del_paths ctx (all_seen running) depends_on s ≡ s
unfolding del_paths schedule_if
del_paths-all_seen ctx [] depends_on s = refl
del_paths-all_seen ctx (r ∷ running) depends_on s = del_paths-all_seen ctx running depends_on s

-- When the running paths are the configured ones, in the same order and none of them twice, adjust_paths()
-- schedules nothing, asks for no new connect, and marks every path as seen.
pub adjust_paths-settled :
    (pton : InetPton) (states : ConnStates) (ctx : CfgCtx) (conf running : Connection)
    (depends_on : Option ℕ) (s : Sched)
    → IsSettled pton conf.paths running.paths
    → adjust_paths pton states ctx conf running depends_on s ≡ (all_seen running.paths, s, false)
unfolding adjust_paths schedule_next
adjust_paths-settled pton states ctx conf running depends_on s h =
    let none_new = add_paths-settled pton conf.paths [] running.paths depends_on ctx s tt h in
    let none_old = any_unseen-all_seen running.paths in
    rw
      (
        none_new,
        none_old,
        and_false (is_one (all_seen running.paths)),
        del_paths-all_seen ctx running.paths depends_on s,
      )
      refl
