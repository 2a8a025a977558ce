-- ===== src/Adm/Volumes/Known.antt =====
-- Volumes whose options their tables of fields have: compare_volumes() of user/v9/drbdadm_adjust.c
-- does not abort on them.
use drbd_utils.Prelude.{
  IsRising, ℕ, Text, eq_text, ◌≡◌, refl, sym, Bool, true, false, not, ◌&&◌, ◌||◌, List, [], ◌∷◌,
  Option, none, some, Bool-cases, inl, inr, if◌then◌else◌, Result, ok, ◌>>=◌, Ends, >>=-Ends,
  if_Ends,
}
use mathlib.Core.Path.{subst}
use drbd_utils.Adm.Options.{DOption, FieldDef, find_opt, del_opt, is_equal, is_default, opts_equal}
use drbd_utils.Adm.Options.Known.{
  IsField, AllFields, find_opt-name, is_equal-Ends, is_default-Ends, opts_equal-IsLooked,
  AllOptions, IsLooked,
}
use drbd_utils.Adm.Volumes.{
  Volume, Contexts, size_word, set_adj_skip, size_differs, compare_size, compare_disk,
  compare_volume, compare_volumes, is_set, matching_volume,
}
use drbd_utils.Adm.Volumes.Insert.{vnrs}
use drbd_utils.Adm.Volumes.Steps.{IsCompared}
use drbd_utils.Adm.Volumes.Merge.{AllKnown, compare_volumes-IsCompared}

AllFields-AllLooked :
    (ctx : List FieldDef) (base : List DOption)
    → AllFields ctx base
    → AllOptions (IsLooked ctx) base
AllFields-AllLooked ctx [] h = tt
AllFields-AllLooked ctx (o ∷ base) (a, h) = (inr a, AllFields-AllLooked ctx base h)

-- The option that is skipped need not be in the table.
set_adj_skip_lem :
    (ctx : List FieldDef) (base : List DOption) (name : Text)
    → AllFields ctx (del_opt base name)
    → AllOptions (IsLooked ctx) (set_adj_skip base name)
unfolding set_adj_skip del_opt
set_adj_skip_lem ctx [] name h = tt
set_adj_skip_lem ctx (o ∷ base) name h = elim (Bool-cases (eq_text o.name name)) [
  | inl same ↦
      let h' : AllFields ctx base = rw same at h in
      rw same (inl refl, AllFields-AllLooked ctx base h')
  | inr other ↦
      let (a, h') : IsField ctx o.name × AllFields ctx (del_opt base name) = rw other at h in
      rw other (inr a, set_adj_skip_lem ctx base name h')
]

size_differs-Ends :
    (ctx : List FieldDef) (c k : Option DOption)
    → ((o : DOption) → c ≡ some o → IsField ctx o.name)
    → ((o : DOption) → k ≡ some o → IsField ctx o.name)
    → Ends (λ (b : Bool). Unit {0}) (size_differs ctx c k)
unfolding size_differs
size_differs-Ends ctx c none hc hk = (elim c [ none ↦ false | some o ↦ true ], refl, tt)
size_differs-Ends ctx none (some k) hc hk =
    >>=-Ends (is_default ctx k) (λ default. if default then ok false else ok true)
      (is_default-Ends ctx k (hk k refl))
      (λ d u. if_Ends d (ok false) (ok true) (false, refl, tt) (true, refl, tt))
size_differs-Ends ctx (some c) (some k) hc hk =
    let other = is_equal ctx c k >>= λ same. ok (not same) in
    >>=-Ends (is_default ctx k) (λ default. if default then ok true else other)
      (is_default-Ends ctx k (hk k refl))
      (λ d u.
        if_Ends d (ok true) other (true, refl, tt)
          (>>=-Ends (is_equal ctx c k) (λ same. ok (not same)) (is_equal-Ends ctx c k (hc c refl))
            (λ e w. (not e, refl, tt))))

module _ (is_same_disk : Text → Text → Bool) (contexts : Contexts) where
  -- The table of the disk options has those of the volume, but for `size`, which only the table of
  -- attach has.
  abbrev pub HasFields : Volume → Type 0
  HasFields v = AllFields contexts.disk_options_ctx (del_opt v.disk_options size_word)

  abbrev IsReady : Volume → Type 0
  IsReady v = AllOptions (IsLooked contexts.disk_options_ctx) v.disk_options

  compare_size-Ends :
      (c k : Volume)
      → IsField contexts.attach_cmd_ctx size_word
      → HasFields c
      → HasFields k
      → Ends
          (λ (r : Volume × Volume). (r.0.vnr ≡ c.vnr) × IsReady r.0 × IsReady r.1)
          (compare_size contexts.attach_cmd_ctx c k)
  unfolding compare_size
  compare_size-Ends c k size hc hk =
      let named = λ (base : List DOption) (o : DOption) (e : find_opt base size_word ≡ some o).
        subst (IsField contexts.attach_cmd_ctx) (sym (find_opt-name base size_word o e)) size in
      >>=-Ends
        (size_differs contexts.attach_cmd_ctx (find_opt c.disk_options size_word)
          (find_opt k.disk_options size_word))
        (λ differs. ok (
          record c {
            disk_options = set_adj_skip c.disk_options size_word;
            adj_resize = c.adj_resize || differs;
          },
          record k { disk_options = set_adj_skip k.disk_options size_word },
        ))
        (size_differs-Ends contexts.attach_cmd_ctx (find_opt c.disk_options size_word)
          (find_opt k.disk_options size_word) (named c.disk_options) (named k.disk_options))
        (λ d u. (
          (
            record c {
              disk_options = set_adj_skip c.disk_options size_word;
              adj_resize = c.adj_resize || d;
            },
            record k { disk_options = set_adj_skip k.disk_options size_word },
          ),
          refl,
          (
            refl,
            set_adj_skip_lem contexts.disk_options_ctx c.disk_options size_word hc,
            set_adj_skip_lem contexts.disk_options_ctx k.disk_options size_word hk,
          ),
        ))

  compare_volume-Ends :
      (c k : Volume)
      → IsField contexts.attach_cmd_ctx size_word
      → HasFields c
      → HasFields k
      → Ends (λ (p : Volume × Volume). p.0.vnr ≡ c.vnr) (compare_volume is_same_disk contexts c k)
  unfolding compare_volume compare_disk
  compare_volume-Ends c k size hc hk =
      let d = compare_disk is_same_disk contexts c k in
      let compare_options : Volume × Volume → Result (Volume × Volume) = λ r.
        opts_equal contexts.disk_options_ctx r.0.disk_options r.1.disk_options >>= λ equal.
        ok (record r.0 { disk_options = equal.1; adj_disk_opts = not equal.0 }, r.1) in
      if_Ends (not d.adj_attach && not d.adj_detach && is_set d.disk)
        (compare_size contexts.attach_cmd_ctx d k >>= compare_options) (ok (d, k))
        (>>=-Ends (compare_size contexts.attach_cmd_ctx d k) compare_options
          (compare_size-Ends d k size hc hk)
          (λ r (same, h, h').
            >>=-Ends (opts_equal contexts.disk_options_ctx r.0.disk_options r.1.disk_options)
              (λ equal.
                ok (record r.0 { disk_options = equal.1; adj_disk_opts = not equal.0 }, r.1))
              (opts_equal-IsLooked contexts.disk_options_ctx r.0.disk_options r.1.disk_options h h')
              (λ e u.
                ((record r.0 { disk_options = e.1; adj_disk_opts = not e.0 }, r.1), refl, same))))
        ((d, k), refl, refl)

  -- For volumes by rising number on both sides, where the table of attach has `size` and the table of
  -- the disk options has every disk option of a volume but its first `size` (HasFields),
  -- compare_volumes() does not abort, leaves the configured volumes by rising number, and what stands
  -- at a number is what the two sides have there (IsCompared): nothing, the new volume with its flags,
  -- a volume to be deleted that is made from the running one, or what compare_volume() makes of the
  -- two.
  pub compare_volumes_lem :
      (conf kern : List Volume)
      → IsField contexts.attach_cmd_ctx size_word
      → AllKnown HasFields conf
      → AllKnown HasFields kern
      → IsRising (vnrs conf)
      → IsRising (vnrs kern)
      → Ends
          (λ (r : List Volume × List Volume).
            IsRising (vnrs r.0)
            × ((v : ℕ)
                → IsCompared is_same_disk contexts
                    (matching_volume v conf)
                    (matching_volume v kern)
                    (matching_volume v r.0)))
          (compare_volumes is_same_disk contexts conf kern)
  compare_volumes_lem conf kern size hc hk rc rk =
      compare_volumes-IsCompared is_same_disk contexts HasFields
        (λ c k a b. compare_volume-Ends c k size a b) conf kern hc hk rc rk
