-- ===== src/Adm/Volumes.antt =====
-- user/v9/drbdadm_adjust.c: the comparison of the configured volumes of a resource with the running
-- ones, and STAILQ_INSERT_ORDERED of user/v9/drbdadm.h. The messages are left out, and is_same_disk(),
-- which asks the file system, is a parameter.
pub mod Insert
pub mod Steps
pub mod Merge
pub mod Known
use drbd_utils.Prelude.{
  ℕ, Text, eq_text, Bool, true, false, not, ◌&&◌, ◌||◌, List, [], ◌∷◌, ◌++◌, Option, none, some,
  if◌then◌else◌, leb, ltb, ◌==◌, Result, ok, ◌>>=◌,
}
use Prim.Native.Nat.{compare, Ordering}
use drbd_utils.Adm.Options.{DOption, FieldDef, find_opt, is_equal, is_default, opts_equal}

-- struct d_volume, as far as the comparison reads or writes it; a `disk` of none is NULL.
pub record Volume : Type 0 where
  pub vnr : ℕ
  pub device_minor : ℕ
  pub disk : Option Text
  pub meta_disk : Text
  pub meta_index : Text
  pub disk_options : List DOption
  pub adj_del_minor : Bool
  pub adj_new_minor : Bool
  pub adj_detach : Bool
  pub adj_attach : Bool
  pub adj_resize : Bool
  pub adj_disk_opts : Bool

-- The tables of fields that the comparison uses, attach_cmd_ctx and disk_options_ctx.
pub record Contexts : Type 0 where
  pub attach_cmd_ctx : List FieldDef
  pub disk_options_ctx : List FieldDef

abbrev pub internal : Text
internal = 105 ∷ 110 ∷ 116 ∷ 101 ∷ 114 ∷ 110 ∷ 97 ∷ 108 ∷ []

abbrev pub none_word : Text
none_word = 110 ∷ 111 ∷ 110 ∷ 101 ∷ []

abbrev pub size_word : Text
size_word = 115 ∷ 105 ∷ 122 ∷ 101 ∷ []

-- `disk != NULL && strcmp(disk, "none")`
abbrev pub has_disk : Option Text → Bool
has_disk none = false
has_disk (some disk) = not (eq_text disk none_word)

unfoldable pub int_eq : Text → Text → Bool
int_eq m_conf m_running =
    if eq_text m_conf internal then eq_text m_running internal else not (eq_text m_running internal)

-- The last of the elements of STAILQ_LAST, and STAILQ_INSERT_ORDERED
abbrev pub last_vnr : Volume → List Volume → ℕ
last_vnr t [] = t.vnr
last_vnr t (u ∷ rest) = last_vnr u rest

unfoldable pub insert_before_greater : List Volume → Volume → List Volume
insert_before_greater [] e = []
insert_before_greater (t ∷ rest) e =
    if ltb e.vnr t.vnr then e ∷ t ∷ rest else t ∷ insert_before_greater rest e

unfoldable pub insert_volume : List Volume → Volume → List Volume
unfolding insert_before_greater
insert_volume [] e = e ∷ []
insert_volume (t ∷ rest) e =
    if leb (last_vnr t rest) e.vnr
    then (t ∷ rest) ++ (e ∷ [])
    else insert_before_greater (t ∷ rest) e

unfoldable pub set_adj_skip : List DOption → Text → List DOption
set_adj_skip [] name = []
set_adj_skip (o ∷ base) name =
    if eq_text o.name name then record o { adj_skip = true } ∷ base else o ∷ set_adj_skip base name

-- Whether compare_size() sets adj_resize.
unfoldable pub size_differs : List FieldDef → Option DOption → Option DOption → Result Bool
unfolding is_equal is_default
size_differs ctx c none = ok (elim c [ none ↦ false | some o ↦ true ])
size_differs ctx c (some k) = is_default ctx k >>= λ default.
    if default
    then ok (elim c [ none ↦ false | some o ↦ true ])
    else elim c [ none ↦ ok true | some o ↦ is_equal ctx o k >>= λ same. ok (not same) ]

unfoldable pub compare_size : List FieldDef → Volume → Volume → Result (Volume × Volume)
unfolding size_differs set_adj_skip find_opt
compare_size ctx conf kern =
    size_differs ctx (find_opt conf.disk_options size_word) (find_opt kern.disk_options size_word)
    >>= λ differs. ok (
      record conf {
        disk_options = set_adj_skip conf.disk_options size_word;
        adj_resize = conf.adj_resize || differs;
      },
      record kern { disk_options = set_adj_skip kern.disk_options size_word },
    )

unfoldable pub new_to_be_deleted_minor_from_template : Volume → Volume
new_to_be_deleted_minor_from_template kern =
    let detach = has_disk kern.disk in
    record {
      vnr = kern.vnr;
      device_minor = kern.device_minor;
      disk = if detach then kern.disk else none;
      meta_disk = if detach then kern.meta_disk else [];
      meta_index = if detach then kern.meta_index else [];
      disk_options = [];
      adj_del_minor = true;
      adj_new_minor = false;
      adj_detach = detach;
      adj_attach = false;
      adj_resize = false;
      adj_disk_opts = false;
    }

abbrev pub is_set : Option Text → Bool
is_set none = false
is_set (some disk) = true

unfoldable pub new_volume : Volume → Volume
new_volume conf = record conf {
  adj_new_minor = true;
  adj_attach = is_set conf.disk || conf.adj_attach;
}

-- The running volume with the number `vnr` of the configured one
unfoldable pub matching_volume : ℕ → List Volume → Option Volume
matching_volume vnr [] = none
matching_volume vnr (vol ∷ rest) = if vol.vnr == vnr then some vol else matching_volume vnr rest

-- The last loop of compare_volumes()
abbrev pub insert_all : List Volume → List Volume → List Volume
insert_all conf [] = conf
insert_all conf (v ∷ deleted) = insert_all (insert_volume conf v) deleted

module _ (is_same_disk : Text → Text → Bool) (contexts : Contexts) where
  unfoldable pub disk_equal : Volume → Volume → Bool
  unfolding int_eq
  disk_equal conf running = elim conf.disk [
    | none ↦ not (has_disk running.disk)
    | some disk ↦ elim running.disk [
      | none ↦ false
      | some running_disk ↦
          is_same_disk disk running_disk
          && int_eq conf.meta_disk running.meta_disk
          && (eq_text conf.meta_disk internal || is_same_disk conf.meta_disk running.meta_disk)
    ]
  ]

  -- The first part of compare_volume(): the flags of the minor and of the disk.
  unfoldable pub compare_disk : Volume → Volume → Volume
  unfolding disk_equal
  compare_disk conf kern =
      let new_minor = not (conf.device_minor == kern.device_minor) in
      let moved = not (disk_equal conf kern) || new_minor in
      record conf {
        adj_new_minor = new_minor;
        adj_del_minor = new_minor;
        adj_attach = if moved then has_disk conf.disk else conf.adj_attach;
        adj_detach = if moved then has_disk kern.disk else conf.adj_detach;
      }

  -- The two volumes after the call.
  unfoldable pub compare_volume : Volume → Volume → Result (Volume × Volume)
  unfolding compare_disk compare_size opts_equal
  compare_volume conf kern =
      let c = compare_disk conf kern in
      if not c.adj_attach && not c.adj_detach && is_set c.disk
      then compare_size contexts.attach_cmd_ctx c kern >>= (λ r.
        opts_equal contexts.disk_options_ctx r.0.disk_options r.1.disk_options >>= λ equal.
        ok (record r.0 { disk_options = equal.1; adj_disk_opts = not equal.0 }, r.1))
      else ok (c, kern)

  -- The loop: the configured volumes, the running ones, and those to be deleted, as they are at its end.
  unfoldable pub merge_volumes :
      List Volume → List Volume → List Volume → Result (List Volume × List Volume × List Volume)
  unfolding compare_volume new_volume new_to_be_deleted_minor_from_template insert_volume
  merge_volumes [] [] deleted = ok ([], [], deleted)
  merge_volumes [] (k ∷ kern) deleted =
      merge_volumes [] kern (insert_volume deleted (new_to_be_deleted_minor_from_template k))
      >>= λ r. ok (r.0, k ∷ r.1, r.2)
  merge_volumes (c ∷ conf) [] deleted =
      merge_volumes conf [] deleted >>= λ r. ok (new_volume c ∷ r.0, r.1, r.2)
  merge_volumes (c ∷ conf) (k ∷ kern) deleted = elim (compare k.vnr c.vnr) [
    | Ordering.lt ↦
        merge_volumes (c ∷ conf) kern
          (insert_volume deleted (new_to_be_deleted_minor_from_template k))
        >>= λ r. ok (r.0, k ∷ r.1, r.2)
    | Ordering.gt ↦ merge_volumes conf (k ∷ kern) deleted >>= λ r. ok (new_volume c ∷ r.0, r.1, r.2)
    | Ordering.eq ↦
        compare_volume c k
        >>= (λ v. merge_volumes conf kern deleted >>= λ r. ok (v.0 ∷ r.0, v.1 ∷ r.1, r.2))
  ]

  -- The configured and the running volumes after the call.
  unfoldable pub compare_volumes : List Volume → List Volume → Result (List Volume × List Volume)
  unfolding merge_volumes
  compare_volumes conf kern = merge_volumes conf kern [] >>= λ r. ok (insert_all r.0 r.2, r.1)
