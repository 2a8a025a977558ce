-- ===== src/Tests/Volumes.antt =====
-- A resource with the volumes 0 and 1 in the configuration and 1 and 2 in the kernel.
use drbd_utils.Prelude.{
  IsRising, ℕ, ◌≡◌, refl, Text, eq_text, Bool, true, false, List, [], ◌∷◌, Option, none, some,
  Result, ok, stop, Ends, arith,
}
use mathlib.Core.Path.{subst}
use drbd_utils.Prelude.{Bool-cases, inl, inr, ok-injective, ◌↔◌}
use drbd_utils.Adm.Options.Marks.{eq_text_sym}
use drbd_utils.Adm.Options.Equal.{value_at}
use drbd_utils.Adm.Options.Expand.{value_or, expand_opts_lem}
use drbd_utils.Adm.Options.{expand_opts, del_opt}
use drbd_utils.Adm.Options.Agree.{IsSymmetric, opts_equal-opt_equal}
use drbd_utils.Adm.Options.{find_opt, opts_equal, opt_equal}
use drbd_utils.Adm.Options.{DOption, FieldDef, field_def_of}
use drbd_utils.Adm.Options.Known.{IsField}
use drbd_utils.Adm.Volumes.{
  Volume, Contexts, internal, size_word, insert_volume, matching_volume, compare_volumes,
}
use drbd_utils.Adm.Volumes.Insert.{vnrs, insert_volume-IsRising}
use drbd_utils.Adm.Volumes.Steps.{IsCompared}
use drbd_utils.Adm.Volumes.Known.{HasFields, compare_volumes_lem}
use drbd_utils.Adm.Volumes.Merge.{AllKnown}

abbrev same_option : Option Text → Option Text → Bool
same_option none none = true
same_option (some a) (some b) = eq_text a b
same_option _ _ = false

-- The table has the size, with the default 0.
abbrev size_field : FieldDef
size_field = record {
  name = size_word;
  same_value = same_option;
  default_value = same_option (some (48 ∷ []));
}

abbrev bitmap_word : Text
bitmap_word = 98 ∷ 105 ∷ 116 ∷ 109 ∷ 97 ∷ 112 ∷ []

abbrev bitmap_field : FieldDef
bitmap_field = record {
  name = bitmap_word;
  same_value = same_option;
  default_value = same_option (some (49 ∷ []));
}

-- As in the source, only the table of attach has the size.
abbrev contexts : Contexts
contexts = record {
  attach_cmd_ctx = size_field ∷ bitmap_field ∷ [];
  disk_options_ctx = bitmap_field ∷ [];
}

abbrev size_option : Text → DOption
size_option value = record {
  name = size_word;
  value = some value;
  mentioned = false;
  unknown = false;
  adj_skip = false;
  inherited = false;
}

abbrev bitmap_option : Text → DOption
bitmap_option value = record (size_option value) { name = bitmap_word }

abbrev volume : ℕ → List DOption → Volume
volume n opts = record {
  vnr = n;
  device_minor = n;
  disk = some (97 ∷ []);
  meta_disk = internal;
  meta_index = [];
  disk_options = opts;
  adj_del_minor = false;
  adj_new_minor = false;
  adj_detach = false;
  adj_attach = false;
  adj_resize = false;
  adj_disk_opts = false;
}

abbrev configured : List Volume
configured = volume 0 [] ∷ volume 1 (size_option (55 ∷ []) ∷ bitmap_option (48 ∷ []) ∷ []) ∷ []

abbrev running : List Volume
running = volume 1 (size_option (54 ∷ []) ∷ []) ∷ volume 2 (size_option (54 ∷ []) ∷ []) ∷ []

size-IsField : IsField (size_field ∷ []) size_word
unfolding field_def_of eq_text
size-IsField = (size_field, refl, tt)

attach_size-IsField : IsField contexts.attach_cmd_ctx size_word
unfolding field_def_of eq_text
attach_size-IsField = (size_field, refl, tt)

bitmap-IsField : IsField contexts.disk_options_ctx bitmap_word
unfolding field_def_of eq_text
bitmap-IsField = (bitmap_field, refl, tt)

-- The tables have the options but for `size`.
configured-HasFields : AllKnown (HasFields eq_text contexts) configured
unfolding del_opt eq_text
configured-HasFields = (tt, ((bitmap-IsField, tt), tt))

running-HasFields : AllKnown (HasFields eq_text contexts) running
unfolding del_opt eq_text
running-HasFields = (tt, (tt, tt))

compare_volumes_lem_example :
    Ends
      (λ (r : List Volume × List Volume).
        IsRising (vnrs r.0)
        × ((v : ℕ)
            → IsCompared eq_text contexts
                (matching_volume v configured)
                (matching_volume v running)
                (matching_volume v r.0)))
      (compare_volumes eq_text contexts configured running)
compare_volumes_lem_example =
    compare_volumes_lem eq_text contexts configured running attach_size-IsField configured-HasFields
      running-HasFields ((omega arith, tt), (tt, tt)) ((omega arith, tt), (tt, tt))

-- What adjust is to do with a volume: new, deleted, detached, attached, resized, other options.
abbrev plan : Volume → ℕ × List Bool
plan v = (
  v.vnr,
  v.adj_new_minor ∷ v.adj_del_minor ∷ v.adj_detach ∷ v.adj_attach ∷ v.adj_resize ∷ v.adj_disk_opts
      ∷ [],
)

abbrev plans : List Volume → List (ℕ × List Bool)
plans [] = []
plans (v ∷ vols) = plan v ∷ plans vols

abbrev plans_of : Result (List Volume × List Volume) → List (ℕ × List Bool)
plans_of (stop code) = []
plans_of (ok r) = plans r.0

run_compare_volumes :
    plans_of (compare_volumes eq_text contexts configured running)
    ≡ (0, true ∷ false ∷ false ∷ true ∷ false ∷ false ∷ [])
      ∷ (1, false ∷ false ∷ false ∷ false ∷ true ∷ true ∷ [])
      ∷ (2, false ∷ true ∷ true ∷ false ∷ false ∷ false ∷ [])
      ∷ []
unfolding compare_volumes eq_text
run_compare_volumes = refl

insert_volume-IsRising_example : IsRising (vnrs (insert_volume running (volume 0 [])))
unfolding matching_volume
insert_volume-IsRising_example =
    insert_volume-IsRising running (volume 0 []) refl ((omega arith, tt), (tt, tt))

same_option_sym : (x y : Option Text) → same_option x y ≡ same_option y x
same_option_sym none none = refl
same_option_sym none (some b) = refl
same_option_sym (some a) none = refl
same_option_sym (some a) (some b) = eq_text_sym a b

size_symmetric : IsSymmetric (size_field ∷ [])
unfolding field_def_of
size_symmetric name f x y e = elim (Bool-cases (eq_text size_word name)) [
  | inl same ↦
      subst (λ (g : FieldDef). g.same_value x y ≡ g.same_value y x) (ok-injective (rw same at e))
        (same_option_sym x y)
  | inr other ↦ absurd (let e' = rw other at e in cc)
]

abbrev sizes : Text → List DOption
sizes value = size_option value ∷ []

opts_equal-opt_equal_example :
    Ends
      (λ (r : Bool × List DOption). (r.0 ≡ true) ↔ (
        (name : Text)
        → IsField (size_field ∷ []) name
        → opt_equal (size_field ∷ []) name (sizes (55 ∷ [])) (sizes (54 ∷ [])) ≡ ok true))
      (opts_equal (size_field ∷ []) (sizes (55 ∷ [])) (sizes (54 ∷ [])))
unfolding find_opt
opts_equal-opt_equal_example =
    opts_equal-opt_equal (size_field ∷ []) (sizes (55 ∷ [])) (sizes (54 ∷ [])) size_symmetric
      (size-IsField, tt) (size-IsField, tt) (refl, tt) (refl, tt) (refl, refl, refl, tt)
      (refl, refl, refl, tt)

expand_opts_lem_example :
    Ends
      (λ (r : List DOption × Bool).
        (name : Text)
        → value_at (find_opt r.0 name)
          ≡ value_or
              (value_at (find_opt (sizes (54 ∷ [])) name))
              (value_at (find_opt (sizes (55 ∷ [])) name)))
      (expand_opts (size_field ∷ []) false (sizes (55 ∷ [])) (sizes (54 ∷ [])) true)
expand_opts_lem_example =
    expand_opts_lem (size_field ∷ []) false (sizes (55 ∷ [])) (sizes (54 ∷ [])) true
      (size-IsField, tt) (size-IsField, tt)
