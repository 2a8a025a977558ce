-- ===== src/Adm/Options.antt =====
-- The options of a section: user/v9/drbdadm_main.c (find_opt, del_opt), user/v9/drbdadm_adjust.c
-- (the comparison of the configured with the running ones), user/v9/drbdadm_postparse.c
-- (expand_opts). What compares two values of an option stands in a table that is a parameter.
pub mod Known
pub mod Equal
pub mod Marks
pub mod Agree
pub mod Expand
use drbd_utils.Prelude.{
  ℕ, Text, eq_text, Bool, true, false, not, ◌&&◌, ◌||◌, List, [], ◌∷◌, Option, none, some,
  if◌then◌else◌, Result, stop, ok, abort, ◌>>=◌,
}

-- struct d_option without is_escaped; a `value` of none is NULL.
pub record DOption : Type 0 where
  pub name : Text
  pub value : Option Text
  pub mentioned : Bool
  pub unknown : Bool
  pub adj_skip : Bool
  pub inherited : Bool

-- struct field_def with its ops, as far as the comparison calls them.
pub record FieldDef : Type 0 where
  pub name : Text
  pub same_value : Option Text → Option Text → Bool
  pub default_value : Option Text → Bool

unfoldable pub find_opt : List DOption → Text → Option DOption
find_opt [] name = none
find_opt (o ∷ base) name = if eq_text o.name name then some o else find_opt base name

-- STAILQ_REMOVE of the option that find_opt() finds
unfoldable pub del_opt : List DOption → Text → List DOption
del_opt [] name = []
del_opt (o ∷ base) name = if eq_text o.name name then base else o ∷ del_opt base name

-- `opt->mentioned = 1` for the option that find_opt() finds
unfoldable pub set_mentioned : List DOption → Text → List DOption
set_mentioned [] name = []
set_mentioned (o ∷ base) name =
    if eq_text o.name name
    then record o { mentioned = true } ∷ base
    else o ∷ set_mentioned base name

unfoldable pub field_def_of : Text → List FieldDef → Result FieldDef
field_def_of name [] = stop abort
field_def_of name (field ∷ rest) =
    if eq_text field.name name then ok field else field_def_of name rest

unfoldable pub is_equal : List FieldDef → DOption → DOption → Result Bool
unfolding field_def_of
is_equal ctx a b = field_def_of a.name ctx >>= λ field. ok (field.same_value a.value b.value)

unfoldable pub is_default : List FieldDef → DOption → Result Bool
unfolding field_def_of
is_default ctx opt = field_def_of opt.name ctx >>= λ field. ok (field.default_value opt.value)

-- The first loop of opts_equal(): whether it came to the end, and the configured options after it.
unfoldable pub compare_running :
    List FieldDef → List DOption → List DOption → Result (Bool × List DOption)
unfolding find_opt del_opt set_mentioned is_equal is_default
compare_running ctx conf [] = ok (true, conf)
compare_running ctx conf (run_opt ∷ rest) =
    if run_opt.unknown
    then compare_running ctx (del_opt conf run_opt.name) rest
    else if run_opt.adj_skip
    then compare_running ctx conf rest
    else elim (find_opt conf run_opt.name) [
      | some opt ↦ is_equal ctx run_opt opt >>= λ same.
          if same
          then compare_running ctx (set_mentioned conf run_opt.name) rest
          else ok (false, conf)
      | none ↦ is_default ctx run_opt >>= λ default.
          if default then compare_running ctx conf rest else ok (false, conf)
    ]

-- The second loop
unfoldable pub compare_configured : List FieldDef → List DOption → Result Bool
unfolding is_default
compare_configured ctx [] = ok true
compare_configured ctx (opt ∷ rest) =
    if opt.adj_skip || opt.mentioned
    then compare_configured ctx rest
    else is_default ctx opt >>= λ default. if default then compare_configured ctx rest else ok false

unfoldable pub opts_equal :
    List FieldDef → List DOption → List DOption → Result (Bool × List DOption)
unfolding compare_running compare_configured
opts_equal ctx conf run_base = compare_running ctx conf run_base >>= λ r.
    if r.0 then compare_configured ctx r.1 >>= (λ b. ok (b, r.1)) else ok (false, r.1)

unfoldable pub opt_equal : List FieldDef → Text → List DOption → List DOption → Result Bool
unfolding field_def_of find_opt
opt_equal ctx opt_name conf run_base = field_def_of opt_name ctx >>= λ field.
    elim (find_opt conf opt_name) [
      | some opt ↦ elim (find_opt run_base opt_name) [
        | some run_opt ↦ ok (field.same_value opt.value run_opt.value)
        | none ↦ ok (field.default_value opt.value)
      ]
      | none ↦ elim (find_opt run_base opt_name) [
        | some run_opt ↦ ok (field.default_value run_opt.value)
        | none ↦ ok true
      ]
    ]

-- expand_opts(); the Boolean is config_valid. `wildcard` stands for `oc == &wildcard_ctx`.
unfoldable pub expand_opts :
    List FieldDef → Bool → List DOption → List DOption → Bool → Result (List DOption × Bool)
unfolding find_opt is_equal
expand_opts oc wildcard [] options config_valid = ok (options, config_valid)
expand_opts oc wildcard (option ∷ common) options config_valid =
    elim (find_opt options option.name) [
      | none ↦
          let new_option : DOption = record {
            name = option.name;
            value = option.value;
            mentioned = false;
            unknown = false;
            adj_skip = false;
            inherited = true;
          } in
          expand_opts oc wildcard common (new_option ∷ options) config_valid
      | some existing_option ↦
          if existing_option.inherited && not wildcard
          then is_equal oc existing_option option
            >>= (λ same. expand_opts oc wildcard common options (config_valid && same))
          else expand_opts oc wildcard common options config_valid
    ]
