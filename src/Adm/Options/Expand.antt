-- ===== src/Adm/Options/Expand.antt =====
-- expand_opts() of user/v9/drbdadm_postparse.c: what a section inherits of the common one.
use drbd_utils.Prelude.{
  Text, eq_text, eq_of_eq_text, ◌≡◌, refl, sym, ap, ◌∙◌, Bool, true, false, not, ◌&&◌, List, [],
  ◌∷◌, Option, none, some, Option-cases, Bool-cases, inl, inr, Ends, >>=-Ends,
}
use mathlib.Core.Path.{subst}
use drbd_utils.Adm.Options.{DOption, FieldDef, find_opt, is_equal, expand_opts}
use drbd_utils.Adm.Options.Known.{AllFields, is_equal-Ends}
use drbd_utils.Adm.Options.Equal.{value_at}
use drbd_utils.Adm.Options.Marks.{AllFields-found}

abbrev pub value_or : Option (Option Text) → Option (Option Text) → Option (Option Text)
value_or none y = y
value_or (some x) y = some x

value_or-none : (x : Option (Option Text)) → x ≡ value_or x none
value_or-none none = refl
value_or-none (some x) = refl

-- What follows from the first option of the common section.
first_common :
    (o new : DOption) (common options : List DOption) (name : Text)
    → new.name ≡ o.name
    → new.value ≡ o.value
    → find_opt options o.name ≡ none
    → value_or (value_at (find_opt (new ∷ options) name)) (value_at (find_opt common name))
      ≡ value_or (value_at (find_opt options name)) (value_at (find_opt (o ∷ common) name))
unfolding find_opt
first_common o new common options name e f absent = elim (Bool-cases (eq_text o.name name)) [
  | inl same ↦
      let absent' =
        subst (λ n. find_opt options n ≡ none) (eq_of_eq_text o.name name same) absent in
      let same' : eq_text new.name name ≡ true = subst (λ n. eq_text n name ≡ true) (sym e) same in
      rw (same, same', absent') (ap some f)
  | inr other ↦
      let other' : eq_text new.name name ≡ false =
        subst (λ n. eq_text n name ≡ false) (sym e) other in
      rw (other, other') refl
]

old_option :
    (o : DOption) (x : DOption) (common options : List DOption) (name : Text)
    → find_opt options o.name ≡ some x
    → value_or (value_at (find_opt options name)) (value_at (find_opt common name))
      ≡ value_or (value_at (find_opt options name)) (value_at (find_opt (o ∷ common) name))
unfolding find_opt
old_option o x common options name found = elim (Bool-cases (eq_text o.name name)) [
  | inl same ↦
      let found' =
        subst (λ n. find_opt options n ≡ some x) (eq_of_eq_text o.name name same) found in
      rw (same, found') refl
  | inr other ↦ rw other refl
]

-- For names that the table has, expand_opts() does not abort, and what find_opt() finds after it has
-- the value of the section itself, or else that of the first such option of the common section.
pub expand_opts_lem :
    (oc : List FieldDef) (wildcard : Bool) (common options : List DOption) (config_valid : Bool)
    → AllFields oc common
    → AllFields oc options
    → Ends
        (λ (r : List DOption × Bool).
          (name : Text)
          → value_at (find_opt r.0 name)
            ≡ value_or (value_at (find_opt options name)) (value_at (find_opt common name)))
        (expand_opts oc wildcard common options config_valid)
unfolding expand_opts
expand_opts_lem oc wildcard [] options config_valid hc ho =
    ((options, config_valid), refl, λ name. value_or-none (value_at (find_opt options name)))
expand_opts_lem oc wildcard (o ∷ common) options config_valid (a, hc) ho =
    elim (Option-cases (find_opt options o.name)) [
      | inl absent ↦
          let new : DOption = record {
            name = o.name;
            value = o.value;
            mentioned = false;
            unknown = false;
            adj_skip = false;
            inherited = true;
          } in
          let (r, run, h) =
            expand_opts_lem oc wildcard common (new ∷ options) config_valid hc (a, ho) in
          rw (absent, expand_opts)
            (r, run, λ name. h name ∙ first_common o new common options name refl refl absent)
      | inr (x, found) ↦
          let known = AllFields-found oc options o.name x ho found in
          let more = λ (valid : Bool). expand_opts_lem oc wildcard common options valid hc ho in
          elim (Bool-cases (x.inherited && not wildcard)) [
            | inl ask ↦
                rw (found, expand_opts, ask)
                  (>>=-Ends (is_equal oc x o)
                    (λ same. expand_opts oc wildcard common options (config_valid && same))
                    (is_equal-Ends oc x o known)
                    (λ d u.
                      let (r, run, h) = more (config_valid && d) in
                      (r, run, λ name. h name ∙ old_option o x common options name found)))
            | inr skip ↦
                let (r, run, h) = more config_valid in
                rw (found, expand_opts, skip)
                  (r, run, λ name. h name ∙ old_option o x common options name found)
          ]
    ]
