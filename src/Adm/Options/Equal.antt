-- ===== src/Adm/Options/Equal.antt =====
-- The two comparisons of options in user/v9/drbdadm_adjust.c: opts_equal(), which walks through both
-- lists and marks what it has seen, and opt_equal(), which looks at one name.
use drbd_utils.Prelude.{
  Text, eq_text, ◌≡◌, refl, ap, Bool, true, false, ◌&&◌, ◌||◌, List, [], ◌∷◌, Option, none, some,
  Option-cases, Bool-cases, inl, inr, ok, stop, Ends,
}
use drbd_utils.Adm.Options.{
  DOption, FieldDef, find_opt, set_mentioned, field_def_of, is_equal, is_default, compare_running,
  compare_configured,
}
use drbd_utils.Adm.Options.Known.{AllFields}

-- No two options have a name in common.
abbrev pub IsDistinct : List DOption → Type 0
IsDistinct [] = Unit
IsDistinct (o ∷ opts) = (find_opt opts o.name ≡ none) × IsDistinct opts

-- No flag is set.
abbrev pub IsPlain : List DOption → Type 0
IsPlain [] = Unit
IsPlain (o ∷ opts) =
    (o.mentioned ≡ false) × (o.unknown ≡ false) × (o.adj_skip ≡ false) × IsPlain opts

-- opts_equal() marks the names of `run`.
abbrev pub mark : List DOption → List DOption → List DOption
mark conf [] = conf
mark conf (o ∷ run) = mark (set_mentioned conf o.name) run

pub set_mentioned-absent :
    (conf : List DOption) (name : Text) → find_opt conf name ≡ none → set_mentioned conf name ≡ conf
unfolding find_opt set_mentioned
set_mentioned-absent [] name e = refl
set_mentioned-absent (o ∷ conf) name e = elim (Bool-cases (eq_text o.name name)) [
  | inl same ↦ absurd (let e' = rw same at e in cc)
  | inr other ↦ rw other (ap (λ c. o ∷ c) (set_mentioned-absent conf name (rw other at e)))
]

-- The value of the option that find_opt() finds.
abbrev pub value_at : Option DOption → Option (Option Text)
value_at none = none
value_at (some o) = some o.value

pub find_opt-set_mentioned :
    (conf : List DOption) (name m : Text)
    → value_at (find_opt (set_mentioned conf name) m) ≡ value_at (find_opt conf m)
unfolding find_opt set_mentioned
find_opt-set_mentioned [] name m = refl
find_opt-set_mentioned (o ∷ conf) name m = elim (Bool-cases (eq_text o.name name)) [
  | inl same ↦ elim (Bool-cases (eq_text o.name m)) [
    | inl e ↦ rw (same, e) refl
    | inr e ↦ rw (same, e) refl
  ]
  | inr other ↦ elim (Bool-cases (eq_text o.name m)) [
    | inl e ↦ rw (other, e) refl
    | inr e ↦ rw (other, e) (find_opt-set_mentioned conf name m)
  ]
]

module _ (ctx : List FieldDef) where
  -- What the first loop asks of a running option, from the configured value under its name.
  abbrev pub run_at : Option (Option Text) → Text → Option Text → Bool
  run_at c name value = elim (field_def_of name ctx) [
    | stop code ↦ false
    | ok f ↦ elim c [ none ↦ f.default_value value | some v ↦ f.same_value value v ]
  ]

  abbrev pub all_run : List DOption → List DOption → Bool
  all_run conf [] = true
  all_run conf (o ∷ run) =
      run_at (value_at (find_opt conf o.name)) o.name o.value && all_run conf run

  all_run-set_mentioned :
      (conf run : List DOption) (name : Text)
      → all_run (set_mentioned conf name) run ≡ all_run conf run
  all_run-set_mentioned conf [] name = refl
  all_run-set_mentioned conf (o ∷ run) name =
      rw (find_opt-set_mentioned conf name o.name, all_run-set_mentioned conf run name) refl

  -- What the second loop asks of a configured option.
  abbrev pub is_kept : Text → Option Text → Bool
  is_kept name value = elim (field_def_of name ctx) [
    | stop code ↦ false
    | ok f ↦ f.default_value value
  ]

  abbrev pub all_kept : List DOption → Bool
  all_kept [] = true
  all_kept (o ∷ conf) = (o.mentioned || is_kept o.name o.value) && all_kept conf

  pub compare_running-all_run :
      (conf run : List DOption)
      → AllFields ctx run
      → IsPlain run
      → Ends
          (λ (r : Bool × List DOption).
            (r.0 ≡ all_run conf run) × (r.0 ≡ true → r.1 ≡ mark conf run))
          (compare_running ctx conf run)
  unfolding compare_running is_equal is_default
  compare_running-all_run conf [] h p = ((true, conf), refl, (refl, λ e. refl))
  compare_running-all_run conf (o ∷ rest) ((f, field, u), h) (m, k, s, p) =
      elim (Option-cases (find_opt conf o.name)) [
        | inl absent ↦ elim (Bool-cases (f.default_value o.value)) [
          | inl d ↦
              let more = compare_running-all_run conf rest h p in
              let here : run_at (value_at (find_opt conf o.name)) o.name o.value ≡ true =
                rw (field, run_at, absent) d in
              let unmarked = set_mentioned-absent conf o.name absent in
              rw (here, k, s, absent, field, d, unmarked) more
          | inr d ↦
              let here : run_at (value_at (find_opt conf o.name)) o.name o.value ≡ false =
                rw (field, run_at, absent) d in
              rw (here, k, s, absent, field, d) ((false, conf), refl, (refl, λ e. cc))
        ]
        | inr (q, found) ↦ elim (Bool-cases (f.same_value o.value q.value)) [
          | inl d ↦
              let more = compare_running-all_run (set_mentioned conf o.name) rest h p in
              let same = all_run-set_mentioned conf rest o.name in
              let here : run_at (value_at (find_opt conf o.name)) o.name o.value ≡ true =
                rw (field, run_at, found) d in
              rw (here, k, s, found, field, d) (rw same at more)
          | inr d ↦
              let here : run_at (value_at (find_opt conf o.name)) o.name o.value ≡ false =
                rw (field, run_at, found) d in
              rw (here, k, s, found, field, d) ((false, conf), refl, (refl, λ e. cc))
        ]
      ]

  -- No option is left out of the second loop.
  abbrev pub NoSkip : List DOption → Type 0
  NoSkip [] = Unit
  NoSkip (o ∷ conf) = (o.adj_skip ≡ false) × NoSkip conf

  pub compare_configured-all_kept :
      (conf : List DOption)
      → AllFields ctx conf
      → NoSkip conf
      → compare_configured ctx conf ≡ ok (all_kept conf)
  unfolding compare_configured is_default
  compare_configured-all_kept [] h p = refl
  compare_configured-all_kept (o ∷ conf) ((f, field, u), h) (s, p) =
      let more = compare_configured-all_kept conf h p in
      let here : is_kept o.name o.value ≡ f.default_value o.value = rw (field, is_kept) refl in
      elim (Bool-cases o.mentioned) [
        | inl m ↦ rw (here, s, m) more
        | inr m ↦ elim (Bool-cases (f.default_value o.value)) [
          | inl d ↦ rw (here, s, m, field, d) more
          | inr d ↦ rw (here, s, m, field, d) refl
        ]
      ]
