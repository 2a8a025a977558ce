-- ===== src/Adm/Options/Agree.antt =====
-- opts_equal() of user/v9/drbdadm_adjust.c against opt_equal() at every name.
use drbd_utils.Prelude.{
  and_left, and_right, Text, eq_text, ◌≡◌, refl, sym, ap, ◌∙◌, ◌↔◌, Bool, true, false, ◌||◌, List,
  [], ◌∷◌, Option, none, some, some_inj, Option-cases, Bool-cases, inl, inr, ok, ok-injective, Ends,
}
use mathlib.Core.Path.{subst}
use drbd_utils.Adm.Options.{DOption, FieldDef, find_opt, field_def_of, opts_equal, opt_equal}
use drbd_utils.Adm.Options.Known.{IsField, AllFields, find_opt-name}
use drbd_utils.Adm.Options.Equal.{
  IsDistinct, IsPlain, mark, value_at, run_at, all_run, is_kept, all_kept, compare_running-all_run,
  compare_configured-all_kept,
}
use drbd_utils.Adm.Options.Marks.{
  has, has-absent, absent-has, mark-first, mark-AllFields, AllFields-found, found_behind,
  found_first, mark_empty, keeps, IsPlain-NoSkip, mark-NoSkip,
}

module _ (ctx : List FieldDef) where
  run_found :
      (conf run : List DOption) (name : Text) (p : DOption)
      → all_run ctx conf run ≡ true
      → find_opt run name ≡ some p
      → run_at ctx (value_at (find_opt conf p.name)) p.name p.value ≡ true
  unfolding find_opt
  run_found conf [] name p all e = cc
  run_found conf (o ∷ run) name p all e = elim (Bool-cases (eq_text o.name name)) [
    | inl same ↦
        subst (λ (x : DOption). run_at ctx (value_at (find_opt conf x.name)) x.name x.value ≡ true)
          (some_inj (rw same at e))
          (and_left (run_at ctx (value_at (find_opt conf o.name)) o.name o.value)
            (all_run ctx conf run) all)
    | inr other ↦
        run_found conf run name p
          (and_right (run_at ctx (value_at (find_opt conf o.name)) o.name o.value)
            (all_run ctx conf run) all)
          (rw other at e)
  ]

  run_all :
      (conf run : List DOption)
      → IsDistinct run
      → ((name : Text) (p : DOption)
          → find_opt run name ≡ some p
          → run_at ctx (value_at (find_opt conf p.name)) p.name p.value ≡ true)
      → all_run ctx conf run ≡ true
  run_all conf [] d h = refl
  run_all conf (o ∷ run) (absent, d) h =
      rw (h o.name o (found_first o run))
        (run_all conf run d (λ name p e. h name p (found_behind o run name p absent e)))

  kept_found :
      (conf run : List DOption) (name : Text) (q : DOption)
      → IsDistinct conf
      → IsPlain conf
      → all_kept ctx (mark conf run) ≡ true
      → find_opt conf name ≡ some q
      → has run q.name ≡ false
      → is_kept ctx q.name q.value ≡ true
  unfolding find_opt
  kept_found [] run name q d p all e new = cc
  kept_found (o ∷ conf) run name q (absent, d) (m, u, s, p) all e new =
      let all' = rw (mark-first o conf run absent) at all in
      let here =
        and_left ((has run o.name || o.mentioned) || is_kept ctx o.name o.value)
          (all_kept ctx (mark conf run)) all' in
      let rest =
        and_right ((has run o.name || o.mentioned) || is_kept ctx o.name o.value)
          (all_kept ctx (mark conf run)) all' in
      elim (Bool-cases (eq_text o.name name)) [
        | inl same ↦
            let o_is_q = some_inj (rw same at e) in
            let new' = subst (λ (x : DOption). has run x.name ≡ false) (sym o_is_q) new in
            subst (λ (x : DOption). is_kept ctx x.name x.value ≡ true) o_is_q (rw (new', m) at here)
        | inr other ↦ kept_found conf run name q d p rest (rw other at e) new
      ]

  kept_all :
      (conf run : List DOption)
      → IsDistinct conf
      → ((name : Text) (q : DOption)
          → find_opt conf name ≡ some q
          → has run q.name ≡ false
          → is_kept ctx q.name q.value ≡ true)
      → all_kept ctx (mark conf run) ≡ true
  kept_all [] run d h = rw (mark_empty run) refl
  kept_all (o ∷ conf) run (absent, d) h =
      let rest = kept_all conf run d (λ name p e. h name p (found_behind o conf name p absent e)) in
      rw (mark-first o conf run absent) (elim (Bool-cases (has run o.name)) [
        | inl old ↦ rw (old, rest) refl
        | inr new ↦
            keeps (has run o.name) o.mentioned (is_kept ctx o.name o.value)
              (all_kept ctx (mark conf run)) (h o.name o (found_first o conf) new) rest
      ])

  is_kept_at :
      (name : Text) (f : FieldDef) (v : Option Text)
      → field_def_of name ctx ≡ ok f
      → is_kept ctx name v ≡ f.default_value v
  is_kept_at name f v field = rw (field, is_kept) refl

  run_at-none :
      (name : Text) (f : FieldDef) (c : Option DOption) (v : Option Text)
      → field_def_of name ctx ≡ ok f
      → c ≡ none
      → run_at ctx (value_at c) name v ≡ f.default_value v
  run_at-none name f c v field e = rw (field, run_at, e) refl

  run_at-some :
      (name : Text) (f : FieldDef) (c : Option DOption) (o : DOption) (v : Option Text)
      → field_def_of name ctx ≡ ok f
      → c ≡ some o
      → run_at ctx (value_at c) name v ≡ f.same_value v o.value
  run_at-some name f c o v field e = rw (field, run_at, e) refl

  -- The comparison of two values does not ask which one runs.
  abbrev pub IsSymmetric : Type 0
  IsSymmetric =
      (name : Text) (f : FieldDef) (x y : Option Text)
      → field_def_of name ctx ≡ ok f
      → f.same_value x y ≡ f.same_value y x

  opt_equal-kept :
      (conf run : List DOption) (name : Text)
      → IsSymmetric
      → IsDistinct conf
      → IsPlain conf
      → all_run ctx conf run ≡ true
      → all_kept ctx (mark conf run) ≡ true
      → IsField ctx name
      → opt_equal ctx name conf run ≡ ok true
  unfolding opt_equal
  opt_equal-kept conf run name symmetric d p all kept (f, field, u) =
      elim (Option-cases (find_opt run name)) [
        | inl no_run ↦ elim (Option-cases (find_opt conf name)) [
          | inl no_conf ↦ rw (field, no_conf, no_run) refl
          | inr (q, in_conf) ↦
              let same = find_opt-name conf name q in_conf in
              let new = has-absent run q.name (rw same no_run) in
              let k = kept_found conf run name q d p kept in_conf new in
              let k' = subst (λ n. is_kept ctx n q.value ≡ true) same k in
              rw (field, in_conf, no_run) (ap ok (sym (is_kept_at name f q.value field) ∙ k'))
        ]
        | inr (r, in_run) ↦
            let same = find_opt-name run name r in_run in
            let k =
              subst (λ n. run_at ctx (value_at (find_opt conf n)) n r.value ≡ true) same
                (run_found conf run name r all in_run) in
            elim (Option-cases (find_opt conf name)) [
              | inl no_conf ↦
                  rw (field, no_conf, in_run)
                    (ap ok
                      (sym (run_at-none name f (find_opt conf name) r.value field no_conf) ∙ k))
              | inr (q, in_conf) ↦
                  rw (field, in_conf, in_run)
                    (ap ok (
                      symmetric name f q.value r.value field
                      ∙ sym (run_at-some name f (find_opt conf name) q r.value field in_conf)
                      ∙ k))
            ]
      ]

  opt_equal-run :
      (conf run : List DOption) (name : Text) (p : DOption)
      → IsSymmetric
      → AllFields ctx run
      → find_opt run name ≡ some p
      → opt_equal ctx name conf run ≡ ok true
      → run_at ctx (value_at (find_opt conf name)) name p.value ≡ true
  unfolding opt_equal
  opt_equal-run conf run name p symmetric h in_run e =
      let (f, field, u) =
        subst (IsField ctx) (find_opt-name run name p in_run)
          (AllFields-found ctx run name p h in_run) in
      elim (Option-cases (find_opt conf name)) [
        | inl no_conf ↦
            run_at-none name f (find_opt conf name) p.value field no_conf
            ∙ ok-injective (rw (field, no_conf, in_run) at e)
        | inr (q, in_conf) ↦
            run_at-some name f (find_opt conf name) q p.value field in_conf
            ∙ symmetric name f p.value q.value field
            ∙ ok-injective (rw (field, in_conf, in_run) at e)
      ]

  opt_equal-conf :
      (conf run : List DOption) (name : Text) (q : DOption)
      → AllFields ctx conf
      → find_opt conf name ≡ some q
      → find_opt run name ≡ none
      → opt_equal ctx name conf run ≡ ok true
      → is_kept ctx name q.value ≡ true
  unfolding opt_equal
  opt_equal-conf conf run name q h in_conf no_run e =
      let (f, field, u) =
        subst (IsField ctx) (find_opt-name conf name q in_conf)
          (AllFields-found ctx conf name q h in_conf) in
      is_kept_at name f q.value field ∙ ok-injective (rw (field, in_conf, no_run) at e)

  all_names :
      (conf run : List DOption)
      → IsSymmetric
      → AllFields ctx conf
      → AllFields ctx run
      → IsDistinct conf
      → IsDistinct run
      → ((name : Text) → IsField ctx name → opt_equal ctx name conf run ≡ ok true)
      → (all_run ctx conf run ≡ true) × (all_kept ctx (mark conf run) ≡ true)
  all_names conf run symmetric hc hr dc dr h = (
    run_all conf run dr (λ name p e.
        let own : find_opt run p.name ≡ some p =
          subst (λ n. find_opt run n ≡ some p) (sym (find_opt-name run name p e)) e in
        opt_equal-run conf run p.name p symmetric hr own
          (h p.name (AllFields-found ctx run name p hr e))),
    kept_all conf run dc (λ name q e new.
        let own : find_opt conf q.name ≡ some q =
          subst (λ n. find_opt conf n ≡ some q) (sym (find_opt-name conf name q e)) e in
        opt_equal-conf conf run q.name q hc own (absent-has run q.name new)
          (h q.name (AllFields-found ctx conf name q hc e))),
  )

  -- For options without flags and without repeated names, whose names the table has, and a
  -- comparison of values that is symmetric, opts_equal() does not abort, and it answers 1 exactly
  -- where opt_equal() answers 1 at every name of the table.
  pub opts_equal-opt_equal :
      (conf run : List DOption)
      → IsSymmetric
      → AllFields ctx conf
      → AllFields ctx run
      → IsDistinct conf
      → IsDistinct run
      → IsPlain conf
      → IsPlain run
      → Ends
          (λ (r : Bool × List DOption).
            (r.0 ≡ true)
            ↔ ((name : Text) → IsField ctx name → opt_equal ctx name conf run ≡ ok true))
          (opts_equal ctx conf run)
  unfolding opts_equal
  opts_equal-opt_equal conf run symmetric hc hr dc dr pc pr =
      let (r, ran, (same, marked)) = compare_running-all_run ctx conf run hr pr in
      let kept =
        compare_configured-all_kept ctx (mark conf run) (mark-AllFields ctx conf run hc)
          (mark-NoSkip ctx conf run (IsPlain-NoSkip ctx conf pc)) in
      let from_names = all_names conf run symmetric hc hr dc dr in
      elim (Bool-cases (all_run ctx conf run)) [
        | inl all ↦
            let c : r.0 ≡ true = same ∙ all in
            rw (ran, c, marked c, kept)
              (
                (all_kept ctx (mark conf run), mark conf run),
                refl,
                (
                  λ k name field. opt_equal-kept conf run name symmetric dc pc all k field,
                  λ h. (from_names h).1,
                ),
              )
        | inr some_differ ↦
            let c : r.0 ≡ false = same ∙ some_differ in
            rw (ran, c) ((false, r.1), refl, (λ e. cc, λ h. let a = (from_names h).0 in cc))
      ]
