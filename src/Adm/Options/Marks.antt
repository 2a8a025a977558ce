-- ===== src/Adm/Options/Marks.antt =====
-- What the marks of opts_equal() in user/v9/drbdadm_adjust.c and find_opt() say about the names in
-- two lists of options.
use drbd_utils.Prelude.{
  Text, eq_text, eq_of_eq_text, eq_text_self, ◌≡◌, refl, ap, ◌∙◌, Bool, true, false, ◌&&◌, ◌||◌,
  List, [], ◌∷◌, Option, none, some, some_inj, Bool-cases, inl, inr, arith,
}
use mathlib.Core.Path.{subst}
use drbd_utils.Adm.Options.{DOption, FieldDef, find_opt, set_mentioned}
use drbd_utils.Adm.Options.Known.{IsField, AllFields, set_mentioned-AllFields}
use drbd_utils.Adm.Options.Equal.{
  IsPlain, mark, set_mentioned-absent, value_at, find_opt-set_mentioned, NoSkip,
}

-- Whether an option of the list has the name.
abbrev pub has : List DOption → Text → Bool
has [] name = false
has (p ∷ run) name = eq_text name p.name || has run name

pub eq_text_sym : (a b : Text) → eq_text a b ≡ eq_text b a
unfolding eq_text
eq_text_sym [] [] = refl
eq_text_sym [] (d ∷ b) = refl
eq_text_sym (c ∷ a) [] = refl
eq_text_sym (c ∷ a) (d ∷ b) = let rest = eq_text_sym a b in ground (arith, rest)

pub has-absent :
    (run : List DOption) (name : Text) → find_opt run name ≡ none → has run name ≡ false
unfolding find_opt
has-absent [] name e = refl
has-absent (p ∷ run) name e = elim (Bool-cases (eq_text p.name name)) [
  | inl same ↦ absurd (let e' = rw same at e in cc)
  | inr other ↦ rw (eq_text_sym name p.name, other) (has-absent run name (rw other at e))
]

pub absent-has :
    (run : List DOption) (name : Text) → has run name ≡ false → find_opt run name ≡ none
unfolding find_opt
absent-has [] name e = refl
absent-has (p ∷ run) name e = elim (Bool-cases (eq_text p.name name)) [
  | inl same ↦ absurd (let e' = rw (eq_text_sym name p.name, same) at e in cc)
  | inr other ↦ rw other (absent-has run name (rw (eq_text_sym name p.name, other) at e))
]

pub none_of_value : (o : Option DOption) → value_at o ≡ none → o ≡ none
none_of_value none e = refl
none_of_value (some o) e = cc

pub or_true : (b : Bool) → (b || true) ≡ true
or_true true = refl
or_true false = refl

pub mark-first :
    (o : DOption) (conf run : List DOption)
    → find_opt conf o.name ≡ none
    → mark (o ∷ conf) run ≡ record o { mentioned = has run o.name || o.mentioned } ∷ mark conf run
unfolding set_mentioned
mark-first o conf [] absent = refl
mark-first o conf (p ∷ run) absent = elim (Bool-cases (eq_text o.name p.name)) [
  | inl same ↦
      let gone : set_mentioned conf p.name ≡ conf =
        set_mentioned-absent conf p.name
          (subst (λ n. find_opt conf n ≡ none) (eq_of_eq_text o.name p.name same) absent) in
      rw (same, gone)
        (rw (or_true (has run o.name)) at
          (mark-first (record o { mentioned = true }) conf run absent))
  | inr other ↦
      let gone =
        none_of_value (find_opt (set_mentioned conf p.name) o.name)
          (find_opt-set_mentioned conf p.name o.name ∙ ap value_at absent) in
      rw other (mark-first o (set_mentioned conf p.name) run gone)
]

pub mark-AllFields :
    (ctx : List FieldDef) (conf run : List DOption)
    → AllFields ctx conf
    → AllFields ctx (mark conf run)
mark-AllFields ctx conf [] h = h
mark-AllFields ctx conf (p ∷ run) h =
    mark-AllFields ctx (set_mentioned conf p.name) run (set_mentioned-AllFields ctx conf p.name h)

pub AllFields-found :
    (ctx : List FieldDef) (opts : List DOption) (name : Text) (o : DOption)
    → AllFields ctx opts
    → find_opt opts name ≡ some o
    → IsField ctx o.name
unfolding find_opt
AllFields-found ctx [] name o h e = cc
AllFields-found ctx (p ∷ opts) name o (a, h) e = elim (Bool-cases (eq_text p.name name)) [
  | inl same ↦ subst (λ (x : DOption). IsField ctx x.name) (some_inj (rw same at e)) a
  | inr other ↦ AllFields-found ctx opts name o h (rw other at e)
]

-- The options of a list without repetitions are those that find_opt() finds.
pub found_behind :
    (o : DOption) (opts : List DOption) (name : Text) (p : DOption)
    → find_opt opts o.name ≡ none
    → find_opt opts name ≡ some p
    → find_opt (o ∷ opts) name ≡ some p
unfolding find_opt
found_behind o opts name p absent e = elim (Bool-cases (eq_text o.name name)) [
  | inl same ↦
      let absent' = subst (λ n. find_opt opts n ≡ none) (eq_of_eq_text o.name name same) absent in
      absurd cc
  | inr other ↦ rw other e
]

pub found_first : (o : DOption) (opts : List DOption) → find_opt (o ∷ opts) o.name ≡ some o
unfolding find_opt
found_first o opts = rw (eq_text_self o.name) refl

pub mark_empty : (run : List DOption) → mark [] run ≡ []
unfolding set_mentioned
mark_empty [] = refl
mark_empty (p ∷ run) = mark_empty run

pub keeps : (x m k a : Bool) → k ≡ true → a ≡ true → (((x || m) || k) && a) ≡ true
keeps x m k a e f = ground arith

pub IsPlain-NoSkip : (ctx : List FieldDef) (conf : List DOption) → IsPlain conf → NoSkip ctx conf
IsPlain-NoSkip ctx [] p = tt
IsPlain-NoSkip ctx (o ∷ conf) (m, u, s, p) = (s, IsPlain-NoSkip ctx conf p)

pub set_mentioned-NoSkip :
    (ctx : List FieldDef) (conf : List DOption) (name : Text)
    → NoSkip ctx conf
    → NoSkip ctx (set_mentioned conf name)
unfolding set_mentioned
set_mentioned-NoSkip ctx [] name h = tt
set_mentioned-NoSkip ctx (o ∷ conf) name (a, h) = elim (Bool-cases (eq_text o.name name)) [
  | inl same ↦ rw same (a, h)
  | inr other ↦ rw other (a, set_mentioned-NoSkip ctx conf name h)
]

pub mark-NoSkip :
    (ctx : List FieldDef) (conf run : List DOption) → NoSkip ctx conf → NoSkip ctx (mark conf run)
mark-NoSkip ctx conf [] h = h
mark-NoSkip ctx conf (p ∷ run) h =
    mark-NoSkip ctx (set_mentioned conf p.name) run (set_mentioned-NoSkip ctx conf p.name h)
