-- ===== src/Adm/Options/Known.antt =====
-- Options with names that their table of fields has: the comparison of user/v9/drbdadm_adjust.c goes
-- on to its end.
use drbd_utils.Prelude.{
  ◌⊎◌, arith, Text, eq_text, eq_of_eq_text, ◌≡◌, refl, Bool, true, false, ◌||◌, List, [], ◌∷◌, some,
  some_inj, Option-cases, Bool-cases, inl, inr, if◌then◌else◌, ok, ◌>>=◌, Ends, >>=-Ends, if_Ends,
}
use mathlib.Core.Path.{subst}
use drbd_utils.Adm.Options.{
  DOption, FieldDef, find_opt, del_opt, set_mentioned, field_def_of, is_equal, is_default,
  compare_running, compare_configured, opts_equal, opt_equal,
}

abbrev pub IsField : List FieldDef → Text → Type 0
IsField ctx name = Ends (λ (f : FieldDef). Unit {0}) (field_def_of name ctx)

abbrev pub AllOptions : (DOption → Type 0) → List DOption → Type 0
AllOptions P [] = Unit
AllOptions P (o ∷ opts) = P o × AllOptions P opts

abbrev pub AllFields : List FieldDef → List DOption → Type 0
AllFields ctx opts = AllOptions (λ o. IsField ctx o.name) opts

-- The comparison looks an option up in the table unless it is to be skipped.
abbrev pub IsLooked : List FieldDef → DOption → Type 0
IsLooked ctx o = (o.adj_skip ≡ true) ⊎ IsField ctx o.name

pub find_opt-name :
    (base : List DOption) (name : Text) (o : DOption) → find_opt base name ≡ some o → o.name ≡ name
unfolding find_opt
find_opt-name [] name o e = cc
find_opt-name (p ∷ base) name o e = elim (Bool-cases (eq_text p.name name)) [
  | inl same ↦
      subst (λ (x : DOption). x.name ≡ name) (some_inj (rw same at e))
        (eq_of_eq_text p.name name same)
  | inr other ↦ find_opt-name base name o (rw other at e)
]

pub del_opt-AllOptions :
    (P : DOption → Type 0) (base : List DOption) (name : Text)
    → AllOptions P base
    → AllOptions P (del_opt base name)
unfolding del_opt
del_opt-AllOptions P [] name h = tt
del_opt-AllOptions P (o ∷ base) name (a, h) = elim (Bool-cases (eq_text o.name name)) [
  | inl same ↦ rw same h
  | inr other ↦ rw other (a, del_opt-AllOptions P base name h)
]

pub del_opt-AllFields :
    (ctx : List FieldDef) (base : List DOption) (name : Text)
    → AllFields ctx base
    → AllFields ctx (del_opt base name)
del_opt-AllFields ctx base name h = del_opt-AllOptions (λ o. IsField ctx o.name) base name h

set_mentioned-AllOptions :
    (P : DOption → Type 0) (base : List DOption) (name : Text)
    → ((o : DOption) → P o → P (record o { mentioned = true }))
    → AllOptions P base
    → AllOptions P (set_mentioned base name)
unfolding set_mentioned
set_mentioned-AllOptions P [] name keeps h = tt
set_mentioned-AllOptions P (o ∷ base) name keeps (a, h) = elim (Bool-cases (eq_text o.name name)) [
  | inl same ↦ rw same (keeps o a, h)
  | inr other ↦ rw other (a, set_mentioned-AllOptions P base name keeps h)
]

pub set_mentioned-AllFields :
    (ctx : List FieldDef) (base : List DOption) (name : Text)
    → AllFields ctx base
    → AllFields ctx (set_mentioned base name)
set_mentioned-AllFields ctx base name h =
    set_mentioned-AllOptions (λ o. IsField ctx o.name) base name (λ o a. a) h

pub is_equal-Ends :
    (ctx : List FieldDef) (a b : DOption)
    → IsField ctx a.name
    → Ends (λ (e : Bool). Unit {0}) (is_equal ctx a b)
unfolding is_equal
is_equal-Ends ctx a b (f, e, u) = rw e (f.same_value a.value b.value, refl, tt)

pub is_default-Ends :
    (ctx : List FieldDef) (o : DOption)
    → IsField ctx o.name
    → Ends (λ (e : Bool). Unit {0}) (is_default ctx o)
unfolding is_default
is_default-Ends ctx o (f, e, u) = rw e (f.default_value o.value, refl, tt)

-- The comparison of options each of which has `P`.
module _ (ctx : List FieldDef) (P : DOption → Type 0)
    (keeps : (o : DOption) → P o → P (record o { mentioned = true }))
    (looks : (o : DOption) → o.adj_skip ≡ false → P o → IsField ctx o.name) where
  compare_running-all :
      (conf run : List DOption)
      → AllOptions P conf
      → AllOptions P run
      → Ends (λ (r : Bool × List DOption). AllOptions P r.1) (compare_running ctx conf run)
  unfolding compare_running
  compare_running-all conf [] hc hr = ((true, conf), refl, hc)
  compare_running-all conf (o ∷ rest) hc (a, hr) = elim (Bool-cases o.unknown) [
    | inl u ↦
        rw u
          (compare_running-all (del_opt conf o.name) rest (del_opt-AllOptions P conf o.name hc) hr)
    | inr u ↦ elim (Bool-cases o.adj_skip) [
      | inl s ↦ rw (u, s) (compare_running-all conf rest hc hr)
      | inr s ↦ elim (Option-cases (find_opt conf o.name)) [
        | inl absent ↦
            rw (u, s, absent)
              (>>=-Ends (is_default ctx o)
                (λ d. if d then compare_running ctx conf rest else ok (false, conf))
                (is_default-Ends ctx o (looks o s a))
                (λ d p.
                  if_Ends d (compare_running ctx conf rest) (ok (false, conf))
                    (compare_running-all conf rest hc hr) ((false, conf), refl, hc)))
        | inr (q, found) ↦
            let more =
              compare_running-all (set_mentioned conf o.name) rest
                (set_mentioned-AllOptions P conf o.name keeps hc) hr in
            rw (u, s, found)
              (>>=-Ends (is_equal ctx o q)
                (λ d.
                  if d
                  then compare_running ctx (set_mentioned conf o.name) rest
                  else ok (false, conf))
                (is_equal-Ends ctx o q (looks o s a))
                (λ d p.
                  if_Ends d (compare_running ctx (set_mentioned conf o.name) rest)
                    (ok (false, conf)) more ((false, conf), refl, hc)))
      ]
    ]
  ]

  compare_configured-all :
      (conf : List DOption)
      → AllOptions P conf
      → Ends (λ (b : Bool). Unit {0}) (compare_configured ctx conf)
  unfolding compare_configured
  compare_configured-all [] h = (true, refl, tt)
  compare_configured-all (o ∷ rest) (a, h) =
      let more = compare_configured-all rest h in
      elim (Bool-cases (o.adj_skip || o.mentioned)) [
        | inl e ↦ rw e more
        | inr e ↦ rw e (
            >>=-Ends (is_default ctx o)
              (λ default. if default then compare_configured ctx rest else ok false)
              (is_default-Ends ctx o (looks o (ground arith) a))
              (λ d p. if_Ends d (compare_configured ctx rest) (ok false) more (false, refl, tt)))
      ]

  opts_equal-all :
      (conf run : List DOption)
      → AllOptions P conf
      → AllOptions P run
      → Ends (λ (r : Bool × List DOption). AllOptions P r.1) (opts_equal ctx conf run)
  unfolding opts_equal
  opts_equal-all conf run hc hr =
      >>=-Ends (compare_running ctx conf run)
        (λ r. if r.0 then compare_configured ctx r.1 >>= (λ b. ok (b, r.1)) else ok (false, r.1))
        (compare_running-all conf run hc hr)
        (λ r h.
          if_Ends r.0 (compare_configured ctx r.1 >>= (λ b. ok (b, r.1))) (ok (false, r.1))
            (>>=-Ends (compare_configured ctx r.1) (λ b. ok (b, r.1)) (compare_configured-all r.1 h)
              (λ b u. ((b, r.1), refl, h)))
            ((false, r.1), refl, h))

pub opts_equal-Ends :
    (ctx : List FieldDef) (conf run : List DOption)
    → AllFields ctx conf
    → AllFields ctx run
    → Ends (λ (r : Bool × List DOption). AllFields ctx r.1) (opts_equal ctx conf run)
opts_equal-Ends ctx conf run hc hr =
    opts_equal-all ctx (λ o. IsField ctx o.name) (λ o a. a) (λ o e a. a) conf run hc hr

looked_up :
    (ctx : List FieldDef) (o : DOption) → o.adj_skip ≡ false → IsLooked ctx o → IsField ctx o.name
looked_up ctx o e (inl skip) = absurd (cc)
looked_up ctx o e (inr f) = f

pub opts_equal-IsLooked :
    (ctx : List FieldDef) (conf run : List DOption)
    → AllOptions (IsLooked ctx) conf
    → AllOptions (IsLooked ctx) run
    → Ends (λ (r : Bool × List DOption). AllOptions (IsLooked ctx) r.1) (opts_equal ctx conf run)
opts_equal-IsLooked ctx conf run hc hr =
    opts_equal-all ctx (IsLooked ctx) (λ o a. a) (looked_up ctx) conf run hc hr

pub opt_equal-Ends :
    (ctx : List FieldDef) (name : Text) (conf run : List DOption)
    → IsField ctx name
    → Ends (λ (e : Bool). Unit {0}) (opt_equal ctx name conf run)
unfolding opt_equal
opt_equal-Ends ctx name conf run (f, e, u) = elim (Option-cases (find_opt conf name)) [
  | inl absent ↦ elim (Option-cases (find_opt run name)) [
    | inl absent' ↦ rw (e, absent, absent') (true, refl, tt)
    | inr (q, found) ↦ rw (e, absent, found) (f.default_value q.value, refl, tt)
  ]
  | inr (o, found) ↦ elim (Option-cases (find_opt run name)) [
    | inl absent ↦ rw (e, found, absent) (f.default_value o.value, refl, tt)
    | inr (q, found') ↦ rw (e, found, found') (f.same_value o.value q.value, refl, tt)
  ]
]
