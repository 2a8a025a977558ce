-- ===== src/Adm/Volumes/Insert.antt =====
-- STAILQ_INSERT_ORDERED of user/v9/drbdadm.h: a list by rising volume number stays one, and has the
-- new volume.
use drbd_utils.Prelude.{
  IsAbove, IsRising, IsAbove-trans, ℕ, ◌≤◌, ◌<◌, ◌≡◌, ◌≢◌, refl, ◌∙◌, List, [], ◌∷◌, ◌++◌, Option,
  none, some, Bool-cases, ==_iff, inl, inr, if◌then◌else◌, ltb, leb, ◌==◌, arith,
}
use mathlib.Core.Path.{subst}
use drbd_utils.Adm.Volumes.{
  Volume, last_vnr, insert_before_greater, insert_volume, insert_all, matching_volume,
}

abbrev pub vnrs : List Volume → List ℕ
vnrs [] = []
vnrs (v ∷ vols) = v.vnr ∷ vnrs vols

-- No volume of a greater list has the number.
pub above_none :
    (n m : ℕ) (vols : List Volume) → n ≤ m → IsAbove m (vnrs vols) → matching_volume n vols ≡ none
unfolding matching_volume
above_none n m [] le h = refl
above_none n m (v ∷ vols) le (a, h) = let rest = above_none n m vols le h in ground (arith, rest)

append_at :
    (v : ℕ) (vols : List Volume) (e : Volume)
    → matching_volume e.vnr vols ≡ none
    → matching_volume v (vols ++ (e ∷ [])) ≡ (if e.vnr == v then some e else matching_volume v vols)
unfolding matching_volume
append_at v [] e no_e = refl
append_at v (t ∷ vols) e no_e = let rest = append_at v vols e in ground (arith, rest)

before_at :
    (v : ℕ) (t : Volume) (vols : List Volume) (e : Volume)
    → matching_volume e.vnr (t ∷ vols) ≡ none
    → e.vnr < last_vnr t vols
    → matching_volume v (insert_before_greater (t ∷ vols) e)
      ≡ (if e.vnr == v then some e else matching_volume v (t ∷ vols))
unfolding matching_volume insert_before_greater
before_at v t [] e no_e lt = ground arith
before_at v t (u ∷ vols) e no_e lt = let rest = before_at v u vols e in ground (arith, rest)

pub insert_volume_at :
    (v : ℕ) (vols : List Volume) (e : Volume)
    → matching_volume e.vnr vols ≡ none
    → matching_volume v (insert_volume vols e)
      ≡ (if e.vnr == v then some e else matching_volume v vols)
unfolding insert_volume matching_volume
insert_volume_at v [] e no_e = refl
insert_volume_at v (t ∷ vols) e no_e = elim (Bool-cases (leb (last_vnr t vols) e.vnr)) [
  | inl at_end ↦ rw at_end (append_at v (t ∷ vols) e no_e)
  | inr inside ↦ rw inside (before_at v t vols e no_e (ground arith))
]

append-IsAbove :
    (n : ℕ) (vols : List Volume) (e : Volume)
    → n < e.vnr
    → IsAbove n (vnrs vols)
    → IsAbove n (vnrs (vols ++ (e ∷ [])))
append-IsAbove n [] e lt h = (lt, tt)
append-IsAbove n (v ∷ vols) e lt (a, h) = (a, append-IsAbove n vols e lt h)

last_le : (u : Volume) (vols : List Volume) → IsRising (vnrs (u ∷ vols)) → u.vnr ≤ last_vnr u vols
last_le u [] h = omega arith
last_le u (w ∷ vols) ((a, b), h) = omega (arith, last_le w vols h)

append-IsRising :
    (t : Volume) (vols : List Volume) (e : Volume)
    → last_vnr t vols < e.vnr
    → IsRising (vnrs (t ∷ vols))
    → IsRising (vnrs ((t ∷ vols) ++ (e ∷ [])))
append-IsRising t [] e lt h = ((lt, tt), (tt, tt))
append-IsRising t (u ∷ vols) e lt ((a, b), h) = (
  append-IsAbove t.vnr (u ∷ vols) e (omega (arith, last_le u vols h)) (a, b),
  append-IsRising u vols e lt h,
)

before-IsAbove :
    (n : ℕ) (vols : List Volume) (e : Volume)
    → n < e.vnr
    → IsAbove n (vnrs vols)
    → IsAbove n (vnrs (insert_before_greater vols e))
unfolding insert_before_greater
before-IsAbove n [] e lt h = tt
before-IsAbove n (v ∷ vols) e lt (a, h) = elim (Bool-cases (ltb e.vnr v.vnr)) [
  | inl here ↦ rw here (lt, (a, h))
  | inr later ↦ rw later (a, before-IsAbove n vols e lt h)
]

before-IsRising :
    (vols : List Volume) (e : Volume)
    → matching_volume e.vnr vols ≡ none
    → IsRising (vnrs vols)
    → IsRising (vnrs (insert_before_greater vols e))
unfolding insert_before_greater matching_volume
before-IsRising [] e no_e h = tt
before-IsRising (v ∷ vols) e no_e (a, h) = elim (Bool-cases (ltb e.vnr v.vnr)) [
  | inl here ↦
      let lt : e.vnr < v.vnr = ground arith in
      rw here ((lt, IsAbove-trans e.vnr v.vnr (vnrs vols) lt a), (a, h))
  | inr later ↦
      let lt : v.vnr < e.vnr = ground arith in
      let no_e' : matching_volume e.vnr vols ≡ none = ground arith in
      rw later (before-IsAbove v.vnr vols e lt a, before-IsRising vols e no_e' h)
]

last_found :
    (t : Volume) (vols : List Volume) (e : ℕ)
    → matching_volume e (t ∷ vols) ≡ none
    → last_vnr t vols ≢ e
unfolding matching_volume
last_found t [] e no_e = ground arith
last_found t (u ∷ vols) e no_e = let rest = last_found u vols e in ground (arith, rest)

-- STAILQ_INSERT_ORDERED keeps a list of volumes with rising numbers so, if the number is new.
pub insert_volume-IsRising :
    (vols : List Volume) (e : Volume)
    → matching_volume e.vnr vols ≡ none
    → IsRising (vnrs vols)
    → IsRising (vnrs (insert_volume vols e))
unfolding insert_volume
insert_volume-IsRising [] e no_e h = (tt, tt)
insert_volume-IsRising (t ∷ vols) e no_e h = elim (Bool-cases (leb (last_vnr t vols) e.vnr)) [
  | inl at_end ↦
      let other = last_found t vols e.vnr no_e in
      rw at_end (append-IsRising t vols e (ground arith) h)
  | inr inside ↦ rw inside (before-IsRising (t ∷ vols) e no_e h)
]

abbrev pub or_else {ℓ} : {A : Type ℓ} → Option A → Option A → Option A
or_else none y = y
or_else (some x) y = some x

or_else-none : (x : Option Volume) → x ≡ or_else x none
or_else-none none = refl
or_else-none (some x) = refl

abbrev pub IsApart : List Volume → List Volume → Type 0
IsApart conf deleted =
    (v : ℕ) (d : Volume) → matching_volume v deleted ≡ some d → matching_volume v conf ≡ none

pub insert_all_at :
    (conf deleted : List Volume)
    → IsRising (vnrs conf)
    → IsRising (vnrs deleted)
    → IsApart conf deleted
    → IsRising (vnrs (insert_all conf deleted))
      × ((v : ℕ)
          → matching_volume v (insert_all conf deleted)
            ≡ or_else (matching_volume v conf) (matching_volume v deleted))
unfolding matching_volume
insert_all_at conf [] h h' apart = (h, λ v. or_else-none (matching_volume v conf))
insert_all_at conf (d ∷ deleted) h (above, h') apart =
    let new : matching_volume d.vnr conf ≡ none = apart d.vnr d (ground arith) in
    let none_left = above_none d.vnr d.vnr deleted (omega arith) above in
    let apart' : IsApart (insert_volume conf d) deleted = λ v x e.
      let old = apart v x in
      let at_v = insert_volume_at v conf d new in ground (arith, old, at_v, none_left) in
    let (rising, all) =
      insert_all_at (insert_volume conf d) deleted (insert_volume-IsRising conf d new h) h'
        apart' in
    let step : (v : ℕ)
        → or_else (matching_volume v (insert_volume conf d)) (matching_volume v deleted)
          ≡ or_else (matching_volume v conf)
              (if d.vnr == v then some d else matching_volume v deleted) =
      λ v.
        let at_v = insert_volume_at v conf d new in
        elim (Bool-cases (d.vnr == v)) [
          | inl same ↦
              let here = subst (λ n. matching_volume n conf ≡ none) ((==_iff d.vnr v).0 same) new in
              rw (at_v, same, here) refl
          | inr other ↦ rw (at_v, other) refl
        ] in
    (rising, λ v. all v ∙ step v)
