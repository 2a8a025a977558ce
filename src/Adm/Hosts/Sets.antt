-- ===== src/Adm/Hosts/Sets.antt =====
-- check_volume_sets_equal() of user/v9/drbdadm_postparse.c against the sets of volumes.
use drbd_utils.Prelude.{
  and_left, and_right, and_both, compare-cases, IsAbove, IsRising, IsAbove-trans, ℕ, ◌≤◌, ◌≡◌, ◌↔◌,
  refl, sym, ◌∙◌, Bool, true, false, ◌&&◌, List, [], ◌∷◌, Option, none, some, Bool-cases, ==_iff,
  inl, inr, ◌==◌, if◌then◌else◌, arith,
}
use mathlib.Core.Path.{subst}
use drbd_utils.Adm.Hosts.{HostVolume, same_flag, compare_sets, check_volume_sets_equal}

abbrev pub numbers : List HostVolume → List ℕ
numbers [] = []
numbers (v ∷ vols) = v.vnr ∷ numbers vols

-- The volume with number `n`.
abbrev pub at : ℕ → List HostVolume → Option HostVolume
at n [] = none
at n (v ∷ vols) = if v.vnr == n then some v else at n vols

-- What a number may have on the two sides: the same on both, or, where a stacked resource is compared
-- with the lower one, a volume of the lower one only.
abbrev pub Fits : Bool → Option HostVolume → Option HostVolume → Type 0
Fits compare_stacked none none = Unit
Fits compare_stacked none (some b) = compare_stacked ≡ true
Fits compare_stacked (some a) none = true ≡ false
Fits compare_stacked (some a) (some b) = a.implicit ≡ b.implicit

at-above : (n m : ℕ) (vols : List HostVolume) → n ≤ m → IsAbove m (numbers vols) → at n vols ≡ none
at-above n m [] le h = refl
at-above n m (v ∷ vols) le (a, h) = let rest = at-above n m vols le h in ground (arith, rest)

same_flag_eq : (a b : Bool) → same_flag a b ≡ true → a ≡ b
same_flag_eq true b e = ground arith
same_flag_eq false true e = cc
same_flag_eq false false e = refl

eq_same_flag : (a b : Bool) → a ≡ b → same_flag a b ≡ true
eq_same_flag true b e = ground arith
eq_same_flag false true e = cc
eq_same_flag false false e = refl

Fits-none : (stacked : Bool) (y : Option HostVolume) → stacked ≡ true → Fits stacked none y
Fits-none stacked none e = tt
Fits-none stacked (some b) e = e

at-first : (v : HostVolume) (vols : List HostVolume) → at v.vnr (v ∷ vols) ≡ some v
at-first v vols = ground arith

AllFit : Bool → List HostVolume → List HostVolume → Type 0
AllFit stacked xs ys = (n : ℕ) → Fits stacked (at n xs) (at n ys)

at-equal : (v : HostVolume) (vols : List HostVolume) (n : ℕ) → n ≡ v.vnr → at n (v ∷ vols) ≡ some v
at-equal v vols n e = ground arith

same_test : (m k n : ℕ) → m ≡ k → (m == n) ≡ (k == n)
same_test m k n e = ground arith

drop_host :
    (stacked : Bool) (xs ys : List HostVolume) (b : HostVolume)
    → at b.vnr xs ≡ none
    → (AllFit stacked xs (b ∷ ys)) ↔ ((stacked ≡ true) × AllFit stacked xs ys)
unfolding AllFit
drop_host stacked xs ys b no_b = (
  λ h.
      let st : stacked ≡ true = rw (no_b, at-first b ys) at (h b.vnr) in
      (
        st,
        λ n. elim (Bool-cases (b.vnr == n)) [
          | inl same ↦
              let no_n = subst (λ m. at m xs ≡ none) ((==_iff b.vnr n).0 same) no_b in
              rw no_n (Fits-none stacked (at n ys) st)
          | inr other ↦ rw other at (h n)
        ],
      ),
  λ (st, h) n. elim (Bool-cases (b.vnr == n)) [
    | inl same ↦
        let no_n = subst (λ m. at m xs ≡ none) ((==_iff b.vnr n).0 same) no_b in rw (no_n, same) st
    | inr other ↦ rw other (h n)
  ],
)

take_hosts :
    (stacked : Bool) (xs ys : List HostVolume) (a b : HostVolume)
    → a.vnr ≡ b.vnr
    → at a.vnr xs ≡ none
    → at a.vnr ys ≡ none
    → (AllFit stacked (a ∷ xs) (b ∷ ys)) ↔ ((a.implicit ≡ b.implicit) × AllFit stacked xs ys)
unfolding AllFit
take_hosts stacked xs ys a b e no_x no_y =
    let none_x = λ (n : ℕ) (same : (a.vnr == n) ≡ true).
      subst (λ m. at m xs ≡ none) ((==_iff a.vnr n).0 same) no_x in
    let none_y = λ (n : ℕ) (same : (a.vnr == n) ≡ true).
      subst (λ m. at m ys ≡ none) ((==_iff a.vnr n).0 same) no_y in
    let test = λ (n : ℕ). same_test a.vnr b.vnr n e in
    (
      λ h.
          let here : a.implicit ≡ b.implicit =
            rw (at-first a xs, at-equal b ys a.vnr e) at (h a.vnr) in
          (
            here,
            λ n. elim (Bool-cases (a.vnr == n)) [
              | inl same ↦ rw (none_x n same, none_y n same) tt
              | inr other ↦ rw (sym (test n) ∙ other, other) at (h n)
            ],
          ),
      λ (i, h) n. elim (Bool-cases (a.vnr == n)) [
        | inl same ↦ rw (sym (test n) ∙ same, same) i
        | inr other ↦ rw (sym (test n) ∙ other, other) (h n)
      ],
    )

compare_sets-AllFit :
    (stacked : Bool) (xs ys : List HostVolume) (valid : Bool)
    → IsRising (numbers xs)
    → IsRising (numbers ys)
    → (compare_sets stacked xs ys valid ≡ true) ↔ ((valid ≡ true) × AllFit stacked xs ys)
unfolding compare_sets AllFit
compare_sets-AllFit stacked [] [] valid rx ry = (λ e. (e, λ n. tt), λ h. h.0)
compare_sets-AllFit stacked (a ∷ xs) [] valid (ax, rx) ry =
    let (to, from) = compare_sets-AllFit stacked xs [] false rx ry in
    (
      λ e. absurd (let f = (to e).0 in cc),
      λ h. absurd (let f = rw (at-first a xs) at (h.1 a.vnr) in cc),
    )
compare_sets-AllFit stacked [] (b ∷ ys) valid rx (ay, ry) =
    let (to, from) = compare_sets-AllFit stacked [] ys (stacked && valid) rx ry in
    let (down, up) = drop_host stacked [] ys b refl in
    (
      λ e. let (v, h) = to e in (and_right stacked valid v, up (and_left stacked valid v, h)),
      λ (v, h). let (st, h') = down h in from (and_both stacked valid st v, h'),
    )
compare_sets-AllFit stacked (a ∷ xs) (b ∷ ys) valid (ax, rx) (ay, ry) =
    elim (compare-cases a.vnr b.vnr) [
      | inl (e, lt) ↦
          let (to, from) = compare_sets-AllFit stacked xs (b ∷ ys) false rx (ay, ry) in
          let no_a =
            at-above a.vnr a.vnr (b ∷ ys) (omega arith)
              (lt, IsAbove-trans a.vnr b.vnr (numbers ys) lt ay) in
          rw (e, compare_sets)
            (
              λ e. absurd (let f = (to e).0 in cc),
              λ h. absurd (let f = rw (at-first a xs, no_a) at (h.1 a.vnr) in cc),
            )
      | inr (inl (e, gt)) ↦
          let (to, from) = compare_sets-AllFit stacked (a ∷ xs) ys (stacked && valid) (ax, rx) ry in
          let no_b =
            at-above b.vnr b.vnr (a ∷ xs) (omega arith)
              (gt, IsAbove-trans b.vnr a.vnr (numbers xs) gt ax) in
          let (down, up) = drop_host stacked (a ∷ xs) ys b no_b in
          rw (e, compare_sets)
            (
              λ e.
                  let (v, h) = to e in
                  (and_right stacked valid v, up (and_left stacked valid v, h)),
              λ (v, h). let (st, h') = down h in from (and_both stacked valid st v, h'),
            )
      | inr (inr (e, eq)) ↦
          let same = same_flag a.implicit b.implicit in
          let (to, from) = compare_sets-AllFit stacked xs ys (same && valid) rx ry in
          let no_x = at-above a.vnr a.vnr xs (omega arith) ax in
          let no_y = at-above a.vnr b.vnr ys (omega arith) ay in
          let (down, up) = take_hosts stacked xs ys a b eq no_x no_y in
          rw (e, compare_sets)
            (
              λ e.
                  let (v, h) = to e in
                  (
                    and_right same valid v,
                    up (same_flag_eq a.implicit b.implicit (and_left same valid v), h),
                  ),
              λ (v, h).
                  let (i, h') = down h in
                  from (and_both same valid (eq_same_flag a.implicit b.implicit i) v, h'),
            )
    ]

-- For volumes by rising number on two different hosts, check_volume_sets_equal() leaves config_valid
-- set exactly if it was set and every number fits (see Fits): both hosts have the volume, with the
-- same mark `implicit`, or neither has it, or, for a stacked resource, only the lower one has it.
pub check_volume_sets_equal-Fits :
    (stacked : Bool) (xs ys : List HostVolume) (config_valid : Bool)
    → IsRising (numbers xs)
    → IsRising (numbers ys)
    → (check_volume_sets_equal false stacked xs ys config_valid ≡ true)
      ↔ ((config_valid ≡ true) × ((n : ℕ) → Fits stacked (at n xs) (at n ys)))
unfolding check_volume_sets_equal AllFit
check_volume_sets_equal-Fits stacked xs ys config_valid rx ry =
    compare_sets-AllFit stacked xs ys config_valid rx ry
