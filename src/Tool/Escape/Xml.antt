-- ===== src/Tool/Escape/Xml.antt =====
-- What esc_xml() leaves of a text.
use drbd_utils.Prelude.{
  Text, ℕ, ◌+◌, ◌*◌, ◌≤◌, ◌≡◌, refl, Bool, true, false, not, inl, inr, [], ◌∷◌, ◌++◌, ◌&&◌, ◌||◌,
  ◌==◌, Bool-cases, length, ok, arith,
}
use drbd_utils.Tool.Escape.{
  quote, apostrophe, encode_special, too_long, esc_xml_from, has_special, esc_xml,
}

-- A text without angle brackets and quotes.
abbrev pub is_plain : Text → Bool
is_plain [] = true
is_plain (c ∷ rest) = not (c == b'<' || c == b'>' || c == quote || c == apostrophe) && is_plain rest

is_plain-append : (s t : Text) → is_plain s ≡ true → is_plain t ≡ true → is_plain (s ++ t) ≡ true
is_plain-append [] t p q = q
is_plain-append (c ∷ s) t p q = let more = is_plain-append s t in ground (arith, more)

encode_special-is_plain : (c : ℕ) → is_plain (encode_special c) ≡ true
unfolding encode_special
encode_special-is_plain c = ground arith

encode_special-length : (c : ℕ) → length (encode_special c) ≤ 6
unfolding encode_special
encode_special-length c = ground arith

too_long-short : (c at : ℕ) → at ≤ 1014 → too_long c at ≡ false
unfolding too_long
too_long-short c at le = let n = encode_special-length c in ground arith

esc_xml_from-is_plain :
    (s : Text) (at : ℕ)
    → at + 6 * length s ≤ 1020
    → (t : Text) × (esc_xml_from s at ≡ ok t) × (is_plain t ≡ true)
unfolding esc_xml_from
esc_xml_from-is_plain [] at le = ([], refl, refl)
esc_xml_from-is_plain (c ∷ s) at le =
    let short = encode_special-length c in
    let (t, run, plain) = esc_xml_from-is_plain s (at + length (encode_special c)) (omega arith) in
    (
      encode_special c ++ t,
      rw (too_long-short c at (omega arith), run) refl,
      is_plain-append (encode_special c) t (encode_special-is_plain c) plain,
    )

bare-is_plain : (s : Text) → has_special s ≡ false → is_plain s ≡ true
unfolding has_special
bare-is_plain [] e = refl
bare-is_plain (c ∷ s) e = let more = bare-is_plain s in ground (arith, more)

-- Every text of at most 170 bytes passes esc_xml(), and no angle bracket and no quote is left in the
-- result.
pub esc_xml-is_plain :
    (s : Text) → length s ≤ 170 → (t : Text) × (esc_xml s ≡ ok t) × (is_plain t ≡ true)
unfolding esc_xml
esc_xml-is_plain s le = elim (Bool-cases (has_special s)) [
  | inl e ↦
      let (t, run, plain) = esc_xml_from-is_plain s 0 (omega arith) in (t, rw (e, run) refl, plain)
  | inr e ↦ (s, rw (e) refl, bare-is_plain s e)
]
