-- ===== src/Tool/Escape.antt =====
-- user/shared/shared_tool.c: shell_escape(), unescape(), esc() and esc_xml(). A text is a list of
-- bytes without the terminating 0. The static buffer of 1024 bytes is the length that a text may
-- reach; the pattern that esc() gives to fnmatch() depends on the locale, so its answer is the
-- parameter `special`.
pub mod Laws
pub mod Xml
use drbd_utils.Prelude.{
  Text, ℕ, zero, suc, ◌+◌, Bool, true, false, List, [], ◌∷◌, ◌++◌, not, ◌||◌, ◌&&◌, ltb, leb, ◌==◌,
  if◌then◌else◌, length, Result, ok, stop, exit, ◌>>=◌, ◌>>◌, exit_if,
}

abbrev pub backslash : ℕ
backslash = 92

abbrev pub quote : ℕ
quote = 34

abbrev pub apostrophe : ℕ
apostrophe = 39

abbrev pub e_syntax : ℕ
e_syntax = 2

-- The set of 'clean' characters.
unfoldable pub is_clean : ℕ → Bool
is_clean c =
    c == b'%'
    || c == b'+'
    || c == b'-'
    || c == b'.'
    || c == b'/'
    || (leb b'0' c && leb c b'9')
    || c == b':'
    || c == b'='
    || c == b'@'
    || (leb b'A' c && leb c b'Z')
    || c == b'_'
    || (leb b'a' c && leb c b'z')

-- `at` is `c - buffer`; `max_c` stands at 1022.
unfoldable pub shell_escape : Text → ℕ → Text
unfolding is_clean
shell_escape [] at = []
shell_escape (s ∷ rest) at =
    let plain = shell_escape rest (at + 1) in
    let escaped = shell_escape rest (at + 2) in
    if ltb at 1022 then (if is_clean s then s ∷ plain else backslash ∷ s ∷ escaped) else []

-- A backslash at the end of the text ends it.
unfoldable pub unescape : Text → Text
unescape [] = []
unescape (c ∷ []) = if c == quote || c == backslash then [] else c ∷ []
unescape (c ∷ d ∷ rest) =
    let next = unescape (d ∷ rest) in
    let after = unescape rest in
    if c == quote then next else if c == backslash then d ∷ after else c ∷ next

-- The loop of esc(): `at` is `e - buffer`.
unfoldable pub esc_from : Text → ℕ → Result Text
esc_from [] at = ok (quote ∷ [])
esc_from (c ∷ rest) at =
    if c == quote || c == backslash
    then exit_if (leb 1022 (at + 1)) e_syntax
      >> exit_if (leb 1022 (at + 2)) e_syntax
      >> (esc_from rest (at + 2) >>= λ out. ok (backslash ∷ c ∷ out))
    else exit_if (leb 1022 at) e_syntax
      >> exit_if (leb 1022 (at + 1)) e_syntax
      >> (esc_from rest (at + 1) >>= λ out. ok (c ∷ out))

unfoldable pub esc : (Text → Bool) → Text → Result Text
unfolding esc_from
esc special [] = ok (quote ∷ quote ∷ [])
esc special (c ∷ rest) =
    if special (c ∷ rest) || ltb 80 (length (c ∷ rest))
    then (esc_from (c ∷ rest) 1 >>= λ out. ok (quote ∷ out))
    else ok (c ∷ rest)

-- XML_ENCODE_SPECIAL; the other characters stand for themselves.
unfoldable pub encode_special : ℕ → Text
encode_special c =
    if c == apostrophe
    then b'&' ∷ b'a' ∷ b'p' ∷ b'o' ∷ b's' ∷ b';' ∷ []
    else if c == quote
    then b'&' ∷ b'q' ∷ b'u' ∷ b'o' ∷ b't' ∷ b';' ∷ []
    else if c == b'<'
    then b'&' ∷ b'l' ∷ b't' ∷ b';' ∷ []
    else if c == b'>'
    then b'&' ∷ b'g' ∷ b't' ∷ b';' ∷ []
    else if c == b'&'
    then b'&' ∷ b'a' ∷ b'm' ∷ b'p' ∷ b';' ∷ []
    else c ∷ []

-- The test before each character: an entity has to end before the last byte of the buffer, any
-- other character before the last but one.
unfoldable pub too_long : ℕ → ℕ → Bool
unfolding encode_special
too_long c at =
    let n = length (encode_special c) in if n == 1 then leb 1022 (at + 1) else leb 1023 (at + n)

unfoldable pub esc_xml_from : Text → ℕ → Result Text
unfolding encode_special too_long
esc_xml_from [] at = ok []
esc_xml_from (c ∷ rest) at =
    exit_if (too_long c at) e_syntax
    >> (esc_xml_from rest (at + length (encode_special c)) >>= λ out. ok (encode_special c ++ out))

unfoldable pub has_special : Text → Bool
has_special [] = false
has_special (c ∷ rest) =
    c == quote
    || c == apostrophe
    || c == b'<'
    || c == b'>'
    || c == b'&'
    || c == backslash
    || has_special rest

unfoldable pub esc_xml : Text → Result Text
unfolding has_special esc_xml_from
esc_xml s = if has_special s then esc_xml_from s 0 else ok s
