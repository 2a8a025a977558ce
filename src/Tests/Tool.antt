-- ===== src/Tests/Tool.antt =====
-- Texts and numbers, among them the generation identifiers of a device.
use drbd_utils.Prelude.{
  Text, ℕ, ◌+◌, ◌-◌, ◌^◌, ◌≤◌, ◌<◌, ◌≡◌, ◌≢◌, refl, ◌⊎◌, Bool, true, false, not, [], ◌∷◌, Option,
  none, some, ok, arith,
}
use drbd_utils.Headers.{sample_headers}
use drbd_utils.Endian.{swab64}
use drbd_utils.Endian.Laws.{swab64-swab64}
use drbd_utils.Meta.Types.{MdCpu}
use drbd_utils.Meta.Flags.{has}
use drbd_utils.Meta.Convert.{full_sync}
use drbd_utils.Meta.Disk.{zero_md}
use drbd_utils.Meta.Gi.{m_set_uuid, m_set_v9_uuid, m_invalidate_uuid, m_outdate_uuid}
use drbd_utils.Meta.Gi.Laws.{m_set_uuid-colons, m_set_v9_uuid-colons, invalidate-outdate}
use drbd_utils.Tool.Escape.Xml.{is_plain, esc_xml-is_plain}
use drbd_utils.Tool.Escape.{esc_xml, quote, backslash, esc, unescape}
use drbd_utils.Tool.Escape.Laws.{is_bare, esc-unescape}
use drbd_utils.Tool.Numbers.{Scanned, ppsize, new_strtoll, mse_ok}
use drbd_utils.Tool.Numbers.Laws.{ppsize-fits, new_strtoll-rounds_up}

swab64-swab64_example : swab64 (swab64 0x0102030405060708) ≡ 0x0102030405060708
swab64-swab64_example = swab64-swab64 0x0102030405060708 (omega arith)

ppsize-fits_example :
    (ppsize 18446744073709551615).0 ≤ 16384
    × ((ppsize 18446744073709551615).0 < 10000 ⊎ (ppsize 18446744073709551615).1 ≡ 5)
ppsize-fits_example = ppsize-fits 18446744073709551615 (omega arith)

-- Reads one digit and the unit behind it.
abbrev one_digit : Text → ℕ → Scanned
one_digit (d ∷ u ∷ []) rv = record { count = 2; number = d - 48; unit = u }
one_digit s rv = record { count = 0; number = rv; unit = 0 }

-- Seven sectors are four kilobytes, rounded up.
new_strtoll-rounds_up_example : new_strtoll one_digit (some (b'7' ∷ b's' ∷ [])) b'K' 0 ≡ (mse_ok, 4)
new_strtoll-rounds_up_example =
    new_strtoll-rounds_up one_digit b'7' (b's' ∷ []) b'K' 0 refl refl refl (omega arith)

-- Quotes every text that holds one of the two characters.
abbrev holds_special : Text → Bool
holds_special s = not (is_bare s)

holds_special-is_bare : (s : Text) → holds_special s ≡ false → is_bare s ≡ true
holds_special-is_bare s e = ground arith

esc-unescape_example :
    (t : Text) × (esc holds_special (b'a' ∷ quote ∷ backslash ∷ []) ≡ ok t)
    × (unescape t ≡ b'a' ∷ quote ∷ backslash ∷ [])
esc-unescape_example =
    esc-unescape holds_special holds_special-is_bare (b'a' ∷ quote ∷ backslash ∷ []) (omega arith)

esc_xml-is_plain_example :
    (t : Text) × (esc_xml (b'a' ∷ b'<' ∷ quote ∷ []) ≡ ok t) × (is_plain t ≡ true)
esc_xml-is_plain_example = esc_xml-is_plain (b'a' ∷ b'<' ∷ quote ∷ []) (omega arith)

-- A base of which no text is a number, which the separators never need.
abbrev no_number : ℕ → Text → Option ℕ
no_number base s = none

abbrev flagged_md : MdCpu
flagged_md = record zero_md { flags = 2 ^ 0 + 2 ^ 4 + 2 ^ 9; max_peers = 1 }

m_set_uuid-colons_example :
    m_set_uuid no_number sample_headers 0 (b':' ∷ b':' ∷ b':' ∷ []) flagged_md ≡ ok flagged_md
m_set_uuid-colons_example = m_set_uuid-colons no_number sample_headers 0 3 flagged_md (omega arith)

m_set_v9_uuid-colons_example :
    m_set_v9_uuid no_number sample_headers 0 (b':' ∷ b':' ∷ b':' ∷ []) flagged_md ≡ ok flagged_md
m_set_v9_uuid-colons_example =
    m_set_v9_uuid-colons no_number sample_headers 0 3 flagged_md (omega arith) (omega arith)

invalidate-outdate_example :
    let r = m_invalidate_uuid sample_headers flagged_md in
    (r.0 ≡ 0)
    × (has r.1.flags 0 ≡ false)
    × (has r.1.flags 4 ≡ false)
    × (has r.1.flags full_sync ≡ true)
    × ((k : ℕ) → k ≢ 0 → k ≢ 4 → k ≢ full_sync → has r.1.flags k ≡ has flagged_md.flags k)
    × (m_outdate_uuid sample_headers r.1 ≡ (5, r.1))
invalidate-outdate_example =
    invalidate-outdate sample_headers flagged_md (omega arith) (omega arith) (omega arith)
