-- ===== src/Meta/Layout/Bounds.antt =====
-- The size of the bitmap, and the place of the super block on the device.
use drbd_utils.Prelude.{
  ℕ, ◌+◌, ◌-◌, ◌*◌, ◌/◌, ◌%◌, ◌^◌, ◌≤◌, ◌<◌, ◌≡◌, refl, ap, Bool, true, false, u64, le→leb, ok,
  assert, arith,
}
use native.Mathlib.Nat.{div-add-mod', mod-lt, div-le_self, mul-le-mul, mul-le-mul_right, le_trans}
use drbd_utils.Prelude.Bits.{bit_and_high}
use drbd_utils.Headers.{Headers, IsHeaders}
use drbd_utils.Meta.Types.{flex_int, MdCpu}
use drbd_utils.Meta.Layout.{align, is_power_of_2, bm_bytes, v07_style_md_get_byte_offset}

pub align_eight : (x : ℕ) → x + 7 < 2 ^ 64 → align x 8 ≡ (x + 7) / 8 * 8
unfolding align
align_eight x h = let e : u64 (x + 7) ≡ x + 7 = omega arith in rw e (bit_and_high 61 3 (x + 7) h)

pub align_word : (x : ℕ) → x + 63 < 2 ^ 64 → align x 64 ≡ (x + 63) / 64 * 64
unfolding align
align_word x h = let e : u64 (x + 63) ≡ x + 63 = omega arith in rw e (bit_and_high 58 6 (x + 63) h)

pub align_page : (x : ℕ) → x + 4095 < 2 ^ 64 → align x 4096 ≡ (x + 4095) / 4096 * 4096
unfolding align
align_page x h =
    let e : u64 (x + 4095) ≡ x + 4095 = omega arith in rw e (bit_and_high 52 12 (x + 4095) h)

-- The super block of the flexible internal layout is the last whole 4k block of the device, for a
-- device of at least 4 KiB and less than 2^64 bytes.
pub flex_int-last_block :
    (bd_size : ℕ)
    → 4096 ≤ bd_size
    → bd_size < 2 ^ 64
    → let offset = v07_style_md_get_byte_offset flex_int bd_size in
      (offset % 4096 ≡ 0) × (offset + 4096 ≤ bd_size) × (bd_size < offset + 8192)
unfolding v07_style_md_get_byte_offset
flex_int-last_block bd_size lo hi =
    let e : (bd_size + (2 ^ 64 - 4096)) % 2 ^ 64 ≡ bd_size - 4096 = omega arith in
    let k = bit_and_high 52 12 (bd_size - 4096) (omega arith) in
    rw (e, k) (omega arith, omega arith, omega arith)

-- Bits that one peer's bitmap needs for `sectors`, at `2 ^ k` bytes for each bit.
abbrev pub blocks : ℕ → ℕ → ℕ
blocks spb sectors = (sectors + spb - 1) / spb

assert-eq-ok : (b : Bool) {u : Unit {0}} → assert b ≡ ok u → b ≡ true
assert-eq-ok true e = refl
assert-eq-ok false e = cc

-- Words of 64 bits in one peer's bitmap.
abbrev pub peer_words : MdCpu → ℕ → ℕ
peer_words md sectors = (blocks (md.bm_bytes_per_bit / 2 ^ 9) sectors + 63) / 64

module _ (sectors spb mp : ℕ) (s : sectors ≤ 2 ^ 41) (g : 8 ≤ spb) (t : spb ≤ 2048)
    (p : mp ≤ 31) where
  abbrev words : ℕ
  words = (blocks spb sectors + 63) / 64

  blocks_cover : sectors ≤ blocks spb sectors * spb
  blocks_cover =
      let n = sectors + spb - 1 in
      let pos : 0 < spb = omega arith in
      let rest : n % spb < spb = mod-lt n pos in omega (arith, div-add-mod' n spb)

  blocks_few : blocks spb sectors ≤ sectors + spb
  blocks_few = omega (arith, div-le_self (sectors + spb - 1) spb)

  words_cover : sectors ≤ words * 64 * spb
  words_cover =
      let enough : blocks spb sectors ≤ words * 64 = omega arith in
      le_trans blocks_cover (mul-le-mul_right spb enough)

  words_few : words * 8 * mp ≤ 2 ^ 44
  words_few =
      let few : words * 8 ≤ 2 ^ 39 = omega (arith, blocks_few) in
      le_trans (mul-le-mul few p) (omega arith)

module _ (h : Headers) (hs : IsHeaders h) (md : MdCpu) (sectors : ℕ)
    (peers : md.max_peers ≤ 31) where
  abbrev spb : ℕ
  spb = md.bm_bytes_per_bit / 2 ^ 9

  bitmap_size : ℕ
  bitmap_size = (peer_words md sectors * 8 * md.max_peers + 4095) / 4096 * 4096

  -- The asserts of bm_bytes().
  abbrev pub IsTracked : Type 0
  IsTracked =
      (sectors ≤ 2 ^ 41)
      × (4096 ≤ md.bm_bytes_per_bit)
      × (md.bm_bytes_per_bit ≤ 2 ^ 20)
      × (is_power_of_2 md.bm_bytes_per_bit ≡ true)

  bm_bytes_run : IsTracked → bm_bytes h md sectors ≡ ok bitmap_size
  unfolding bm_bytes bitmap_size
  bm_bytes_run t =
      let a = align_word (blocks spb sectors) (
        omega (arith, blocks_few sectors spb md.max_peers t.0 (omega arith) (omega arith) peers)) in
      let few = words_few sectors spb md.max_peers t.0 (omega arith) (omega arith) peers in
      let w : (blocks spb sectors + 63) / 64 * 64 / 8 * md.max_peers
          ≡ peer_words md sectors * 8 * md.max_peers =
        ap (λ (x : ℕ). x * md.max_peers) (omega arith) in
      let u : u64 (peer_words md sectors * 8 * md.max_peers)
          ≡ peer_words md sectors * 8 * md.max_peers =
        omega arith in
      rw (
        hs.block_min,
        hs.block_max,
        le→leb sectors (2 ^ 41) t.0,
        le→leb 4096 md.bm_bytes_per_bit t.1,
        le→leb md.bm_bytes_per_bit (2 ^ 20) t.2,
        t.3,
        a,
        w,
        u,
        align_page (peer_words md sectors * 8 * md.max_peers) (omega arith),
      )

  -- Given what the code relies on in the headers, with at most 31 peers, a device of at most 1 PiB
  -- and a granularity that is a power of two from 4 KiB to 1 MiB, bm_bytes() passes its asserts.
  -- It returns whole 4 KiB blocks that hold, for each peer, whole 64 bit words with a bit for
  -- every block of the device, and less than 4 KiB more.
  pub bm_bytes-covers :
      IsTracked
      → (bytes : ℕ) × (bm_bytes h md sectors ≡ ok bytes)
        × (bytes % 4096 ≡ 0)
        × (peer_words md sectors * 8 * md.max_peers ≤ bytes)
        × (bytes < peer_words md sectors * 8 * md.max_peers + 4096)
        × (sectors ≤ peer_words md sectors * 64 * spb)
  unfolding bitmap_size
  bm_bytes-covers t = (
    bitmap_size,
    bm_bytes_run t,
    omega arith,
    omega arith,
    omega arith,
    words_cover sectors spb md.max_peers t.0 (omega arith) (omega arith) peers,
  )
