-- ===== src/Rsx/Texture.antt =====
-- runtime_glue.cpp: `load_a3t_entry`, from the header of the entry on: the search for the texture's
-- description, and the pixels. The reads from the file are left out: the header and the pixel data are
-- arrays.
pub mod Morton
use dbz_budokai_hd.Common.{
  ℕ, Bool, zero, suc, true, false, ◌&&◌, ◌||◌, ◌+◌, ◌-◌, ◌*◌, ◌/◌, ◌^◌, ◌==◌, leb, ltb, not,
  if◌then◌else◌, bit_and, bit_or, Option, none, some, Memory,
}
use dbz_budokai_hd.Common.Words.{u8, u32, low_bits, test_bit, ◌<<<◌, ◌>>>◌}

unfoldable pub morton_spread : ℕ → ℕ
morton_spread v0 =
    let v1 = bit_and (bit_or v0 (u32 (v0 <<< 8))) 0x00FF00FF in
    let v2 = bit_and (bit_or v1 (u32 (v1 <<< 4))) 0x0F0F0F0F in
    let v3 = bit_and (bit_or v2 (u32 (v2 <<< 2))) 0x33333333 in
    bit_and (bit_or v3 (u32 (v3 <<< 1))) 0x55555555

unfoldable pub morton2d : ℕ → ℕ → ℕ
unfolding morton_spread
morton2d x y = bit_or (morton_spread x) (u32 (morton_spread y <<< 1))

-- What the header says of a texture.
pub record Texture : Type 0 where
  pub gcm_off : ℕ
  pub fmt_byte : ℕ
  pub tex_w : ℕ
  pub tex_h : ℕ

abbrev pub is_valid_fmt : ℕ → Bool
is_valid_fmt fmt = fmt == 0x84 || fmt == 0x85 || fmt == 0xA4 || fmt == 0xA5

-- t < 64 || t > 4096 || (t & (t-1)) != 0, turned round
abbrev pub is_side : ℕ → Bool
is_side t = leb 64 t && leb t 4096 && bit_and t (t - 1) == 0

abbrev pub texture_at : Memory → ℕ → Texture
texture_at hdr i = record {
  gcm_off = i;
  fmt_byte = hdr i;
  tex_w = hdr (i + 8) * 2 ^ 8 + hdr (i + 9);
  tex_h = hdr (i + 10) * 2 ^ 8 + hdr (i + 11);
}

-- The tests on one place of the header.
unfoldable pub is_texture : Memory → ℕ → Bool
is_texture hdr i =
    is_valid_fmt (hdr i)
    && hdr (i + 2) == 2
    && leb 1 (hdr (i + 1))
    && leb (hdr (i + 1)) 12
    && is_side (texture_at hdr i).tex_w
    && is_side (texture_at hdr i).tex_h

-- The search from place i on, with the places left.
unfoldable pub scan_header : Memory → ℕ → ℕ → Option Texture
unfolding is_texture
scan_header hdr zero i = none
scan_header hdr (suc left) i = elim (is_texture hdr i) [
  | true ↦ some (texture_at hdr i)
  | false ↦ scan_header hdr left (i + 1)
]

-- for (int i = 0x18; i <= scan_end; i++), after at least 0xE0 bytes have been read and the magic is right
unfoldable pub find_texture : Memory → ℕ → Option Texture
unfolding scan_header
find_texture hdr hdr_read =
    if ltb hdr_read 0xE0
    then none
    else if hdr 0 == 0x23 && hdr 1 == 0x41 && hdr 2 == 0x33 && hdr 3 == 0x54
    then scan_header hdr (hdr_read - 24 - 0x18 + 1) 0x18
    else none

-- (fmt_byte & 0x20u) != 0
abbrev pub is_linear : Texture → Bool
is_linear t = test_bit 5 t.fmt_byte

abbrev pub pixel_count : Texture → ℕ
pixel_count t = t.tex_w * t.tex_h

-- Where the source of a pixel lies.
unfoldable pub source_index : Texture → ℕ → ℕ → ℕ
unfolding morton2d
source_index t x y = if is_linear t then y * t.tex_w + x else morton2d x y

-- A byte of `src`, which has `size` bytes.
abbrev pub src_byte : Memory → ℕ → ℕ → Option ℕ
src_byte src size i = if ltb i size then some (src i) else none

-- R5G6B5, big-endian, to the bytes B, G, R, A, as a word
abbrev pub pixel_565 : ℕ → ℕ → ℕ
pixel_565 hi lo =
    let px = hi * 2 ^ 8 + lo in
    let r5 = low_bits 5 (px >>> 11) in
    let g6 = low_bits 6 (px >>> 5) in
    let b5 = low_bits 5 px in
    u8 (bit_or (b5 <<< 3) (b5 >>> 2)) * 2 ^ 24
    + u8 (bit_or (g6 <<< 2) (g6 >>> 4)) * 2 ^ 16
    + u8 (bit_or (r5 <<< 3) (r5 >>> 2)) * 2 ^ 8
    + 0xFF

infixl 5 ◌>>=◌
abbrev ◌>>=◌ : Option ℕ → (ℕ → Option ℕ) → Option ℕ
none >>= f = none
some a >>= f = f a

-- A pixel of `out`, or none where `src` is read behind its end.
unfoldable pub out_pixel : Texture → Memory → ℕ → ℕ → Option ℕ
unfolding source_index
out_pixel t src x y =
    let si = source_index t x y in
    let n = pixel_count t in
    if low_bits 5 t.fmt_byte == 4
    then (do
      hi ← src_byte src (n * 2) (si * 2)
      lo ← src_byte src (n * 2) (si * 2 + 1)
      some (pixel_565 hi lo))
    else (do
      a ← src_byte src (n * 4) (si * 4)
      r ← src_byte src (n * 4) (si * 4 + 1)
      g ← src_byte src (n * 4) (si * 4 + 2)
      b ← src_byte src (n * 4) (si * 4 + 3)
      some (b * 2 ^ 24 + g * 2 ^ 16 + r * 2 ^ 8 + a))
