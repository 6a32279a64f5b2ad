-- ===== src/Pixel.antt =====
-- Pixel formats: `ovnc_pixel_format_t` of include/ovnc/ovnc_common.h, and src/common/ovnc_pixel.c.
pub mod RoundTrip
use libopenvnc.Base.{
  ℕ, ◌+◌, ◌*◌, ◌-◌, ◌<◌, ◌^◌, List, [], ◌∷◌, ◌++◌, ◌==◌, if◌then◌else◌, drop, ℤ, pos, negsuc,
}
use libopenvnc.Wire.{byte_at, read_u16, write_u16}

-- ovnc_pixel_format_t
pub record PixelFormat : Type 0 where
  pub bits_per_pixel : ℕ
  pub depth : ℕ
  pub big_endian : ℕ
  pub true_color : ℕ
  pub red_max : ℕ
  pub green_max : ℕ
  pub blue_max : ℕ
  pub red_shift : ℕ
  pub green_shift : ℕ
  pub blue_shift : ℕ

-- The ranges of the C fields, `uint8_t` and `uint16_t`.
pub record InRange (f : PixelFormat) : Type 0 where
  pub bits_per_pixel : f.bits_per_pixel < 256
  pub depth : f.depth < 256
  pub big_endian : f.big_endian < 256
  pub true_color : f.true_color < 256
  pub red_max : f.red_max < 2 ^ 16
  pub green_max : f.green_max < 2 ^ 16
  pub blue_max : f.blue_max < 2 ^ 16
  pub red_shift : f.red_shift < 256
  pub green_shift : f.green_shift < 256
  pub blue_shift : f.blue_shift < 256

-- OVNC_CHANNEL_BITS and OVNC_CHANNEL_MAX
abbrev pub channel_bits : ℕ
channel_bits = 8

abbrev pub channel_max : ℕ
channel_max = 1 * 2 ^ channel_bits - 1

-- ovnc_pixel_format_init_default
unfoldable pub init_default : PixelFormat
init_default = record {
  bits_per_pixel = 32;
  depth = 3 * channel_bits;
  big_endian = 0;
  true_color = 1;
  red_max = channel_max;
  green_max = channel_max;
  blue_max = channel_max;
  red_shift = 2 * channel_bits;
  green_shift = 1 * channel_bits;
  blue_shift = 0;
}

-- ovnc_pixel_format_bytes_per_pixel: -1 for a size that has no whole number of bytes.
unfoldable pub bytes_per_pixel : PixelFormat → ℤ
bytes_per_pixel fmt =
    if fmt.bits_per_pixel == 8
    then pos 1
    else if fmt.bits_per_pixel == 16
    then pos 2
    else if fmt.bits_per_pixel == 32
    then pos 4
    else negsuc 0

-- ovnc__pixel_format_to_wire: the 16 bytes of `buf`, the last three left at 0 by the `memset`.
unfoldable pub to_wire : PixelFormat → List ℕ
unfolding write_u16
to_wire fmt =
    (fmt.bits_per_pixel ∷ fmt.depth ∷ fmt.big_endian ∷ fmt.true_color ∷ [])
    ++ (write_u16 fmt.red_max
        ++ (write_u16 fmt.green_max
            ++ (write_u16 fmt.blue_max
                ++ (fmt.red_shift ∷ fmt.green_shift ∷ fmt.blue_shift ∷ 0 ∷ 0 ∷ 0 ∷ []))))

-- ovnc__pixel_format_from_wire
unfoldable pub from_wire : List ℕ → PixelFormat
from_wire buf = record {
  bits_per_pixel = byte_at buf 0;
  depth = byte_at buf 1;
  big_endian = byte_at buf 2;
  true_color = byte_at buf 3;
  red_max = read_u16 (drop 4 buf);
  green_max = read_u16 (drop 6 buf);
  blue_max = read_u16 (drop 8 buf);
  red_shift = byte_at buf 10;
  green_shift = byte_at buf 11;
  blue_shift = byte_at buf 12;
}
