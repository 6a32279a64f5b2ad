-- ===== src/Pixel/RoundTrip.antt =====
-- A pixel format survives the wire, and a received block of 16 bytes is written back unchanged
-- but for its padding.
use libopenvnc.Base.{
  ℕ, ◌/◌, ◌%◌, ◌^◌, ◌<◌, ◌≡◌, ◌≢◌, ◌⊎◌, refl, List, [], ◌∷◌, ◌++◌, arith, pos, negsuc, length,
}
use libopenvnc.Wire.{AreBytes, read_u16, write_u16}
use libopenvnc.Wire.RoundTrip.{read_u16-sum, read_u16-write_u16}
use libopenvnc.Pixel.{PixelFormat, InRange, bytes_per_pixel, to_wire, from_wire}

pub length-to_wire : (f : PixelFormat) → length (to_wire f) ≡ 16
unfolding to_wire
length-to_wire f = refl

-- A 16-bit field, as the two bytes that `to_wire` lays out.
read_field :
    (v : ℕ) (rest : List ℕ) → v < 2 ^ 16 → read_u16 ((v / 256 % 256) ∷ (v % 256) ∷ rest) ≡ v
unfolding write_u16
read_field v rest h = read_u16-write_u16 v rest h

write_field :
    (x y : ℕ) (rest : List ℕ)
    → x < 256
    → y < 256
    → let v = read_u16 (x ∷ y ∷ rest) in (v / 256 % 256 ≡ x) × (v % 256 ≡ y)
write_field x y rest hx hy = omega (arith, read_u16-sum x y rest hx hy)

-- `ovnc__pixel_format_from_wire` reads back the format that `ovnc__pixel_format_to_wire` wrote, for a
-- format whose fields are in the range of their C types, whatever follows in the buffer.
pub from_wire-to_wire :
    (f : PixelFormat) (rest : List ℕ) → InRange f → from_wire (to_wire f ++ rest) ≡ f
unfolding from_wire to_wire
from_wire-to_wire f rest h = rw (
  read_field f.red_max _ h.red_max,
  read_field f.green_max _ h.green_max,
  read_field f.blue_max _ h.blue_max,
)

-- Writing a format that was read from 16 bytes gives those bytes back, but for the last three, the
-- padding, which are 0.
pub to_wire-from_wire :
    (a b c d r0 r1 g0 g1 b0 b1 rs gs bs p q s : ℕ) (rest : List ℕ)
    → AreBytes (r0 ∷ r1 ∷ g0 ∷ g1 ∷ b0 ∷ b1 ∷ [])
    → to_wire
        (from_wire (a ∷ b ∷ c ∷ d ∷ r0 ∷ r1 ∷ g0 ∷ g1 ∷ b0 ∷ b1 ∷ rs ∷ gs ∷ bs ∷ p ∷ q ∷ s ∷ rest))
      ≡ a ∷ b ∷ c ∷ d ∷ r0 ∷ r1 ∷ g0 ∷ g1 ∷ b0 ∷ b1 ∷ rs ∷ gs ∷ bs ∷ 0 ∷ 0 ∷ 0 ∷ []
unfolding from_wire to_wire
to_wire-from_wire a b c d r0 r1 g0 g1 b0 b1 rs gs bs p q s rest h =
    let red = write_field r0 r1 (g0 ∷ g1 ∷ b0 ∷ b1 ∷ rs ∷ gs ∷ bs ∷ p ∷ q ∷ s ∷ rest) h.0 h.1.0 in
    let green = write_field g0 g1 (b0 ∷ b1 ∷ rs ∷ gs ∷ bs ∷ p ∷ q ∷ s ∷ rest) h.1.1.0 h.1.1.1.0 in
    let blue = write_field b0 b1 (rs ∷ gs ∷ bs ∷ p ∷ q ∷ s ∷ rest) h.1.1.1.1.0 h.1.1.1.1.1.0 in
    rw (red.0, red.1, green.0, green.1, blue.0, blue.1)

-- The answers of `ovnc_pixel_format_bytes_per_pixel`, for every pixel size: the number of bytes of
-- 8, 16 and 32 bits, and -1 for all else.
pub bytes_per_pixel-cases :
    (f : PixelFormat)
    → ((bytes_per_pixel f ≡ pos 1) × (f.bits_per_pixel ≡ 8))
      ⊎ ((bytes_per_pixel f ≡ pos 2) × (f.bits_per_pixel ≡ 16))
      ⊎ ((bytes_per_pixel f ≡ pos 4) × (f.bits_per_pixel ≡ 32))
      ⊎ ((bytes_per_pixel f ≡ negsuc 0)
          × (f.bits_per_pixel ≢ 8)
          × (f.bits_per_pixel ≢ 16)
          × (f.bits_per_pixel ≢ 32))
unfolding bytes_per_pixel
bytes_per_pixel-cases f = ground arith
