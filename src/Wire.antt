-- ===== src/Wire.antt =====
-- The byte order helpers of src/ovnc_internal.h: numbers on the wire are big-endian.
-- A buffer is the list of its bytes; an offset into it (`&buf[4]`) is a `drop`.
pub mod RoundTrip
use libopenvnc.Base.{
  ℕ, ◌+◌, ◌-◌, ◌*◌, ◌/◌, ◌%◌, ◌^◌, ◌<◌, bit_or, List, [], ◌∷◌, get_or, ltb, if◌then◌else◌, ℤ, pos,
  negsuc, All,
}

-- A stored byte, a 16-bit and a 32-bit number.
abbrev pub IsByte : ℕ → Type 0
IsByte b = b < 256

abbrev pub AreBytes : List ℕ → Type 0
AreBytes = All IsByte

-- `p[i]`; the callers stay inside the buffer.
abbrev pub byte_at : List ℕ → ℕ → ℕ
byte_at p i = get_or p i 0

-- ovnc__read_u16
unfoldable pub read_u16 : List ℕ → ℕ
read_u16 p = bit_or (byte_at p 0 * 2 ^ 8) (byte_at p 1) % 2 ^ 16

-- ovnc__read_u32; each operand, and the result, is an `uint32_t`.
unfoldable pub read_u32 : List ℕ → ℕ
read_u32 p =
    bit_or (bit_or (bit_or (byte_at p 0 * 2 ^ 24) (byte_at p 1 * 2 ^ 16)) (byte_at p 2 * 2 ^ 8))
      (byte_at p 3)
    % 2 ^ 32

-- The `memcpy` between `uint32_t` and `int32_t`: two's complement.
unfoldable pub s32_of_u32 : ℕ → ℤ
s32_of_u32 v = if ltb v (2 ^ 31) then pos v else negsuc (2 ^ 32 - 1 - v)

unfoldable pub u32_of_s32 : ℤ → ℕ
u32_of_s32 (pos n) = n
u32_of_s32 (negsuc n) = 2 ^ 32 - 1 - n

-- ovnc__read_s32
unfoldable pub read_s32 : List ℕ → ℤ
read_s32 p = s32_of_u32 (read_u32 p)

-- ovnc__write_u8
unfoldable pub write_u8 : ℕ → List ℕ
write_u8 val = val ∷ []

-- ovnc__write_u16: the bytes that it stores.
unfoldable pub write_u16 : ℕ → List ℕ
write_u16 val = (val / 2 ^ 8 % 256) ∷ (val % 256) ∷ []

-- ovnc__write_u32
unfoldable pub write_u32 : ℕ → List ℕ
write_u32 val = (val / 2 ^ 24 % 256) ∷ (val / 2 ^ 16 % 256) ∷ (val / 2 ^ 8 % 256) ∷ (val % 256) ∷ []

-- ovnc__write_s32
unfoldable pub write_s32 : ℤ → List ℕ
write_s32 val = write_u32 (u32_of_s32 val)
