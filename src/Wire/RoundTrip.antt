-- ===== src/Wire/RoundTrip.antt =====
-- What is written is read back, and what is read is written back, for every width.
use libopenvnc.Base.{
  ℕ, ◌+◌, ◌*◌, ◌/◌, ◌%◌, ◌^◌, ◌<◌, ◌≡◌, List, [], ◌∷◌, ◌++◌, arith, ℤ, pos, negsuc, bit_or-add,
}
use libopenvnc.Wire.{
  IsByte, AreBytes, read_u16, read_u32, read_s32, s32_of_u32, u32_of_s32, write_u16, write_u32,
  write_s32,
}

pub read_u16-sum :
    (a b : ℕ) (rest : List ℕ) → IsByte a → IsByte b → read_u16 (a ∷ b ∷ rest) ≡ a * 256 + b
unfolding read_u16
read_u16-sum a b rest ha hb = omega (arith, bit_or-add 8 a b hb)

pub read_u32-sum :
    (a b c d : ℕ) (rest : List ℕ)
    → IsByte a
    → IsByte b
    → IsByte c
    → IsByte d
    → read_u32 (a ∷ b ∷ c ∷ d ∷ rest) ≡ a * 2 ^ 24 + b * 2 ^ 16 + c * 2 ^ 8 + d
unfolding read_u32
read_u32-sum a b c d rest ha hb hc hd =
    let two : a * 2 ^ 24 + b * 2 ^ 16 ≡ (a * 2 ^ 8 + b) * 2 ^ 16 = omega arith in
    let three : (a * 2 ^ 8 + b) * 2 ^ 16 + c * 2 ^ 8 ≡ ((a * 2 ^ 8 + b) * 2 ^ 8 + c) * 2 ^ 8 =
      omega arith in
    rw
      (
        bit_or-add 24 a (b * 2 ^ 16) (omega arith),
        two,
        bit_or-add 16 (a * 2 ^ 8 + b) (c * 2 ^ 8) (omega arith),
        three,
        bit_or-add 8 ((a * 2 ^ 8 + b) * 2 ^ 8 + c) d hd,
      )
      (omega arith)

-- For a number below 2 ^ 16, what `ovnc__write_u16` stores, `ovnc__read_u16` reads back, whatever
-- follows in the buffer.
pub read_u16-write_u16 :
    (val : ℕ) (rest : List ℕ) → val < 2 ^ 16 → read_u16 (write_u16 val ++ rest) ≡ val
unfolding write_u16
read_u16-write_u16 val rest h =
    omega (arith, read_u16-sum (val / 2 ^ 8 % 256) (val % 256) rest (omega arith) (omega arith))

-- For a number below 2 ^ 32, what `ovnc__write_u32` stores, `ovnc__read_u32` reads back, whatever
-- follows in the buffer.
pub read_u32-write_u32 :
    (val : ℕ) (rest : List ℕ) → val < 2 ^ 32 → read_u32 (write_u32 val ++ rest) ≡ val
unfolding write_u32
read_u32-write_u32 val rest h = omega (
  arith,
  read_u32-sum (val / 2 ^ 24 % 256) (val / 2 ^ 16 % 256) (val / 2 ^ 8 % 256) (val % 256) rest
      (omega arith) (omega arith) (omega arith) (omega arith),
)

-- `ovnc__write_u16` of the number that `ovnc__read_u16` read from two bytes stores those two bytes.
pub write_u16-read_u16 :
    (a b : ℕ) (rest : List ℕ)
    → IsByte a
    → IsByte b
    → write_u16 (read_u16 (a ∷ b ∷ rest)) ≡ a ∷ b ∷ []
unfolding write_u16
write_u16-read_u16 a b rest ha hb = rw (read_u16-sum a b rest ha hb) (ground arith)

-- `ovnc__write_u32` of the number that `ovnc__read_u32` read from four bytes stores those four bytes.
pub write_u32-read_u32 :
    (a b c d : ℕ) (rest : List ℕ)
    → AreBytes (a ∷ b ∷ c ∷ d ∷ [])
    → write_u32 (read_u32 (a ∷ b ∷ c ∷ d ∷ rest)) ≡ a ∷ b ∷ c ∷ d ∷ []
unfolding write_u32
write_u32-read_u32 a b c d rest h =
    rw (read_u32-sum a b c d rest h.0 h.1.0 h.1.1.0 h.1.1.1.0) (ground arith)

-- The range of `int32_t`.
abbrev pub IsS32 : ℤ → Type 0
IsS32 (pos n) = n < 2 ^ 31
IsS32 (negsuc n) = n < 2 ^ 31

pub u32_of_s32-lt : (v : ℤ) → IsS32 v → u32_of_s32 v < 2 ^ 32
unfolding u32_of_s32
u32_of_s32-lt (pos n) h = omega arith
u32_of_s32-lt (negsuc n) h = omega arith

pub s32_of_u32-u32_of_s32 : (v : ℤ) → IsS32 v → s32_of_u32 (u32_of_s32 v) ≡ v
unfolding s32_of_u32 u32_of_s32
s32_of_u32-u32_of_s32 (pos n) h = ground arith
s32_of_u32-u32_of_s32 (negsuc n) h = ground arith

pub s32_of_u32-IsS32 : (v : ℕ) → v < 2 ^ 32 → IsS32 (s32_of_u32 v)
unfolding s32_of_u32
s32_of_u32-IsS32 v h = ground arith

-- For a number of `int32_t`, what `ovnc__write_s32` stores, `ovnc__read_s32` reads back, whatever
-- follows in the buffer.
pub read_s32-write_s32 :
    (val : ℤ) (rest : List ℕ) → IsS32 val → read_s32 (write_s32 val ++ rest) ≡ val
unfolding read_s32 write_s32
read_s32-write_s32 val rest h =
    rw (read_u32-write_u32 (u32_of_s32 val) rest (u32_of_s32-lt val h))
      (s32_of_u32-u32_of_s32 val h)

pub read_u16-lt : (p : List ℕ) → read_u16 p < 2 ^ 16
unfolding read_u16
read_u16-lt p = omega arith

pub read_u32-lt : (p : List ℕ) → read_u32 p < 2 ^ 32
unfolding read_u32
read_u32-lt p = omega arith
