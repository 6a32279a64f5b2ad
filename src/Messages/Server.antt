-- ===== src/Messages/Server.antt =====
-- The messages of a client as RFC 6143 describes them, and how a server reads them off the wire.
-- Nothing here comes from the library: it is the description that its bytes are held against.
use libopenvnc.Base.{
  ℕ, zero, suc, ◌+◌, ◌-◌, ◌*◌, ◌^◌, Option, none, some, List, [], ◌∷◌, ℤ, pos, negsuc, ltb, ◌==◌,
  if◌then◌else◌,
}
use libopenvnc.Pixel.{PixelFormat}

pub data Message : Type 0 where
  set_pixel_format : PixelFormat → Message
  set_encodings : List ℤ → Message
  fb_update_request : ℕ → ℕ → ℕ → ℕ → ℕ → Message
  key_event : ℕ → ℕ → Message
  pointer_event : ℕ → ℕ → ℕ → Message
  client_cut_text : List ℕ → Message

abbrev pub be16 : ℕ → ℕ → ℕ
be16 a b = a * 256 + b

abbrev pub be32 : ℕ → ℕ → ℕ → ℕ → ℕ
be32 a b c d = a * 2 ^ 24 + b * 2 ^ 16 + c * 256 + d

-- A number of 32 bits in two's complement.
abbrev pub signed : ℕ → ℤ
signed u = if ltb u (2 ^ 31) then pos u else negsuc (2 ^ 32 - 1 - u)

-- A message, or a part of one, and what follows it.
abbrev pub Parsed : Type 0 → Type 0
Parsed A = Option (A × List ℕ)

-- `n` numbers of 32 bits
unfoldable pub signed_list : ℕ → List ℕ → Parsed (List ℤ)
signed_list zero rest = some ([], rest)
signed_list (suc n) (a ∷ b ∷ c ∷ d ∷ rest) = elim (signed_list n rest) [
  | none ↦ none
  | some (vs, r) ↦ some (signed (be32 a b c d) ∷ vs, r)
]
signed_list (suc n) _ = none

-- `n` bytes
unfoldable pub byte_list : ℕ → List ℕ → Parsed (List ℕ)
byte_list zero rest = some ([], rest)
byte_list (suc n) (b ∷ rest) = elim (byte_list n rest) [
  | none ↦ none
  | some (bs, r) ↦ some (b ∷ bs, r)
]
byte_list (suc n) [] = none

-- The message of each type, after the byte of the type.
unfoldable pub parse_pixel_format : List ℕ → Parsed Message
parse_pixel_format
      (_ ∷ _ ∷ _ ∷ bpp ∷ depth ∷ big ∷ true_color ∷ r1 ∷ r0 ∷ g1 ∷ g0 ∷ b1 ∷ b0 ∷ rs ∷ gs ∷ bs ∷ _
        ∷ _ ∷ _ ∷ rest) =
    some (
      set_pixel_format (record {
        bits_per_pixel = bpp;
        depth = depth;
        big_endian = big;
        true_color = true_color;
        red_max = be16 r1 r0;
        green_max = be16 g1 g0;
        blue_max = be16 b1 b0;
        red_shift = rs;
        green_shift = gs;
        blue_shift = bs;
      }),
      rest,
    )
parse_pixel_format _ = none

abbrev pub as_encodings : Parsed (List ℤ) → Parsed Message
as_encodings none = none
as_encodings (some (vs, rest)) = some (set_encodings vs, rest)

unfoldable pub parse_encodings : List ℕ → Parsed Message
unfolding signed_list
parse_encodings (_ ∷ n1 ∷ n0 ∷ rest) = as_encodings (signed_list (be16 n1 n0) rest)
parse_encodings _ = none

unfoldable pub parse_update_request : List ℕ → Parsed Message
parse_update_request (incremental ∷ x1 ∷ x0 ∷ y1 ∷ y0 ∷ w1 ∷ w0 ∷ h1 ∷ h0 ∷ rest) =
    some (fb_update_request incremental (be16 x1 x0) (be16 y1 y0) (be16 w1 w0) (be16 h1 h0), rest)
parse_update_request _ = none

unfoldable pub parse_key : List ℕ → Parsed Message
parse_key (down ∷ _ ∷ _ ∷ k3 ∷ k2 ∷ k1 ∷ k0 ∷ rest) = some (key_event (be32 k3 k2 k1 k0) down, rest)
parse_key _ = none

unfoldable pub parse_pointer : List ℕ → Parsed Message
parse_pointer (mask ∷ x1 ∷ x0 ∷ y1 ∷ y0 ∷ rest) =
    some (pointer_event (be16 x1 x0) (be16 y1 y0) mask, rest)
parse_pointer _ = none

abbrev pub as_cut_text : Parsed (List ℕ) → Parsed Message
as_cut_text none = none
as_cut_text (some (text, rest)) = some (client_cut_text text, rest)

unfoldable pub parse_cut_text : List ℕ → Parsed Message
unfolding byte_list
parse_cut_text (_ ∷ _ ∷ _ ∷ l3 ∷ l2 ∷ l1 ∷ l0 ∷ rest) =
    as_cut_text (byte_list (be32 l3 l2 l1 l0) rest)
parse_cut_text _ = none

-- One message.
unfoldable pub parse : List ℕ → Parsed Message
unfolding parse_pixel_format parse_encodings parse_update_request parse_key parse_pointer
    parse_cut_text
parse [] = none
parse (t ∷ rest) =
    if t == 0
    then parse_pixel_format rest
    else if t == 2
    then parse_encodings rest
    else if t == 3
    then parse_update_request rest
    else if t == 4
    then parse_key rest
    else if t == 5
    then parse_pointer rest
    else if t == 6
    then parse_cut_text rest
    else none
