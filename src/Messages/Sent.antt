-- ===== src/Messages/Sent.antt =====
-- The bytes of the messages of src/protocol/ovnc_messages.c, as a server reads them.
use libopenvnc.Base.{
  ℕ, ◌/◌, ◌%◌, ◌^◌, ◌<◌, ◌≡◌, refl, ap, ◌∙◌, some, List, [], ◌∷◌, ◌++◌, ℤ, pos, negsuc, arith,
  length, All,
}
use libopenvnc.Wire.{write_u16, write_u32, write_s32, u32_of_s32}
use libopenvnc.Wire.RoundTrip.{IsS32, u32_of_s32-lt}
use libopenvnc.Pixel.{InRange, to_wire}
use libopenvnc.Messages.{encoding_bytes}
use libopenvnc.Messages.Server.{
  Message, set_pixel_format, set_encodings, fb_update_request, key_event, pointer_event,
  client_cut_text, be16, be32, signed, signed_list, byte_list, parse, parse_pixel_format,
  parse_encodings, parse_update_request, parse_key, parse_pointer, parse_cut_text, as_encodings,
  as_cut_text,
}

pub be16-bytes : (v : ℕ) → v < 2 ^ 16 → be16 (v / 2 ^ 8 % 256) (v % 256) ≡ v
be16-bytes v h = omega arith

pub be32-bytes :
    (v : ℕ)
    → v < 2 ^ 32
    → be32 (v / 2 ^ 24 % 256) (v / 2 ^ 16 % 256) (v / 2 ^ 8 % 256) (v % 256) ≡ v
be32-bytes v h = omega arith

pub signed-u32_of_s32 : (v : ℤ) → IsS32 v → signed (u32_of_s32 v) ≡ v
unfolding u32_of_s32
signed-u32_of_s32 (pos n) h = ground arith
signed-u32_of_s32 (negsuc n) h = ground arith

-- The bytes of a message, as the functions of the library put them together.
abbrev pub bytes_of : Message → List ℕ
bytes_of (set_pixel_format fmt) = 0 ∷ 0 ∷ 0 ∷ 0 ∷ to_wire fmt
bytes_of (set_encodings es) = 2 ∷ 0 ∷ (write_u16 (length es) ++ encoding_bytes es)
bytes_of (fb_update_request incremental x y width height) =
    3 ∷ incremental ∷ (write_u16 x ++ (write_u16 y ++ (write_u16 width ++ write_u16 height)))
bytes_of (key_event key down) = 4 ∷ down ∷ 0 ∷ 0 ∷ write_u32 key
bytes_of (pointer_event x y mask) = 5 ∷ mask ∷ (write_u16 x ++ write_u16 y)
bytes_of (client_cut_text text) = 6 ∷ 0 ∷ 0 ∷ 0 ∷ (write_u32 (length text) ++ text)

-- The numbers of a message are in the range of the fields that carry them.
abbrev pub Fits : Message → Type 0
Fits (set_pixel_format fmt) = InRange fmt
Fits (set_encodings es) = (length es < 2 ^ 16) × All IsS32 es
Fits (fb_update_request incremental x y width height) =
    (x < 2 ^ 16) × (y < 2 ^ 16) × (width < 2 ^ 16) × (height < 2 ^ 16)
Fits (key_event key down) = key < 2 ^ 32
Fits (pointer_event x y mask) = (x < 2 ^ 16) × (y < 2 ^ 16)
Fits (client_cut_text text) = length text < 2 ^ 32

signed_list-encoding_bytes :
    (es : List ℤ) (rest : List ℕ)
    → All IsS32 es
    → signed_list (length es) (encoding_bytes es ++ rest) ≡ some (es, rest)
unfolding signed_list encoding_bytes write_s32 write_u32
signed_list-encoding_bytes [] rest h = refl
signed_list-encoding_bytes (e ∷ es) rest h = rw (
  signed_list-encoding_bytes es rest h.1,
  be32-bytes (u32_of_s32 e) (u32_of_s32-lt e h.0),
  signed-u32_of_s32 e h.0,
)

byte_list-append : (bs rest : List ℕ) → byte_list (length bs) (bs ++ rest) ≡ some (bs, rest)
unfolding byte_list
byte_list-append [] rest = refl
byte_list-append (b ∷ bs) rest = rw (byte_list-append bs rest)

pub parse-bytes_of :
    (m : Message) (rest : List ℕ) → Fits m → parse (bytes_of m ++ rest) ≡ some (m, rest)
unfolding parse parse_pixel_format parse_encodings parse_update_request parse_key parse_pointer
    parse_cut_text to_wire write_u16 write_u32
parse-bytes_of (set_pixel_format fmt) rest h = rw (
  be16-bytes fmt.red_max h.red_max,
  be16-bytes fmt.green_max h.green_max,
  be16-bytes fmt.blue_max h.blue_max,
)
parse-bytes_of (set_encodings es) rest h =
    ap (λ n. as_encodings (signed_list n (encoding_bytes es ++ rest))) (be16-bytes (length es) h.0)
    ∙ ap as_encodings (signed_list-encoding_bytes es rest h.1)
parse-bytes_of (fb_update_request incremental x y width height) rest h =
    rw (be16-bytes x h.0, be16-bytes y h.1, be16-bytes width h.2, be16-bytes height h.3)
parse-bytes_of (key_event key down) rest h = rw (be32-bytes key h)
parse-bytes_of (pointer_event x y mask) rest h = rw (be16-bytes x h.0, be16-bytes y h.1)
parse-bytes_of (client_cut_text text) rest h =
    ap (λ n. as_cut_text (byte_list n (text ++ rest))) (be32-bytes (length text) h)
    ∙ ap as_cut_text (byte_list-append text rest)
