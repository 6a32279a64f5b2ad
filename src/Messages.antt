-- ===== src/Messages.antt =====
-- The messages that the client sends: the first part of src/protocol/ovnc_messages.c.
pub mod Server
pub mod Sent
pub mod Carried
pub mod Miscount
pub mod Safety
use libopenvnc.Base.{
  ℕ, ◌+◌, ◌*◌, ◌%◌, ◌^◌, List, [], ◌∷◌, ◌++◌, ℤ, ltb, if◌then◌else◌, length, take, add_size,
  mul_size,
}
use libopenvnc.Error.{nomem}
use libopenvnc.Pixel.{PixelFormat, to_wire}
use libopenvnc.Wire.{write_u16, write_u32, write_s32}
use libopenvnc.Run.{
  out_of_bounds, Action, System, pure, raise, abort, or_raise, ◌>>=◌, ◌>>◌, try, free, malloc,
}
use libopenvnc.Transport.{transport_send}

-- The loop of ovnc__send_set_encodings that fills the body.
unfoldable pub encoding_bytes : List ℤ → List ℕ
encoding_bytes [] = []
encoding_bytes (e ∷ es) = write_s32 e ++ encoding_bytes es

module _ {E : Type 0} ⦃sys : System E⦄ where
  -- ovnc__send_set_pixel_format
  unfoldable pub send_set_pixel_format : PixelFormat → Action E Unit
  send_set_pixel_format fmt = transport_send (0 ∷ 0 ∷ 0 ∷ 0 ∷ to_wire fmt)

  -- ovnc__send_set_encodings. The array holds `length encodings` elements, of which the first
  -- `num_encodings` are sent; the block has `msg_len` bytes.
  unfoldable pub send_set_encodings : List ℤ → ℕ → Action E Unit
  send_set_encodings encodings num_encodings = do
    let msg_len = add_size 4 (mul_size 4 num_encodings)
    found ← malloc msg_len
    if found
        then (if ltb (length encodings) num_encodings
            then abort out_of_bounds
            else if ltb msg_len (4 + 4 * num_encodings)
            then abort out_of_bounds
            else try
                (transport_send (
                  2
                  ∷ 0
                  ∷ (write_u16 (num_encodings % 2 ^ 16)
                      ++ encoding_bytes (take num_encodings encodings))))
                (λ err. free >> or_raise tt err))
        else raise nomem

  -- ovnc__send_fb_update_request
  unfoldable pub send_fb_update_request : ℕ → ℕ → ℕ → ℕ → ℕ → Action E Unit
  send_fb_update_request incremental x y width height =
      transport_send
        (3 ∷ incremental ∷ (write_u16 x ++ (write_u16 y ++ (write_u16 width ++ write_u16 height))))

  -- ovnc__send_key_event
  unfoldable pub send_key_event : ℕ → ℕ → Action E Unit
  send_key_event key down = transport_send (4 ∷ down ∷ 0 ∷ 0 ∷ write_u32 key)

  -- ovnc__send_pointer_event
  unfoldable pub send_pointer_event : ℕ → ℕ → ℕ → Action E Unit
  send_pointer_event x y button_mask =
      transport_send (5 ∷ button_mask ∷ (write_u16 x ++ write_u16 y))

  -- ovnc__send_client_cut_text. `text` points to `length text` bytes.
  unfoldable pub send_client_cut_text : List ℕ → ℕ → Action E Unit
  send_client_cut_text text len = do
    transport_send (6 ∷ 0 ∷ 0 ∷ 0 ∷ write_u32 len)
    if ltb 0 len
        then (if ltb (length text) len then abort out_of_bounds else transport_send (take len text))
        else pure tt
