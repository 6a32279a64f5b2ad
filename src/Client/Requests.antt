-- ===== src/Client/Requests.antt =====
-- The calls of src/client/ovnc_client.c that send something to the server.
pub mod Format
pub mod Safety
use libopenvnc.Base.{
  ℕ, ◌%◌, not, Option, none, some, List, if◌then◌else◌, ℤ, pos, is_negative, ◌==ℤ◌, is_some,
  size_of_int, mul_size,
}
use libopenvnc.Error.{nomem, invalid_arg}
use libopenvnc.Pixel.{PixelFormat, bytes_per_pixel}
use libopenvnc.State.{Rect, Framebuffer}
use libopenvnc.Run.{
  Action, System, pure, raise, gets, ◌>>=◌, ◌>>◌, modify_client, free_if, malloc,
  call_alloc_framebuffer,
}
use libopenvnc.Messages.{
  send_set_pixel_format, send_set_encodings, send_fb_update_request, send_key_event,
  send_pointer_event, send_client_cut_text,
}
use libopenvnc.Encoding.{zeroed, set_framebuffer}
use libopenvnc.Client.Lifecycle.{is_connected_state}

-- The rectangle that ovnc_client_request_update asks for; NULL is the whole framebuffer.
abbrev pub requested : Option Rect → Framebuffer → Rect
requested (some rect) fb = rect
requested none fb = record { x = 0; y = 0; width = fb.width; height = fb.height }

module _ {E : Type 0} ⦃sys : System E⦄ where
  -- The guard of the functions that send: the client must be connected.
  abbrev pub when_connected : Action E Unit → Action E Unit
  when_connected m = do
    state ← gets (λ s. s.client.state)
    if is_connected_state state then m else raise invalid_arg

  -- ovnc_client_request_update
  unfoldable pub request_update : Option Rect → ℤ → Action E Unit
  request_update rect incremental = when_connected do
    fb ← gets (λ s. s.client.framebuffer)
    let r = requested rect fb
    send_fb_update_request (size_of_int incremental % 256) r.x r.y r.width r.height

  -- ovnc_client_send_key_event
  unfoldable pub client_send_key_event : ℕ → ℤ → Action E Unit
  client_send_key_event key down =
      when_connected (send_key_event key (if down ==ℤ pos 0 then 0 else 1))

  -- ovnc_client_send_pointer_event
  unfoldable pub client_send_pointer_event : ℕ → ℕ → ℕ → Action E Unit
  client_send_pointer_event x y button_mask = when_connected (send_pointer_event x y button_mask)

  -- ovnc_client_send_cut_text; `none` is NULL.
  abbrev cut_text : Option (List ℕ) → ℕ → Action E Unit
  cut_text none len = raise invalid_arg
  cut_text (some text) len = send_client_cut_text text len

  unfoldable pub client_send_cut_text : Option (List ℕ) → ℕ → Action E Unit
  client_send_cut_text text len = when_connected (cut_text text len)

  -- The last part of ovnc_client_set_pixel_format, where the size of a pixel has changed.
  unfoldable pub reallocate : ℕ → Action E Unit
  reallocate size = do
    modify_client (set_framebuffer (λ fb. record fb { data_size = size }))
    c ← gets (λ s. s.client)
    if c.callbacks.alloc_framebuffer then call_alloc_framebuffer else do
      found ← malloc size
      if found
          then (do
            free_if (is_some c.framebuffer.pixels)
            modify_client (set_framebuffer (λ fb. record fb { pixels = some (zeroed size) })))
          else raise nomem

  -- ovnc_client_set_pixel_format; `none` is NULL.
  unfoldable pub change_pixel_format : PixelFormat → Action E Unit
  unfolding reallocate
  change_pixel_format fmt = do
    let new_bpp = bytes_per_pixel fmt
    if is_negative new_bpp then raise invalid_arg else do
      send_set_pixel_format fmt
      fb ← gets (λ s. s.client.framebuffer)
      let old_bpp = bytes_per_pixel fb.format
      modify_client (set_framebuffer (λ f. record f { format = fmt }))
      let new_size = mul_size (mul_size fb.width fb.height) (size_of_int new_bpp)
      if not (new_bpp ==ℤ old_bpp) then reallocate new_size else pure tt

  abbrev set_format : Option PixelFormat → Action E Unit
  set_format none = raise invalid_arg
  set_format (some fmt) = when_connected (change_pixel_format fmt)

  unfoldable pub set_pixel_format : Option PixelFormat → Action E Unit
  unfolding change_pixel_format
  set_pixel_format format = set_format format

  -- ovnc_client_set_encodings; `none` is NULL.
  abbrev set_list : Option (List ℤ) → ℕ → Action E Unit
  set_list none n = raise invalid_arg
  set_list (some es) n = when_connected (send_set_encodings es n)

  unfoldable pub set_encodings : Option (List ℤ) → ℕ → Action E Unit
  set_encodings encodings num_encodings = set_list encodings num_encodings
