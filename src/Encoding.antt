-- ===== src/Encoding.antt =====
-- src/protocol/ovnc_encoding.c and src/protocol/ovnc_enc_raw.c: how a rectangle of a framebuffer
-- update is decoded.
pub mod Pixels
pub mod Picture
pub mod Receiving
pub mod Drawing
pub mod Drawn
pub mod Rows
pub mod Safety
pub mod Spilling
use libopenvnc.Base.{
  ℕ, zero, suc, ◌+◌, ◌*◌, ◌/◌, Bool, true, false, Option, none, some, List, [], ◌∷◌, ltb, ◌==◌,
  if◌then◌else◌, is_some, length, take, drop, replicate, splice, ℤ, pos, negsuc, ◌==ℤ◌, size_of_int,
  add_size, mul_size,
}
use libopenvnc.Error.{nomem, protocol, encoding_unsupported}
use libopenvnc.Pixel.{bytes_per_pixel}
use libopenvnc.State.{Rect, Framebuffer, Client, Callbacks, Event}
use libopenvnc.Run.{
  null_pointer, out_of_bounds, St, Action, System, pure, raise, abort, gets, ◌>>=◌, ◌>>◌, try,
  or_raise, modify_client, free, free_if, malloc, notify_if, call_alloc_framebuffer,
}
use libopenvnc.Transport.{transport_recv_to, recv_block}

-- ovnc_encoding_type_t
abbrev pub encoding_raw : ℤ
encoding_raw = pos 0

abbrev pub encoding_desktop_size : ℤ
encoding_desktop_size = negsuc 222

abbrev pub encoding_cursor : ℤ
encoding_cursor = negsuc 238

-- The block that `calloc` gives.
unfoldable pub zeroed : ℕ → List ℕ
zeroed n = replicate n 0

-- `(size_t)bpp` of the framebuffer's format
unfoldable pub fb_bpp : Framebuffer → ℕ
unfolding bytes_per_pixel
fb_bpp fb = size_of_int (bytes_per_pixel fb.format)

abbrev pub set_framebuffer : (Framebuffer → Framebuffer) → Client → Client
set_framebuffer f c = record c { framebuffer = f c.framebuffer }

abbrev pub resized : ℕ → ℕ → ℕ → Framebuffer → Framebuffer
resized width height size fb = record fb { width = width; height = height; data_size = size }

-- Bytes that arrive at `data + offset`.
abbrev pub store_pixels : ℕ → List ℕ → Framebuffer → Framebuffer
store_pixels offset bs fb = record fb {
  pixels = elim fb.pixels [ none ↦ none | some block ↦ some (splice block offset bs) ];
}

module _ {E : Type 0} ⦃sys : System E⦄ where
  -- ovnc__transport_recv(client->transport, client->framebuffer.data + offset, n): a fault where
  -- the block does not hold the bytes that are asked for.
  abbrev pub recv_into : Option (List ℕ) → ℕ → ℕ → Action E (List ℕ)
  recv_into none offset n = if n == 0 then transport_recv_to (λ _ c. c) n else abort null_pointer
  recv_into (some block) offset n =
      if ltb (length block) (offset + n)
      then abort out_of_bounds
      else transport_recv_to (λ bs. set_framebuffer (store_pixels offset bs)) n

  unfoldable pub recv_pixels : ℕ → ℕ → Action E (List ℕ)
  unfolding transport_recv_to
  recv_pixels offset n s = recv_into s.client.framebuffer.pixels offset n s

  -- One round of the loop of ovnc__decode_raw.
  unfoldable pub raw_row : Rect → ℕ → ℕ → ℕ → ℕ → Action E Unit
  raw_row rect bpp row_bytes fb_stride y = do
    let offset = add_size (mul_size (rect.y + y) fb_stride) (mul_size rect.x bpp)
    data_size ← gets (λ s. s.client.framebuffer.data_size)
    if ltb data_size (add_size offset row_bytes)
        then raise protocol
        else do recv_pixels offset row_bytes; pure tt

  -- The loop, with the rounds that are left.
  unfoldable pub raw_rows : ℕ → Rect → ℕ → ℕ → ℕ → ℕ → Action E Unit
  unfolding raw_row
  raw_rows zero rect bpp row_bytes fb_stride y = pure tt
  raw_rows (suc left) rect bpp row_bytes fb_stride y = do
    raw_row rect bpp row_bytes fb_stride y
    raw_rows left rect bpp row_bytes fb_stride (y + 1)

  -- ovnc__decode_raw
  unfoldable pub decode_raw : Rect → Action E Unit
  unfolding raw_rows
  decode_raw rect = do
    fb ← gets (λ s. s.client.framebuffer)
    let bpp = fb_bpp fb
    raw_rows rect.height rect bpp (mul_size rect.width bpp) (mul_size fb.width bpp) 0
    notify_if (λ c. c.framebuffer_update) (Event.framebuffer_update rect)

  -- The two ways of decode_desktop_size to a framebuffer of another size.
  unfoldable pub resize_by_callback : ℕ → ℕ → ℕ → Action E Unit
  resize_by_callback width height size = do
    modify_client (set_framebuffer (resized width height size))
    call_alloc_framebuffer

  unfoldable pub resize_by_calloc : ℕ → ℕ → ℕ → Action E Unit
  resize_by_calloc width height size = do
    found ← malloc size
    if found
        then (do
          old ← gets (λ s. s.client.framebuffer.pixels)
          free_if (is_some old)
          modify_client (
              set_framebuffer
                (λ fb. record (resized width height size fb) { pixels = some (zeroed size) })))
        else raise nomem

  -- decode_desktop_size
  unfoldable pub decode_desktop_size : Rect → Action E Unit
  unfolding resize_by_callback resize_by_calloc
  decode_desktop_size rect = do
    c ← gets (λ s. s.client)
    let size = mul_size (mul_size rect.width rect.height) (fb_bpp c.framebuffer)
    if c.callbacks.alloc_framebuffer
        then resize_by_callback rect.width rect.height size
        else resize_by_calloc rect.width rect.height size
    notify_if (λ f. f.desktop_resize) (Event.desktop_resize rect.width rect.height)

  -- decode_cursor
  unfoldable pub decode_cursor : Rect → Action E Unit
  decode_cursor rect = do
    fb ← gets (λ s. s.client.framebuffer)
    let pixels_size = mul_size (mul_size rect.width rect.height) (fb_bpp fb)
    let mask_row = add_size rect.width 7 / 8
    let total = add_size pixels_size (mul_size mask_row rect.height)
    if total == 0
        then notify_if (λ f. f.cursor_update) (Event.cursor_update rect.x rect.y 0 0 none none)
        else do
          found ← malloc total
          if found
              then try
                  (recv_block total total >>= λ buf.
                    notify_if (λ f. f.cursor_update)
                      (Event.cursor_update rect.x rect.y rect.width rect.height (some buf)
                        (some (drop pixels_size buf))))
                  (λ err. free >> or_raise tt err)
              else raise nomem

  -- ovnc__decode_rect
  unfoldable pub decode_rect : Rect → ℤ → Action E Unit
  unfolding decode_raw decode_desktop_size decode_cursor
  decode_rect rect encoding_type =
      if encoding_type ==ℤ encoding_raw
      then decode_raw rect
      else if encoding_type ==ℤ encoding_desktop_size
      then decode_desktop_size rect
      else if encoding_type ==ℤ encoding_cursor
      then decode_cursor rect
      else raise encoding_unsupported
