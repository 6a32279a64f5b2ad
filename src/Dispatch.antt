-- ===== src/Dispatch.antt =====
-- The messages of the server: the second part of src/protocol/ovnc_messages.c.
pub mod Safety
pub mod CutText
pub mod Colors
pub mod Protocol
pub mod Reading
pub mod Delivered
use libopenvnc.Base.{
  ℕ, zero, suc, ◌+◌, ◌-◌, ◌*◌, ◌%◌, ◌^◌, Bool, true, false, ◌&&◌, List, [], ◌∷◌, ltb, ◌==◌,
  if◌then◌else◌, drop, mul_size,
}
use libopenvnc.Error.{nomem, protocol}
use libopenvnc.Wire.{byte_at, read_u16, read_u32, read_s32}
use libopenvnc.State.{Rect, Event}
use libopenvnc.Run.{
  Outcome, ok, fail, crash, out_of_bounds, double_free, St, Action, System, pure, raise, abort,
  gets, ◌>>=◌, ◌>>◌, try, or_raise, free, free_if, malloc, notify_if,
}
use libopenvnc.Transport.{transport_recv, recv_or_free}
use libopenvnc.Encoding.{decode_rect}

-- The rectangle of a header of 12 bytes.
unfoldable pub rect_of_header : List ℕ → Rect
rect_of_header header = record {
  x = read_u16 header;
  y = read_u16 (drop 2 header);
  width = read_u16 (drop 4 header);
  height = read_u16 (drop 6 header);
}

-- One array of the loop over the colors: the 16-bit numbers at `i * 6 + offset` of the data.
unfoldable pub color_channel : ℕ → List ℕ → ℕ → ℕ → List ℕ
color_channel zero block offset i = []
color_channel (suc left) block offset i =
    read_u16 (drop (i * 6 + offset) block) ∷ color_channel left block offset (i + 1)

-- The blocks that the pointers of handle_color_map_entries hold.
pub data ColorBlock : Type 0 where
  red_block green_block blue_block data_block : ColorBlock

abbrev pub color_blocks : List ColorBlock
color_blocks = red_block ∷ green_block ∷ blue_block ∷ data_block ∷ []

abbrev pub is_same : ColorBlock → ColorBlock → Bool
is_same red_block red_block = true
is_same green_block green_block = true
is_same blue_block blue_block = true
is_same data_block data_block = true
is_same _ _ = false

abbrev pub is_held : ColorBlock → List ColorBlock → Bool
is_held b [] = false
is_held b (c ∷ cs) = if is_same b c then true else is_held b cs

abbrev pub without : ColorBlock → List ColorBlock → List ColorBlock
without b [] = []
without b (c ∷ cs) = let rest = without b cs in if is_same b c then cs else c ∷ rest

-- `free(b); …`, one after the other, and then `next`; of a pointer that may be NULL, whether it is not.
-- A block that was freed is not held any more.
abbrev pub free_all :
    {E : Type 0} → List ColorBlock → List (ColorBlock × Bool) → Action E Unit → Action E Unit
free_all held [] next = next
free_all held ((b, found) ∷ bs) next =
    let rest = free_all (without b held) bs next in
    (if is_held b held then free_if found else abort double_free) >> rest

module _ {E : Type 0} ⦃sys : System E⦄ where
  -- One round of the loop over the rectangles of handle_fb_update.
  unfoldable pub handle_rect : Action E Unit
  unfolding rect_of_header
  handle_rect = do
    header ← transport_recv 12
    decode_rect (rect_of_header header) (read_s32 (drop 8 header))

  -- The loop, with the rounds that are left.
  unfoldable pub handle_rects : ℕ → Action E Unit
  unfolding handle_rect
  handle_rects zero = pure tt
  handle_rects (suc left) = do handle_rect; handle_rects left

  -- handle_fb_update
  unfoldable pub handle_fb_update : Action E Unit
  unfolding handle_rects
  handle_fb_update = do
    header ← transport_recv 3
    handle_rects (read_u16 (drop 1 header))
    notify_if (λ c. c.framebuffer_update_finished) Event.framebuffer_update_finished

  -- The part of handle_color_map_entries that calls the application, on the data received.
  unfoldable pub deliver_colors : ℕ → ℕ → List ℕ → Action E Unit
  deliver_colors first_color num_colors block = do
    red ← malloc (mul_size 2 num_colors)
    green ← malloc (mul_size 2 num_colors)
    blue ← malloc (mul_size 2 num_colors)
    if red && (green && blue)
        then (do
          notify_if (λ c. c.color_map_update)
              (Event.color_map_update first_color num_colors (color_channel num_colors block 0 0)
                (color_channel num_colors block 2 0) (color_channel num_colors block 4 0))
          free_all color_blocks
              ((red_block, true)
                ∷ (green_block, true)
                ∷ (blue_block, true)
                ∷ (data_block, true)
                ∷ [])
              (pure tt))
        else free_all color_blocks
            ((red_block, red) ∷ (green_block, green) ∷ (blue_block, blue) ∷ (data_block, true) ∷ [])
            (raise nomem)

  -- handle_color_map_entries
  unfoldable pub handle_color_map_entries : Action E Unit
  unfolding deliver_colors
  handle_color_map_entries = do
    header ← transport_recv 5
    let first_color = read_u16 (drop 1 header)
    let num_colors = read_u16 (drop 3 header)
    let data_len = mul_size num_colors 6
    found ← malloc data_len
    if found
        then (do
          received ← recv_or_free data_len data_len
          has_callback ← gets (λ s. s.client.callbacks.color_map_update)
          if has_callback then deliver_colors first_color num_colors received else free)
        else raise nomem

  -- handle_bell
  unfoldable pub handle_bell : Action E Unit
  handle_bell = notify_if (λ c. c.bell) Event.bell

  -- The part of handle_server_cut_text that has a block, of `cap` bytes, for `len` bytes of text.
  unfoldable pub deliver_text : ℕ → ℕ → Action E Unit
  deliver_text cap len = do
    text ← recv_or_free cap len
    -- `text[length] = '\0'`
    if ltb len cap then pure tt else abort out_of_bounds
    notify_if (λ c. c.server_cut_text) (Event.server_cut_text text len)
    free

  -- handle_server_cut_text
  unfoldable pub handle_server_cut_text : Action E Unit
  unfolding deliver_text
  handle_server_cut_text = do
    header ← transport_recv 7
    let len = read_u32 (drop 3 header)
    let cap = (len + 1) % 2 ^ 32
    if ltb 0 len
        then (do found ← malloc cap; if found then deliver_text cap len else raise nomem)
        else notify_if (λ c. c.server_cut_text) (Event.server_cut_text [] len)

  -- The `switch` of ovnc__recv_server_message.
  unfoldable pub handle_message : ℕ → Action E Unit
  unfolding handle_fb_update handle_color_map_entries handle_bell handle_server_cut_text
  handle_message msg_type =
      if msg_type == 0
      then handle_fb_update
      else if msg_type == 1
      then handle_color_map_entries
      else if msg_type == 2
      then handle_bell
      else if msg_type == 3
      then handle_server_cut_text
      else raise protocol

  -- ovnc__recv_server_message
  unfoldable pub recv_server_message : Action E Unit
  unfolding handle_message
  recv_server_message = do received ← transport_recv 1; handle_message (byte_at received 0)
