-- ===== src/Client/Heap/Messages.antt =====
-- The heap blocks through the handlers of src/protocol/ovnc_messages.c.
use libopenvnc.Base.{
  ℕ, zero, suc, ◌+◌, ◌≡◌, refl, Bool, true, false, ◌&&◌, List, ltb, ◌==◌, arith, count, drop,
}
use libopenvnc.Wire.{byte_at, read_u16, read_u32, read_s32}
use libopenvnc.Run.{System}
use libopenvnc.Run.Safe.{Safe-bind, Safe-if, Safe-pure, Safe-raise, Safe-gets, Safe-pre}
use libopenvnc.Dispatch.{
  rect_of_header, handle_rect, handle_rects, handle_fb_update, deliver_colors,
  handle_color_map_entries, handle_bell, deliver_text, handle_server_cut_text, handle_message,
  recv_server_message,
}
use libopenvnc.Client.Heap.{
  Owns, Moves, Keeps, IsFrugal, recv-Keeps, recv_or_free-Moves, malloc-Moves, free-Moves,
  free_if-Moves, notify_if-Keeps, notify_if-Moves,
}
use libopenvnc.Client.Heap.Decoding.{decode_rect-Keeps}

three_found : (r g b : Bool) → (r && (g && b)) ≡ true → count r + count g + count b ≡ 3
three_found true true true e = refl
three_found true true false e = cc
three_found true false b e = cc
three_found false g b e = cc

module _ {E : Type 0} ⦃sys : System E⦄ (frugal : IsFrugal E) where
  handle_rects-Keeps : (n left : ℕ) → Keeps E n (handle_rects left)
  unfolding handle_rects handle_rect
  handle_rects-Keeps n zero = Safe-pure tt (λ s h. h)
  handle_rects-Keeps n (suc left) =
      Safe-bind
        (Safe-bind (recv-Keeps n 12)
          λ header. decode_rect-Keeps frugal n (rect_of_header header) (read_s32 (drop 8 header)))
        λ _. handle_rects-Keeps n left

  handle_fb_update-Keeps : (n : ℕ) → Keeps E n handle_fb_update
  unfolding handle_fb_update
  handle_fb_update-Keeps n = Safe-bind (recv-Keeps n 3) λ header.
      Safe-bind (handle_rects-Keeps n (read_u16 (drop 1 header))) λ _. notify_if-Keeps frugal n _ _

  -- The three arrays of colors, of which some may be missing.
  deliver_colors-Moves :
      (n first num : ℕ) (block : List ℕ)
      → Moves E (n + 1) (λ _. n) n (deliver_colors first num block)
  unfolding deliver_colors
  deliver_colors-Moves n first num block = Safe-bind (malloc-Moves (n + 1) n _) λ red.
      Safe-bind (malloc-Moves _ n _) λ green. Safe-bind (malloc-Moves _ n _) λ blue.
        Safe-if (red && (green && blue))
          (λ all.
            Safe-pre {P = Owns (n + 1 + 1 + 1 + 1)}
              (λ s h. omega (arith, h, three_found red green blue all))
              (Safe-bind (notify_if-Moves frugal _ n _ _) λ _. Safe-bind (free-Moves _ n) λ _.
                Safe-bind (free-Moves _ n) λ _.
                  Safe-bind (free-Moves _ n)
                    λ _. Safe-bind (free-Moves _ n) λ _. Safe-pure tt (λ s h. h)))
          (λ _.
            Safe-pre {P = Owns (n + 1 + count blue + count green + count red)}
              (λ s h. omega (arith, h))
              (Safe-bind (free_if-Moves _ n red) λ _. Safe-bind (free_if-Moves _ n green) λ _.
                Safe-bind (free_if-Moves _ n blue)
                  λ _. Safe-bind (free-Moves n n) λ _. Safe-raise _ (λ s h. h)))

  handle_color_map_entries-Keeps : (n : ℕ) → Keeps E n handle_color_map_entries
  unfolding handle_color_map_entries
  handle_color_map_entries-Keeps n = Safe-bind (recv-Keeps n 5) λ header.
      Safe-bind (malloc-Moves n n _) λ found.
        Safe-if found
          (λ e. rw e (
            Safe-bind (recv_or_free-Moves n _ _) λ received.
              Safe-bind (Safe-gets (λ s. s.client.callbacks.color_map_update)) λ set.
                Safe-pre (λ s q. q.0)
                  (Safe-if set (λ _. deliver_colors-Moves n _ _ received) (λ _. free-Moves n n))))
          (λ e. rw e (Safe-raise _ (λ s h. omega (arith, h))))

  deliver_text-Moves : (n cap len : ℕ) → Moves E (n + 1) (λ _. n) n (deliver_text cap len)
  unfolding deliver_text
  deliver_text-Moves n cap len = Safe-bind (recv_or_free-Moves n cap len) λ text.
      Safe-bind {Q = λ _. Owns (n + 1)}
        (Safe-if (ltb len cap) (λ _. Safe-pure tt (λ s h. h)) (λ _. record { at = λ s h. tt }))
        λ _. Safe-bind (notify_if-Moves frugal (n + 1) n _ _) λ _. free-Moves n n

  handle_server_cut_text-Keeps : (n : ℕ) → Keeps E n handle_server_cut_text
  unfolding handle_server_cut_text
  handle_server_cut_text-Keeps n = Safe-bind (recv-Keeps n 7) λ header.
      Safe-if (ltb 0 (read_u32 (drop 3 header)))
        (λ _. Safe-bind (malloc-Moves n n _) λ found.
          Safe-if found (λ e. rw e (deliver_text-Moves n _ _))
            (λ e. rw e (Safe-raise _ (λ s h. omega (arith, h)))))
        (λ _. notify_if-Keeps frugal n _ _)

  handle_message-Keeps : (n type : ℕ) → Keeps E n (handle_message type)
  unfolding handle_message handle_bell
  handle_message-Keeps n type =
      Safe-if (type == 0) (λ _. handle_fb_update-Keeps n)
        (λ _.
          Safe-if (type == 1) (λ _. handle_color_map_entries-Keeps n)
            (λ _.
              Safe-if (type == 2) (λ _. notify_if-Keeps frugal n _ _)
                (λ _.
                  Safe-if (type == 3) (λ _. handle_server_cut_text-Keeps n)
                    (λ _. Safe-raise _ (λ s h. h)))))

  pub recv_server_message-Keeps : (n : ℕ) → Keeps E n recv_server_message
  unfolding recv_server_message
  recv_server_message-Keeps n =
      Safe-bind (recv-Keeps n 1) λ received. handle_message-Keeps n (byte_at received 0)
