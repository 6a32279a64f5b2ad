-- ===== src/Dispatch/Safety.antt =====
-- Whatever bytes the server sends, a message is handled without a fault.
use libopenvnc.Base.{
  ℕ, zero, suc, ◌+◌, ◌-◌, ◌%◌, ◌^◌, ◌≤◌, ◌<◌, ◌≡◌, ◌≢◌, ◌==◌, false, List, arith, ltb, lt→ltb, drop,
  ◌&&◌,
}
use libopenvnc.Wire.{byte_at, read_u32}
use libopenvnc.Wire.RoundTrip.{read_u16-lt, read_u32-lt}
use libopenvnc.State.{ClientState}
use libopenvnc.Run.{St, System}
use libopenvnc.Run.Safe.{
  Ends, Safe, Safe-pre, Safe-post, Safe-err, Safe-bind, Safe-gets, Safe-if, Safe-raise, Safe-pure,
  Safe-assume,
}
use libopenvnc.Session.{IsLinked, IsReady, IsTame}
use libopenvnc.Session.Reads.{IsLinked-mono}
use libopenvnc.Session.Local.{IsReady-IsHeld, IsReady-IsStable, IsReady-IsLocal}
use libopenvnc.Session.Primitives.{
  notify_if-Safe, malloc-Safe, malloc-found, free-Safe, free_if-Safe, transport_recv-Safe,
  recv_or_free-Safe, recv-progress,
}
use libopenvnc.Encoding.Pixels.{RectInRange}
use libopenvnc.Encoding.Safety.{decode_rect-Safe}
use libopenvnc.Dispatch.{
  rect_of_header, handle_rect, handle_rects, handle_fb_update, deliver_colors,
  handle_color_map_entries, handle_bell, handle_server_cut_text, recv_server_message, deliver_text,
  handle_message,
}

rect_of_header-InRange : (header : List ℕ) → RectInRange (rect_of_header header)
unfolding rect_of_header
rect_of_header-InRange header = record {
  x = read_u16-lt header;
  y = read_u16-lt (drop 2 header);
  width = read_u16-lt (drop 4 header);
  height = read_u16-lt (drop 6 header);
}

module _ {E : Type 0} ⦃sys : System E⦄ {input output : E → List ℕ} (laws : IsTame input output)
    (st : ClientState) (k : ℕ) where
  -- A rectangle of an update, with its header.
  handle_rect-Safe :
      Safe (IsReady input st k) (λ _ s. IsReady input st k s) (IsLinked input st k) handle_rect
  unfolding handle_rect
  handle_rect-Safe =
      Safe-bind (Safe-err (λ s x. x.linked) (transport_recv-Safe laws (IsReady-IsHeld st k) 12))
        λ header.
          Safe-assume λ _.
            decode_rect-Safe laws st k (rect_of_header header) _ (rect_of_header-InRange header)

  handle_rects-Safe :
      (left : ℕ)
      → Safe
          (IsReady input st k)
          (λ _ s. IsReady input st k s)
          (IsLinked input st k)
          (handle_rects left)
  unfolding handle_rects
  handle_rects-Safe zero = Safe-pure tt (λ s q. q)
  handle_rects-Safe (suc left) = Safe-bind handle_rect-Safe λ _. handle_rects-Safe left

  -- FramebufferUpdate, with any number of rectangles.
  pub handle_fb_update-Safe :
      Safe (IsReady input st k) (λ _ s. IsReady input st k s) (IsLinked input st k) handle_fb_update
  unfolding handle_fb_update
  handle_fb_update-Safe =
      Safe-bind (Safe-err (λ s x. x.linked) (transport_recv-Safe laws (IsReady-IsHeld st k) 3))
        λ header.
          Safe-assume λ _.
            Safe-bind (handle_rects-Safe _) λ _. notify_if-Safe (IsReady-IsStable laws st k) _ _

  deliver_colors-Safe :
      (first_color num_colors : ℕ) (block : List ℕ)
      → Safe
          (IsReady input st k)
          (λ _ s. IsReady input st k s)
          (IsLinked input st k)
          (deliver_colors first_color num_colors block)
  unfolding deliver_colors
  deliver_colors-Safe first_color num_colors block =
      let local = IsReady-IsLocal st k in
      Safe-bind (malloc-Safe laws local _) λ red. Safe-bind (malloc-Safe laws local _) λ green.
        Safe-bind (malloc-Safe laws local _) λ blue.
          Safe-if (red && (green && blue))
            (λ _. Safe-bind (notify_if-Safe (IsReady-IsStable laws st k) _ _) λ _.
              Safe-bind (free-Safe laws local) λ _. Safe-bind (free-Safe laws local) λ _.
                Safe-bind (free-Safe laws local)
                  λ _. Safe-bind (free-Safe laws local) λ _. Safe-pure tt (λ s q. q))
            (λ _. Safe-bind (free_if-Safe laws local red) λ _.
              Safe-bind (free_if-Safe laws local green) λ _.
                Safe-bind (free_if-Safe laws local blue)
                  λ _. Safe-bind (free-Safe laws local) λ _. Safe-raise _ (λ s q. q.linked))

  -- SetColourMapEntries, with any number of colors.
  pub handle_color_map_entries-Safe :
      Safe
        (IsReady input st k)
        (λ _ s. IsReady input st k s)
        (IsLinked input st k)
        handle_color_map_entries
  unfolding handle_color_map_entries
  handle_color_map_entries-Safe =
      let stable = IsReady-IsStable laws st k in
      let local = IsReady-IsLocal st k in
      Safe-bind (Safe-err (λ s x. x.linked) (transport_recv-Safe laws stable.held 5)) λ header.
        Safe-assume λ _. Safe-bind (malloc-Safe laws local _) λ found.
          Safe-if found
            (λ _.
              Safe-bind
                (Safe-err (λ s x. x.linked) (recv_or_free-Safe laws stable.held _ _ (omega arith)))
                λ received. Safe-assume λ _.
                  Safe-bind (Safe-gets (λ s. s.client.callbacks.color_map_update)) λ set.
                    Safe-pre (λ s q. q.0)
                      (Safe-if set (λ _. deliver_colors-Safe _ _ received)
                        (λ _. free-Safe laws local)))
            (λ _. Safe-raise _ (λ s q. q.linked))

  -- Bell
  pub handle_bell-Safe :
      Safe (IsReady input st k) (λ _ s. IsReady input st k s) (IsLinked input st k) handle_bell
  unfolding handle_bell
  handle_bell-Safe = notify_if-Safe (IsReady-IsStable laws st k) _ _

module _ {E : Type 0} ⦃sys : System E⦄ {input output : E → List ℕ} (laws : IsTame input output)
    (no_empty : (w : E) → (sys.malloc 0 w).0 ≡ false) (st : ClientState) (k : ℕ) where
  deliver_text-Safe :
      (cap len : ℕ)
      → len < cap
      → Safe
          (IsReady input st k)
          (λ _ s. IsReady input st k s)
          (IsLinked input st k)
          (deliver_text cap len)
  unfolding deliver_text
  deliver_text-Safe cap len lt =
      let stable = IsReady-IsStable laws st k in
      Safe-bind
        (Safe-err (λ s x. x.linked) (recv_or_free-Safe laws stable.held cap len (omega arith)))
        λ text. Safe-assume λ _.
          Safe-bind (rw (lt→ltb len cap lt) (Safe-pure tt (λ s q. q)))
            λ _. Safe-bind (notify_if-Safe stable _ _) λ _. free-Safe laws (IsReady-IsLocal st k)

  -- The block of a text is larger than the text, unless its size has wrapped to 0.
  cap-gt : (len : ℕ) → len < 2 ^ 32 → (len + 1) % 2 ^ 32 ≢ 0 → len < (len + 1) % 2 ^ 32
  cap-gt len lt ne = omega arith

  -- ServerCutText, where `malloc(0)` returns NULL: the text and its final NUL fit the block.
  pub handle_server_cut_text-Safe :
      Safe
        (IsReady input st k)
        (λ _ s. IsReady input st k s)
        (IsLinked input st k)
        handle_server_cut_text
  unfolding handle_server_cut_text
  handle_server_cut_text-Safe =
      let stable = IsReady-IsStable laws st k in
      Safe-bind (Safe-err (λ s x. x.linked) (transport_recv-Safe laws stable.held 7)) λ header.
        Safe-assume λ _.
          Safe-if (ltb 0 (read_u32 (drop 3 header)))
            (λ _. Safe-bind (malloc-found laws (IsReady-IsLocal st k) no_empty _) λ found.
              Safe-assume λ some_block.
                Safe-if found
                  (λ e. deliver_text-Safe _ (read_u32 (drop 3 header)) (
                    cap-gt (read_u32 (drop 3 header)) (read_u32-lt (drop 3 header)) (some_block e)))
                  (λ _. Safe-raise _ (λ s q. q.linked)))
            (λ _. notify_if-Safe stable _ _)

module _ {E : Type 0} ⦃sys : System E⦄ {input output : E → List ℕ} (laws : IsTame input output)
    (no_empty : (w : E) → (sys.malloc 0 w).0 ≡ false) (st : ClientState) (k : ℕ) where
  -- The handlers behind the message type.
  handle-Safe :
      (msg_type : ℕ)
      → Safe
          (IsReady input st k)
          (λ _ s. IsReady input st k s)
          (IsLinked input st k)
          (handle_message msg_type)
  unfolding handle_message
  handle-Safe msg_type =
      Safe-if (msg_type == 0) (λ _. handle_fb_update-Safe laws st k)
        (λ _.
          Safe-if (msg_type == 1) (λ _. handle_color_map_entries-Safe laws st k)
            (λ _.
              Safe-if (msg_type == 2) (λ _. handle_bell-Safe laws st k)
                (λ _.
                  Safe-if (msg_type == 3) (λ _. handle_server_cut_text-Safe laws no_empty st k)
                    (λ _. Safe-raise _ (λ s q. q.linked)))))

module _ {E : Type 0} ⦃sys : System E⦄ {input output : E → List ℕ} (laws : IsTame input output)
    (no_empty : (w : E) → (sys.malloc 0 w).0 ≡ false) (st : ClientState) (k : ℕ) where
  -- A message: its type takes a byte of the input.
  pub recv_server_message-Safe :
      Safe
        (IsReady input st k)
        (λ _ s. IsReady input st (k - 1) s × (1 ≤ k))
        (IsLinked input st k)
        recv_server_message
  unfolding recv_server_message
  recv_server_message-Safe = Safe-bind (recv-progress laws st k 1) λ received. Safe-assume λ facts.
      Safe-post (λ _ s q. (q, facts.1))
        (Safe-err (λ s x. IsLinked-mono input st (k - 1) k s (omega arith) x)
          (handle-Safe laws no_empty st (k - 1) (byte_at received 0)))

  -- ovnc__recv_server_message, in an environment that meets `Session.IsTame` and where
  -- `malloc(0)` returns NULL, on a client that has a transport and whose framebuffer has its
  -- block, for any bytes from the server: there is no fault. It returns OVNC_OK with at least
  -- one byte of the input gone and the client ready for the next message, or an error code with
  -- the transport still there.
  pub recv_server_message-Ends :
      (s : St E)
      → IsReady input st k s
      → Ends
          (λ _ s'. IsReady input st (k - 1) s' × (1 ≤ k))
          (IsLinked input st k)
          (recv_server_message s)
  recv_server_message-Ends s ready = recv_server_message-Safe.at s ready
