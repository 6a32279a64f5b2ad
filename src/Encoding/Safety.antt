-- ===== src/Encoding/Safety.antt =====
-- The decoders of src/protocol/ovnc_encoding.c and src/protocol/ovnc_enc_raw.c stay in bounds.
use libopenvnc.Base.{ℕ, ◌/◌, ◌==◌, ◌≡◌, refl, List, arith, ℤ, is_some, add_size, mul_size, ◌==ℤ◌}
use libopenvnc.State.{Client, Rect, Framebuffer, ClientState}
use libopenvnc.Run.{St, System}
use libopenvnc.Run.Safe.{
  Ends, Safe, Safe-pre, Safe-modify, Safe-try, Safe-bind, Safe-gets, Safe-if, Safe-raise, Safe-pure,
  Safe-assume,
}
use libopenvnc.Session.{IsLinked, IsReady, IsTame}
use libopenvnc.Session.Local.{IsReady-IsStable, IsReady-IsLocal, IsLocal-and}
use libopenvnc.Session.Primitives.{
  notify_if-Safe, malloc-Safe, free-Safe, free_if-Safe, recv_block-Safe,
  call_alloc_framebuffer-Safe,
}
use libopenvnc.Encoding.{
  encoding_raw, encoding_desktop_size, encoding_cursor, decode_raw, decode_desktop_size,
  decode_cursor, decode_rect, fb_bpp, zeroed, resize_by_callback, resize_by_calloc,
}
use libopenvnc.Encoding.Pixels.{
  RectInRange, length-zeroed, resized-HasGeometry, with_block-HasGeometry,
}
use libopenvnc.Encoding.Rows.{decode_raw-Safe}

-- The `total` of decode_cursor.
abbrev cursor_size : Rect → Framebuffer → ℕ
cursor_size rect fb =
    add_size (mul_size (mul_size rect.width rect.height) (fb_bpp fb))
      (mul_size (add_size rect.width 7 / 8) rect.height)

module _ {E : Type 0} ⦃sys : System E⦄ {input output : E → List ℕ}
    (laws : IsTame input output) where
  resize_by_callback-Safe :
      (st : ClientState) (k : ℕ) (rect : Rect) (c : Client)
      → RectInRange rect
      → Safe
          (λ s. IsReady input st k s × (c ≡ s.client))
          (λ _ s. IsReady input st k s)
          (IsLinked input st k)
          (resize_by_callback rect.width rect.height
            (mul_size (mul_size rect.width rect.height) (fb_bpp c.framebuffer)))
  unfolding resize_by_callback
  resize_by_callback-Safe st k rect c h =
      Safe-bind
        (Safe-modify _ (λ s q. rw q.1 (record {
          linked = record {
            transport = q.0.linked.transport;
            state = q.0.linked.state;
            pending = q.0.linked.pending;
          };
          geometry =
              resized-HasGeometry s.client.framebuffer rect.width rect.height q.0.geometry h.width
                h.height;
        })))
        (λ _. call_alloc_framebuffer-Safe laws st k)

  resize_by_calloc-Safe :
      (st : ClientState) (k : ℕ) (rect : Rect) (c : Client)
      → RectInRange rect
      → Safe
          (λ s. IsReady input st k s × (c ≡ s.client))
          (λ _ s. IsReady input st k s)
          (IsLinked input st k)
          (resize_by_calloc rect.width rect.height
            (mul_size (mul_size rect.width rect.height) (fb_bpp c.framebuffer)))
  unfolding resize_by_calloc
  resize_by_calloc-Safe st k rect c h =
      let local = IsLocal-and (λ d. c ≡ d) (IsReady-IsLocal st k) in
      Safe-bind (malloc-Safe laws local _) λ found.
        Safe-if found
          (λ _. Safe-bind (Safe-gets (λ s. s.client.framebuffer.pixels)) λ old.
            Safe-bind (Safe-pre (λ s q. q.0) (free_if-Safe laws local (is_some old))) λ _.
              Safe-modify _ (λ s q. rw q.1 (record {
                linked = record {
                  transport = q.0.linked.transport;
                  state = q.0.linked.state;
                  pending = q.0.linked.pending;
                };
                geometry = with_block-HasGeometry _ _ (
                    resized-HasGeometry s.client.framebuffer rect.width rect.height q.0.geometry
                      h.width h.height);
                fits = record { block = (zeroed _, refl, rw length-zeroed (omega arith)) };
              })))
          (λ _. Safe-raise _ (λ s q. q.0.linked))

  -- The DesktopSize pseudo-encoding: the framebuffer has the new size and a block for it, or the call
  -- fails.
  pub decode_desktop_size-Safe :
      (st : ClientState) (k : ℕ) (rect : Rect)
      → RectInRange rect
      → Safe
          (IsReady input st k)
          (λ _ s. IsReady input st k s)
          (IsLinked input st k)
          (decode_desktop_size rect)
  unfolding decode_desktop_size
  decode_desktop_size-Safe st k rect h = Safe-bind (Safe-gets (λ s. s.client)) λ c.
      Safe-bind
        (Safe-if c.callbacks.alloc_framebuffer (λ _. resize_by_callback-Safe st k rect c h)
          (λ _. resize_by_calloc-Safe st k rect c h))
        (λ _. notify_if-Safe (IsReady-IsStable laws st k) _ _)

  -- A buffer on the heap is filled, handed to the application and freed, also where the read fails.
  pub decode_cursor-Safe :
      (st : ClientState) (k : ℕ) (rect : Rect)
      → Safe
          (IsReady input st k)
          (λ _ s. IsReady input st k s)
          (IsLinked input st k)
          (decode_cursor rect)
  unfolding decode_cursor
  decode_cursor-Safe st k rect =
      let stable = IsReady-IsStable laws st k in
      Safe-bind (Safe-gets (λ s. s.client.framebuffer)) λ fb.
        Safe-pre (λ s q. q.0)
          (Safe-if (cursor_size rect fb == 0) (λ _. notify_if-Safe stable _ _)
            (λ _. Safe-bind (malloc-Safe laws (IsReady-IsLocal st k) _) λ found.
              Safe-if found
                (λ _.
                  Safe-try _
                    (Safe-bind (recv_block-Safe laws stable.held _ _ (omega arith))
                      λ buf. Safe-assume λ _. notify_if-Safe stable _ _)
                    (Safe-bind (free-Safe laws (IsReady-IsLocal st k)) λ _. Safe-pure tt (λ s q. q))
                    (λ e.
                      Safe-bind (free-Safe laws (IsReady-IsLocal st k))
                        λ _. Safe-raise e (λ s q. q.linked)))
                (λ _. Safe-raise _ (λ s q. q.linked))))

  -- Every rectangle of an update, of any encoding, is decoded without a fault.
  pub decode_rect-Safe :
      (st : ClientState) (k : ℕ) (rect : Rect) (encoding_type : ℤ)
      → RectInRange rect
      → Safe
          (IsReady input st k)
          (λ _ s. IsReady input st k s)
          (IsLinked input st k)
          (decode_rect rect encoding_type)
  unfolding decode_rect
  decode_rect-Safe st k rect encoding_type h =
      Safe-if (encoding_type ==ℤ encoding_raw) (λ _. decode_raw-Safe laws st k rect h)
        (λ _.
          Safe-if (encoding_type ==ℤ encoding_desktop_size)
            (λ _. decode_desktop_size-Safe st k rect h)
            (λ _.
              Safe-if (encoding_type ==ℤ encoding_cursor) (λ _. decode_cursor-Safe st k rect)
                (λ _. Safe-raise _ (λ s q. q.linked))))

module _ {E : Type 0} ⦃sys : System E⦄ {input output : E → List ℕ} (laws : IsTame input output)
    (st : ClientState) (k : ℕ) (rect : Rect) (range : RectInRange rect) (s : St E)
    (ready : IsReady input st k s) where
  -- ovnc__decode_raw, in an environment that meets `Session.IsTame`, on a framebuffer whose
  -- block holds `data_size` bytes, for a rectangle of any place and size: no byte is written
  -- outside the block and no NULL is read. The call ends with OVNC_OK and such a framebuffer
  -- again, or with an error code and the transport still there.
  pub decode_raw-Ends :
      Ends (λ _ s'. IsReady input st k s') (IsLinked input st k) (decode_raw rect s)
  decode_raw-Ends = (decode_raw-Safe laws st k rect range).at s ready

  -- ovnc__decode_rect, in an environment that meets `Session.IsTame`, on a framebuffer whose
  -- block holds `data_size` bytes, for a rectangle of any place and size and every encoding
  -- number: there is no fault. Where it returns OVNC_OK, also after a change of the desktop
  -- size, `data_size` is width * height * bytes per pixel, unwrapped, and the block holds as
  -- many bytes; where it returns an error code, the transport is still there.
  pub decode_rect-Ends :
      (encoding_type : ℤ)
      → Ends
          (λ _ s'. IsReady input st k s')
          (IsLinked input st k)
          (decode_rect rect encoding_type s)
  decode_rect-Ends encoding_type = (decode_rect-Safe laws st k rect encoding_type range).at s ready
