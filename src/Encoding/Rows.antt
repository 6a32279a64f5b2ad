-- ===== src/Encoding/Rows.antt =====
-- The rows of a raw rectangle stay in bounds: src/protocol/ovnc_enc_raw.c.
use libopenvnc.Base.{
  ℕ, zero, suc, ◌+◌, ◌^◌, ◌≤◌, ◌<◌, ◌≡◌, List, arith, ltb, ltb→le, add_size, mul_size,
}
use libopenvnc.State.{Rect, Framebuffer, ClientState}
use libopenvnc.Run.{St, System}
use libopenvnc.Run.Safe.{
  Safe, Safe-pre, Safe-bind, Safe-gets, Safe-if, Safe-raise, Safe-pure, Safe-assume,
}
use libopenvnc.Session.{IsLinked, IsReady, IsTame}
use libopenvnc.Session.Local.{IsReady-IsStable}
use libopenvnc.Session.Primitives.{notify_if-Safe}
use libopenvnc.Encoding.{raw_row, raw_rows, decode_raw, fb_bpp}
use libopenvnc.Encoding.Pixels.{row_bytes-lt, row_end-eq, RectInRange, fb_bpp-eq, recv_pixels-Safe}

module _ {E : Type 0} ⦃sys : System E⦄ {input output : E → List ℕ}
    (laws : IsTame input output) where
  raw_row-Safe :
      (st : ClientState) (k : ℕ) (rect : Rect) (bpp row_bytes stride y : ℕ)
      → RectInRange rect
      → bpp < 5
      → row_bytes < 2 ^ 20
      → stride < 2 ^ 20
      → y < 2 ^ 16
      → Safe
          (IsReady input st k)
          (λ _ s. IsReady input st k s)
          (IsLinked input st k)
          (raw_row rect bpp row_bytes stride y)
  unfolding raw_row
  raw_row-Safe st k rect bpp row_bytes stride y h hb hr hs hy =
      let offset = add_size (mul_size (rect.y + y) stride) (mul_size rect.x bpp) in
      Safe-bind (Safe-gets (λ s. s.client.framebuffer.data_size)) λ size.
        Safe-if (ltb size (add_size offset row_bytes)) (λ over. Safe-raise _ (λ s q. q.0.linked))
          (λ fits.
            Safe-bind
              (Safe-pre
                (λ s q. (
                  q.0,
                  omega (
                    arith,
                    q.1,
                    ltb→le size (add_size offset row_bytes) fits,
                    row_end-eq rect bpp row_bytes stride y h hb hr hs hy,
                  ),
                ))
                (recv_pixels-Safe input output laws st k offset row_bytes))
              (λ _. Safe-pure tt (λ s q. q)))

  raw_rows-Safe :
      (st : ClientState) (k left : ℕ) (rect : Rect) (bpp row_bytes stride y : ℕ)
      → RectInRange rect
      → bpp < 5
      → row_bytes < 2 ^ 20
      → stride < 2 ^ 20
      → y + left ≤ 2 ^ 16
      → Safe
          (IsReady input st k)
          (λ _ s. IsReady input st k s)
          (IsLinked input st k)
          (raw_rows left rect bpp row_bytes stride y)
  unfolding raw_rows
  raw_rows-Safe st k zero rect bpp row_bytes stride y h hb hr hs hy = Safe-pure tt (λ s q. q)
  raw_rows-Safe st k (suc left) rect bpp row_bytes stride y h hb hr hs hy =
      Safe-bind (raw_row-Safe st k rect bpp row_bytes stride y h hb hr hs (omega arith))
        λ _. raw_rows-Safe st k left rect bpp row_bytes stride (y + 1) h hb hr hs (omega arith)

  -- What a ready client knows of the framebuffer that it has read.
  pub frame_facts :
      (st : ClientState) (k : ℕ) (fb : Framebuffer) (s : St E)
      → IsReady input st k s × (fb ≡ s.client.framebuffer)
      → IsReady input st k s × ((fb_bpp fb < 5) × (fb.width < 2 ^ 16))
  frame_facts st k fb s (h, e) = (
    h,
    rw e (
      (let (n, same, lt, _) = h.geometry.size in rw (fb_bpp-eq s.client.framebuffer n same lt) lt),
      h.geometry.width,
    ),
  )

  -- A raw rectangle, whatever its place and size: no byte is written outside the framebuffer's block,
  -- and the call ends with OVNC_OK or an error code.
  pub decode_raw-Safe :
      (st : ClientState) (k : ℕ) (rect : Rect)
      → RectInRange rect
      → Safe
          (IsReady input st k)
          (λ _ s. IsReady input st k s)
          (IsLinked input st k)
          (decode_raw rect)
  unfolding decode_raw
  decode_raw-Safe st k rect h = Safe-bind (Safe-gets (λ s. s.client.framebuffer)) λ fb.
      Safe-pre (frame_facts st k fb) (
        Safe-assume λ facts.
          Safe-bind
            (raw_rows-Safe st k rect.height rect (fb_bpp fb) (mul_size rect.width (fb_bpp fb))
              (mul_size fb.width (fb_bpp fb)) 0 h facts.0
              (row_bytes-lt rect.width (fb_bpp fb) h.width facts.0)
              (row_bytes-lt fb.width (fb_bpp fb) facts.1 facts.0) (omega arith))
            (λ _. notify_if-Safe (IsReady-IsStable laws st k) _ _))
