-- ===== src/Encoding/Drawing.antt =====
-- The bytes that ovnc__decode_raw of src/protocol/ovnc_enc_raw.c receives, and the framebuffer.
use libopenvnc.Base.{
  ℕ, ◌+◌, ◌*◌, ◌^◌, ◌<◌, ◌≡◌, sym, ◌∙◌, Option, List, arith, Bool-cases, inl, inr, add_size,
  mul_size, Bool, pos,
}
use libopenvnc.State.{Rect, Framebuffer, Callbacks, framebuffer_update}
use libopenvnc.Pixel.{bytes_per_pixel}
use libopenvnc.Run.{St, System, notify_if}
use libopenvnc.Encoding.Pixels.{RectInRange, row_end-eq, row_bytes-lt, fb_bpp-eq, mul_size-eq}
use libopenvnc.Run.Safe.{called-EndsOr, Safe-bind, Safe-gets, Safe-pre, Safe-assume}
use libopenvnc.Socket.Stream.{IsStream}
use libopenvnc.Session.Gives.{Gives}
use libopenvnc.Encoding.{decode_raw}
use libopenvnc.Encoding.Receiving.{Shows, RowsIn, Rows, raw_rows-Gives}

module _ {E : Type 0} ⦃sys : System E⦄ (input output : E → List ℕ)
    (stream : IsStream input output) where
  -- The callback that ends a raw rectangle leaves the picture and the stream alone.
  abbrev pub IsQuiet : Rect → Type 0
  IsQuiet rect =
      (s : St E)
      → ((sys.notify (framebuffer_update rect) s).1.client.framebuffer.pixels
          ≡ s.client.framebuffer.pixels)
        × (input (sys.notify (framebuffer_update rect) s).1.world ≡ input s.world)

  notify-Gives :
      (rect : Rect) (f : Callbacks → Bool) (Q : Option (List ℕ) → List ℕ → Type 0)
      → IsQuiet rect
      → Gives
          (λ s. Q s.client.framebuffer.pixels (input s.world))
          (λ _ s. Q s.client.framebuffer.pixels (input s.world))
          (notify_if f (framebuffer_update rect))
  unfolding notify_if
  notify-Gives rect f Q quiet = record {
    at = λ s q. elim (Bool-cases (f s.client.callbacks)) [
      | inl set ↦ rw set (
          called-EndsOr _ _ (sys.notify (framebuffer_update rect) s)
            (rw ((quiet s).0, (quiet s).1) q))
      | inr unset ↦ rw unset q
    ];
  }

  place :
      (rect : Rect) (fb : Framebuffer) (n : ℕ)
      → RectInRange rect
      → fb.width < 2 ^ 16
      → n < 5
      → (y : ℕ) → y < rect.height
      → add_size (mul_size (rect.y + y) (fb.width * n)) (mul_size rect.x n)
        ≡ (rect.y + y) * (fb.width * n) + rect.x * n
  place rect fb n h narrow lt y below =
      let wide = mul_size-eq fb.width n (omega arith) (omega arith) in
      (row_end-eq rect n 0 (fb.width * n) y h lt (omega arith)
        (omega (arith, row_bytes-lt fb.width n narrow lt, wide.0)) (omega (arith, h.height))).0

  pub decode_raw-Gives :
      (rect : Rect) (fb : Framebuffer) (n : ℕ) (block rest : List ℕ)
      → RectInRange rect
      → fb.width < 2 ^ 16
      → bytes_per_pixel fb.format ≡ pos n
      → n < 5
      → IsQuiet rect
      → Gives
          (λ s. Shows input output stream block rest s × (fb ≡ s.client.framebuffer))
          (λ _ s.
            (rows : List (List ℕ)) × Rows input output stream
              (rect.width * n)
              (fb.width * n)
              (rect.x * n)
              rect.height
              rect.y
              block
              rest
              rows
              s)
          (decode_raw rect)
  unfolding decode_raw
  decode_raw-Gives rect fb n block rest h narrow same lt quiet =
      let wide : mul_size rect.width n ≡ rect.width * n =
        (mul_size-eq rect.width n (omega (arith, h.width)) (omega arith)).0 in
      let stride : mul_size fb.width n ≡ fb.width * n =
        (mul_size-eq fb.width n (omega arith) (omega arith)).0 in
      let start : rect.y + 0 ≡ rect.y = omega arith in
      Safe-bind (Safe-gets (λ s. s.client.framebuffer)) λ fb'.
        Safe-pre {P = λ s. Shows input output stream block rest s × (fb' ≡ fb)}
          (λ s q. (q.0.0, q.1 ∙ sym q.0.1))
          (Safe-assume λ (e : fb' ≡ fb).
            rw (e, fb_bpp-eq fb n same lt, wide, stride)
              (Safe-bind
                (raw_rows-Gives input output stream rect n (rect.width * n) (fb.width * n)
                  (rect.x * n) (place rect fb n h narrow lt) rect.height 0 block rest (omega arith))
                λ _. rw start (
                  notify-Gives rect _
                    (λ o l.
                      (rows : List (List ℕ)) × RowsIn input output stream (rect.width * n)
                        (fb.width * n) (rect.x * n) rect.height rect.y block rest rows o l)
                    quiet)))
