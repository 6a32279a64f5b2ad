-- ===== src/Client/Heap/Decoding.antt =====
-- The heap blocks through src/protocol/ovnc_encoding.c and src/protocol/ovnc_enc_raw.c.
use libopenvnc.Base.{
  ℕ, zero, suc, ◌+◌, ◌/◌, ◌≡◌, refl, ap, ◌∙◌, sym, Bool, true, false, not, ◌&&◌, Option, none, some,
  List, ltb, ◌==◌, ◌==ℤ◌, ℤ, length, arith, count, is_some, add_size, mul_size, splice,
}
use libopenvnc.State.{Client, Rect}
use libopenvnc.Run.{held, St, System, malloc, free_if}
use libopenvnc.Run.Safe.{
  EndsOr, SafeOr, Safe-bind, Safe-if, Safe-pure, Safe-raise, Safe-gets, Safe-pre, Safe-modify,
  Safe-try,
}
use libopenvnc.Encoding.{
  encoding_raw, encoding_desktop_size, encoding_cursor, fb_bpp, set_framebuffer, store_pixels,
  recv_into, recv_pixels, raw_row, raw_rows, decode_raw, resize_by_callback, resize_by_calloc,
  decode_desktop_size, decode_cursor, decode_rect,
}
use libopenvnc.Client.Lifecycle.{is_connected_state}
use libopenvnc.Client.Lifecycle.Destroying.{blocks}
use libopenvnc.Client.Heap.{
  Owns, Keeps, IsFrugal, recv_to-Keeps, recv_block-Keeps, malloc-Moves, free-Moves, notify_if-Keeps,
  call_alloc-Keeps,
}

-- The blocks beside the one of the framebuffer.
abbrev pub others : Client → ℕ
others c =
    2
    + count (is_some c.pixel_format)
    + count (is_some c.encodings)
    + count (is_connected_state c.state && is_some c.transport)

abbrev picture : Client → ℕ
picture c = count (not c.callbacks.alloc_framebuffer && is_some c.framebuffer.pixels)

blocks-split : (c : Client) → blocks c ≡ others c + picture c
blocks-split c = omega arith

is_some-stored :
    (f : List ℕ → List ℕ) (o : Option (List ℕ))
    → is_some (elim o as (λ _. Option (List ℕ)) [ none ↦ none | some b ↦ some (f b) ]) ≡ is_some o
is_some-stored f none = refl
is_some-stored f (some b) = refl

-- What arrives in the framebuffer's block does not move it.
stored-blocks :
    (offset : ℕ) (bs : List ℕ) (c : Client)
    → blocks (set_framebuffer (store_pixels offset bs) c) ≡ blocks c
stored-blocks offset bs c =
    ap
      (λ (b : Bool).
        2
        + count (is_some c.pixel_format)
        + count (is_some c.encodings)
        + count (not c.callbacks.alloc_framebuffer && b)
        + count (is_connected_state c.state && is_some c.transport))
      (is_some-stored (λ b. splice b offset bs) c.framebuffer.pixels)

picture-own :
    (c : Client) (old : Option (List ℕ))
    → c.callbacks.alloc_framebuffer ≡ false
    → old ≡ c.framebuffer.pixels
    → picture c ≡ count (is_some old)
picture-own c old own same =
    ap (λ (b : Bool). count (not b && is_some c.framebuffer.pixels)) own
    ∙ ap (λ (o : Option (List ℕ)). count (is_some o)) (sym same)

module _ {E : Type 0} ⦃sys : System E⦄ where
  recv_into-Keeps :
      (n : ℕ) (o : Option (List ℕ)) (offset len : ℕ) → Keeps E n (recv_into o offset len)
  recv_into-Keeps n none offset len =
      Safe-if (len == 0) (λ _. recv_to-Keeps n (λ _ c. c) len (λ bs c. refl))
        (λ _. record { at = λ s h. tt })
  recv_into-Keeps n (some block) offset len =
      Safe-if (ltb (length block) (offset + len)) (λ _. record { at = λ s h. tt })
        (λ _.
          recv_to-Keeps n (λ bs. set_framebuffer (store_pixels offset bs)) len
            (stored-blocks offset))

  recv_pixels-Keeps : (n offset len : ℕ) → Keeps E n (recv_pixels offset len)
  unfolding recv_pixels
  recv_pixels-Keeps n offset len = record {
    at = λ s h. (recv_into-Keeps n s.client.framebuffer.pixels offset len).at s h;
  }

  raw_row-Keeps :
      (n : ℕ) (rect : Rect) (bpp row_bytes stride y : ℕ)
      → Keeps E n (raw_row rect bpp row_bytes stride y)
  unfolding raw_row
  raw_row-Keeps n rect bpp row_bytes stride y =
      Safe-bind (Safe-gets (λ s. s.client.framebuffer.data_size)) λ size.
        Safe-pre (λ s q. q.0)
          (Safe-if
            (ltb size
              (add_size (add_size (mul_size (rect.y + y) stride) (mul_size rect.x bpp)) row_bytes))
            (λ _. Safe-raise _ (λ s h. h))
            (λ _. Safe-bind (recv_pixels-Keeps n _ _) λ _. Safe-pure tt (λ s h. h)))

  raw_rows-Keeps :
      (n left : ℕ) (rect : Rect) (bpp row_bytes stride y : ℕ)
      → Keeps E n (raw_rows left rect bpp row_bytes stride y)
  unfolding raw_rows
  raw_rows-Keeps n zero rect bpp row_bytes stride y = Safe-pure tt (λ s h. h)
  raw_rows-Keeps n (suc left) rect bpp row_bytes stride y =
      Safe-bind (raw_row-Keeps n rect bpp row_bytes stride y)
        λ _. raw_rows-Keeps n left rect bpp row_bytes stride (y + 1)

  module _ (frugal : IsFrugal E) where
    decode_raw-Keeps : (n : ℕ) (rect : Rect) → Keeps E n (decode_raw rect)
    unfolding decode_raw
    decode_raw-Keeps n rect = Safe-bind (Safe-gets (λ s. s.client.framebuffer)) λ fb.
        Safe-pre (λ s q. q.0)
          (Safe-bind (raw_rows-Keeps n _ rect _ _ _ _) λ _. notify_if-Keeps frugal n _ _)

    -- The client's framebuffer is the application's, or not.
    abbrev pub Given : Bool → ℕ → St E → Type 0
    Given b n s = Owns n s × (s.client.callbacks.alloc_framebuffer ≡ b)

    held-Given :
        (n : ℕ) (s : St E) (r : Bool × E)
        → Given false n s
        → EndsOr (Unit {0}) (λ b. Given false (n + count b)) (Owns n) (held r s)
    held-Given n s (true, w) h = (omega (arith, h.0), h.1)
    held-Given n s (false, w) h = (omega (arith, h.0), h.1)

    malloc-Given :
        (n size : ℕ)
        → SafeOr {E = E}
            (Unit {0})
            (Given false n)
            (λ b. Given false (n + count b))
            (Owns n)
            (malloc size)
    unfolding malloc
    malloc-Given n size = record { at = λ s h. held-Given n s (sys.malloc size s.world) h }

    resize_by_callback-Keeps :
        (n width height size : ℕ)
        → SafeOr {E = E}
            (Unit {0})
            (Given true n)
            (λ _. Owns n)
            (Owns n)
            (resize_by_callback width height size)
    unfolding resize_by_callback
    resize_by_callback-Keeps n width height size =
        Safe-bind (Safe-modify {Q = λ _. Given true n} _ (λ s h. h)) λ _. call_alloc-Keeps frugal n

    -- The framebuffer's block is freed, and the field still to be written.
    abbrev pub Bare : ℕ → St E → Type 0
    Bare n s = (s.live ≡ others s.client + 1 + n) × (s.client.callbacks.alloc_framebuffer ≡ false)

    pub free_old-Moves :
        (n : ℕ) (old : Option (List ℕ)) {X : St E → Type 0}
        → SafeOr {E = E}
            (Unit {0})
            (λ s. Given false (n + 1) s × (old ≡ s.client.framebuffer.pixels))
            (λ _. Bare n)
            X
            (free_if (is_some old))
    free_old-Moves n none = record {
      at = λ s h. (omega (arith, h.0.0, picture-own s.client none h.0.1 h.1), h.0.1);
    }
    free_old-Moves n (some block) = record {
      at = λ s h. (omega (arith, h.0.0, picture-own s.client (some block) h.0.1 h.1), h.0.1);
    }

    resize_by_calloc-Keeps :
        (n width height size : ℕ)
        → SafeOr {E = E}
            (Unit {0})
            (Given false n)
            (λ _. Owns n)
            (Owns n)
            (resize_by_calloc width height size)
    unfolding resize_by_calloc
    resize_by_calloc-Keeps n width height size =
        Safe-bind {Q = λ b. Given false (n + count b)} (malloc-Given n size) λ found.
          Safe-if found
            (λ e.
              Safe-pre {P = Given false (n + 1)}
                (λ s h. (h.0 ∙ ap (λ (b : Bool). blocks s.client + (n + count b)) e, h.1))
                (Safe-bind (Safe-gets (λ s. s.client.framebuffer.pixels)) λ old.
                  Safe-bind (free_old-Moves n old) λ _.
                    Safe-modify _
                      (λ s q. omega (arith, q.0, ap (λ (b : Bool). count (not b && true)) q.1))))
            (λ e. rw e (Safe-raise _ (λ s h. omega (arith, h.0))))

    decode_desktop_size-Keeps : (n : ℕ) (rect : Rect) → Keeps E n (decode_desktop_size rect)
    unfolding decode_desktop_size
    decode_desktop_size-Keeps n rect = Safe-bind (Safe-gets (λ s. s.client)) λ c.
        Safe-bind {Q = λ _. Owns n}
          (Safe-if c.callbacks.alloc_framebuffer
            (λ e.
              Safe-pre {P = Given true n}
                (λ s q. (q.0, ap (λ (d : Client). d.callbacks.alloc_framebuffer) (sym q.1) ∙ e))
                (resize_by_callback-Keeps n rect.width rect.height _))
            (λ e.
              Safe-pre {P = Given false n}
                (λ s q. (q.0, ap (λ (d : Client). d.callbacks.alloc_framebuffer) (sym q.1) ∙ e))
                (resize_by_calloc-Keeps n rect.width rect.height _)))
          λ _. notify_if-Keeps frugal n _ _

    decode_cursor-Keeps : (n : ℕ) (rect : Rect) → Keeps E n (decode_cursor rect)
    unfolding decode_cursor
    decode_cursor-Keeps n rect = Safe-bind (Safe-gets (λ s. s.client.framebuffer)) λ fb.
        let total =
          add_size (mul_size (mul_size rect.width rect.height) (fb_bpp fb))
            (mul_size (add_size rect.width 7 / 8) rect.height) in
        Safe-pre (λ s q. q.0)
          (Safe-if (total == 0) (λ _. notify_if-Keeps frugal n _ _)
            (λ _. Safe-bind (malloc-Moves n n total) λ found.
              Safe-if found
                (λ e. rw e (
                  Safe-try _
                    (Safe-bind (recv_block-Keeps (n + 1) total total)
                      λ buf. notify_if-Keeps frugal (n + 1) _ _)
                    (Safe-bind (free-Moves n n) λ _. Safe-pure tt (λ s h. h))
                    (λ err. Safe-bind (free-Moves n n) λ _. Safe-raise err (λ s h. h))))
                (λ e. rw e (Safe-raise _ (λ s h. omega (arith, h))))))

    pub decode_rect-Keeps :
        (n : ℕ) (rect : Rect) (encoding : ℤ) → Keeps E n (decode_rect rect encoding)
    unfolding decode_rect
    decode_rect-Keeps n rect encoding =
        Safe-if (encoding ==ℤ encoding_raw) (λ _. decode_raw-Keeps n rect)
          (λ _.
            Safe-if (encoding ==ℤ encoding_desktop_size) (λ _. decode_desktop_size-Keeps n rect)
              (λ _.
                Safe-if (encoding ==ℤ encoding_cursor) (λ _. decode_cursor-Keeps n rect)
                  (λ _. Safe-raise _ (λ s h. h))))
