-- ===== src/Encoding/Pixels.antt =====
-- The arithmetic of framebuffer sizes and offsets does not wrap, and a write of received bytes
-- stays in the block.
use libopenvnc.Base.{
  add_size, ℕ, ◌+◌, ◌*◌, ◌-◌, ◌^◌, ◌≤◌, ◌<◌, ◌≡◌, refl, Option, none, some, List, arith, length,
  splice, length-splice, length-replicate, pos, mul_size, le→ltb_false, ap,
}
use libopenvnc.Transport.{transport_recv_to}
use libopenvnc.Pixel.{bytes_per_pixel}
use libopenvnc.State.{Rect, Framebuffer, ClientState}
use libopenvnc.Run.{St, System}
use libopenvnc.Run.Safe.{Ends-mono, Safe}
use libopenvnc.Session.{Fits, HasGeometry, IsLinked, IsReady, IsTame}
use libopenvnc.Session.Reads.{IsLinked-mono, Keeps, recv_to-Ends}
use libopenvnc.Encoding.{
  fb_bpp, zeroed, resized, set_framebuffer, store_pixels, recv_into, recv_pixels,
}

-- The range of the C fields of `ovnc_rect_t`.
pub record RectInRange (r : Rect) : Type 0 where
  pub x : r.x < 2 ^ 16
  pub y : r.y < 2 ^ 16
  pub width : r.width < 2 ^ 16
  pub height : r.height < 2 ^ 16

pub mul-lt : (a b m n : ℕ) → a < m → b < n → a * b < m * n
mul-lt a b m n h k = grind arith

-- A product of a 17-bit number and of one below 2 ^ 20 does not wrap.
pub mul_size-eq : (a b : ℕ) → a < 2 ^ 17 → b < 2 ^ 20 → (mul_size a b ≡ a * b) × (a * b < 2 ^ 37)
mul_size-eq a b ha hb = omega (arith, mul-lt a b (2 ^ 17) (2 ^ 20) ha hb)

pub row_bytes-lt : (w bpp : ℕ) → w < 2 ^ 16 → bpp < 5 → mul_size w bpp < 2 ^ 20
row_bytes-lt w bpp hw hb = omega (arith, mul-lt w bpp (2 ^ 16) 5 hw hb)

-- The offset of a row and its end, as the code computes them, are the numbers themselves.
pub row_end-eq :
    (rect : Rect) (bpp row_bytes stride y : ℕ)
    → RectInRange rect
    → bpp < 5
    → row_bytes < 2 ^ 20
    → stride < 2 ^ 20
    → y < 2 ^ 16
    → let offset = add_size (mul_size (rect.y + y) stride) (mul_size rect.x bpp) in
      (offset ≡ (rect.y + y) * stride + rect.x * bpp)
      × (add_size offset row_bytes ≡ offset + row_bytes)
row_end-eq rect bpp row_bytes stride y h hb hr hs hy =
    let down = mul_size-eq (rect.y + y) stride (omega arith) hs in
    let across = mul_size-eq rect.x bpp (omega arith) (omega arith) in omega (arith, down, across)

pub fb_bpp-eq :
    (fb : Framebuffer) (n : ℕ) → bytes_per_pixel fb.format ≡ pos n → n < 5 → fb_bpp fb ≡ n
unfolding fb_bpp
fb_bpp-eq fb n e lt = rw e (omega arith)

-- `width * height * bpp` does not wrap.
pub area-eq : (w h n : ℕ) → w < 2 ^ 16 → h < 2 ^ 16 → n < 5 → mul_size (mul_size w h) n ≡ w * h * n
area-eq w h n hw hh hn =
    let small : w * h < 2 ^ 32 = mul-lt w h (2 ^ 16) (2 ^ 16) hw hh in
    let inner : mul_size w h ≡ w * h = omega arith in
    rw inner (omega (arith, mul-lt (w * h) n (2 ^ 32) 5 small hn))

pub length-zeroed : (n : ℕ) → length (zeroed n) ≡ n
unfolding zeroed
length-zeroed n = length-replicate n 0

-- A framebuffer that is given a new size keeps its format, and the size in bytes fits.
pub resized-HasGeometry :
    (fb : Framebuffer) (w h : ℕ)
    → HasGeometry fb
    → w < 2 ^ 16
    → h < 2 ^ 16
    → HasGeometry (resized w h (mul_size (mul_size w h) (fb_bpp fb)) fb)
resized-HasGeometry fb w h g hw hh =
    let (n, same, lt, _) = g.size in
    record {
      width = hw;
      height = hh;
      size = (n, same, lt, rw (fb_bpp-eq fb n same lt) (area-eq w h n hw hh lt));
    }

pub with_block-HasGeometry :
    (fb : Framebuffer) (b : Option (List ℕ))
    → HasGeometry fb
    → HasGeometry (record fb { pixels = b })
with_block-HasGeometry fb b g = record { width = g.width; height = g.height; size = g.size }

module _ {E : Type 0} ⦃sys : System E⦄ (input output : E → List ℕ)
    (laws : IsTame input output) where
  -- The framebuffer's block takes `n` bytes at `offset`.
  abbrev Takes : ℕ → ℕ → Framebuffer → Type 0
  Takes offset n fb = HasGeometry fb × Fits fb × (offset + n ≤ fb.data_size)

  store_pixels-Takes :
      (offset n : ℕ)
      → Keeps (λ c. Takes offset n c.framebuffer) n (λ bs. set_framebuffer (store_pixels offset bs))
  store_pixels-Takes offset n bs c le (geometry, fits, room) = (
    record { width = geometry.width; height = geometry.height; size = geometry.size },
    record {
      block = (
        splice fits.block.0 offset bs,
        rw fits.block.1,
        omega (
          arith,
          fits.block.2,
          length-splice fits.block.0 offset bs (omega (arith, fits.block.2)),
        ),
      );
    },
    room,
  )

  recv_into-eq :
      (o : Option (List ℕ)) (b : List ℕ) (offset n : ℕ) (s : St E)
      → o ≡ some b
      → offset + n ≤ length b
      → recv_into o offset n s
        ≡ transport_recv_to (λ bs. set_framebuffer (store_pixels offset bs)) n s
  recv_into-eq none b offset n s e le = cc
  recv_into-eq (some block) b offset n s e le =
      let same : block ≡ b = cc in
      rw (le→ltb_false (length block) (offset + n) (omega (arith, ap length same)))

  -- A read into the framebuffer, of bytes that the block has room for.
  pub recv_pixels-Safe :
      (st : ClientState) (k offset n : ℕ)
      → Safe
          (λ s. IsReady input st k s × (offset + n ≤ s.client.framebuffer.data_size))
          (λ _ s. IsReady input st k s)
          (IsLinked input st k)
          (recv_pixels offset n)
  unfolding recv_pixels
  recv_pixels-Safe st k offset n = record {
    at = λ s h.
        let fits = h.0.fits.block in
        rw
          (recv_into-eq s.client.framebuffer.pixels fits.0 offset n s fits.1
            (omega (arith, fits.2, h.1)))
          (Ends-mono (transport_recv_to (λ bs. set_framebuffer (store_pixels offset bs)) n s)
            (λ bs s' q. record {
              linked = IsLinked-mono input st (k - n) k s' (omega arith) q.0;
              geometry = q.1.0;
              fits = q.1.1;
            })
            (λ s' x. x.0)
            (recv_to-Ends input output laws (λ c. Takes offset n c.framebuffer)
              (λ bs. set_framebuffer (store_pixels offset bs)) st k n s
              (record { transport = λ bs c. refl; state = λ bs c. refl })
              (store_pixels-Takes offset n) h.0.linked (h.0.geometry, h.0.fits, h.1)));
  }
