-- ===== src/Encoding/Drawn.antt =====
-- A raw rectangle as a picture: what ovnc__decode_raw leaves, place by place.
use native.Mathlib.Nat.{mul-le-mul_right}
use libopenvnc.Base.{
  ℕ, ◌+◌, ◌*◌, ◌≤◌, ◌<◌, ◌≡◌, refl, ap, ◌∙◌, sym, ◌⊎◌, some, List, [], ◌++◌, arith, length, get_or,
  All, pos,
}
use libopenvnc.Pixel.{bytes_per_pixel}
use libopenvnc.State.{Rect, Framebuffer, ClientState}
use libopenvnc.Run.{St, System}
use libopenvnc.Run.Safe.{Ends, EndsOr-mono}
use libopenvnc.Session.{IsLinked, IsReady, IsTame}
use libopenvnc.Session.Gives.{Yields-and}
use libopenvnc.Encoding.{decode_raw}
use libopenvnc.Encoding.Pixels.{RectInRange}
use libopenvnc.Encoding.Picture.{paint, length-paint, paint-inside, paint-Beside}
use libopenvnc.Encoding.Receiving.{concat}
use libopenvnc.Encoding.Drawing.{IsQuiet, decode_raw-Gives}
use libopenvnc.Encoding.Safety.{decode_raw-Ends}

-- A raw rectangle is shown: `rows` are the next bytes of the stream, as many rows as the rectangle
-- has, of `width * n` bytes; in the rectangle the picture shows them, beside it nothing changes.
pub record IsDrawn (rect : Rect) (width n : ℕ) (before block coming : List ℕ) (rows : List (List ℕ))
    (after : List ℕ) : Type 0 where
  pub received : before ≡ concat rows ++ coming
  pub height : length rows ≡ rect.height
  pub widths : All (λ row. length row ≡ rect.width * n) rows
  pub size : length after ≡ length block
  pub inside :
      (i j : ℕ)
      → i < rect.height
      → j < rect.width * n
      → get_or after ((rect.y + i) * (width * n) + rect.x * n + j) 0 ≡ get_or (get_or rows i []) j 0
  pub beside :
      (r c : ℕ)
      → c < width * n
      → ((r < rect.y) ⊎ (rect.y + rect.height ≤ r))
        ⊎ ((c < rect.x * n) ⊎ (rect.x * n + rect.width * n ≤ c))
      → get_or after (r * (width * n) + c) 0 ≡ get_or block (r * (width * n) + c) 0

columns_fit : (x w width n : ℕ) → x + w ≤ width → x * n + w * n ≤ width * n
columns_fit x w width n h =
    let e : x * n + w * n ≡ (x + w) * n = grind arith in rw e (mul-le-mul_right n h)

rows_fit : (y h height stride : ℕ) → y + h ≤ height → (y + h) * stride ≤ height * stride
rows_fit y h height stride le = mul-le-mul_right stride le

area : (w h n : ℕ) → h * (w * n) ≡ w * h * n
area w h n = grind arith

module _ (rect : Rect) (fb : Framebuffer) (n : ℕ) (block before : List ℕ)
    (across : rect.x + rect.width ≤ fb.width) (down : rect.y + rect.height ≤ fb.height)
    (room : fb.width * fb.height * n ≤ length block) where
  paint-IsDrawn :
      (rows : List (List ℕ)) (coming : List ℕ)
      → length rows ≡ rect.height
      → All (λ row. length row ≡ rect.width * n) rows
      → before ≡ concat rows ++ coming
      → IsDrawn rect fb.width n before block coming rows
          (paint (fb.width * n) (rect.x * n) rect.y rows block)
  paint-IsDrawn rows coming count widths received =
      let narrow = columns_fit rect.x rect.width fb.width n across in
      let fits : (rect.y + length rows) * (fb.width * n) ≤ length block = rw count (
        omega (
          arith,
          rows_fit rect.y rect.height fb.height (fb.width * n) down,
          area fb.width fb.height n,
        )) in
      record {
        received = received;
        height = count;
        widths = widths;
        size =
            length-paint (fb.width * n) (rect.x * n) (rect.width * n) narrow rows rect.y block
              widths fits;
        inside = λ i j hi hj.
            paint-inside (fb.width * n) (rect.x * n) (rect.width * n) narrow rows rect.y block i j
              widths fits (omega arith) hj;
        beside = λ r c hc h.
            paint-Beside (fb.width * n) (rect.x * n) (rect.width * n) narrow rows rect.y block r c
              widths fits hc (rw count h);
      }

module _ {E : Type 0} ⦃sys : System E⦄ {input output : E → List ℕ}
    (laws : IsTame input output) where
  -- The picture of a state after a raw rectangle.
  abbrev pub Draws : Rect → Framebuffer → ℕ → List ℕ → List ℕ → St E → Type 0
  Draws rect fb n block before s =
      (rows : List (List ℕ)) × (after : List ℕ) × (s.client.framebuffer.pixels ≡ some after)
      × IsDrawn rect fb.width n before block (input s.world) rows after

  -- ovnc__decode_raw, in an environment that meets `Session.IsTame` and with a callback that leaves the
  -- picture and the stream alone, for a rectangle inside of a framebuffer whose block holds `data_size`
  -- bytes: there is no fault. Where it returns OVNC_OK, it has taken from the stream as many rows as
  -- the rectangle has, of width * bytes per pixel bytes; every byte of the picture in the rectangle
  -- is the one at its row and column of what was received, every other byte of a row is as it was, and
  -- the size of the block is the same.
  pub decode_raw-Draws :
      (st : ClientState) (k : ℕ) (rect : Rect) (n : ℕ) (block : List ℕ) (s : St E)
      → RectInRange rect
      → IsQuiet input output laws.stream rect
      → IsReady input st k s
      → bytes_per_pixel s.client.framebuffer.format ≡ pos n
      → s.client.framebuffer.pixels ≡ some block
      → rect.x + rect.width ≤ s.client.framebuffer.width
      → rect.y + rect.height ≤ s.client.framebuffer.height
      → Ends
          (λ _ s'.
            IsReady input st k s' × Draws rect s.client.framebuffer n block (input s.world) s')
          (IsLinked input st k)
          (decode_raw rect s)
  decode_raw-Draws st k rect n block s range quiet ready bpp shown across down =
      let fb = s.client.framebuffer in
      let (m, em, lt, size) = ready.geometry.size in
      let (b, eb, le) = ready.fits.block in
      let same : m ≡ n = cc (em, bpp) in
      let whole : b ≡ block = cc (eb, shown) in
      let room : fb.width * fb.height * n ≤ length block =
        omega (arith, ap length whole, ap (λ (t : ℕ). fb.width * fb.height * t) same, size, le) in
      Yields-and _ _ _ (decode_raw rect s) (decode_raw-Ends laws st k rect range s ready) (
        EndsOr-mono (Unit {0}) (decode_raw rect s)
          (λ _ s' q. (
            q.0,
            paint (fb.width * n) (rect.x * n) rect.y q.0 block,
            q.1.4.0,
            paint-IsDrawn rect fb n block (input s.world) across down room q.0 (input s'.world)
                q.1.0 q.1.1 (q.1.3 ∙ ap (λ (l : List ℕ). concat q.0 ++ l) (sym q.1.4.1)),
          ))
          (λ s' x. x)
          ((decode_raw-Gives input output laws.stream rect fb n block (input s.world) range
              ready.geometry.width bpp (omega arith) quiet).at
            s ((shown, refl), refl)))
