-- ===== src/Encoding/Spilling.antt =====
-- A raw rectangle that reaches over the right edge of the framebuffer: ovnc__decode_raw of
-- src/protocol/ovnc_enc_raw.c only compares the end of a row with the end of the block.
use mathlib.Core.Path.{subst}
use libopenvnc.Base.{
  ℕ, ◌+◌, ◌-◌, ◌*◌, ◌≤◌, ◌<◌, ◌≡◌, refl, ap, sym, ◌∙◌, some, List, [], ◌∷◌, ◌++◌, append-nil, All,
  arith, length, get_or, splice, pos, get_or-splice-inside,
}
use libopenvnc.Pixel.{bytes_per_pixel}
use libopenvnc.State.{Rect, Framebuffer, ClientState}
use libopenvnc.Run.{St, System}
use libopenvnc.Run.Safe.{Ends, EndsOr-mono}
use libopenvnc.Session.{IsLinked, IsReady, IsTame}
use libopenvnc.Session.Gives.{Yields-and}
use libopenvnc.Encoding.{decode_raw}
use libopenvnc.Encoding.Pixels.{RectInRange}
use libopenvnc.Encoding.Picture.{paint}
use libopenvnc.Encoding.Receiving.{concat}
use libopenvnc.Encoding.Drawing.{IsQuiet, decode_raw-Gives}
use libopenvnc.Encoding.Safety.{decode_raw-Ends}

-- One row was received, and its bytes past the right edge are the first ones of the row below.
pub record IsSpilt (rect : Rect) (width n : ℕ) (before coming row after : List ℕ) : Type 0 where
  pub received : before ≡ row ++ coming
  pub size : length row ≡ rect.width * n
  pub below :
      (j : ℕ)
      → j < (rect.x + rect.width - width) * n
      → get_or after ((rect.y + 1) * (width * n) + j) 0 ≡ get_or row ((width - rect.x) * n + j) 0

next_row : (y stride : ℕ) → (y + 1) * stride ≡ y * stride + stride
next_row y stride = grind arith

-- A place past the edge, counted from the start of the rectangle's row.
past_edge :
    (x y width n j : ℕ)
    → x ≤ width
    → (y + 1) * (width * n) + j ≡ y * (width * n) + x * n + ((width - x) * n + j)
past_edge x y width n j le =
    let whole : width ≡ x + (width - x) = omega arith in
    let parts : width * n ≡ x * n + (width - x) * n = ap (λ (w : ℕ). w * n) whole ∙ (grind arith) in
    omega (arith, parts, next_row y (width * n))

-- It stands in the rectangle's row.
in_row :
    (x w width n j : ℕ)
    → x ≤ width
    → width < x + w
    → j < (x + w - width) * n
    → (width - x) * n + j < w * n
in_row x w width n j le over h =
    let whole : w ≡ (width - x) + (x + w - width) = omega arith in
    let parts : w * n ≡ (width - x) * n + (x + w - width) * n =
      ap (λ (v : ℕ). v * n) whole ∙ (grind arith) in
    omega (arith, parts, h)

one_row : (rows : List (List ℕ)) → length rows ≡ 1 → (row : List ℕ) × (rows ≡ row ∷ [])
one_row [] e = absurd (omega (arith, e))
one_row (row ∷ []) e = (row, refl)
one_row (row ∷ other ∷ rows) e = absurd (omega (arith, e))

module _ (rect : Rect) (fb : Framebuffer) (n : ℕ) (block before : List ℕ) (left : rect.x ≤ fb.width)
    (over : fb.width < rect.x + rect.width)
    (room : rect.y * (fb.width * n) + rect.x * n + rect.width * n ≤ length block) where
  splice-IsSpilt :
      (row coming : List ℕ)
      → length row ≡ rect.width * n
      → before ≡ row ++ coming
      → IsSpilt rect fb.width n before coming row
          (splice block (rect.y * (fb.width * n) + rect.x * n) row)
  splice-IsSpilt row coming size received = record {
    received = received;
    size = size;
    below = λ j h. rw (past_edge rect.x rect.y fb.width n j left) (
        get_or-splice-inside 0 block (rect.y * (fb.width * n) + rect.x * n) row
          (omega (arith, room, size)) ((fb.width - rect.x) * n + j)
          (omega (arith, in_row rect.x rect.width fb.width n j left over h, size)));
  }

module _ {E : Type 0} ⦃sys : System E⦄ {input output : E → List ℕ}
    (laws : IsTame input output) where
  -- The picture of a state after such a rectangle.
  abbrev pub Spills : Rect → Framebuffer → ℕ → List ℕ → St E → Type 0
  Spills rect fb n before s =
      (row : List ℕ) × (after : List ℕ) × (s.client.framebuffer.pixels ≡ some after)
      × IsSpilt rect fb.width n before (input s.world) row after

  -- ovnc__decode_raw, in an environment that meets `Session.IsTame` and with a callback that leaves the
  -- picture and the stream alone, on a framebuffer whose block holds `data_size` bytes, for a rectangle
  -- of one row that starts inside of the framebuffer and reaches over its right edge, and whose row ends
  -- within `data_size`: there is no fault. Where it returns OVNC_OK, the row received is width * bytes
  -- per pixel long, and its bytes past the right edge are now the first ones of the next row of the
  -- picture.
  pub decode_raw-Spills :
      (st : ClientState) (k : ℕ) (rect : Rect) (n : ℕ) (block : List ℕ) (s : St E)
      → RectInRange rect
      → IsQuiet input output laws.stream rect
      → IsReady input st k s
      → bytes_per_pixel s.client.framebuffer.format ≡ pos n
      → s.client.framebuffer.pixels ≡ some block
      → rect.height ≡ 1
      → rect.x ≤ s.client.framebuffer.width
      → s.client.framebuffer.width < rect.x + rect.width
      → rect.y * (s.client.framebuffer.width * n) + rect.x * n + rect.width * n
        ≤ s.client.framebuffer.data_size
      → Ends
          (λ _ s'. IsReady input st k s' × Spills rect s.client.framebuffer n (input s.world) s')
          (IsLinked input st k)
          (decode_raw rect s)
  decode_raw-Spills st k rect n block s range quiet ready bpp shown single left over ends =
      let fb = s.client.framebuffer in
      let (m, em, lt, size) = ready.geometry.size in
      let (b, eb, le) = ready.fits.block in
      let same : m ≡ n = cc (em, bpp) in
      let whole : b ≡ block = cc (eb, shown) in
      let room : rect.y * (fb.width * n) + rect.x * n + rect.width * n ≤ length block =
        omega (arith, ap length whole, ends, le) in
      Yields-and _ _ _ (decode_raw rect s) (decode_raw-Ends laws st k rect range s ready) (
        EndsOr-mono (Unit {0}) (decode_raw rect s)
          (λ _ s' q.
            let (row, is) = one_row q.0 (q.1.0 ∙ single) in
            let wide : All (λ r. length r ≡ rect.width * n) (row ∷ []) =
              subst (All (λ r. length r ≡ rect.width * n)) is q.1.1 in
            (
              row,
              splice block (rect.y * (fb.width * n) + rect.x * n) row,
              q.1.4.0 ∙ ap (λ rows. some (paint (fb.width * n) (rect.x * n) rect.y rows block)) is,
              splice-IsSpilt rect fb n block (input s.world) left over room row (input s'.world)
                  wide.0
                  (q.1.3
                    ∙ ap (λ (rows : List (List ℕ)). concat rows ++ q.1.2) is
                    ∙ ap (λ (l : List ℕ). l ++ q.1.2) (append-nil row)
                    ∙ ap (λ (l : List ℕ). row ++ l) (sym q.1.4.1)),
            ))
          (λ s' x. x)
          ((decode_raw-Gives input output laws.stream rect fb n block (input s.world) range
              ready.geometry.width bpp (omega (arith, lt, same)) quiet).at
            s ((shown, refl), refl)))
