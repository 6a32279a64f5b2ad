-- ===== src/Encoding/Receiving.antt =====
-- The rows of a raw rectangle as ovnc__decode_raw of src/protocol/ovnc_enc_raw.c receives them.
use libopenvnc.Base.{
  ℕ, zero, suc, ◌+◌, ◌*◌, ◌≤◌, ◌<◌, ◌≡◌, refl, ap, sym, ◌∙◌, Option, none, some, List, [], ◌∷◌,
  ◌++◌, append_assoc, arith, length, splice, All, ltb, Bool-cases, inl, inr, add_size, mul_size,
}
use libopenvnc.State.{Rect, Client}
use libopenvnc.Run.{St, System}
use libopenvnc.Run.Safe.{
  Safe-post, EndsOr-mono, Safe-bind, Safe-gets, Safe-if, Safe-raise, Safe-pure, Safe-pre,
  Safe-exists, Safe-assume,
}
use libopenvnc.Socket.Stream.{IsStream}
use libopenvnc.Session.Gives.{Yields, Gives, Received, recv_to-Yields}
use libopenvnc.Encoding.{set_framebuffer, store_pixels, recv_into, recv_pixels, raw_row, raw_rows}
use libopenvnc.Encoding.Picture.{paint}

-- The bytes of some rows.
abbrev pub concat : List (List ℕ) → List ℕ
concat [] = []
concat (row ∷ rows) = row ++ concat rows

module _ {E : Type 0} ⦃sys : System E⦄ (input output : E → List ℕ)
    (stream : IsStream input output) where
  -- The picture is `block`, and `rest` is still to come.
  abbrev pub Shows : List ℕ → List ℕ → St E → Type 0
  Shows block rest s = (s.client.framebuffer.pixels ≡ some block) × (input s.world ≡ rest)

  recv_into-Yields :
      (o : Option (List ℕ)) (block : List ℕ) (offset n : ℕ) (s : St E)
      → o ≡ some block
      → Yields
          (Received input output stream (λ bs. set_framebuffer (store_pixels offset bs)) n s)
          (recv_into o offset n s)
  recv_into-Yields none block offset n s e = cc
  recv_into-Yields (some b) block offset n s e = elim (Bool-cases (ltb (length b) (offset + n))) [
    | inl over ↦ rw over tt
    | inr fits ↦
        rw fits
          (recv_to-Yields input output stream (λ bs. set_framebuffer (store_pixels offset bs)) n s)
  ]

  -- A read of `n` bytes into the picture, at `offset`.
  recv_pixels-Gives :
      (block rest : List ℕ) (offset n : ℕ)
      → Gives
          (Shows block rest)
          (λ bs s.
            (length bs ≡ n)
            × (left : List ℕ) × (rest ≡ bs ++ left)
            × Shows (splice block offset bs) left s)
          (recv_pixels offset n)
  unfolding recv_pixels
  recv_pixels-Gives block rest offset n = record {
    at = λ s q.
        EndsOr-mono (Unit {0}) (recv_into s.client.framebuffer.pixels offset n s)
          (λ bs s' r. (
            r.0,
            input s'.world,
            sym q.1 ∙ r.1,
            (
              ap (λ (c : Client). c.framebuffer.pixels) r.2
                  ∙ ap
                      (λ (o : Option (List ℕ)).
                        (store_pixels offset bs
                          (record s.client.framebuffer { pixels = o })).pixels)
                      q.0,
              refl,
            ),
          ))
          (λ s' x. x) (recv_into-Yields s.client.framebuffer.pixels block offset n s q.0);
  }

  -- So many rows of `row_bytes` bytes have been received, and painted from row `y` on.
  abbrev pub RowsIn :
      ℕ → ℕ → ℕ → ℕ → ℕ → List ℕ → List ℕ → List (List ℕ) → Option (List ℕ) → List ℕ → Type 0
  RowsIn row_bytes stride left n y block rest rows pixels coming =
      (length rows ≡ n)
      × All (λ row. length row ≡ row_bytes) rows
      × (more : List ℕ) × (rest ≡ concat rows ++ more)
      × ((pixels ≡ some (paint stride left y rows block)) × (coming ≡ more))

  abbrev pub Rows : ℕ → ℕ → ℕ → ℕ → ℕ → List ℕ → List ℕ → List (List ℕ) → St E → Type 0
  Rows row_bytes stride left n y block rest rows s =
      RowsIn row_bytes stride left n y block rest rows s.client.framebuffer.pixels (input s.world)

  module _ (rect : Rect) (bpp row_bytes stride left : ℕ)
      (place : (y : ℕ)
        → y < rect.height
        → add_size (mul_size (rect.y + y) stride) (mul_size rect.x bpp)
          ≡ (rect.y + y) * stride + left) where
    -- A row of the rectangle has been received and painted.
    abbrev Row : ℕ → List ℕ → List ℕ → List ℕ → St E → Type 0
    Row y block rest row s =
        (length row ≡ row_bytes)
        × (more : List ℕ) × (rest ≡ row ++ more)
        × Shows (splice block ((rect.y + y) * stride + left) row) more s

    raw_row-Gives :
        (y : ℕ) (block rest : List ℕ)
        → y < rect.height
        → Gives
            (Shows block rest)
            (λ _ s. (row : List ℕ) × Row y block rest row s)
            (raw_row rect bpp row_bytes stride y)
    unfolding raw_row
    raw_row-Gives y block rest h =
        Safe-bind (Safe-gets (λ s. s.client.framebuffer.data_size)) λ size.
          Safe-pre (λ s q. q.0)
            (Safe-if
              (ltb size (
                add_size (add_size (mul_size (rect.y + y) stride) (mul_size rect.x bpp)) row_bytes))
              (λ _. Safe-raise _ (λ s q. tt))
              (λ _. rw (place y h) (
                Safe-bind (recv_pixels-Gives block rest ((rect.y + y) * stride + left) row_bytes)
                  λ row. Safe-pure tt (λ s q. (row, q)))))

    one_more :
        (n y : ℕ) (block rest row more : List ℕ) (rows : List (List ℕ)) (s : St E)
        → length row ≡ row_bytes
        → rest ≡ row ++ more
        → Rows row_bytes stride left n
            (rect.y + (y + 1))
            (splice block ((rect.y + y) * stride + left) row)
            more
            rows
            s
        → Rows row_bytes stride left (suc n) (rect.y + y) block rest (row ∷ rows) s
    one_more n y block rest row more rows s len e q =
        let next : rect.y + y + 1 ≡ rect.y + (y + 1) = omega arith in
        (
          ap suc q.0,
          (len, q.1),
          q.2,
          e ∙ ap (λ l. row ++ l) q.3 ∙ sym (append_assoc row (concat rows) q.2),
          rw next q.4,
        )

    pub raw_rows-Gives :
        (n y : ℕ) (block rest : List ℕ)
        → y + n ≤ rect.height
        → Gives
            (Shows block rest)
            (λ _ s.
              (rows : List (List ℕ)) × Rows row_bytes stride left n (rect.y + y) block rest rows s)
            (raw_rows n rect bpp row_bytes stride y)
    unfolding raw_rows
    raw_rows-Gives zero y block rest h = Safe-pure tt (λ s q. ([], (refl, tt, rest, refl, q)))
    raw_rows-Gives (suc n) y block rest h =
        Safe-bind (raw_row-Gives y block rest (omega arith)) λ _. Safe-exists λ row.
          Safe-pre
            {P = λ s.
              (more : List ℕ) × (Shows (splice block ((rect.y + y) * stride + left) row) more s
                × ((length row ≡ row_bytes) × (rest ≡ row ++ more)))}
            (λ s q. (q.1, (q.3, (q.0, q.2))))
            (Safe-exists λ more. Safe-assume λ facts.
              Safe-post
                (λ _ s q. (row ∷ q.0, one_more n y block rest row more q.0 s facts.0 facts.1 q.1))
                (raw_rows-Gives n (y + 1) (splice block ((rect.y + y) * stride + left) row) more
                  (omega arith)))
