-- ===== src/Encoding/Picture.antt =====
-- What a raw rectangle does to a picture, place by place.
use libopenvnc.Base.{
  ℕ, zero, suc, ◌+◌, ◌*◌, ◌≤◌, ◌<◌, ◌≡◌, ◌⊎◌, inl, inr, refl, ap, ◌∙◌, List, [], ◌∷◌, arith, length,
  get_or, splice, All, length-splice, get_or-splice-inside, get_or-splice-outside,
}

-- The rows of a rectangle are copied to the rows of a picture, from row `y` on, `left` bytes from the
-- start of the row; a row of the picture has `stride` bytes.
abbrev pub paint : ℕ → ℕ → ℕ → List (List ℕ) → List ℕ → List ℕ
paint stride left y [] block = block
paint stride left y (row ∷ rows) block =
    paint stride left (y + 1) rows (splice block (y * stride + left) row)

-- A later row of a picture stands after the whole of an earlier one.
row_below : (r y stride : ℕ) → r < y → r * stride + stride ≤ y * stride
row_below r y stride h = grind arith

module _ (stride left width : ℕ) (narrow : left + width ≤ stride) where
  row_fits :
      (y n : ℕ) (row block : List ℕ)
      → length row ≡ width
      → (y + suc n) * stride ≤ length block
      → y * stride + left + length row ≤ length block
  row_fits y n row block w fits = omega (arith, row_below y (y + suc n) stride (omega arith))

  -- The rest of the rows still fits.
  rest_fits :
      (y n : ℕ) (row block : List ℕ)
      → length row ≡ width
      → (y + suc n) * stride ≤ length block
      → (y + 1 + n) * stride ≤ length (splice block (y * stride + left) row)
  rest_fits y n row block w fits =
      let e : y + 1 + n ≡ y + suc n = omega arith in
      rw (e, length-splice block (y * stride + left) row (row_fits y n row block w fits)) fits

  pub length-paint :
      (rows : List (List ℕ)) (y : ℕ) (block : List ℕ)
      → All (λ row. length row ≡ width) rows
      → (y + length rows) * stride ≤ length block
      → length (paint stride left y rows block) ≡ length block
  length-paint [] y block ws fits = refl
  length-paint (row ∷ rows) y block ws fits =
      length-paint rows (y + 1) (splice block (y * stride + left) row) ws.1
        (rest_fits y (length rows) row block ws.0 fits)
      ∙ length-splice block (y * stride + left) row (row_fits y (length rows) row block ws.0 fits)

  -- A place above, below or beside the rectangle.
  abbrev pub Beside : ℕ → ℕ → ℕ → ℕ → Type 0
  Beside y n r c = ((r < y) ⊎ (y + n ≤ r)) ⊎ ((c < left) ⊎ (left + width ≤ c))

  row_cases : (r y : ℕ) → (r < y) ⊎ (y + 1 ≤ r) ⊎ (r ≡ y)
  row_cases r y = ground arith

  -- A place beside one row is not written by it.
  Beside-row :
      (y n r c w : ℕ)
      → w ≡ width
      → c < stride
      → Beside y (suc n) r c
      → (r * stride + c < y * stride + left) ⊎ (y * stride + left + w ≤ r * stride + c)
  Beside-row y n r c w e small (inl (inl above)) = inl (omega (arith, row_below r y stride above))
  Beside-row y n r c w e small (inl (inr below)) =
      inr (omega (arith, row_below y r stride (omega arith)))
  Beside-row y n r c w e small (inr h) = elim (row_cases r y) [
    | inl above ↦ inl (omega (arith, row_below r y stride above))
    | inr (inl below) ↦ inr (omega (arith, row_below y r stride (omega arith)))
    | inr (inr same) ↦ elim h [
      | inl before ↦ inl (omega (arith, ap (λ (t : ℕ). t * stride) same))
      | inr after ↦ inr (omega (arith, ap (λ (t : ℕ). t * stride) same))
    ]
  ]

  Beside-rest : (y n r c : ℕ) → Beside y (suc n) r c → Beside (y + 1) n r c
  Beside-rest y n r c (inl (inl above)) = inl (inl (omega arith))
  Beside-rest y n r c (inl (inr below)) = inl (inr (omega arith))
  Beside-rest y n r c (inr h) = inr h

  -- Beside the rectangle, the picture is as it was.
  pub paint-Beside :
      (rows : List (List ℕ)) (y : ℕ) (block : List ℕ) (r c : ℕ)
      → All (λ row. length row ≡ width) rows
      → (y + length rows) * stride ≤ length block
      → c < stride
      → Beside y (length rows) r c
      → get_or (paint stride left y rows block) (r * stride + c) 0 ≡ get_or block (r * stride + c) 0
  paint-Beside [] y block r c ws fits small h = refl
  paint-Beside (row ∷ rows) y block r c ws fits small h =
      paint-Beside rows (y + 1) (splice block (y * stride + left) row) r c ws.1
        (rest_fits y (length rows) row block ws.0 fits) small (Beside-rest y (length rows) r c h)
      ∙ get_or-splice-outside 0 block (y * stride + left) row
          (row_fits y (length rows) row block ws.0 fits) (r * stride + c)
          (Beside-row y (length rows) r c (length row) ws.0 small h)

  -- In the rectangle, the picture shows its rows.
  pub paint-inside :
      (rows : List (List ℕ)) (y : ℕ) (block : List ℕ) (i j : ℕ)
      → All (λ row. length row ≡ width) rows
      → (y + length rows) * stride ≤ length block
      → i < length rows
      → j < width
      → get_or (paint stride left y rows block) ((y + i) * stride + left + j) 0
        ≡ get_or (get_or rows i []) j 0
  paint-inside [] y block i j ws fits below inside = absurd (omega arith)
  paint-inside (row ∷ rows) y block zero j ws fits below inside =
      let rest = splice block (y * stride + left) row in
      let here : (y + 0) * stride + left + j ≡ y * stride + (left + j) = omega arith in
      let there : y * stride + left + j ≡ y * stride + (left + j) = omega arith in
      let painted =
        paint-Beside rows (y + 1) rest y (left + j) ws.1
          (rest_fits y (length rows) row block ws.0 fits) (omega arith) (inl (inl (omega arith))) in
      let copied =
        get_or-splice-inside 0 block (y * stride + left) row
          (row_fits y (length rows) row block ws.0 fits) j (omega (arith, ws.0)) in
      rw here (painted ∙ (rw there at copied))
  paint-inside (row ∷ rows) y block (suc i) j ws fits below inside =
      let next : y + suc i ≡ y + 1 + i = omega arith in
      rw next (
        paint-inside rows (y + 1) (splice block (y * stride + left) row) i j ws.1
          (rest_fits y (length rows) row block ws.0 fits) (omega arith) inside)
