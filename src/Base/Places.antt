-- ===== src/Base/Places.antt =====
-- What stands at a place of a list that is put together, cut or overwritten.
use Prim.Native.Nat.{ℕ, zero, suc, ◌+◌, ◌-◌, ◌≤◌, ◌<◌}
use mathlib.Core.Path.{◌≡◌, refl, ap, ◌∙◌}
use mathlib.Core.Logic.{◌⊎◌, inl, inr}
use mathlib.Core.List.{List, [], ◌∷◌, ◌++◌}
use native.Mathlib.Nat.{zero-add, suc-add}
use native.Mathlib.Omega.{arith}
use libopenvnc.Base.Lists.{length, get_or, take, drop, splice, length-take}

module _ {ℓ} {A : Type ℓ} (d : A) where
  pub get_or-append-left :
      (xs ys : List A) (i : ℕ) → i < length xs → get_or (xs ++ ys) i d ≡ get_or xs i d
  get_or-append-left [] ys i h = absurd (omega arith)
  get_or-append-left (x ∷ xs) ys zero h = refl
  get_or-append-left (x ∷ xs) ys (suc i) h = get_or-append-left xs ys i (omega arith)

  pub get_or-append-right :
      (xs ys : List A) (i : ℕ) → length xs ≤ i → get_or (xs ++ ys) i d ≡ get_or ys (i - length xs) d
  get_or-append-right [] ys i h = let e : i - 0 ≡ i = omega arith in rw e
  get_or-append-right (x ∷ xs) ys zero h = absurd (omega arith)
  get_or-append-right (x ∷ xs) ys (suc i) h =
      let e : suc i - suc (length xs) ≡ i - length xs = omega arith in
      rw e (get_or-append-right xs ys i (omega arith))

  get_or-take : (n : ℕ) (xs : List A) (i : ℕ) → i < n → get_or (take n xs) i d ≡ get_or xs i d
  get_or-take zero xs i h = absurd (omega arith)
  get_or-take (suc n) [] i h = refl
  get_or-take (suc n) (x ∷ xs) zero h = refl
  get_or-take (suc n) (x ∷ xs) (suc i) h = get_or-take n xs i (omega arith)

  pub get_or-drop : (n : ℕ) (xs : List A) (i : ℕ) → get_or (drop n xs) i d ≡ get_or xs (n + i) d
  get_or-drop zero xs i = let e : 0 + i ≡ i = omega arith in rw e
  get_or-drop (suc n) [] i = refl
  get_or-drop (suc n) (x ∷ xs) i =
      let e : suc n + i ≡ suc (n + i) = omega arith in rw e (get_or-drop n xs i)

  module _ (xs : List A) (at : ℕ) (bytes : List A) (fits : at + length bytes ≤ length xs) where
    taken : length (take at xs) ≡ at
    taken = omega (arith, length-take at xs)

    -- The bytes of a `memcpy` stand where they were written.
    pub get_or-splice-inside :
        (i : ℕ) → i < length bytes → get_or (splice xs at bytes) (at + i) d ≡ get_or bytes i d
    get_or-splice-inside i h =
        let e : at + i - length (take at xs) ≡ i = omega (arith, taken) in
        get_or-append-right (take at xs) (bytes ++ drop (at + length bytes) xs) (at + i)
          (omega (arith, taken))
        ∙ (rw e (get_or-append-left bytes (drop (at + length bytes) xs) i h))

    -- All else is as it was.
    pub get_or-splice-outside :
        (i : ℕ)
        → (i < at) ⊎ (at + length bytes ≤ i)
        → get_or (splice xs at bytes) i d ≡ get_or xs i d
    get_or-splice-outside i (inl h) =
        get_or-append-left (take at xs) (bytes ++ drop (at + length bytes) xs) i
          (omega (arith, taken))
        ∙ get_or-take at xs i h
    get_or-splice-outside i (inr h) =
        let e : at + length bytes + (i - length (take at xs) - length bytes) ≡ i =
          omega (arith, taken) in
        get_or-append-right (take at xs) (bytes ++ drop (at + length bytes) xs) i
          (omega (arith, taken))
        ∙ get_or-append-right bytes (drop (at + length bytes) xs) (i - length (take at xs))
            (omega (arith, taken))
        ∙ get_or-drop (at + length bytes) xs (i - length (take at xs) - length bytes)
        ∙ (rw e)

module _ {ℓ} {A : Type ℓ} where
  -- The first elements of two lists.
  pub take-append-left : (k : ℕ) (p q : List A) → k < length p → take k (p ++ q) ≡ take k p
  take-append-left k [] q h = absurd (omega arith)
  take-append-left zero (x ∷ p) q h = refl
  take-append-left (suc k) (x ∷ p) q h = ap (λ l. x ∷ l) (take-append-left k p q (omega arith))

  pub take-append-right : (p q : List A) (k : ℕ) → take (length p + k) (p ++ q) ≡ p ++ take k q
  take-append-right [] q k = rw zero-add
  take-append-right (x ∷ p) q k =
      ap (λ n. take n (x ∷ (p ++ q))) (suc-add (length p) k)
      ∙ ap (λ l. x ∷ l) (take-append-right p q k)
