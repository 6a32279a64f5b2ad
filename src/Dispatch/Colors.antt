-- ===== src/Dispatch/Colors.antt =====
-- The loop over the colors in handle_color_map_entries of src/protocol/ovnc_messages.c.
use libopenvnc.Base.{
  ℕ, zero, suc, ◌+◌, ◌*◌, ◌^◌, ◌<◌, ◌≡◌, refl, ap, ◌∙◌, List, [], ◌∷◌, ◌++◌, arith, length, drop,
  All,
}
use libopenvnc.Wire.{read_u16, write_u16}
use libopenvnc.Wire.RoundTrip.{read_u16-write_u16}
use libopenvnc.Dispatch.{color_channel}

-- A color of a color map, as RFC 6143 has it on the wire: red, green, blue.
pub record Color : Type 0 where
  pub red : ℕ
  pub green : ℕ
  pub blue : ℕ

abbrev pub IsColor : Color → Type 0
IsColor c = (c.red < 2 ^ 16) × (c.green < 2 ^ 16) × (c.blue < 2 ^ 16)

abbrev pub color_bytes : List Color → List ℕ
color_bytes [] = []
color_bytes (c ∷ cs) =
    write_u16 c.red ++ (write_u16 c.green ++ (write_u16 c.blue ++ color_bytes cs))

abbrev pub channel : (Color → ℕ) → List Color → List ℕ
channel f [] = []
channel f (c ∷ cs) = f c ∷ channel f cs

module _ (c0 c1 c2 c3 c4 c5 : ℕ) (block : List ℕ) (offset : ℕ) where
  drop-color :
      (i : ℕ)
      → drop ((i + 1) * 6 + offset) (c0 ∷ c1 ∷ c2 ∷ c3 ∷ c4 ∷ c5 ∷ block)
        ≡ drop (i * 6 + offset) block
  drop-color i =
      let e : (i + 1) * 6 + offset ≡ suc (suc (suc (suc (suc (suc (i * 6 + offset)))))) =
        omega arith in
      ap (λ (k : ℕ). drop k (c0 ∷ c1 ∷ c2 ∷ c3 ∷ c4 ∷ c5 ∷ block)) e

  -- The colors behind the first one.
  color_channel-later :
      (n i : ℕ)
      → color_channel n (c0 ∷ c1 ∷ c2 ∷ c3 ∷ c4 ∷ c5 ∷ block) offset (i + 1)
        ≡ color_channel n block offset i
  unfolding color_channel
  color_channel-later zero i = refl
  color_channel-later (suc n) i =
      ap
        (λ l. read_u16 l ∷ color_channel n (c0 ∷ c1 ∷ c2 ∷ c3 ∷ c4 ∷ c5 ∷ block) offset (i + 1 + 1))
        (drop-color i)
      ∙ ap (λ l. read_u16 (drop (i * 6 + offset) block) ∷ l) (color_channel-later n (i + 1))

module _ (c : Color) (cs : List Color) (is : IsColor c) where
  red_first : read_u16 (color_bytes (c ∷ cs)) ≡ c.red
  red_first = read_u16-write_u16 c.red _ is.0

  green_first : read_u16 (drop 2 (color_bytes (c ∷ cs))) ≡ c.green
  unfolding write_u16
  green_first = read_u16-write_u16 c.green _ is.1

  blue_first : read_u16 (drop 4 (color_bytes (c ∷ cs))) ≡ c.blue
  unfolding write_u16
  blue_first = read_u16-write_u16 c.blue _ is.2

-- The loop, with the offsets 0, 2 and 4, on the bytes of any number of colors as RFC 6143 has them.
pub color_channel-channel :
    (cs : List Color)
    → All IsColor cs
    → (color_channel (length cs) (color_bytes cs) 0 0 ≡ channel (λ c. c.red) cs)
      × (color_channel (length cs) (color_bytes cs) 2 0 ≡ channel (λ c. c.green) cs)
      × (color_channel (length cs) (color_bytes cs) 4 0 ≡ channel (λ c. c.blue) cs)
unfolding color_channel write_u16
color_channel-channel [] h = (refl, refl, refl)
color_channel-channel (c ∷ cs) h =
    let (reds, greens, blues) = color_channel-channel cs h.1 in
    (
      rw (red_first c cs h.0, color_channel-later _ _ _ _ _ _ (color_bytes cs) 0 (length cs) 0)
          (ap (λ l. c.red ∷ l) reds),
      rw (green_first c cs h.0, color_channel-later _ _ _ _ _ _ (color_bytes cs) 2 (length cs) 0)
          (ap (λ l. c.green ∷ l) greens),
      rw (blue_first c cs h.0, color_channel-later _ _ _ _ _ _ (color_bytes cs) 4 (length cs) 0)
          (ap (λ l. c.blue ∷ l) blues),
    )
