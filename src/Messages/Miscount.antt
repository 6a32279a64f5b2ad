-- ===== src/Messages/Miscount.antt =====
-- What a server reads when ovnc__send_set_encodings of src/protocol/ovnc_messages.c sends more encodings
-- than its counter of 16 bits can say.
use libopenvnc.Base.{
  ℕ, zero, suc, ◌-◌, ◌%◌, ◌*◌, ◌^◌, ◌≤◌, ◌<◌, ◌≡◌, refl, ap, ◌∙◌, some, List, [], ◌∷◌, ◌++◌, arith,
  length, take, drop, length-take, length-drop, All, ℤ,
}
use libopenvnc.Wire.{write_u16, write_u32, write_s32, u32_of_s32}
use libopenvnc.Wire.RoundTrip.{IsS32, u32_of_s32-lt}
use libopenvnc.State.{Transport}
use libopenvnc.Run.{St, System}
use libopenvnc.Run.Safe.{Ends, Ends-mono}
use libopenvnc.Socket.Stream.{IsStream}
use libopenvnc.Messages.{encoding_bytes, send_set_encodings}
use libopenvnc.Messages.Server.{set_encodings, parse, parse_encodings, signed_list, as_encodings}
use libopenvnc.Messages.Sent.{be16-bytes, be32-bytes, signed-u32_of_s32}
use libopenvnc.Messages.Carried.{send_set_encodings-Sends}

All-take : (m : ℕ) (es : List ℤ) → All IsS32 es → All IsS32 (take m es)
All-take zero es h = tt
All-take (suc m) [] h = tt
All-take (suc m) (e ∷ es) h = (h.0, All-take m es h.1)

length-encoding_bytes : (es : List ℤ) → length (encoding_bytes es) ≡ 4 * length es
unfolding encoding_bytes write_s32 write_u32
length-encoding_bytes [] = refl
length-encoding_bytes (e ∷ es) = omega (arith, length-encoding_bytes es)

-- The first `m` of some encodings are read, and the bytes of the others are left.
signed_list-part :
    (m : ℕ) (es : List ℤ) (more : List ℕ)
    → m ≤ length es
    → All IsS32 es
    → signed_list m (encoding_bytes es ++ more)
      ≡ some (take m es, encoding_bytes (drop m es) ++ more)
unfolding signed_list encoding_bytes write_s32 write_u32
signed_list-part zero es more le h = refl
signed_list-part (suc m) [] more le h = absurd (omega arith)
signed_list-part (suc m) (e ∷ es) more le h = rw (
  signed_list-part m es more (omega arith) h.1,
  be32-bytes (u32_of_s32 e) (u32_of_s32-lt e h.0),
  signed-u32_of_s32 e h.0,
)

take-take : (m n : ℕ) (es : List ℤ) → m ≤ n → take m (take n es) ≡ take m es
take-take zero n es le = refl
take-take (suc m) zero es le = absurd (omega arith)
take-take (suc m) (suc n) [] le = refl
take-take (suc m) (suc n) (e ∷ es) le = ap (λ l. e ∷ l) (take-take m n es (omega arith))

-- The bytes for some encodings, of which only `m` are counted.
parse-part :
    (m : ℕ) (es : List ℤ) (rest : List ℕ)
    → m < 2 ^ 16
    → m ≤ length es
    → All IsS32 es
    → parse ((2 ∷ 0 ∷ (write_u16 m ++ encoding_bytes es)) ++ rest)
      ≡ some (set_encodings (take m es), encoding_bytes (drop m es) ++ rest)
unfolding parse parse_encodings write_u16
parse-part m es rest small le h =
    ap (λ k. as_encodings (signed_list k (encoding_bytes es ++ rest))) (be16-bytes m small)
    ∙ ap as_encodings (signed_list-part m es rest le h)

module _ {E : Type 0} ⦃sys : System E⦄ (input output : E → List ℕ) (stream : IsStream input output)
    (quiet : (n : ℕ) (w : E) → output (sys.malloc n w).1 ≡ output w) where
  -- The message that a server reads, and the bytes of the encodings behind it.
  abbrev pub Misread : List ℤ → ℕ → List ℕ → Type 0
  Misread es n bs =
      (left : List ℕ) × (length left ≡ 4 * (n - n % 2 ^ 16))
      × ((rest : List ℕ)
          → parse (bs ++ rest) ≡ some (set_encodings (take (n % 2 ^ 16) es), left ++ rest))

  -- ovnc__send_set_encodings, on a client that has a transport over a byte stream (`IsStream`) and with
  -- an allocator that sends nothing, for the first `n` of some encodings, 2^16 of them or more, ends without
  -- a fault. Where it returns OVNC_OK, a server that reads as RFC 6143 says takes what was sent for
  -- a SetEncodings message of only n mod 2^16 encodings, and 4 * (n - n mod 2^16) bytes, at least 2^18,
  -- are left that it will take for other messages.
  pub send_set_encodings-Misread :
      (s : St E) (es : List ℤ) (n : ℕ)
      → (t : Transport) × (s.client.transport ≡ some t)
      → n ≤ length es
      → 2 ^ 16 ≤ n
      → n < 2 ^ 61
      → All IsS32 es
      → Ends
          (λ _ s'.
            (bs : List ℕ) × (output s'.world ≡ output s.world ++ bs)
            × Misread es n bs
            × (2 ^ 18 ≤ 4 * (n - n % 2 ^ 16)))
          (λ _. Unit {0})
          (send_set_encodings es n s)
  send_set_encodings-Misread s es n linked le many small fits =
      let m = n % 2 ^ 16 in
      let l = take n es in
      let all : length l ≡ n = omega (arith, length-take n es) in
      Ends-mono (send_set_encodings es n s)
        (λ _ s' q. (
          2 ∷ 0 ∷ (write_u16 m ++ encoding_bytes l),
          q.0,
          (
            encoding_bytes (drop m l),
            length-encoding_bytes (drop m l)
                ∙ ap (λ (k : ℕ). 4 * k) (length-drop m l ∙ ap (λ (k : ℕ). k - m) all),
            λ rest.
                parse-part m l rest (omega arith) (omega (arith, all)) (All-take n es fits)
                ∙ ap (λ t. some (set_encodings t, encoding_bytes (drop m l) ++ rest))
                    (take-take m n es (omega arith)),
          ),
          omega arith,
        ))
        (λ s' x. tt)
        ((send_set_encodings-Sends input output stream quiet
            (λ c. (t : Transport) × (c.transport ≡ some t)) (λ c h. h) (output s.world) es n le
            small).at
          s (refl, linked))
