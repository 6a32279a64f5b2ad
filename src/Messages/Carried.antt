-- ===== src/Messages/Carried.antt =====
-- What the functions of src/protocol/ovnc_messages.c that send a message put in the stream.
use mathlib.Core.Path.{subst}
use libopenvnc.Base.{
  ℕ, ◌+◌, ◌*◌, ◌≤◌, ◌<◌, ◌%◌, ◌^◌, ◌≡◌, refl, ◌∙◌, sym, some, List, [], ◌∷◌, ◌++◌, append-nil,
  arith, length, take, take-length, ltb, mul_size, add_size, le→ltb_false, lt→ltb, ℤ, if◌then◌else◌,
}
use libopenvnc.Error.{nomem}
use libopenvnc.Wire.{write_u16}
use libopenvnc.Messages.{encoding_bytes}
use libopenvnc.Transport.{transport_send}
use libopenvnc.State.{Client, Transport}
use libopenvnc.Run.{St, System, Action, pure, abort, out_of_bounds}
use libopenvnc.Run.Safe.{Ends, Ends-mono, Safe-bind, Safe-if, Safe-raise, Safe-try, Safe-pure}
use libopenvnc.Socket.Stream.{IsStream}
use libopenvnc.Session.Sends.{
  Wrote, Partly, Sends, transport_send-Sends, Sends-then, malloc-Wrote, free-Wrote, free-Partly,
}
use libopenvnc.Messages.{
  send_set_pixel_format, send_set_encodings, send_fb_update_request, send_key_event,
  send_pointer_event, send_client_cut_text,
}
use libopenvnc.Messages.Server.{
  Message, set_pixel_format, set_encodings, fb_update_request, key_event, pointer_event,
  client_cut_text, parse,
}
use libopenvnc.Messages.Sent.{bytes_of, Fits, parse-bytes_of}

module _ {E : Type 0} ⦃sys : System E⦄ where
  -- The function of src/protocol/ovnc_messages.c for each message.
  abbrev pub send_message : Message → Action E Unit
  send_message (set_pixel_format fmt) = send_set_pixel_format fmt
  send_message (set_encodings es) = send_set_encodings es (length es)
  send_message (fb_update_request incremental x y width height) =
      send_fb_update_request incremental x y width height
  send_message (key_event key down) = send_key_event key down
  send_message (pointer_event x y mask) = send_pointer_event x y mask
  send_message (client_cut_text text) = send_client_cut_text text (length text)

module _ {E : Type 0} ⦃sys : System E⦄ (input output : E → List ℕ) (stream : IsStream input output)
    (quiet : (n : ℕ) (w : E) → output (sys.malloc n w).1 ≡ output w) (F : Client → Type 0)
    (linked : (c : Client) → F c → (t : Transport) × (c.transport ≡ some t)) where
  -- An action that fails before it sends.
  nothing : (o p : List ℕ) (s : St E) → 0 < length p → Wrote output F o s → Partly output F o p s
  nothing o p s more h = (0, more, h.0 ∙ sym (append-nil o))

  -- ovnc__send_set_encodings of the first `n` elements, with the count modulo 2^16
  pub send_set_encodings-Sends :
      (o : List ℕ) (es : List ℤ) (n : ℕ)
      → n ≤ length es
      → n < 2 ^ 61
      → Sends output F o
          (2 ∷ 0 ∷ (write_u16 (n % 2 ^ 16) ++ encoding_bytes (take n es)))
          (send_set_encodings es n)
  unfolding send_set_encodings
  send_set_encodings-Sends o es n le small =
      let len : add_size 4 (mul_size 4 n) ≡ 4 + 4 * n = omega arith in
      Safe-bind (malloc-Wrote input output stream F linked quiet o _) λ found.
        Safe-if found
          (λ _.
            rw
              (
                le→ltb_false (length es) n le,
                len,
                le→ltb_false (4 + 4 * n) (4 + 4 * n) (omega arith),
              )
              (Safe-try _ (transport_send-Sends input output stream F linked o _)
                (Safe-bind (free-Wrote input output stream F linked _) λ _. Safe-pure tt (λ s q. q))
                (λ e.
                  Safe-bind (free-Partly input output stream F linked o _)
                    λ _. Safe-raise e (λ s q. q))))
          (λ _. Safe-raise nomem (λ s q. nothing o _ s (omega arith) q))

  -- Fewer than 2^16 are counted right.
  set_encodings-Sends :
      (o : List ℕ) (es : List ℤ)
      → length es < 2 ^ 16
      → Sends output F o (bytes_of (set_encodings es)) (send_set_encodings es (length es))
  set_encodings-Sends o es small =
      let whole : length es % 2 ^ 16 ≡ length es = omega arith in
      subst
        (λ l.
          Sends output F o (2 ∷ 0 ∷ (write_u16 (length es) ++ encoding_bytes l))
            (send_set_encodings es (length es)))
        (take-length es)
        (subst
          (λ k.
            Sends output F o (2 ∷ 0 ∷ (write_u16 k ++ encoding_bytes (take (length es) es)))
              (send_set_encodings es (length es)))
          whole (send_set_encodings-Sends o es (length es) (omega arith) (omega arith)))

  text_part-Sends :
      (o : List ℕ) (text : List ℕ)
      → Sends output F o text (
          if ltb 0 (length text)
          then (if ltb (length text) (length text)
              then abort out_of_bounds
              else transport_send (take (length text) text))
          else pure tt)
  text_part-Sends o [] = Safe-pure tt (λ s h. rw append-nil h)
  text_part-Sends o (b ∷ text) =
      rw
        (
          lt→ltb 0 (length (b ∷ text)) (omega arith),
          le→ltb_false (length (b ∷ text)) (length (b ∷ text)) (omega arith),
          take-length text,
        )
        (transport_send-Sends input output stream F linked o (b ∷ text))

  -- ovnc__send_client_cut_text
  send_client_cut_text-Sends :
      (o : List ℕ) (text : List ℕ)
      → Sends output F o (bytes_of (client_cut_text text)) (send_client_cut_text text (length text))
  unfolding send_client_cut_text
  send_client_cut_text-Sends o text =
      Sends-then input output stream F linked o _ text
        (transport_send-Sends input output stream F linked o _) (text_part-Sends _ text)

  pub send_message-Sends :
      (o : List ℕ) (m : Message) → Fits m → Sends output F o (bytes_of m) (send_message m)
  unfolding send_set_pixel_format send_fb_update_request send_key_event send_pointer_event
  send_message-Sends o (set_pixel_format fmt) h =
      transport_send-Sends input output stream F linked o _
  send_message-Sends o (set_encodings es) h = set_encodings-Sends o es h.0
  send_message-Sends o (fb_update_request incremental x y width height) h =
      transport_send-Sends input output stream F linked o _
  send_message-Sends o (key_event key down) h =
      transport_send-Sends input output stream F linked o _
  send_message-Sends o (pointer_event x y mask) h =
      transport_send-Sends input output stream F linked o _
  send_message-Sends o (client_cut_text text) h = send_client_cut_text-Sends o text

module _ {E : Type 0} ⦃sys : System E⦄ (input output : E → List ℕ) (stream : IsStream input output)
    (quiet : (n : ℕ) (w : E) → output (sys.malloc n w).1 ≡ output w) where
  -- On a client that has a transport over a byte stream (`IsStream`), with an allocator that sends
  -- nothing, the function of ovnc_messages.c for a message whose numbers are in the range of the
  -- fields that carry them (`Fits`) has no fault. There are bytes that a server, reading as RFC 6143
  -- says, takes for that message and nothing more, whatever follows them; OVNC_OK means that exactly
  -- these were sent, and an error code that a proper prefix of them was.
  pub send_message-Carries :
      (s : St E) (m : Message)
      → Fits m
      → (t : Transport) × (s.client.transport ≡ some t)
      → (bs : List ℕ) × ((rest : List ℕ) → parse (bs ++ rest) ≡ some (m, rest))
        × Ends
            (λ _ s'. output s'.world ≡ output s.world ++ bs)
            (λ s'. (k : ℕ) × (k < length bs) × (output s'.world ≡ output s.world ++ take k bs))
            (send_message m s)
  send_message-Carries s m fits linked = (
    bytes_of m,
    λ rest. parse-bytes_of m rest fits,
    Ends-mono (send_message m s) (λ _ s' q. q.0) (λ s' x. x)
        ((send_message-Sends input output stream quiet
            (λ c. (t : Transport) × (c.transport ≡ some t)) (λ c h. h) (output s.world) m fits).at
          s (refl, linked)),
  )
