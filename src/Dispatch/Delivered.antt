-- ===== src/Dispatch/Delivered.antt =====
-- What ovnc__recv_server_message of src/protocol/ovnc_messages.c makes of the messages that have no
-- rectangles.
use libopenvnc.Base.{
  ℕ, ◌-◌, ◌*◌, ◌^◌, ◌<◌, ◌≡◌, refl, ap, ◌∙◌, false, ◌&&◌, List, [], ◌∷◌, ◌++◌, length, All, drop,
  arith, ltb, ltb→le, sym, mul_size,
}
use libopenvnc.Wire.{read_u16, read_u32, write_u16, write_u32}
use libopenvnc.Wire.RoundTrip.{read_u16-write_u16, read_u32-write_u32}
use libopenvnc.State.{Client, Event, ClientState}
use libopenvnc.Session.Says.{Gives-any}
use libopenvnc.Run.{St, System, free, notify_if}
use libopenvnc.Run.Safe.{
  Ends, Ends-mono, Safe-bind, Safe-if, Safe-raise, Safe-pure, Safe-gets, Safe-pre, Safe-assume,
}
use libopenvnc.Session.{IsReady, IsLinked, IsTame}
use libopenvnc.Session.Gives.{Gives, Yields-and}
use libopenvnc.Dispatch.{
  deliver_colors, handle_color_map_entries, handle_bell, deliver_text, handle_server_cut_text,
  handle_message, recv_server_message,
}
use libopenvnc.Dispatch.Colors.{Color, IsColor, color_bytes, color_channel-channel}
use libopenvnc.Dispatch.Protocol.{
  ServerMessage, color_map, bell, cut_text, IsMessage, on_wire, callback_for, event_of,
}
use libopenvnc.Dispatch.Reading.{
  At, Told, recv-At, recv_or_free-At, malloc-At, notify-Told, free-Told,
}
use libopenvnc.Dispatch.Safety.{recv_server_message-Ends}

length-color_bytes : (colors : List Color) → length (color_bytes colors) ≡ length colors * 6
unfolding write_u16
length-color_bytes [] = refl
length-color_bytes (c ∷ cs) = omega (arith, length-color_bytes cs)

module _ {E : Type 0} ⦃sys : System E⦄ {input output : E → List ℕ} (laws : IsTame input output)
    (c : Client) (rest : List ℕ) where
  -- The callback of a message was called.
  abbrev Delivers : ServerMessage → St E → Type 0
  Delivers m = Told laws c (callback_for m) (event_of m) rest

  notify-Delivers :
      (m : ServerMessage)
      → Gives (At laws c rest) (λ _. Delivers m) (notify_if (callback_for m) (event_of m))
  notify-Delivers m = notify-Told laws c (callback_for m) (event_of m) rest

  free-Delivers : (m : ServerMessage) → Gives (Delivers m) (λ _. Delivers m) free
  free-Delivers m = free-Told laws c (callback_for m) (event_of m) rest

  bell-Gives : Gives (At laws c rest) (λ _. Delivers bell) handle_bell
  unfolding handle_bell
  bell-Gives = notify-Delivers bell

  deliver_text-Gives :
      (text : List ℕ) (cap : ℕ)
      → Gives
          (At laws c (text ++ rest))
          (λ _. Delivers (cut_text text))
          (deliver_text cap (length text))
  unfolding deliver_text
  deliver_text-Gives text cap =
      Safe-bind (recv_or_free-At laws c text rest cap (length text) refl) λ b. Safe-assume λ e.
        rw e (
          Safe-bind {Q = λ _. At laws c rest}
            (Safe-if (ltb (length text) cap) (λ _. Safe-pure tt (λ s h. h))
              (λ _. record { at = λ s h. tt }))
            λ _. Safe-bind (notify-Delivers (cut_text text)) λ _. free-Delivers (cut_text text))

  empty-Gives :
      (text : List ℕ)
      → ltb 0 (length text) ≡ false
      → Gives
          (At laws c (text ++ rest))
          (λ _. Delivers (cut_text text))
          (notify_if (λ d. d.server_cut_text) (Event.server_cut_text [] (length text)))
  empty-Gives [] e = notify-Delivers (cut_text [])
  empty-Gives (b ∷ text) e = absurd (omega (arith, ltb→le 0 (length (b ∷ text)) e))

  cut_text-Gives :
      (pad pad2 pad3 : ℕ) (text : List ℕ)
      → length text < 2 ^ 32 - 1
      → Gives
          (At laws c ((pad ∷ pad2 ∷ pad3 ∷ (write_u32 (length text) ++ text)) ++ rest))
          (λ _. Delivers (cut_text text))
          handle_server_cut_text
  unfolding handle_server_cut_text write_u32
  cut_text-Gives pad pad2 pad3 text short =
      let header = pad ∷ pad2 ∷ pad3 ∷ write_u32 (length text) in
      let len : read_u32 (drop 3 header) ≡ length text =
        read_u32-write_u32 (length text) [] (omega arith) in
      Safe-bind (recv-At laws c header (text ++ rest) 7 refl) λ b. Safe-assume λ e.
        rw (e, len)
          (Safe-if (ltb 0 (length text))
            (λ _. Safe-bind (malloc-At laws c (text ++ rest) _) λ found.
              Safe-if found (λ _. deliver_text-Gives text _) (λ _. Safe-raise _ (λ s h. tt)))
            (λ e. empty-Gives text e))

  deliver_colors-Gives :
      (first : ℕ) (colors : List Color)
      → All IsColor colors
      → Gives
          (At laws c rest)
          (λ _. Delivers (color_map first colors))
          (deliver_colors first (length colors) (color_bytes colors))
  unfolding deliver_colors
  deliver_colors-Gives first colors are =
      let (reds, greens, blues) = color_channel-channel colors are in
      let m = color_map first colors in
      rw (reds, greens, blues)
        (Safe-bind (malloc-At laws c rest _) λ red. Safe-bind (malloc-At laws c rest _) λ green.
          Safe-bind (malloc-At laws c rest _) λ blue.
            Safe-if (red && (green && blue))
              (λ _. Safe-bind (notify-Delivers m) λ _. Safe-bind (free-Delivers m) λ _.
                Safe-bind (free-Delivers m) λ _.
                  Safe-bind (free-Delivers m)
                    λ _. Safe-bind (free-Delivers m) λ _. Safe-pure tt (λ s h. h))
              (λ _. Safe-bind (Gives-any _ _) λ _. Safe-bind (Gives-any _ _) λ _.
                Safe-bind (Gives-any _ _)
                  λ _. Safe-bind (Gives-any _ _) λ _. Safe-raise _ (λ s h. tt)))

  -- Nobody asks for the colors.
  unasked :
      (first : ℕ) (colors : List Color)
      → Gives
          (λ s. At laws c rest s × (false ≡ s.client.callbacks.color_map_update))
          (λ _. Delivers (color_map first colors))
          free
  unasked first colors = record {
    at = λ s h.
        let unset : c.callbacks.color_map_update ≡ false =
          ap (λ (d : Client). d.callbacks.color_map_update) (sym h.0.0) ∙ sym h.1 in
        (s, h.0, rw unset (refl, refl));
  }

  color_map-Gives :
      (pad first : ℕ) (colors : List Color)
      → IsMessage (color_map first colors)
      → Gives
          (At laws c (
            (pad ∷ (write_u16 first ++ (write_u16 (length colors) ++ color_bytes colors))) ++ rest))
          (λ _. Delivers (color_map first colors))
          handle_color_map_entries
  unfolding handle_color_map_entries write_u16
  color_map-Gives pad first colors valid =
      let header = pad ∷ (write_u16 first ++ write_u16 (length colors)) in
      let number : read_u16 (drop 3 header) ≡ length colors =
        read_u16-write_u16 (length colors) [] valid.1 in
      let start : read_u16 (drop 1 header) ≡ first = read_u16-write_u16 first _ valid.0 in
      let size : length (color_bytes colors) ≡ mul_size (length colors) 6 =
        omega (arith, length-color_bytes colors, valid.1) in
      Safe-bind (recv-At laws c header (color_bytes colors ++ rest) 5 refl) λ b. Safe-assume λ e.
        rw (e, number, start)
          (Safe-bind (malloc-At laws c (color_bytes colors ++ rest) _) λ found.
            Safe-if found
              (λ _. Safe-bind (recv_or_free-At laws c (color_bytes colors) rest _ _ size) λ block.
                Safe-assume λ same. rw same (
                  Safe-bind (Safe-gets (λ s. s.client.callbacks.color_map_update)) λ set.
                    Safe-if set
                      (λ _. Safe-pre (λ s q. q.0) (deliver_colors-Gives first colors valid.2))
                      (λ off. Safe-pre (λ s q. (q.0, sym off ∙ q.1)) (unasked first colors))))
              (λ _. Safe-raise _ (λ s h. tt)))

  message-Gives :
      (pad pad2 pad3 : ℕ) (m : ServerMessage)
      → IsMessage m
      → Gives (At laws c (on_wire pad pad2 pad3 m ++ rest)) (λ _. Delivers m) recv_server_message
  unfolding recv_server_message handle_message
  message-Gives pad pad2 pad3 (color_map first colors) valid =
      Safe-bind (recv-At laws c (1 ∷ []) _ 1 refl)
        λ b. Safe-assume λ e. rw e (color_map-Gives pad first colors valid)
  message-Gives pad pad2 pad3 bell valid =
      Safe-bind (recv-At laws c (2 ∷ []) rest 1 refl) λ b. Safe-assume λ e. rw e bell-Gives
  message-Gives pad pad2 pad3 (cut_text text) valid =
      Safe-bind (recv-At laws c (3 ∷ []) _ 1 refl)
        λ b. Safe-assume λ e. rw e (cut_text-Gives pad pad2 pad3 text valid)

module _ {E : Type 0} ⦃sys : System E⦄ {input output : E → List ℕ} (laws : IsTame input output)
    (no_empty : (w : E) → (sys.malloc 0 w).0 ≡ false) where
  -- ovnc__recv_server_message, in an environment that meets `Session.IsTame` and where `malloc(0)`
  -- returns NULL, on a connected client whose framebuffer has its block, where the bytes to come begin
  -- with a SetColorMapEntries, Bell or ServerCutText as RFC 6143 has them, with any bytes as
  -- their padding (the text shorter than 2^32 - 1 bytes): there is no fault. Where it returns OVNC_OK and
  -- the callback for that message is set, the callback was called with what the message says, when the
  -- client was as it is before the message and exactly the message had been taken from the stream, and the
  -- client and the world are as this call has left them; where the callback is not set, the client is as
  -- before and exactly the message has been taken. The client is ready for the next message.
  pub recv_server_message-Delivers :
      (st : ClientState) (k pad pad2 pad3 : ℕ) (m : ServerMessage) (rest : List ℕ) (s : St E)
      → IsMessage m
      → input s.world ≡ on_wire pad pad2 pad3 m ++ rest
      → IsReady input st k s
      → Ends
          (λ _ s'.
            IsReady input st (k - 1) s' × Told laws s.client (callback_for m) (event_of m) rest s')
          (IsLinked input st k)
          (recv_server_message s)
  recv_server_message-Delivers st k pad pad2 pad3 m rest s valid coming ready =
      Ends-mono (recv_server_message s) (λ _ s' q. (q.0.0, q.1)) (λ s' x. x)
        (Yields-and _ _ _ (recv_server_message s)
          (recv_server_message-Ends laws no_empty st k s ready)
          ((message-Gives laws s.client rest pad pad2 pad3 m valid).at s (refl, coming)))
