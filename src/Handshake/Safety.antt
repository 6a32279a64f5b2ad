-- ===== src/Handshake/Safety.antt =====
-- The whole handshake of src/protocol/ovnc_handshake.c ends without a fault.
use libopenvnc.Base.{
  ℕ, ◌≤◌, ◌<◌, ◌≡◌, ◌^◌, refl, List, Option, arith, ltb, ℤ, length, drop, some, none, inl, inr,
}
use libopenvnc.Wire.{read_u32}
use libopenvnc.Wire.RoundTrip.{read_u16-lt}
use libopenvnc.Pixel.{PixelFormat}
use libopenvnc.Pixel.RoundTrip.{bytes_per_pixel-cases}
use libopenvnc.State.{Client, Framebuffer, ConnectionInfo, created}
use libopenvnc.Run.{St, System}
use libopenvnc.Run.Safe.{
  Safe, Safe-err, Safe-bind, Safe-if, Safe-raise, Safe-pure, Safe-assume, Safe-modify, Safe-gets,
  Safe-pre,
}
use libopenvnc.Session.{IsReady, IsTame}
use libopenvnc.Session.Local.{IsHeld, IsHeld-and, IsReady-IsHeld}
use libopenvnc.Session.Primitives.{transport_recv-Safe, transport_send-Safe}
use libopenvnc.Encoding.{set_framebuffer}
use libopenvnc.Messages.{send_set_pixel_format}
use libopenvnc.Messages.Safety.{send_set_encodings-Safe}
use libopenvnc.Handshake.{send_format, send_encodings, send_initial_messages, handshake}
use libopenvnc.Handshake.Info.{set_conn_info}
use libopenvnc.Handshake.Init.{active_format, init_framebuffer, do_initialization}
use libopenvnc.Handshake.ServerName.{read_name-Safe}
use libopenvnc.Handshake.Block.{Framed, allocate-Safe}
use libopenvnc.Handshake.Opening.{
  HasEncodings, negotiate_version-Step, negotiate_security-Step, check_security_result-Step,
  IsOpening, IsOpening-IsHeld,
}

-- The size that the server has announced is that of `uint16_t` fields.
pub record HasSize (c : Client) : Type 0 where
  pub width : c.conn_info.width < 2 ^ 16
  pub height : c.conn_info.height < 2 ^ 16

-- What is kept from the creation of the client to the first messages: the list of encodings.
module _ {E : Type 0} ⦃sys : System E⦄ {input output : E → List ℕ} (laws : IsTame input output)
    (k : ℕ)
    (kept : (s : St E)
      → HasEncodings s.client
      → HasEncodings (sys.alloc_framebuffer s).1.client) where
  list_kept :
      (f : Framebuffer → Framebuffer) (c : Client)
      → HasEncodings c
      → HasEncodings (set_framebuffer f c)
  list_kept f c h = record { enough = h.enough; bound = h.bound }

  abbrev Counted : Client → Type 0
  Counted c = HasEncodings c × HasSize c

  size_facts :
      (c : Client) (s : St E)
      → IsOpening input Counted k s × (c ≡ s.client)
      → IsOpening input HasEncodings k s × HasSize c
  size_facts c s q = ((q.0.0, q.0.1.0), rw q.1 q.0.1.1)

  init_framebuffer-Safe :
      Safe
        (IsOpening input Counted k)
        (λ _ s. IsReady input created k s × HasEncodings s.client)
        (IsOpening input HasEncodings k)
        init_framebuffer
  unfolding init_framebuffer
  init_framebuffer-Safe = Safe-bind (Safe-gets (λ s. s.client)) λ c.
      let fmt = active_format c in
      let sized =
        Framed laws k HasEncodings kept list_kept c.conn_info.width c.conn_info.height fmt in
      let rest =
        allocate-Safe laws k HasEncodings kept list_kept c.callbacks.alloc_framebuffer
          c.conn_info.width c.conn_info.height in
      Safe-pre (size_facts c) (
        Safe-assume λ size.
          Safe-bind
            (Safe-modify {Q = λ _ s. sized s} _ (λ s q. (
              record { transport = q.0.transport; state = q.0.state; pending = q.0.pending },
              record { enough = q.1.enough; bound = q.1.bound },
              refl,
              refl,
              refl,
            )))
            λ _. elim (bytes_per_pixel-cases fmt) [
              | inl one ↦ rw one.0 (rest 1 fmt size.width size.height one.0 (omega arith))
              | inr (inl two) ↦ rw two.0 (rest 2 fmt size.width size.height two.0 (omega arith))
              | inr (inr (inl four)) ↦
                  rw four.0 (rest 4 fmt size.width size.height four.0 (omega arith))
              | inr (inr (inr other)) ↦ rw other.0 (Safe-raise _ (λ s q. (q.0, q.1)))
            ])

  do_initialization-Safe :
      Safe
        (IsOpening input HasEncodings k)
        (λ _ s. IsReady input created k s × HasEncodings s.client)
        (IsOpening input HasEncodings k)
        do_initialization
  unfolding do_initialization
  do_initialization-Safe =
      let held = IsOpening-IsHeld laws k HasEncodings in
      Safe-bind (Safe-gets (λ s. s.client.shared)) λ shared.
        Safe-pre (λ s q. q.0)
          (Safe-bind (transport_send-Safe laws held _) λ _.
            Safe-bind (transport_recv-Safe laws held 24) λ header. Safe-assume λ _.
              Safe-bind
                (Safe-modify {Q = λ _ s. IsOpening input Counted k s} _ (λ s q. (
                  record { transport = q.0.transport; state = q.0.state; pending = q.0.pending },
                  (
                    record { enough = q.1.enough; bound = q.1.bound },
                    record { width = read_u16-lt header; height = read_u16-lt (drop 2 header) },
                  ),
                )))
                λ _.
                  Safe-bind
                    (Safe-err (λ s x. (x.0, x.1.0))
                      (read_name-Safe laws k Counted
                        (λ bs c g. (
                          record { enough = g.0.enough; bound = g.0.bound },
                          record { width = g.1.width; height = g.1.height },
                        ))
                        (λ last flag c g. (
                          record { enough = g.0.enough; bound = g.0.bound },
                          record { width = g.1.width; height = g.1.height },
                        ))
                        (read_u32 (drop 20 header))))
                    λ _. init_framebuffer-Safe)

module _ {E : Type 0} ⦃sys : System E⦄ {input output : E → List ℕ} (laws : IsTame input output)
    (k : ℕ) where
  -- A client with its framebuffer, before the first messages are sent.
  abbrev IsSetUp : St E → Type 0
  IsSetUp s = IsReady input created k s × HasEncodings s.client

  SetUp-IsHeld : IsHeld input IsSetUp
  SetUp-IsHeld = IsHeld-and HasEncodings (IsReady-IsHeld created k)

  set_up-IsOpening : (s : St E) → IsSetUp s → IsOpening input HasEncodings k s
  set_up-IsOpening s q = (q.0.linked, q.1)

  send_format-Safe :
      (fmt : Option PixelFormat)
      → Safe IsSetUp (λ _ s. IsSetUp s) (IsOpening input HasEncodings k) (send_format fmt)
  unfolding send_set_pixel_format
  send_format-Safe none = Safe-pure tt (λ s q. q)
  send_format-Safe (some fmt) = Safe-err set_up-IsOpening (transport_send-Safe laws SetUp-IsHeld _)

  send_encodings-Safe :
      (o : Option (List ℤ)) (n : ℕ)
      → ((es : List ℤ) → o ≡ some es → n ≤ length es)
      → n < 2 ^ 61
      → Safe IsSetUp (λ _ s. IsSetUp s) (IsOpening input HasEncodings k) (send_encodings o n)
  send_encodings-Safe none n enough lt = Safe-pure tt (λ s q. q)
  send_encodings-Safe (some es) n enough lt =
      Safe-if (ltb 0 n)
        (λ _.
          Safe-err set_up-IsOpening
            (send_set_encodings-Safe laws SetUp-IsHeld es n (enough es refl) lt))
        (λ _. Safe-pure tt (λ s q. q))

  list_facts : (c : Client) (s : St E) → IsSetUp s × (c ≡ s.client) → IsSetUp s × HasEncodings c
  list_facts c s q = (q.0, rw q.1 q.0.1)

  send_initial_messages-Safe :
      Safe IsSetUp (λ _ s. IsSetUp s) (IsOpening input HasEncodings k) send_initial_messages
  unfolding send_initial_messages
  send_initial_messages-Safe = Safe-bind (Safe-gets (λ s. s.client.pixel_format)) λ fmt.
      Safe-pre (λ s q. q.0)
        (Safe-bind (send_format-Safe fmt) λ _. Safe-bind (Safe-gets (λ s. s.client)) λ c.
          Safe-pre (list_facts c) (
            Safe-assume
              λ facts. send_encodings-Safe c.encodings c.num_encodings facts.enough facts.bound))

module _ {E : Type 0} ⦃sys : System E⦄ {input output : E → List ℕ} (laws : IsTame input output)
    (k : ℕ)
    (kept : (s : St E)
      → HasEncodings s.client
      → HasEncodings (sys.alloc_framebuffer s).1.client) where
  -- ovnc__handshake, on the client that ovnc_client_connect has connected.
  pub handshake-Safe :
      Safe
        (IsOpening input HasEncodings k)
        (λ _ s. IsReady input created k s × HasEncodings s.client)
        (IsOpening input HasEncodings k)
        handshake
  unfolding handshake
  handshake-Safe =
      let keep : (f : ConnectionInfo → ConnectionInfo) (c : Client)
          → HasEncodings c
          → HasEncodings (set_conn_info f c) =
        λ f c h. record { enough = h.enough; bound = h.bound } in
      Safe-bind (negotiate_version-Step laws k HasEncodings keep) λ _.
        Safe-bind (negotiate_security-Step laws k HasEncodings keep) λ _.
          Safe-bind (check_security_result-Step laws k HasEncodings keep) λ _.
            Safe-bind (do_initialization-Safe laws k kept) λ _. send_initial_messages-Safe laws k
