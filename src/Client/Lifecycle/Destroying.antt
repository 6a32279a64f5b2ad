-- ===== src/Client/Lifecycle/Destroying.antt =====
-- ovnc_client_destroy frees what the client owns.
use libopenvnc.Base.{
  count, ℕ, ◌+◌, ◌-◌, ◌≡◌, refl, ap, ◌∙◌, Bool, true, false, Option, some, none, arith, not, ◌&&◌,
  is_some, if◌then◌else◌, ltb, ◌==ℤ◌, Bool-cases, inl, inr,
}
use libopenvnc.State.{Client, ClientState, Transport, invalid_socket}
use libopenvnc.Run.{St, System, pure, free, free_if}
use libopenvnc.Run.Safe.{
  Ends, Ends-mono, Safe-post, Safe, Safe-bind, Safe-if, Safe-pure, Safe-assume, Safe-modify,
  Safe-gets, Safe-pre,
}
use libopenvnc.Socket.{platform_cleanup}
use libopenvnc.Transport.{point_to, transport_close, destroy_pointed, transport_destroy}
use libopenvnc.Client.Lifecycle.{is_connected_state, disconnect, destroy}

-- The parts of a client that destroy looks at after a disconnect are those of `c`.
pub record SameBlocks (c d : Client) : Type 0 where
  pub callback : d.callbacks.alloc_framebuffer ≡ c.callbacks.alloc_framebuffer
  pub pixels : is_some d.framebuffer.pixels ≡ is_some c.framebuffer.pixels
  pub encodings : is_some d.encodings ≡ is_some c.encodings
  pub pixel_format : is_some d.pixel_format ≡ is_some c.pixel_format

-- The blocks that a client holds: itself and its host, the two copies of the configuration, the
-- framebuffer that the library has allocated, and the transport of a connected client.
abbrev pub blocks : Client → ℕ
blocks c =
    2
    + count (is_some c.pixel_format)
    + count (is_some c.encodings)
    + count (not c.callbacks.alloc_framebuffer && is_some c.framebuffer.pixels)
    + count (is_connected_state c.state && is_some c.transport)

same-point : (c d : Client) (t : Option Transport) → SameBlocks c d → SameBlocks c (point_to t d)
same-point c d t h = record {
  callback = h.callback;
  pixels = h.pixels;
  encodings = h.encodings;
  pixel_format = h.pixel_format;
}

module _ {E : Type 0} ⦃sys : System E⦄ (c : Client) where
  -- So many blocks are held, and the client's own are those of `c`.
  abbrev Holds : ℕ → St E → Type 0
  Holds n s = SameBlocks c s.client × (s.live ≡ n)

  free_if-Holds :
      (b : Bool) (n : ℕ) → Safe (Holds n) (λ _ s. Holds (n - count b) s) (λ _. ⊥) (free_if b)
  free_if-Holds true n = record { at = λ s q. (q.0, omega (arith, q.1)) }
  free_if-Holds false n = record { at = λ s q. (q.0, omega (arith, q.1)) }

  free-Holds : (n : ℕ) → Safe (Holds n) (λ _ s. Holds (n - 1) s) (λ _. ⊥) free
  free-Holds n = record { at = λ s q. (q.0, omega (arith, q.1)) }

  transport_close-Holds :
      (t : Transport) (n : ℕ) → Safe (Holds n) (λ _ s. Holds n s) (λ _. ⊥) (transport_close t)
  unfolding transport_close
  transport_close-Holds t n = record {
    at = λ s h. elim (Bool-cases (t.sock ==ℤ invalid_socket)) [
      | inl unset ↦ rw unset h
      | inr set ↦ rw set (same-point c s.client _ h.0, h.1)
    ];
  }

  destroy_pointed-Holds :
      (o : Option Transport) (n : ℕ)
      → Safe (Holds n) (λ _ s. Holds (n - count (is_some o)) s) (λ _. ⊥) (destroy_pointed o)
  destroy_pointed-Holds none n = record { at = λ s q. (q.0, omega (arith, q.1)) }
  destroy_pointed-Holds (some t) n = Safe-bind (transport_close-Holds t n) λ _. free-Holds n

  transport_destroy-Holds :
      (n : ℕ)
      → Safe
          (λ s. Holds n s × (s.client.transport ≡ c.transport))
          (λ _ s. Holds (n - count (is_some c.transport)) s)
          (λ _. ⊥)
          transport_destroy
  unfolding transport_destroy
  transport_destroy-Holds n = record {
    at = λ s h.
        let same : count (is_some s.client.transport) ≡ count (is_some c.transport) =
          ap (λ o. count (is_some o)) h.1 in
        Ends-mono (destroy_pointed s.client.transport s) (λ _ s' q. (q.0, omega (arith, q.1, same)))
          (λ s' x. x) ((destroy_pointed-Holds s.client.transport n).at s h.0);
  }

  platform_cleanup-Holds : (n : ℕ) → Safe (Holds n) (λ _ s. Holds n s) (λ _. ⊥) platform_cleanup
  unfolding platform_cleanup
  platform_cleanup-Holds n = record {
    at = λ s h. elim (Bool-cases (ltb 0 s.init_count)) [
      | inl some_left ↦ rw some_left h
      | inr last ↦ rw last h
    ];
  }

  disconnect-Holds :
      (n : ℕ)
      → Safe
          (λ s. Holds n s × (s.client.transport ≡ c.transport) × (s.client.state ≡ c.state))
          (λ _ s. Holds (n - count (is_connected_state c.state && is_some c.transport)) s)
          (λ _. ⊥)
          disconnect
  unfolding disconnect
  disconnect-Holds n = Safe-bind (Safe-gets (λ s. s.client.state)) λ state.
      Safe-pre {P = λ s. (Holds n s × (s.client.transport ≡ c.transport)) × (state ≡ c.state)}
        (λ s q. ((q.0.0, q.0.1), q.1 ∙ q.0.2))
        (Safe-assume λ (e : state ≡ c.state).
          let same : is_connected_state state ≡ is_connected_state c.state =
            ap is_connected_state e in
          rw (← same) (
            Safe-if (is_connected_state state)
              (λ on. rw on (
                Safe-bind (transport_destroy-Holds n) λ _.
                  let left = n - count (is_some c.transport) in
                  Safe-bind
                    (Safe-modify {Q = λ _ s. Holds left s} _
                      (λ s q. (same-point c s.client none q.0, q.1)))
                    λ _.
                      Safe-bind
                        (Safe-modify {Q = λ _ s. Holds left s} _ (λ s q. (
                          record {
                            callback = q.0.callback;
                            pixels = q.0.pixels;
                            encodings = q.0.encodings;
                            pixel_format = q.0.pixel_format;
                          },
                          q.1,
                        )))
                        λ _. platform_cleanup-Holds left))
              (λ off. rw off (Safe-pure tt (λ s q. (q.0.0, omega (arith, q.0.1)))))))

  blocks_facts :
      (d : Client) (m : ℕ) (s : St E) → Holds m s × (d ≡ s.client) → Holds m s × SameBlocks c d
  blocks_facts d m s q = (q.0, rw q.1 q.0.0)

  -- The disconnect of a client that is connected.
  closed-Holds :
      (n : ℕ) (state : ClientState)
      → Safe
          (λ s.
            (Holds n s × (s.client.transport ≡ c.transport) × (s.client.state ≡ c.state))
            × (state ≡ s.client.state))
          (λ _ s. Holds (n - count (is_connected_state c.state && is_some c.transport)) s)
          (λ _. ⊥)
          (if is_connected_state state then disconnect else pure tt)
  closed-Holds n state =
      Safe-if (is_connected_state state) (λ _. Safe-pre (λ s q. q.0) (disconnect-Holds n))
        (λ off. Safe-pure tt (λ s q.
          let same : is_connected_state state ≡ is_connected_state c.state =
            ap is_connected_state (q.1 ∙ q.0.2) in
          (q.0.0.0, rw (← same, off) (omega (arith, q.0.0.1)))))

  destroy-Safe :
      (n : ℕ)
      → Safe
          (λ s. Holds n s × (s.client.transport ≡ c.transport) × (s.client.state ≡ c.state))
          (λ _ s. s.live ≡ n - blocks c)
          (λ _. ⊥)
          destroy
  unfolding destroy
  destroy-Safe n = Safe-bind (Safe-gets (λ s. s.client.state)) λ state.
      Safe-bind (closed-Holds n state) λ _. Safe-bind (Safe-gets (λ s. s.client)) λ d.
        Safe-pre (blocks_facts d _) (
          Safe-assume λ same.
            let ours : count (not d.callbacks.alloc_framebuffer && is_some d.framebuffer.pixels)
                ≡ count (not c.callbacks.alloc_framebuffer && is_some c.framebuffer.pixels) =
              rw (same.callback, same.pixels) refl in
            let list : count (is_some d.encodings) ≡ count (is_some c.encodings) =
              ap count same.encodings in
            let fmt : count (is_some d.pixel_format) ≡ count (is_some c.pixel_format) =
              ap count same.pixel_format in
            Safe-bind (free_if-Holds _ _) λ _. Safe-bind (free_if-Holds _ _) λ _.
              Safe-bind (free_if-Holds _ _) λ _.
                Safe-bind (free-Holds _)
                  λ _. Safe-post (λ _ s q. omega (arith, q.1, ours, list, fmt)) (free-Holds _))

module _ {E : Type 0} ⦃sys : System E⦄ where
  -- ovnc_client_destroy always returns, without a fault, and frees as many blocks as the client holds:
  -- itself and its host, the copies of the configuration, the framebuffer unless the application
  -- allocates it, and the transport of a connected client.
  pub destroy-Frees :
      (s : St E) → Ends (λ _ s'. s'.live ≡ s.live - blocks s.client) (λ _. ⊥) (destroy s)
  destroy-Frees s = (destroy-Safe s.client s.live).at s (
    (record { callback = refl; pixels = refl; encodings = refl; pixel_format = refl }, refl),
    refl,
    refl,
  )
