-- ===== src/Client/Heap/Reconnect.antt =====
-- do_initialization of src/protocol/ovnc_handshake.c on a client that has a framebuffer already, which
-- is what a failed ovnc_client_connect leaves.
use libopenvnc.Base.{
  ℕ, ◌+◌, ◌≡◌, ap, Bool, true, false, not, ◌&&◌, some, none, arith, count, is_some, if◌then◌else◌,
}
use libopenvnc.Run.{St, System, malloc, held}
use libopenvnc.Run.Safe.{Ends, EndsOr, Safe-bind, Safe-if, Safe-pure, Safe-raise, Safe-modify}
use libopenvnc.Encoding.{zeroed, set_framebuffer}
use libopenvnc.Handshake.Init.{allocate}
use libopenvnc.Client.Heap.{Owns}

module _ {E : Type 0} ⦃sys : System E⦄ where
  -- The framebuffer is the library's, and is there or not.
  abbrev Shows : Bool → ℕ → St E → Type 0
  Shows b n s =
      Owns n s
      × (s.client.callbacks.alloc_framebuffer ≡ false)
      × (is_some s.client.framebuffer.pixels ≡ b)

  held-Shows :
      (n : ℕ) (s : St E) (X : St E → Type 0) (r : Bool × E)
      → Shows true n s
      → EndsOr ⊥ (λ b. Shows true (n + count b)) X (held r s)
  held-Shows n s X (true, w) h = (omega (arith, h.0), h.1, h.2)
  held-Shows n s X (false, w) h = (omega (arith, h.0), h.1, h.2)

  -- The pointer is overwritten with what `calloc` returned.
  overwritten :
      (n size : ℕ) (found : Bool) (s : St E)
      → Shows true (n + count found) s
      → Owns (n + 1) (record s {
        client =
            set_framebuffer
              (λ fb. record fb { pixels = if found then some (zeroed size) else none })
              s.client;
      })
  overwritten n size true s h = omega (
    arith,
    h.0,
    ap (λ (b : Bool). count (not b && is_some s.client.framebuffer.pixels)) h.1,
    ap (λ (b : Bool). count (not b && true)) h.1,
    ap count h.2,
  )
  overwritten n size false s h = omega (
    arith,
    h.0,
    ap (λ (b : Bool). count (not b && is_some s.client.framebuffer.pixels)) h.1,
    ap (λ (b : Bool). count (not b && false)) h.1,
    ap count h.2,
  )

  -- The part of do_initialization that allocates the framebuffer, on a client without
  -- `alloc_framebuffer` that has a framebuffer already, has no fault; but where the heap held the
  -- client's blocks and `n` others before, it holds the client's blocks and n + 1 others after it,
  -- whether it returns OVNC_OK or OVNC_ERR_NOMEM: the old block is nobody's.
  pub allocate-Loses :
      (n size : ℕ) (s : St E)
      → Owns n s
      → s.client.callbacks.alloc_framebuffer ≡ false
      → is_some s.client.framebuffer.pixels ≡ true
      → Ends (λ _. Owns (n + 1)) (Owns (n + 1)) (allocate false size s)
  unfolding allocate malloc
  allocate-Loses n size s owns own there =
      (Safe-bind {P = Shows true n} {Q = λ _. Shows true n} (Safe-modify _ (λ t h. h)) λ _.
          Safe-bind {Q = λ b. Shows true (n + count b)}
            (record { at = λ t h. held-Shows n t (Owns (n + 1)) (sys.malloc size t.world) h })
            λ found.
              Safe-bind {Q = λ _. Owns (n + 1)}
                (Safe-modify _ (λ t h. overwritten n size found t h))
                λ _. Safe-if found (λ _. Safe-pure tt (λ t h. h)) (λ _. Safe-raise _ (λ t h. h))).at
        s (owns, own, there)
