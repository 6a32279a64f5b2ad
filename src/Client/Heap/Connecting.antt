-- ===== src/Client/Heap/Connecting.antt =====
-- The heap blocks through ovnc_client_connect of src/client/ovnc_client.c, of a client that has no
-- framebuffer yet.
use libopenvnc.Base.{ℕ, ◌+◌, ◌≡◌, refl, ap, ◌∙◌, Bool, false, Option, List, is_some, count, arith}
use libopenvnc.State.{Client, Transport, created, connected}
use libopenvnc.Run.{St, System}
use libopenvnc.Run.Both.{Safe-both}
use libopenvnc.Run.Safe.{
  Ends, Safe, Safe-bind, Safe-raise, Safe-pure, Safe-modify, Safe-gets, Safe-pre, Safe-err,
  Safe-mono, Safe-assume, Safe-exists, Safe-try,
}
use libopenvnc.Socket.{platform_init}
use libopenvnc.Session.{IsReady, IsTame}
use libopenvnc.Handshake.{handshake}
use libopenvnc.Handshake.Opening.{HasEncodings, IsOpening}
use libopenvnc.Handshake.Safety.{handshake-Safe}
use libopenvnc.Client.Lifecycle.{connect}
use libopenvnc.Client.Lifecycle.Closing.{platform_cleanup-Safe}
use libopenvnc.Client.Lifecycle.Connecting.{
  IsFresh, HasTransport, transport_create-Safe, transport_connect-Safe,
}
use libopenvnc.Client.Heap.{Owns, IsFrugal}
use libopenvnc.Client.Heap.Linking.{
  unlinked, transport_connect-Early, transport_create-Early, Undone, or_undo-Both,
}
use libopenvnc.Client.Heap.Starting.{Early, handshake-Goes}
use libopenvnc.Client.Heap.Sessions.{cleanup-Moves}

module _ {E : Type 0} ⦃sys : System E⦄ {input output : E → List ℕ} (laws : IsTame input output)
    (kept : (s : St E) → HasEncodings s.client → HasEncodings (sys.alloc_framebuffer s).1.client)
    (frugal : IsFrugal E) (app : Bool) (n : ℕ) where
  -- What ovnc_client_connect starts from, and what it ends in.
  abbrev Starts : St E → Type 0
  Starts s = IsFresh s.client × Early app n s

  abbrev Stays : St E → Type 0
  Stays s = IsFresh s.client × Owns n s

  -- The client is connected, and its transport is one of its own blocks.
  joined :
      (k : ℕ) (s : St E)
      → IsReady input created k s
      → Owns (n + 1) s
      → Owns n (record s { client = record s.client { state = connected } })
  joined k s ready owns = omega (
    arith,
    owns,
    unlinked s.client ready.linked.state,
    ap (λ (o : Option Transport). count (is_some o)) ready.linked.transport.1,
  )

  linked_handshake :
      (k : ℕ)
      → Safe
          (λ s. IsOpening input HasEncodings k s × Early app (n + 1) s)
          (λ _ s. IsReady input created k s × Owns (n + 1) s)
          (Undone n)
          handshake
  linked_handshake k =
      Safe-mono (λ s q. q) (λ _ s q. (q.0.0, q.1))
        (λ s x. (((x.0.0.state, x.0.1), x.0.0.transport), x.1))
        (Safe-both (handshake-Safe laws k kept) (handshake-Goes frugal (n + 1) app))

  connect-Stays :
      Safe Starts (λ _ s. ((k : ℕ) × IsReady input connected k s) × Owns n s) Stays connect
  unfolding connect platform_init
  connect-Stays = Safe-bind (Safe-gets (λ s. s.client)) λ c.
      Safe-pre {P = λ s. Starts s × (c.state ≡ created)}
        (λ s q. (q.0, ap (λ (d : Client). d.state) q.1 ∙ q.0.0.0.state))
        (Safe-assume λ e. rw e (
          Safe-bind {Q = λ _. Starts} (record { at = λ s q. q })
            λ _.
              Safe-bind
                (Safe-try {Q = λ s. HasTransport s × Early app (n + 1) s} {Y = Starts} _
                  (Safe-both (transport_create-Safe laws kept) (transport_create-Early app n))
                  (Safe-pure tt (λ s q. q))
                  (λ err.
                    Safe-pre {P = Stays} (λ s q. (q.0, q.1.0))
                      (Safe-bind {Q = λ _. Stays}
                        (Safe-err (λ s x. x)
                          (Safe-both (platform_cleanup-Safe IsFresh) (cleanup-Moves n n)))
                        λ _. Safe-raise err (λ s q. q))))
                λ _.
                  Safe-bind
                    {Q = λ _ s. (k : ℕ) × (IsOpening input HasEncodings k s × Early app (n + 1) s)}
                    (or_undo-Both n (
                      Safe-mono (λ s q. q) (λ _ s q. (q.0.0, (q.0.1, q.1))) (λ s x. (x.0, x.1.0))
                        (Safe-both (transport_connect-Safe input c.host c.port c.connect_timeout_ms)
                          (transport_connect-Early app (n + 1) c.host c.port
                            c.connect_timeout_ms))))
                    λ _. Safe-exists λ k.
                      Safe-bind {Q = λ _ s. IsReady input created k s × Owns (n + 1) s}
                        (or_undo-Both n (linked_handshake k))
                        λ _. Safe-modify _ (λ s q. (
                          (
                            k,
                            record {
                              linked = record {
                                transport = q.0.linked.transport;
                                state = refl;
                                pending = q.0.linked.pending;
                              };
                              geometry = q.0.geometry;
                              fits = q.0.fits;
                            },
                          ),
                          joined k s q.0 q.1,
                        ))))

module _ {E : Type 0} ⦃sys : System E⦄ {input output : E → List ℕ} (laws : IsTame input output)
    (kept : (s : St E) → HasEncodings s.client → HasEncodings (sys.alloc_framebuffer s).1.client)
    (frugal : IsFrugal E) where
  -- ovnc_client_connect, in an environment that meets `Session.IsTame`, whose `alloc_framebuffer` leaves
  -- the configured list of encodings alone and whose callbacks keep the count of blocks (`IsFrugal`), on
  -- a client as ovnc_client_create makes it, without a framebuffer: there is no fault, and where the heap
  -- held the client's blocks and `n` others before, it holds the client's blocks and the same number of
  -- others after it. With OVNC_OK the client is connected, and its blocks are the transport and the
  -- framebuffer besides; with an error, at whatever step, it is CREATED and its transport is freed.
  pub connect-Balanced :
      (n : ℕ) (s : St E)
      → IsFresh s.client
      → is_some s.client.framebuffer.pixels ≡ false
      → Owns n s
      → Ends
          (λ _ s'. ((k : ℕ) × IsReady input connected k s') × Owns n s')
          (λ s'. IsFresh s'.client × Owns n s')
          (connect s)
  connect-Balanced n s fresh bare owns =
      (connect-Stays laws kept frugal s.client.callbacks.alloc_framebuffer n).at s
        (fresh, (owns, record { pixels = bare; state = fresh.0.state; callback = refl }))
