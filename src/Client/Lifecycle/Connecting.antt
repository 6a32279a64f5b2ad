-- ===== src/Client/Lifecycle/Connecting.antt =====
-- ovnc_client_connect ends without a fault: with a session that is ready, or with a client that can
-- be connected again.
use libopenvnc.Base.{ℕ, [], ◌∷◌, ◌≡◌, refl, List, Option, some, none, length, arith}
use libopenvnc.Error.{Error, connection_refused}
use libopenvnc.State.{Client, Transport, Socket, created, connected}
use libopenvnc.Run.{Outcome, ok, fail, crash, St, System, Action, Address}
use libopenvnc.Run.Safe.{
  Ends, Safe, Safe-exists, Safe-err, Safe-post, Safe-bind, Safe-if, Safe-raise, Safe-pure,
  Safe-assume, Safe-modify, Safe-gets, Safe-pre, Safe-try,
}
use libopenvnc.Socket.{platform_init}
use libopenvnc.Socket.Connect.{
  Attempt, made, next, try_address, connect_loop, release, resolved, socket_connect,
}
use libopenvnc.Transport.{transport_create, transport_connect, connected_to, point_to}
use libopenvnc.Session.{IsReady, IsTame}
use libopenvnc.Session.Local.{IsLocal}
use libopenvnc.Session.Primitives.{malloc-Safe}
use libopenvnc.Session.Reads.{on_transport-Ends}
use libopenvnc.Handshake.Opening.{HasEncodings, IsOpening}
use libopenvnc.Handshake.Safety.{handshake-Safe}
use libopenvnc.Client.Lifecycle.{undo_connect, or_undo, connect}
use libopenvnc.Client.Lifecycle.Closing.{transport_destroy-Safe, platform_cleanup-Safe}

-- A client that can be connected: as ovnc_client_create makes it.
pub record IsIdle (c : Client) : Type 0 where
  pub state : c.state ≡ created
  pub transport : c.transport ≡ none

-- What ovnc_client_connect asks of the client.
abbrev pub IsFresh : Client → Type 0
IsFresh c = IsIdle c × HasEncodings c

-- The list of encodings is still there, and the state is CREATED.
abbrev pub IsNew : Client → Type 0
IsNew c = (c.state ≡ created) × HasEncodings c

IsNew-kept : (c : Client) (t : Option Transport) → IsNew c → IsNew (point_to t c)
IsNew-kept c t h = (h.0, record { enough = h.1.enough; bound = h.1.bound })

module _ {E : Type 0} ⦃sys : System E⦄ where
  -- A connection is made, or there is an error code.
  abbrev Returns : Socket × Outcome Unit × E → Type 0
  Returns (sock, ok _, w) = Unit
  Returns (sock, fail _, w) = Unit
  Returns (sock, crash _, w) = ⊥

  attempt-Returns :
      (go : Error → E → Socket × Outcome Unit × E) (r : Attempt × E)
      → ((err : Error) (w : E) → Returns (go err w))
      → Returns (elim r.0 [ made sock ↦ (sock, ok tt, r.1) | next err ↦ go err r.1 ])
  attempt-Returns go (made sock, w) h = tt
  attempt-Returns go (next err, w) h = h err w

  connect_loop-Returns :
      (res : List Address) (timeout_ms : ℕ) (err : Error) (w : E)
      → Returns (connect_loop res timeout_ms err w)
  unfolding connect_loop
  connect_loop-Returns [] timeout_ms err w = tt
  connect_loop-Returns (addr ∷ rest) timeout_ms err w =
      attempt-Returns (connect_loop rest timeout_ms) (try_address addr timeout_ms err w)
        (connect_loop-Returns rest timeout_ms)

  release-Returns :
      (res : List Address) (r : Socket × Outcome Unit × E) → Returns r → Returns (release res r)
  release-Returns res (sock, ok _, w) h = h
  release-Returns res (sock, fail _, w) h = h
  release-Returns res (sock, crash _, w) h = h

  resolved-Returns :
      (timeout_ms : ℕ) (r : Option (List Address) × E) → Returns (resolved timeout_ms r)
  resolved-Returns timeout_ms (none, w) = tt
  resolved-Returns timeout_ms (some res, w) =
      release-Returns res (connect_loop res timeout_ms connection_refused w)
        (connect_loop-Returns res timeout_ms connection_refused w)

  -- The state with a transport, which is connected or not.
  abbrev pub HasTransport : St E → Type 0
  HasTransport s = IsNew s.client × ((t : Transport) × (s.client.transport ≡ some t))

  connected_to-Ends :
      (input : E → List ℕ) (s : St E) (r : Socket × Outcome Unit × E)
      → IsNew s.client
      → Returns r
      → Ends (λ _ s'. (k : ℕ) × IsOpening input HasEncodings k s') HasTransport (connected_to s r)
  connected_to-Ends input s (sock, ok _, w) h g = (
    length (input w),
    (
      record { transport = (_, refl); state = h.0; pending = omega arith },
      record { enough = h.1.enough; bound = h.1.bound },
    ),
  )
  connected_to-Ends input s (sock, fail _, w) h g =
      ((h.0, record { enough = h.1.enough; bound = h.1.bound }), (_, refl))
  connected_to-Ends input s (sock, crash _, w) h g = g

  pub transport_connect-Safe :
      (input : E → List ℕ) (host : List ℕ) (port timeout_ms : ℕ)
      → Safe HasTransport
          (λ _ s. (k : ℕ) × IsOpening input HasEncodings k s)
          HasTransport
          (transport_connect host port timeout_ms)
  unfolding transport_connect socket_connect
  transport_connect-Safe input host port timeout_ms = record {
    at = λ s h.
        on_transport-Ends _ _ s.client.transport
          (λ t s'. connected_to s' (socket_connect host port timeout_ms s'.world)) s h.1
          (λ t.
            connected_to-Ends input s (socket_connect host port timeout_ms s.world) h.0
              (resolved-Returns timeout_ms (sys.getaddrinfo host port s.world)));
  }

  pub undo_connect-Safe :
      (e : Error) {Q : Unit {0} → St E → Type 0}
      → Safe (λ s. IsNew s.client) Q (λ s. IsFresh s.client) (undo_connect e)
  unfolding undo_connect
  undo_connect-Safe e = Safe-bind (transport_destroy-Safe IsNew IsNew-kept) λ _.
      Safe-bind
        (Safe-modify {Q = λ _ s. IsFresh s.client} _ (λ s h. (
          record { state = h.0; transport = refl },
          record { enough = h.1.enough; bound = h.1.bound },
        )))
        λ _. Safe-bind (platform_cleanup-Safe IsFresh) λ _. Safe-raise e (λ s h. h)

  -- A step after which ovnc_client_connect cleans up if it fails.
  or_undo-Safe :
      {P Q : St E → Type 0} {m : Action E Unit}
      → Safe P (λ _ s. Q s) (λ s. IsNew s.client) m
      → Safe P (λ _ s. Q s) (λ s. IsFresh s.client) (or_undo m)
  or_undo-Safe h = Safe-try _ h (Safe-pure tt (λ s q. q)) (λ e. undo_connect-Safe e)

module _ {E : Type 0} ⦃sys : System E⦄ {input output : E → List ℕ} (laws : IsTame input output)
    (kept : (s : St E)
      → HasEncodings s.client
      → HasEncodings (sys.alloc_framebuffer s).1.client) where
  IsFresh-IsLocal : IsLocal input (λ s. IsFresh s.client)
  IsFresh-IsLocal = record { moves = λ s w l le q. q }

  pub transport_create-Safe :
      Safe {E = E}
        (λ s. IsFresh s.client)
        (λ _ s. HasTransport s)
        (λ s. IsFresh s.client)
        transport_create
  unfolding transport_create
  transport_create-Safe = Safe-bind (malloc-Safe laws IsFresh-IsLocal _) λ found.
      Safe-if found
        (λ _.
          Safe-modify _
            (λ s q. ((q.0.state, record { enough = q.1.enough; bound = q.1.bound }), (_, refl))))
        (λ _. Safe-raise _ (λ s q. q))

  IsFresh-facts :
      (c : Client) (s : St E)
      → IsFresh s.client × (c ≡ s.client)
      → IsFresh s.client × (c.state ≡ created)
  IsFresh-facts c s q = (q.0, rw q.1 q.0.0.state)

  connect-Safe :
      Safe {E = E}
        (λ s. IsFresh s.client)
        (λ _ s. (k : ℕ) × IsReady input connected k s)
        (λ s. IsFresh s.client)
        connect
  unfolding connect platform_init
  connect-Safe = Safe-bind (Safe-gets (λ s. s.client)) λ c. Safe-pre (IsFresh-facts c) (
      Safe-assume λ (e : c.state ≡ created). rw e (
        Safe-bind {Q = λ _ s. IsFresh s.client} (record { at = λ s q. q })
          λ _.
            Safe-bind
              (Safe-try {Q = HasTransport} _ transport_create-Safe (Safe-pure tt (λ s q. q))
                (λ err. Safe-bind (platform_cleanup-Safe IsFresh) λ _. Safe-raise err (λ s q. q)))
              λ _.
                Safe-bind
                  (or_undo-Safe (
                    Safe-err (λ s h. h.0)
                      (transport_connect-Safe input c.host c.port c.connect_timeout_ms)))
                  λ _. Safe-exists λ k.
                    Safe-bind
                      (or_undo-Safe {Q = IsReady input created k} (
                        Safe-post (λ _ s q. q.0)
                          (Safe-err (λ s x. (x.0.state, x.1)) (handshake-Safe laws k kept))))
                      λ _. Safe-modify _ (λ s q. (
                        k,
                        record {
                          linked = record {
                            transport = q.linked.transport;
                            state = refl;
                            pending = q.linked.pending;
                          };
                          geometry = q.geometry;
                          fits = q.fits;
                        },
                      ))))

  -- ovnc_client_connect, in an environment that meets `Session.IsTame` and whose `alloc_framebuffer`
  -- leaves the configured list of encodings alone, on a client as ovnc_client_create makes it (its list of
  -- encodings has as many elements as `num_encodings` says, below 2 ^ 61): there is no fault,
  -- whatever the server sends. Where it returns OVNC_OK, the client is connected and its framebuffer
  -- has a block of width * height * bytes per pixel bytes; where it returns an error, the state is
  -- CREATED and the transport is NULL again, and the list of encodings has its elements: it can be
  -- called again.
  pub connect-Ends :
      (s : St E)
      → IsIdle s.client
      → HasEncodings s.client
      → Ends (λ _ s'. (k : ℕ) × IsReady input connected k s') (λ s'. IsFresh s'.client) (connect s)
  connect-Ends s idle list = connect-Safe.at s (idle, list)
