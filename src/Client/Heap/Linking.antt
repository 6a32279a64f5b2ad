-- ===== src/Client/Heap/Linking.antt =====
-- The block of the transport in ovnc_client_connect of src/client/ovnc_client.c, and its end where
-- a step fails.
use mathlib.Core.Path.{subst}
use libopenvnc.Base.{
  ℕ, ◌+◌, ◌≡◌, ap, sym, Bool, ◌&&◌, Option, none, some, List, is_some, count, arith, ◌==ℤ◌,
  Bool-cases, inl, inr,
}
use libopenvnc.Error.{Error}
use libopenvnc.State.{Client, Transport, Socket, created, invalid_socket}
use libopenvnc.Run.{Outcome, ok, fail, crash, St, System, Action}
use libopenvnc.Run.Both.{Safe-both}
use libopenvnc.Run.Safe.{
  EndsOr, SafeOr, Safe, Safe-bind, Safe-raise, Safe-pure, Safe-modify, Safe-mono, Safe-try,
}
use libopenvnc.Socket.Connect.{socket_connect}
use libopenvnc.Transport.{
  point_to, on_transport, connected_to, transport_create, transport_connect, transport_close,
  destroy_pointed, transport_destroy,
}
use libopenvnc.Client.Lifecycle.{is_connected_state, undo_connect, or_undo}
use libopenvnc.Client.Lifecycle.Connecting.{IsFresh, HasTransport, undo_connect-Safe}
use libopenvnc.Client.Heap.{Owns}
use libopenvnc.Client.Heap.Counting.{malloc_if-Goes}
use libopenvnc.Client.Heap.Starting.{Early, Early-IsCount}
use libopenvnc.Client.Heap.Sessions.{cleanup-Moves}

-- Where the client is not connected, its transport is not counted.
pub unlinked :
    (c : Client) → c.state ≡ created → count (is_connected_state c.state && is_some c.transport) ≡ 0
unlinked c e = ap (λ (b : Bool). count (b && is_some c.transport)) (ap is_connected_state e)

module _ {E : Type 0} ⦃sys : System E⦄ (app : Bool) where
  repointed :
      (n : ℕ) (s : St E) (o : Option Transport) (w : E)
      → Early app n s
      → Early app n (record s { client = record s.client { transport = o }; world = w })
  repointed n s o w h = (
    omega (
      arith,
      h.0,
      unlinked s.client h.1.state,
      unlinked (record s.client { transport = o }) h.1.state,
    ),
    record { pixels = h.1.pixels; state = h.1.state; callback = h.1.callback },
  )

  connected_to-Early :
      (n : ℕ) (s : St E) (r : Socket × Outcome Unit × E)
      → Early app n s
      → EndsOr (Unit {0}) (λ _. Early app n) (Early app n) (connected_to s r)
  connected_to-Early n s (sock, ok _, w) h = repointed n s (some (record { sock = sock })) w h
  connected_to-Early n s (sock, fail _, w) h = repointed n s (some (record { sock = sock })) w h
  connected_to-Early n s (sock, crash _, w) h = tt

  on-Early :
      (n : ℕ) (host : List ℕ) (port timeout_ms : ℕ) (s : St E) (o : Option Transport)
      → Early app n s
      → EndsOr
          (Unit {0})
          (λ _. Early app n)
          (Early app n)
          (on_transport o
            (λ t s'. connected_to s' (socket_connect host port timeout_ms s'.world))
            s)
  on-Early n host port timeout_ms s none h = tt
  on-Early n host port timeout_ms s (some t) h =
      connected_to-Early n s (socket_connect host port timeout_ms s.world) h

  pub transport_connect-Early :
      (n : ℕ) (host : List ℕ) (port timeout_ms : ℕ)
      → SafeOr {E = E}
          (Unit {0})
          (Early app n)
          (λ _. Early app n)
          (Early app n)
          (transport_connect host port timeout_ms)
  unfolding transport_connect
  transport_connect-Early n host port timeout_ms = record {
    at = λ s h. on-Early n host port timeout_ms s s.client.transport h;
  }

  pub transport_create-Early :
      (n : ℕ)
      → SafeOr {E = E}
          (Unit {0})
          (Early app n)
          (λ _. Early app (n + 1))
          (Early app n)
          transport_create
  unfolding transport_create
  transport_create-Early n =
      malloc_if-Goes (Early-IsCount app) n n _
        (Safe-modify _ (λ s h. repointed (n + 1) s _ s.world h)) (Safe-raise _ (λ s h. h))

module _ {E : Type 0} ⦃sys : System E⦄ (n : ℕ) where
  -- The transport is still there, in a client that is not connected.
  abbrev pub Undone : St E → Type 0
  Undone s = HasTransport s × Owns (n + 1) s

  -- Its block is freed, and the pointer to it still to be cleared.
  abbrev Freed : St E → Type 0
  Freed s = Owns n s × (s.client.state ≡ created)

  transport_close-Owns :
      (t : Transport)
      → SafeOr {E = E}
          (Unit {0})
          (λ s. Owns (n + 1) s × (s.client.state ≡ created))
          (λ _ s. Owns (n + 1) s × (s.client.state ≡ created))
          (Owns n)
          (transport_close t)
  unfolding transport_close
  transport_close-Owns t = record {
    at = λ s h. elim (Bool-cases (t.sock ==ℤ invalid_socket)) [
      | inl unset ↦ rw unset h
      | inr set ↦ rw set (
        omega (
          arith,
          h.0,
          unlinked s.client h.1,
          unlinked (point_to (some (record { sock = invalid_socket })) s.client) h.1,
        ),
        h.1,
      )
    ];
  }

  destroy_pointed-Freed :
      (t : Transport)
      → SafeOr {E = E}
          (Unit {0})
          (λ s. Owns (n + 1) s × (s.client.state ≡ created))
          (λ _. Freed)
          (Owns n)
          (destroy_pointed (some t))
  destroy_pointed-Freed t =
      Safe-bind (transport_close-Owns t) λ _. record { at = λ s h. (omega (arith, h.0), h.1) }

  transport_destroy-Freed : SafeOr {E = E} (Unit {0}) Undone (λ _. Freed) (Owns n) transport_destroy
  unfolding transport_destroy
  transport_destroy-Freed = record {
    at = λ s h.
        let (t, there) = h.0.1 in
        subst
          (λ (o : Option Transport). EndsOr (Unit {0}) (λ _. Freed) (Owns n) (destroy_pointed o s))
          (sym there) ((destroy_pointed-Freed t).at s (h.1, h.0.0.0));
  }

  undo_connect-Moves :
      (e : Error) {Q : Unit {0} → St E → Type 0}
      → SafeOr {E = E} (Unit {0}) Undone Q (Owns n) (undo_connect e)
  unfolding undo_connect
  undo_connect-Moves e = Safe-bind transport_destroy-Freed λ _.
      Safe-bind {Q = λ _. Owns n}
        (Safe-modify _
          (λ s h. omega (arith, h.0, unlinked s.client h.1, unlinked (point_to none s.client) h.1)))
        λ _. Safe-bind (cleanup-Moves n n) λ _. Safe-raise e (λ s h. h)

  -- A step after which ovnc_client_connect cleans up if it fails.
  pub or_undo-Both :
      {P Q : St E → Type 0} {m : Action E Unit}
      → Safe P (λ _. Q) Undone m
      → Safe P (λ _. Q) (λ s. IsFresh s.client × Owns n s) (or_undo m)
  or_undo-Both {Q} h = Safe-try _ h (Safe-pure tt (λ s q. q)) (λ e.
      Safe-mono (λ s q. (q.0.0, q)) (λ _ s q. q.0) (λ s x. x)
        (Safe-both (undo_connect-Safe e {Q = λ _. Q}) (undo_connect-Moves e {Q = λ _. Q})))
