-- ===== src/Transport/Blocks.antt =====
-- A read of ovnc__transport_recv into a heap block: what holds of a read into an array of the right
-- size holds of it.
use libopenvnc.Base.{
  ℕ, ◌≤◌, ◌≡◌, refl, Option, none, some, List, length, ltb, Bool-cases, inl, inr, le→ltb_false,
  arith,
}
use libopenvnc.State.{Transport}
use libopenvnc.Run.{ok, fail, crash, St, System}
use libopenvnc.Run.Safe.{EndsOr}
use libopenvnc.Socket.{Read, socket_recv_all}
use libopenvnc.Socket.Stream.{IsStream, ReadsFrom, socket_recv_all-ReadsFrom}
use libopenvnc.Transport.{
  transport_recv_to, transport_recv, recv_block, on_transport, delivered, stored,
}

-- Where a fault is left open.
module _ {E : Type 0} ⦃sys : System E⦄ (Q : List ℕ → St E → Type 0) (X : St E → Type 0)
    (cap : ℕ) where
  stored-EndsOr :
      (s : St E) (r : Read E)
      → EndsOr (Unit {0}) Q X (delivered (λ _ c. c) s r)
      → EndsOr (Unit {0}) Q X (stored cap s r)
  stored-EndsOr s (bs, o, w) h = elim (Bool-cases (ltb cap (length bs))) [
    | inl over ↦ rw over tt
    | inr fits ↦ rw fits h
  ]

  linked-EndsOr :
      (n : ℕ) (s : St E) (o : Option Transport)
      → EndsOr
          (Unit {0})
          Q
          X
          (on_transport o (λ t s'. delivered (λ _ c. c) s' (socket_recv_all t.sock n s'.world)) s)
      → EndsOr
          (Unit {0})
          Q
          X
          (on_transport o (λ t s'. stored cap s' (socket_recv_all t.sock n s'.world)) s)
  linked-EndsOr n s none h = tt
  linked-EndsOr n s (some t) h = stored-EndsOr s (socket_recv_all t.sock n s.world) h

  pub recv_block-EndsOr :
      (n : ℕ) (s : St E)
      → EndsOr (Unit {0}) Q X (transport_recv n s)
      → EndsOr (Unit {0}) Q X (recv_block cap n s)
  unfolding recv_block transport_recv transport_recv_to
  recv_block-EndsOr n s h = linked-EndsOr n s s.client.transport h

-- No more bytes come than were asked for, so a block of that size holds them.
module _ {E : Type 0} ⦃sys : System E⦄ (input output : E → List ℕ) (stream : IsStream input output)
    (cap n : ℕ) (enough : n ≤ cap) where
  stored-delivered :
      (s : St E) (r : Read E)
      → ReadsFrom input n s.world r
      → stored cap s r ≡ delivered (λ _ c. c) s r
  stored-delivered s (bs, ok _, w) h = rw (le→ltb_false cap (length bs) (omega (arith, h.0))) refl
  stored-delivered s (bs, fail _, w) h = rw (le→ltb_false cap (length bs) (omega (arith, h.0))) refl
  stored-delivered s (bs, crash _, w) h = absurd h

  linked-delivered :
      (s : St E) (o : Option Transport)
      → on_transport o (λ t s'. stored cap s' (socket_recv_all t.sock n s'.world)) s
        ≡ on_transport o (λ t s'. delivered (λ _ c. c) s' (socket_recv_all t.sock n s'.world)) s
  linked-delivered s none = refl
  linked-delivered s (some t) =
      stored-delivered s (socket_recv_all t.sock n s.world)
        (socket_recv_all-ReadsFrom input output stream t.sock n s.world)

  pub recv_block-transport_recv : (s : St E) → recv_block cap n s ≡ transport_recv n s
  unfolding recv_block transport_recv transport_recv_to
  recv_block-transport_recv s = linked-delivered s s.client.transport
