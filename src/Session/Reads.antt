-- ===== src/Session/Reads.antt =====
-- A read of bytes into memory of the client, in a session.
use libopenvnc.Base.{
  ℕ, ◌-◌, ◌≤◌, ◌≡◌, Option, none, some, List, length, arith, length-append, ap, ◌∙◌,
}
use libopenvnc.State.{Client, Transport, ClientState}
use libopenvnc.Run.{ok, fail, crash, St, Action, System}
use libopenvnc.Run.Safe.{Ends}
use libopenvnc.Socket.{Read, socket_recv_all}
use libopenvnc.Socket.Stream.{ReadsFrom, socket_recv_all-ReadsFrom}
use libopenvnc.Transport.{transport_recv_to, delivered, on_transport}
use libopenvnc.Session.{IsLinked, IsReady, IsTame}

-- `keep` changes neither the transport nor the state of a client.
pub record KeepsLink (keep : List ℕ → Client → Client) : Type 0 where
  pub transport : (bs : List ℕ) (c : Client) → (keep bs c).transport ≡ c.transport
  pub state : (bs : List ℕ) (c : Client) → (keep bs c).state ≡ c.state

-- A read that stores its bytes with `keep` does not break a property of the client.
abbrev pub Keeps : (Client → Type 0) → ℕ → (List ℕ → Client → Client) → Type 0
Keeps G n keep = (bs : List ℕ) (c : Client) → length bs ≤ n → G c → G (keep bs c)

module _ {E A : Type 0} ⦃sys : System E⦄ where
  pub on_transport-Ends :
      (Q : A → St E → Type 0) (X : St E → Type 0) (o : Option Transport)
      (f : Transport → Action E A) (s : St E)
      → (t : Transport) × (o ≡ some t)
      → ((t : Transport) → Ends Q X (f t s))
      → Ends Q X (on_transport o f s)
  on_transport-Ends Q X none f s (t, e) h = cc
  on_transport-Ends Q X (some t) f s e h = h t

module _ {E : Type 0} ⦃sys : System E⦄ (input : E → List ℕ) where
  -- Fewer bytes to come is as good.
  pub IsLinked-mono :
      (st : ClientState) (j k : ℕ) (s : St E)
      → j ≤ k
      → IsLinked input st j s
      → IsLinked input st k s
  IsLinked-mono st j k s le h = record {
    transport = h.transport;
    state = h.state;
    pending = omega arith;
  }

  pub IsReady-mono :
      (st : ClientState) (j k : ℕ) (s : St E) → j ≤ k → IsReady input st j s → IsReady input st k s
  IsReady-mono st j k s le h = record {
    linked = IsLinked-mono st j k s le h.linked;
    geometry = h.geometry;
    fits = h.fits;
  }

  delivered-IsLinked :
      (keep : List ℕ → Client → Client) (st : ClientState) (j k : ℕ) (s : St E) (bs : List ℕ)
      (w : E)
      → KeepsLink keep
      → IsLinked input st k s
      → length (input w) ≤ j
      → IsLinked input st j (record s { client = keep bs s.client; world = w })
  delivered-IsLinked keep st j k s bs w kl h law = record {
    transport = (h.transport.0, kl.transport bs s.client ∙ h.transport.1);
    state = kl.state bs s.client ∙ h.state;
    pending = law;
  }

  -- A read ends with all its bytes, or fails; the bytes that came are no longer to come.
  delivered-Ends :
      (G : Client → Type 0) (keep : List ℕ → Client → Client) (st : ClientState) (k n : ℕ)
      (s : St E) (r : Read E)
      → KeepsLink keep
      → Keeps G n keep
      → IsLinked input st k s
      → G s.client
      → ReadsFrom input n s.world r
      → Ends
          (λ bs s'. IsLinked input st (k - n) s' × G s'.client × (length bs ≡ n) × (n ≤ k))
          (λ s'. IsLinked input st k s' × G s'.client)
          (delivered keep s r)
  delivered-Ends G keep st k n s (bs, ok _, w) kl kf h g law = (
    delivered-IsLinked keep st (k - n) k s bs w kl h
        (omega (arith, h.pending, ap length law.1, length-append bs (input w))),
    kf bs s.client (omega arith) g,
    law.0,
    omega (arith, h.pending, ap length law.1, length-append bs (input w)),
  )
  delivered-Ends G keep st k n s (bs, fail _, w) kl kf h g law = (
    delivered-IsLinked keep st k k s bs w kl h
        (omega (arith, h.pending, ap length law.1, length-append bs (input w))),
    kf bs s.client (omega (arith, law.0)) g,
  )
  delivered-Ends G keep st k n s (bs, crash _, w) kl kf h g law = law

module _ {E : Type 0} ⦃sys : System E⦄ (input output : E → List ℕ)
    (laws : IsTame input output) where
  pub recv_to-Ends :
      (G : Client → Type 0) (keep : List ℕ → Client → Client) (st : ClientState) (k n : ℕ)
      (s : St E)
      → KeepsLink keep
      → Keeps G n keep
      → IsLinked input st k s
      → G s.client
      → Ends
          (λ bs s'. IsLinked input st (k - n) s' × G s'.client × (length bs ≡ n) × (n ≤ k))
          (λ s'. IsLinked input st k s' × G s'.client)
          (transport_recv_to keep n s)
  unfolding transport_recv_to
  recv_to-Ends G keep st k n s kl kf h g =
      on_transport-Ends _ _ s.client.transport
        (λ t s'. delivered keep s' (socket_recv_all t.sock n s'.world)) s h.transport
        (λ t.
          delivered-Ends input G keep st k n s (socket_recv_all t.sock n s.world) kl kf h g
            (socket_recv_all-ReadsFrom input output laws.stream t.sock n s.world))
