-- ===== src/Session/Gives.antt =====
-- What the reads and the steps beside them do where they end with OVNC_OK, whatever the environment
-- makes of the rest: an error and a fault are left open here.
use libopenvnc.Base.{ℕ, ◌≡◌, refl, Option, none, some, List, ◌++◌, length}
use libopenvnc.State.{Client, Transport}
use libopenvnc.Run.{Outcome, ok, fail, crash, St, System, Action}
use libopenvnc.Run.Safe.{Ends, EndsOr, SafeOr}
use libopenvnc.Socket.{Read, socket_recv_all}
use libopenvnc.Socket.Stream.{IsStream, ReadsFrom, socket_recv_all-ReadsFrom}
use libopenvnc.Transport.{transport_recv_to, transport_recv, on_transport, delivered}

module _ {E A : Type 0} where
  -- Of an action that returns OVNC_OK.
  abbrev pub Yields : (A → St E → Type 0) → Outcome A × St E → Type 0
  Yields Q = EndsOr (Unit {0}) Q (λ _. Unit {0})

  abbrev pub Gives : (St E → Type 0) → (A → St E → Type 0) → Action E A → Type 0
  Gives P Q m = SafeOr (Unit {0}) P Q (λ _. Unit {0}) m

  -- What holds without a fault, and what holds of OVNC_OK, hold together.
  pub Yields-and :
      (Q R : A → St E → Type 0) (X : St E → Type 0) (r : Outcome A × St E)
      → Ends Q X r
      → Yields R r
      → Ends (λ a s. Q a s × R a s) X r
  Yields-and Q R X (ok a, s) h g = (h, g)
  Yields-and Q R X (fail e, s) h g = h
  Yields-and Q R X (crash f, s) h g = h

  -- Two things that hold of OVNC_OK.
  pub Yields-both :
      (Q R : A → St E → Type 0) (r : Outcome A × St E)
      → Yields Q r
      → Yields R r
      → Yields (λ a s. Q a s × R a s) r
  Yields-both Q R (ok a, s) h g = (h, g)
  Yields-both Q R (fail e, s) h g = tt
  Yields-both Q R (crash f, s) h g = tt

module _ {E : Type 0} ⦃sys : System E⦄ (input output : E → List ℕ)
    (stream : IsStream input output) where
  -- A read of `n` bytes that `keep` stores, from the state `s`.
  abbrev pub Received : (List ℕ → Client → Client) → ℕ → St E → List ℕ → St E → Type 0
  Received keep n s bs s' =
      (length bs ≡ n)
      × (input s.world ≡ bs ++ input s'.world)
      × (s'.client ≡ keep bs s.client)
      × (s'.live ≡ s.live)

  delivered-Yields :
      (keep : List ℕ → Client → Client) (n : ℕ) (s : St E) (r : Read E)
      → ReadsFrom input n s.world r
      → Yields (Received keep n s) (delivered keep s r)
  delivered-Yields keep n s (bs, ok _, w) h = (h.0, h.1, refl, refl)
  delivered-Yields keep n s (bs, fail _, w) h = tt
  delivered-Yields keep n s (bs, crash _, w) h = tt

  linked-Yields :
      (keep : List ℕ → Client → Client) (n : ℕ) (s : St E) (o : Option Transport)
      → Yields
          (Received keep n s)
          (on_transport o (λ t s'. delivered keep s' (socket_recv_all t.sock n s'.world)) s)
  linked-Yields keep n s none = tt
  linked-Yields keep n s (some t) =
      delivered-Yields keep n s (socket_recv_all t.sock n s.world)
        (socket_recv_all-ReadsFrom input output stream t.sock n s.world)

  pub recv_to-Yields :
      (keep : List ℕ → Client → Client) (n : ℕ) (s : St E)
      → Yields (Received keep n s) (transport_recv_to keep n s)
  unfolding transport_recv_to
  recv_to-Yields keep n s = linked-Yields keep n s s.client.transport

  pub recv-Yields : (n : ℕ) (s : St E) → Yields (Received (λ _ c. c) n s) (transport_recv n s)
  unfolding transport_recv
  recv-Yields n s = recv_to-Yields (λ _ c. c) n s
