-- ===== src/Client/Lifecycle/Closing.antt =====
-- ovnc_client_disconnect, and what it is built of, closes a session without a fault.
use libopenvnc.Base.{◌≡◌, refl, Option, none, some, ◌==ℤ◌, Bool-cases, inl, inr, ltb, ◌∙◌}
use libopenvnc.State.{Client, connected, disconnected, Transport, invalid_socket}
use libopenvnc.Run.{St, System}
use libopenvnc.Run.Safe.{Safe, Safe-pre, Safe-bind, Safe-gets, Safe-pure, Safe-assume, Safe-modify}
use libopenvnc.Transport.{point_to, transport_close, destroy_pointed, transport_destroy}
use libopenvnc.Socket.{platform_cleanup}
use libopenvnc.Client.Lifecycle.{disconnect}

-- A session that is over: no transport, and no call but destroy does anything.
pub record IsClosed (c : Client) : Type 0 where
  pub state : c.state ≡ disconnected
  pub transport : c.transport ≡ none

module _ {E : Type 0} ⦃sys : System E⦄ (F : Client → Type 0)
    (about : (c : Client) (t : Option Transport) → F c → F (point_to t c)) where
  transport_close-Safe :
      (t : Transport) {X : St E → Type 0}
      → Safe (λ s. F s.client) (λ _ s. F s.client) X (transport_close t)
  unfolding transport_close
  transport_close-Safe t = record {
    at = λ s h. elim (Bool-cases (t.sock ==ℤ invalid_socket)) [
      | inl unset ↦ rw unset h
      | inr set ↦ rw set (about s.client _ h)
    ];
  }

  destroy_pointed-Safe :
      (o : Option Transport) {X : St E → Type 0}
      → Safe (λ s. F s.client) (λ _ s. F s.client) X (destroy_pointed o)
  destroy_pointed-Safe none = Safe-pure tt (λ s q. q)
  destroy_pointed-Safe (some t) = Safe-bind (transport_close-Safe t) λ _. record { at = λ s h. h }

  -- ovnc__transport_destroy returns, and changes nothing of the client but its transport.
  pub transport_destroy-Safe :
      {X : St E → Type 0} → Safe (λ s. F s.client) (λ _ s. F s.client) X transport_destroy
  unfolding transport_destroy
  transport_destroy-Safe = record { at = λ s h. (destroy_pointed-Safe s.client.transport).at s h }

module _ {E : Type 0} ⦃sys : System E⦄ where
  pub platform_cleanup-Safe :
      (F : Client → Type 0) {X : St E → Type 0}
      → Safe (λ s. F s.client) (λ _ s. F s.client) X platform_cleanup
  unfolding platform_cleanup
  platform_cleanup-Safe F = record {
    at = λ s h. elim (Bool-cases (ltb 0 s.init_count)) [
      | inl some_left ↦ rw some_left h
      | inr last ↦ rw last h
    ];
  }

  -- ovnc_client_disconnect of a connected client closes it.
  pub disconnect-Safe :
      {X : St E → Type 0}
      → Safe (λ s. s.client.state ≡ connected) (λ _ s. IsClosed s.client) X disconnect
  unfolding disconnect
  disconnect-Safe = Safe-bind (Safe-gets (λ s. s.client.state)) λ state.
      Safe-pre (λ s q. (q.0, q.1 ∙ q.0))
        (Safe-assume λ (e : state ≡ connected). rw e (
          Safe-bind (transport_destroy-Safe (λ c. c.state ≡ connected) (λ c t h. h)) λ _.
            Safe-bind (Safe-modify {Q = λ _ s. s.client.transport ≡ none} _ (λ s h. refl)) λ _.
              Safe-bind
                (Safe-modify {Q = λ _ s. IsClosed s.client} _
                  (λ s h. record { state = refl; transport = h }))
                λ _. platform_cleanup-Safe IsClosed))
