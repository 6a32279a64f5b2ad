-- ===== src/Session/Sends.antt =====
-- What an action puts in the stream to the server, however it ends.
use libopenvnc.Base.{
  ◌∙◌, ℕ, ◌+◌, ◌<◌, ◌≡◌, some, List, ◌++◌, append_assoc, arith, length, take, length-append,
  take-append-left, take-append-right,
}
use libopenvnc.State.{Client, Transport}
use libopenvnc.Run.{Outcome, ok, fail, crash, St, System, Action, ◌>>◌, malloc, free}
use libopenvnc.Run.Safe.{Ends, Safe, Safe-bind, Safe-err, Safe-mono}
use libopenvnc.Socket.{socket_send_all}
use libopenvnc.Socket.Stream.{IsStream, WritesTo, socket_send_all-WritesTo}
use libopenvnc.Transport.{transport_send, sent}
use libopenvnc.Session.Reads.{on_transport-Ends}

module _ {E : Type 0} (output : E → List ℕ) (F : Client → Type 0) where
  -- `o` is what was sent so far; the client has the property `F`.
  abbrev pub Wrote : List ℕ → St E → Type 0
  Wrote o s = (output s.world ≡ o) × F s.client

  -- Not all of `p` was sent after `o`.
  abbrev pub Partly : List ℕ → List ℕ → St E → Type 0
  Partly o p s = (k : ℕ) × (k < length p) × (output s.world ≡ o ++ take k p)

  -- The action has no fault; it sends `p`, or a part of it and fails.
  abbrev pub Sends : {A : Type 0} → List ℕ → List ℕ → Action E A → Type 0
  Sends o p m = Safe (Wrote o) (λ _. Wrote (o ++ p)) (Partly o p) m

  pub Partly-left : (o p q : List ℕ) (s : St E) → Partly o p s → Partly o (p ++ q) s
  Partly-left o p q s (k, lt, e) =
      (k, omega (arith, length-append p q), rw (take-append-left k p q lt) e)

  pub Partly-right : (o p q : List ℕ) (s : St E) → Partly (o ++ p) q s → Partly o (p ++ q) s
  Partly-right o p q s (k, lt, e) = (
    length p + k,
    omega (arith, length-append p q),
    rw (take-append-right p q k, ← append_assoc) e,
  )

module _ {E : Type 0} ⦃sys : System E⦄ (input output : E → List ℕ) (stream : IsStream input output)
    (F : Client → Type 0)
    (linked : (c : Client) → F c → (t : Transport) × (c.transport ≡ some t)) where
  sent-Sends :
      (o p : List ℕ) (s : St E) (r : Outcome Unit × E)
      → Wrote output F o s
      → WritesTo output p s.world r
      → Ends (λ _. Wrote output F (o ++ p)) (Partly output F o p) (sent s r)
  sent-Sends o p s (ok _, w) (e, f) h = (rw (h, e), f)
  sent-Sends o p s (fail _, w) (e, f) (k, lt, h) = (k, lt, rw (h, e))
  sent-Sends o p s (crash _, w) e h = h

  pub transport_send-Sends : (o p : List ℕ) → Sends output F o p (transport_send p)
  unfolding transport_send
  transport_send-Sends o p = record {
    at = λ s h.
        on_transport-Ends _ _ s.client.transport
          (λ t s'. sent s' (socket_send_all t.sock p s'.world)) s (linked s.client h.1)
          (λ t.
            sent-Sends o p s (socket_send_all t.sock p s.world) h
              (socket_send_all-WritesTo input output stream t.sock p s.world));
  }

  -- One send, and then another.
  pub Sends-then :
      (o p q : List ℕ) {A : Type 0} {m n : Action E A}
      → Sends output F o p m
      → Sends output F (o ++ p) q n
      → Sends output F o (p ++ q) (m >> n)
  Sends-then o p q h k = Safe-bind (Safe-err (λ s x. Partly-left output F o p q s x) h) λ _.
      Safe-mono (λ s x. x) (λ a s x. (x.0 ∙ append_assoc o p q, x.1))
        (λ s x. Partly-right output F o p q s x) k

  -- An allocation, or a `free`, sends nothing.
  pub malloc-Wrote :
      ((n : ℕ) (w : E) → output (sys.malloc n w).1 ≡ output w)
      → (o : List ℕ) (n : ℕ) {X : St E → Type 0}
      → Safe (Wrote output F o) (λ _. Wrote output F o) X (malloc n)
  unfolding malloc
  malloc-Wrote same o n = record { at = λ s h. (same n s.world ∙ h.0, h.1) }

  pub free-Wrote :
      (o : List ℕ) {X : St E → Type 0} → Safe (Wrote output F o) (λ _. Wrote output F o) X free
  free-Wrote o = record { at = λ s h. h }

  pub free-Partly :
      (o p : List ℕ) {X : St E → Type 0}
      → Safe (Partly output F o p) (λ _. Partly output F o p) X free
  free-Partly o p = record { at = λ s h. h }
