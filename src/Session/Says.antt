-- ===== src/Session/Says.antt =====
-- What was sent when an action ends with OVNC_OK. Only sends put bytes in the stream: a read, an
-- allocation and a callback leave what was sent as it is.
use libopenvnc.Base.{
  ◌+◌, ℕ, zero, suc, ◌-◌, ◌≡◌, refl, ◌∙◌, Option, none, some, List, ◌++◌, ltb, ◌==◌, length,
  Bool-cases, inl, inr,
}
use libopenvnc.Error.{Error}
use libopenvnc.State.{Client, Transport, Socket}
use libopenvnc.Run.{
  Outcome, ok, fail, crash, St, System, Action, malloc, free, call_alloc_framebuffer, returned, Io,
  done, interrupted, failed,
}
use libopenvnc.Socket.{Read, prepend, recv_round, recv_loop, socket_recv_all, socket_send_all}
use libopenvnc.Socket.Stream.{IsStream, WritesTo, socket_send_all-WritesTo}
use libopenvnc.Transport.Blocks.{recv_block-EndsOr}
use libopenvnc.Transport.{
  transport_send, transport_recv_to, transport_recv, recv_block, recv_or_free, on_transport,
  delivered, sent, freed,
}
use libopenvnc.Session.Gives.{Yields, Gives}
use libopenvnc.Session.Sends.{Wrote}

-- `recv`, the allocator and the callback `alloc_framebuffer` send nothing.
pub record IsMute {E : Type 0} ⦃sys : System E⦄ (output : E → List ℕ) : Type 0 where
  pub recv : (sock : Socket) (n : ℕ) (w : E) → output (sys.recv sock n w).1 ≡ output w
  pub malloc : (n : ℕ) (w : E) → output (sys.malloc n w).1 ≡ output w
  pub alloc : (s : St E) → output (sys.alloc_framebuffer s).1.world ≡ output s.world

module _ {E A : Type 0} where
  -- Of an action that returns an error code or has a fault, anything.
  pub Gives-any : (P : St E → Type 0) (m : Action E A) → Gives P (λ _ _. Unit {0}) m
  Gives-any P m = record { at = λ s h. anything (m s) }
    where
      anything : (r : Outcome A × St E) → Yields (λ _ _. Unit {0}) r
      anything (ok a, s) = tt
      anything (fail e, s) = tt
      anything (crash f, s) = tt

module _ {E : Type 0} ⦃sys : System E⦄ (output : E → List ℕ) (mute : IsMute output) where
  prepend-same :
      (v : E) (bs : List ℕ) (r : Read E)
      → output r.2 ≡ output v
      → output (prepend bs r).2 ≡ output v
  prepend-same v bs (more, r, w) h = h

  recv_round-same :
      (next : ℕ → E → Read E) (n : ℕ) (v : E) (r : Io (List ℕ) × E)
      → ((m : ℕ) (u : E) → output (next m u).2 ≡ output u)
      → output r.1 ≡ output v
      → output (recv_round next n r).2 ≡ output v
  recv_round-same next n v (interrupted, w) ih e = ih n w ∙ e
  recv_round-same next n v (failed, w) ih e = e
  recv_round-same next n v (done bs, w) ih e = elim (Bool-cases (length bs == 0)) [
    | inl none' ↦ rw none' e
    | inr more ↦ rw more (elim (Bool-cases (ltb n (length bs))) [
      | inl over ↦ rw over e
      | inr fits ↦ rw fits (prepend-same v bs (next (n - length bs) w) (ih (n - length bs) w ∙ e))
    ])
  ]

  recv_loop-same :
      (fuel : ℕ) (sock : Socket) (n : ℕ) (w : E) → output (recv_loop fuel sock n w).2 ≡ output w
  unfolding recv_loop
  recv_loop-same zero sock n w = refl
  recv_loop-same (suc fuel) sock n w = elim (Bool-cases (n == 0)) [
    | inl all ↦ rw all refl
    | inr more ↦ rw more (
        recv_round-same (recv_loop fuel sock) n w (sys.recv sock n w) (recv_loop-same fuel sock)
          (mute.recv sock n w))
  ]

  module _ (G : Client → Type 0) where
    delivered-Wrote :
        (keep : List ℕ → Client → Client) (o : List ℕ) (s : St E) (r : Read E)
        → ((bs : List ℕ) (c : Client) → G c → G (keep bs c))
        → output r.2 ≡ output s.world
        → Wrote output G o s
        → Yields (λ _. Wrote output G o) (delivered keep s r)
    delivered-Wrote keep o s (bs, ok _, w) kept e h = (e ∙ h.0, kept bs s.client h.1)
    delivered-Wrote keep o s (bs, fail _, w) kept e h = tt
    delivered-Wrote keep o s (bs, crash _, w) kept e h = tt

    linked-Wrote :
        (keep : List ℕ → Client → Client) (o : List ℕ) (n : ℕ) (s : St E) (t : Option Transport)
        → ((bs : List ℕ) (c : Client) → G c → G (keep bs c))
        → Wrote output G o s
        → Yields
            (λ _. Wrote output G o)
            (on_transport t (λ u s'. delivered keep s' (socket_recv_all u.sock n s'.world)) s)
    unfolding socket_recv_all
    linked-Wrote keep o n s none kept h = tt
    linked-Wrote keep o n s (some t) kept h =
        delivered-Wrote keep o s (socket_recv_all t.sock n s.world) kept
          (recv_loop-same (suc (n + sys.interrupts s.world)) t.sock n s.world) h

    pub recv_to-Wrote :
        (keep : List ℕ → Client → Client) (o : List ℕ) (n : ℕ)
        → ((bs : List ℕ) (c : Client) → G c → G (keep bs c))
        → Gives (Wrote output G o) (λ _. Wrote output G o) (transport_recv_to keep n)
    unfolding transport_recv_to
    recv_to-Wrote keep o n kept = record {
      at = λ s h. linked-Wrote keep o n s s.client.transport kept h;
    }

    pub recv-Wrote :
        (o : List ℕ) (n : ℕ) → Gives (Wrote output G o) (λ _. Wrote output G o) (transport_recv n)
    unfolding transport_recv
    recv-Wrote o n = recv_to-Wrote (λ _ c. c) o n (λ bs c g. g)

    freed-Wrote :
        (o : List ℕ) (r : Outcome (List ℕ) × St E)
        → Yields (λ _. Wrote output G o) r
        → Yields (λ _. Wrote output G o) (freed r)
    freed-Wrote o (ok bs, s) h = h
    freed-Wrote o (fail e, s) h = tt
    freed-Wrote o (crash f, s) h = tt

    pub recv_or_free-Wrote :
        (o : List ℕ) (cap n : ℕ)
        → Gives (Wrote output G o) (λ _. Wrote output G o) (recv_or_free cap n)
    unfolding recv_or_free
    recv_or_free-Wrote o cap n = record {
      at = λ s h.
          freed-Wrote o (recv_block cap n s)
            (recv_block-EndsOr _ _ cap n s ((recv-Wrote o n).at s h));
    }

    pub alloc-Wrote :
        (o : List ℕ) (n : ℕ) → Gives (Wrote output G o) (λ _. Wrote output G o) (malloc n)
    unfolding malloc
    alloc-Wrote o n = record { at = λ s h. (mute.malloc n s.world ∙ h.0, h.1) }

    pub release-Wrote : (o : List ℕ) → Gives (Wrote output G o) (λ _. Wrote output G o) free
    release-Wrote o = record { at = λ s h. h }

    returned-Wrote :
        (o : List ℕ) (r : Option Error × St E)
        → Wrote output G o r.1
        → Yields (λ _. Wrote output G o) (returned r)
    returned-Wrote o (none, s) h = h
    returned-Wrote o (some e, s) h = tt

    pub call_alloc-Wrote :
        (o : List ℕ)
        → ((s : St E) → G s.client → G (sys.alloc_framebuffer s).1.client)
        → Gives (Wrote output G o) (λ _. Wrote output G o) call_alloc_framebuffer
    unfolding call_alloc_framebuffer
    call_alloc-Wrote o kept = record {
      at = λ s h. returned-Wrote o (sys.alloc_framebuffer s) (mute.alloc s ∙ h.0, kept s h.1);
    }

module _ {E : Type 0} ⦃sys : System E⦄ (input output : E → List ℕ) (stream : IsStream input output)
    (G : Client → Type 0) where
  sent-Wrote :
      (o p : List ℕ) (s : St E) (r : Outcome Unit × E)
      → Wrote output G o s
      → WritesTo output p s.world r
      → Yields (λ _. Wrote output G (o ++ p)) (sent s r)
  sent-Wrote o p s (ok _, w) h e = (rw (e, h.0), h.1)
  sent-Wrote o p s (fail _, w) h e = tt
  sent-Wrote o p s (crash _, w) h e = tt

  via-Wrote :
      (o p : List ℕ) (s : St E) (t : Option Transport)
      → Wrote output G o s
      → Yields
          (λ _. Wrote output G (o ++ p))
          (on_transport t (λ u s'. sent s' (socket_send_all u.sock p s'.world)) s)
  via-Wrote o p s none h = tt
  via-Wrote o p s (some t) h =
      sent-Wrote o p s (socket_send_all t.sock p s.world) h
        (socket_send_all-WritesTo input output stream t.sock p s.world)

  pub send-Wrote :
      (o p : List ℕ) → Gives (Wrote output G o) (λ _. Wrote output G (o ++ p)) (transport_send p)
  unfolding transport_send
  send-Wrote o p = record { at = λ s h. via-Wrote o p s s.client.transport h }
