-- ===== src/Session/Primitives.antt =====
-- The steps that every handler is built of, in a session.
use libopenvnc.Base.{
  ℕ, zero, suc, [], ◌∷◌, drop, suc-==-zero, ◌+◌, ◌-◌, ◌≤◌, ◌≡◌, refl, Bool, true, false, Option,
  none, some, List, length, arith, ltb, length-append, Bool-cases, inl, inr, ap, ◌∙◌, ◌≢◌,
}
use libopenvnc.Error.{Error}
use libopenvnc.State.{Socket, Event, Callbacks, ClientState}
use libopenvnc.Run.{
  Outcome, ok, fail, crash, St, System, malloc, notify_if, call_alloc_framebuffer, free, free_if,
  returned, Io, done, interrupted, failed,
}
use libopenvnc.Run.Safe.{called-Ends, Ends, Ends-mono, Safe}
use libopenvnc.Socket.{Read, socket_recv_all, socket_send_all, send_round, send_loop}
use libopenvnc.Socket.Stream.{
  ReadsFrom, WritesTo, socket_recv_all-ReadsFrom, socket_send_all-WritesTo,
}
use libopenvnc.Transport.{
  transport_send, transport_recv_to, transport_recv, recv_block, recv_or_free, delivered, freed,
  sent,
}
use libopenvnc.Transport.Blocks.{recv_block-transport_recv}
use libopenvnc.Session.{HasGeometry, Fits, IsLinked, IsReady, IsSized, IsTame, Allocates}
use libopenvnc.Session.Reads.{recv_to-Ends, on_transport-Ends}
use libopenvnc.Session.Local.{IsLocal, IsHeld, IsStable}

module _ {E : Type 0} ⦃sys : System E⦄ {input output : E → List ℕ}
    (laws : IsTame input output) where
  send_round-same :
      (next : List ℕ → E → Outcome Unit × E) (p : List ℕ) (w : E) (r : Io ℕ × E)
      → ((q : List ℕ) (v : E) → input (next q v).1 ≡ input v)
      → input r.1 ≡ input w
      → input (send_round next p r).1 ≡ input w
  send_round-same next p w (interrupted, w') ih e = ih p w' ∙ e
  send_round-same next p w (failed, w') ih e = e
  send_round-same next p w (done zero, w') ih e = e
  send_round-same next p w (done (suc n), w') ih e =
      rw (suc-==-zero n) (elim (Bool-cases (ltb (length p) (suc n))) [
        | inl over ↦ rw over e
        | inr fits ↦ rw fits (ih (drop (suc n) p) w' ∙ e)
      ])

  send_loop-same :
      (fuel : ℕ) (sock : Socket) (p : List ℕ) (w : E) → input (send_loop fuel sock p w).1 ≡ input w
  unfolding send_loop
  send_loop-same zero sock p w = refl
  send_loop-same (suc fuel) sock [] w = refl
  send_loop-same (suc fuel) sock (b ∷ p) w = rw (suc-==-zero (length p)) (
      send_round-same (send_loop fuel sock) (b ∷ p) w (sys.send sock (b ∷ p) w)
        (send_loop-same fuel sock) (laws.sends_only sock (b ∷ p) w))

module _ {E : Type 0} ⦃sys : System E⦄ {input output : E → List ℕ} (laws : IsTame input output)
    {P : St E → Type 0} (local : IsLocal input P) where
  pub malloc-Safe : (n : ℕ) {X : St E → Type 0} → Safe P (λ _ s. P s) X (malloc n)
  unfolding malloc
  malloc-Safe n = record {
    at = λ s h. (local.moves s _ _ (omega (arith, ap length (laws.malloc_only n s.world))) h);
  }

  -- Where `malloc(0)` is NULL, a block that is found was not empty.
  pub malloc-found :
      ((w : E) → (sys.malloc 0 w).0 ≡ false)
      → (n : ℕ) {X : St E → Type 0} → Safe P (λ b s. P s × (b ≡ true → n ≢ 0)) X (malloc n)
  unfolding malloc
  malloc-found no_empty n = record {
    at = λ s h. (
      local.moves s _ _ (omega (arith, ap length (laws.malloc_only n s.world))) h,
      λ found z. cc (no_empty s.world, rw z at found),
    );
  }

  pub free-Safe : {X : St E → Type 0} → Safe P (λ _ s. P s) X free
  free-Safe = record { at = λ s h. local.moves s s.world (s.live - 1) (omega arith) h }

  pub free_if-Safe : (b : Bool) {X : St E → Type 0} → Safe P (λ _ s. P s) X (free_if b)
  free_if-Safe true = record { at = λ s h. local.moves s s.world (s.live - 1) (omega arith) h }
  free_if-Safe false = record { at = λ s h. h }

module _ {E : Type 0} ⦃sys : System E⦄ {input output : E → List ℕ} (laws : IsTame input output)
    {P : St E → Type 0} (held : IsHeld input P) where
  sent-Ends :
      (s : St E) (p : List ℕ) (r : Outcome Unit × E)
      → P s
      → WritesTo output p s.world r
      → input r.1 ≡ input s.world
      → Ends (λ _ s'. P s') P (sent s r)
  sent-Ends s p (ok _, w) h law same = held.local.moves s w s.live (omega (arith, ap length same)) h
  sent-Ends s p (fail _, w) h law same =
      held.local.moves s w s.live (omega (arith, ap length same)) h
  sent-Ends s p (crash _, w) h law same = law

  -- A send ends with OVNC_OK or an error code.
  pub transport_send-Safe : (p : List ℕ) → Safe P (λ _ s. P s) P (transport_send p)
  unfolding transport_send socket_send_all
  transport_send-Safe p = record {
    at = λ s h.
        on_transport-Ends _ _ s.client.transport
          (λ t s'. sent s' (socket_send_all t.sock p s'.world)) s (held.linked s h)
          (λ t.
            sent-Ends s p (socket_send_all t.sock p s.world) h
              (socket_send_all-WritesTo input output laws.stream t.sock p s.world)
              (send_loop-same laws (suc (length p + sys.interrupts s.world)) t.sock p s.world));
  }

  received-Ends :
      (s : St E) (n : ℕ) (r : Read E)
      → P s
      → ReadsFrom input n s.world r
      → Ends (λ bs s'. P s' × (length bs ≡ n)) P (delivered (λ _ c. c) s r)
  received-Ends s n (bs, ok _, w) h law = (
    held.local.moves s w s.live (omega (arith, ap length law.1, length-append bs (input w))) h,
    law.0,
  )
  received-Ends s n (bs, fail _, w) h law =
      held.local.moves s w s.live (omega (arith, ap length law.1, length-append bs (input w))) h
  received-Ends s n (bs, crash _, w) h law = law

  -- A read of `n` bytes into local memory ends with `n` bytes, or an error code.
  pub transport_recv-Safe : (n : ℕ) → Safe P (λ bs s. P s × (length bs ≡ n)) P (transport_recv n)
  unfolding transport_recv
  transport_recv-Safe n = record {
    at = λ s h.
        on_transport-Ends _ _ s.client.transport
          (λ t s'. delivered (λ _ c. c) s' (socket_recv_all t.sock n s'.world)) s (held.linked s h)
          (λ t.
            received-Ends s n (socket_recv_all t.sock n s.world) h
              (socket_recv_all-ReadsFrom input output laws.stream t.sock n s.world));
  }

  -- A read into a heap block that is large enough.
  pub recv_block-Safe :
      (cap n : ℕ) → n ≤ cap → Safe P (λ bs s. P s × (length bs ≡ n)) P (recv_block cap n)
  recv_block-Safe cap n le = record {
    at = λ s h.
        rw (recv_block-transport_recv input output laws.stream cap n le s)
          ((transport_recv-Safe n).at s h);
  }

  freed-Ends :
      (Q : List ℕ → St E → Type 0) (r : Outcome (List ℕ) × St E) → Ends Q P r → Ends Q P (freed r)
  freed-Ends Q (ok bs, s) h = h
  freed-Ends Q (fail e, s) h = held.local.moves s s.world (s.live - 1) (omega arith) h
  freed-Ends Q (crash f, s) h = h

  pub recv_or_free-Safe :
      (cap n : ℕ) → n ≤ cap → Safe P (λ bs s. P s × (length bs ≡ n)) P (recv_or_free cap n)
  unfolding recv_or_free
  recv_or_free-Safe cap n le = record {
    at = λ s h.
        freed-Ends (λ bs s'. P s' × (length bs ≡ n)) (recv_block cap n s)
          ((recv_block-Safe cap n le).at s h);
  }

module _ {E : Type 0} ⦃sys : System E⦄ {input : E → List ℕ} {P : St E → Type 0}
    (stable : IsStable input P) where
  pub notify_if-Safe :
      (f : Callbacks → Bool) (ev : Event) {X : St E → Type 0}
      → Safe P (λ _ s. P s) X (notify_if f ev)
  unfolding notify_if
  notify_if-Safe f ev = record {
    at = λ s h. elim (Bool-cases (f s.client.callbacks)) [
      | inl set ↦
          let r = stable.notified ev s h in rw set (called-Ends _ _ (sys.notify ev s) r.0 r.1)
      | inr unset ↦ rw unset h
    ];
  }

module _ {E : Type 0} ⦃sys : System E⦄ {input output : E → List ℕ}
    (laws : IsTame input output) where
  returned-Ends :
      (st : ClientState) (k : ℕ) (r : Option Error × St E)
      → Allocates input st k r
      → Ends (λ _ s. IsReady input st k s) (IsLinked input st k) (returned r)
  returned-Ends st k (none, s) h = h
  returned-Ends st k (some e, s) h = h

  -- The application's `alloc_framebuffer` gives a block of the size that is set, or fails.
  pub call_alloc_framebuffer-Safe :
      (st : ClientState) (k : ℕ)
      → Safe
          (IsSized input st k)
          (λ _ s. IsReady input st k s)
          (IsLinked input st k)
          call_alloc_framebuffer
  unfolding call_alloc_framebuffer
  call_alloc_framebuffer-Safe st k = record {
    at = λ s h. returned-Ends st k (sys.alloc_framebuffer s) (laws.allocates st k s h);
  }

  -- A read takes its bytes from those that are still to come.
  pub recv-progress :
      (st : ClientState) (k n : ℕ)
      → Safe
          (IsReady input st k)
          (λ bs s. IsReady input st (k - n) s × ((length bs ≡ n) × (n ≤ k)))
          (IsLinked input st k)
          (transport_recv n)
  unfolding transport_recv
  recv-progress st k n = record {
    at = λ s h.
        Ends-mono (transport_recv_to (λ _ c. c) n s)
          (λ bs s' q. (record { linked = q.0; geometry = q.1.0; fits = q.1.1 }, (q.2, q.3)))
          (λ s' x. x.0)
          (recv_to-Ends input output laws (λ c. HasGeometry c.framebuffer × Fits c.framebuffer)
            (λ _ c. c) st k n s (record { transport = λ bs c. refl; state = λ bs c. refl })
            (λ bs c le g. g) h.linked (h.geometry, h.fits));
  }
