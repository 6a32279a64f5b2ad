-- ===== src/Client/Heap/Sessions.antt =====
-- The heap blocks through the message loop of src/client/ovnc_client.c, to the end of a session.
use libopenvnc.Base.{
  ℕ, ℤ, zero, suc, ◌+◌, ◌-◌, ◌≡◌, ap, ◌∙◌, sym, Bool, true, false, not, ◌&&◌, Option, none, some,
  List, ltb, ◌<◌, ◌==ℤ◌, inl, inr, arith, count, is_some, Bool-cases,
}
use libopenvnc.Error.{Error}
use libopenvnc.State.{Rect, Client, Transport, connected, invalid_socket}
use libopenvnc.Run.{St, System, try}
use libopenvnc.Run.Safe.{
  Ends, Ends-mono, SafeOr, Safe, Safe-bind, Safe-if, Safe-pure, Safe-raise, Safe-gets, Safe-pre,
  Safe-modify, Safe-try,
}
use libopenvnc.Run.Both.{Ends-both}
use libopenvnc.Socket.{platform_cleanup}
use libopenvnc.Transport.{transport_close, destroy_pointed, transport_destroy}
use libopenvnc.Session.{IsReady, IsTame}
use libopenvnc.Client.Lifecycle.{is_connected_state, disconnect, destroy}
use libopenvnc.Client.Lifecycle.Destroying.{blocks, destroy-Frees}
use libopenvnc.Client.Process.{close_session, process_message, run_loop, run}
use libopenvnc.Client.Process.Safety.{run-Ends, process_message-Ends}
use libopenvnc.Client.Lifecycle.Closing.{IsClosed}
use libopenvnc.Messages.{send_fb_update_request}
use libopenvnc.Client.Requests.{request_update}
use libopenvnc.Client.Heap.Counting.{send-Goes}
use libopenvnc.Client.Heap.{Owns-IsCount, Owns, Moves, Keeps, IsFrugal, notify_if-Moves}
use libopenvnc.Client.Heap.Messages.{recv_server_message-Keeps}

-- The blocks beside the transport.
abbrev rest : Client → ℕ
rest c =
    2
    + count (is_some c.pixel_format)
    + count (is_some c.encodings)
    + count (not c.callbacks.alloc_framebuffer && is_some c.framebuffer.pixels)

module _ {E : Type 0} ⦃sys : System E⦄ where
  -- The transport is freed, and the pointer to it still to be cleared.
  abbrev Unlinked : ℕ → St E → Type 0
  Unlinked n s = s.live ≡ rest s.client + n

  destroy_pointed-Unlinked :
      (n k : ℕ) (o : Option Transport)
      → SafeOr {E = E}
          (Unit {0})
          (λ s. s.live ≡ rest s.client + count (is_some o) + n)
          (λ _. Unlinked n)
          (Owns k)
          (destroy_pointed o)
  unfolding transport_close
  destroy_pointed-Unlinked n k none = record { at = λ s h. omega (arith, h) }
  destroy_pointed-Unlinked n k (some t) =
      Safe-bind {Q = λ _ s. s.live ≡ rest s.client + 1 + n}
        (record {
          at = λ s h. elim (Bool-cases (t.sock ==ℤ invalid_socket)) [
            | inl unset ↦ rw unset h
            | inr set ↦ rw set h
          ];
        })
        λ _. record { at = λ s h. omega (arith, h) }

  transport_destroy-Unlinked :
      (n k : ℕ)
      → SafeOr {E = E}
          (Unit {0})
          (λ s. Owns n s × (is_connected_state s.client.state ≡ true))
          (λ _. Unlinked n)
          (Owns k)
          transport_destroy
  unfolding transport_destroy
  transport_destroy-Unlinked n k = record {
    at = λ s h.
        (destroy_pointed-Unlinked n k s.client.transport).at s
          (omega (arith, h.0, ap (λ (b : Bool). count (b && is_some s.client.transport)) h.1));
  }

  pub cleanup-Moves : (n k : ℕ) → Moves E n (λ _. n) k platform_cleanup
  unfolding platform_cleanup
  cleanup-Moves n k = record {
    at = λ s h. elim (Bool-cases (ltb 0 s.init_count)) [
      | inl counted ↦ rw counted h
      | inr last ↦ rw last h
    ];
  }

  pub disconnect-Moves : (n k : ℕ) → Moves E n (λ _. n) k disconnect
  unfolding disconnect
  disconnect-Moves n k = Safe-bind (Safe-gets (λ s. s.client.state)) λ state.
      Safe-if (is_connected_state state)
        (λ on.
          Safe-pre {P = λ s. Owns n s × (is_connected_state s.client.state ≡ true)}
            (λ s q. (q.0, ap is_connected_state (sym q.1) ∙ on))
            (Safe-bind (transport_destroy-Unlinked n k) λ _.
              Safe-bind (Safe-modify {Q = λ _. Unlinked n} _ (λ s h. h)) λ _.
                Safe-bind (Safe-modify {Q = λ _. Owns n} _ (λ s h. omega (arith, h)))
                  λ _. cleanup-Moves n k))
        (λ _. Safe-pure tt (λ s q. q.0))

  -- A request only sends.
  pub request_update-Keeps :
      (n : ℕ) (rect : Option Rect) (incremental : ℤ) → Keeps E n (request_update rect incremental)
  unfolding request_update send_fb_update_request
  request_update-Keeps n rect incremental = Safe-bind (Safe-gets (λ s. s.client.state)) λ state.
      Safe-pre (λ s q. q.0)
        (Safe-if (is_connected_state state)
          (λ _.
            Safe-bind (Safe-gets (λ s. s.client.framebuffer))
              λ fb. Safe-pre (λ s q. q.0) (send-Goes Owns-IsCount n _))
          (λ _. Safe-raise _ (λ s h. h)))

  module _ (frugal : IsFrugal E) where
    close_session-Keeps : (n : ℕ) (e : Error) → Keeps E n (close_session e)
    unfolding close_session
    close_session-Keeps n e =
        Safe-bind (notify_if-Moves frugal n n _ _)
          λ _. Safe-bind (disconnect-Moves n n) λ _. Safe-raise e (λ s h. h)

    pub process_message-Keeps : (n : ℕ) → Keeps E n process_message
    unfolding process_message
    process_message-Keeps n = Safe-bind (Safe-gets (λ s. s.client.state)) λ state.
        Safe-pre (λ s q. q.0)
          (Safe-if (not (is_connected_state state)) (λ _. Safe-raise _ (λ s h. h))
            (λ _.
              Safe-try _ (recv_server_message-Keeps frugal n) (Safe-pure tt (λ s h. h))
                (λ e. close_session-Keeps n e)))

    run_loop-Keeps : (n fuel : ℕ) → Keeps E n (run_loop fuel)
    unfolding run_loop
    run_loop-Keeps n zero = Safe-bind (Safe-gets (λ s. s.client.state)) λ state.
        Safe-pre (λ s q. q.0)
          (Safe-if (is_connected_state state) (λ _. record { at = λ s h. tt })
            (λ _. Safe-pure tt (λ s h. h)))
    run_loop-Keeps n (suc fuel) = Safe-bind (Safe-gets (λ s. s.client.state)) λ state.
        Safe-pre (λ s q. q.0)
          (Safe-if (is_connected_state state)
            (λ _.
              Safe-try _ (recv_server_message-Keeps frugal n) (run_loop-Keeps n fuel)
                (λ e. close_session-Keeps n e))
            (λ _. Safe-pure tt (λ s h. h)))

    pub run-Keeps : (n fuel : ℕ) → Keeps E n (run fuel)
    unfolding run
    run-Keeps n fuel = Safe-bind (Safe-gets (λ s. s.client.state)) λ state.
        Safe-pre (λ s q. q.0)
          (Safe-if (is_connected_state state) (λ _. run_loop-Keeps n fuel)
            (λ _. Safe-raise _ (λ s h. h)))

module _ {E : Type 0} ⦃sys : System E⦄ {input output : E → List ℕ} (laws : IsTame input output)
    (no_empty : (w : E) → (sys.malloc 0 w).0 ≡ false) (frugal : IsFrugal E) where
  -- ovnc_client_process_message, in an environment that meets `Session.IsTame`, where `malloc(0)`
  -- returns NULL and the callbacks keep the count of blocks (`IsFrugal`), on a connected client whose
  -- framebuffer has its block, with at most `k` bytes to come from the server: there is no fault, and
  -- whether it returns OVNC_OK or an error code, where the heap held the client's blocks and `n` others
  -- before, it holds the client's blocks and the same number of others. Blocks are counted here and not
  -- told apart, but that a second free of a block of handle_color_map_entries is a fault.
  pub process_message-Balanced :
      (n k : ℕ) (s : St E)
      → IsReady input connected k s
      → Owns n s
      → Ends
          (λ _ s'. IsReady input connected (k - 1) s' × Owns n s')
          (λ s'. IsClosed s'.client × Owns n s')
          (process_message s)
  process_message-Balanced n k s ready owns =
      Ends-both _ _ _ _ (process_message s) (process_message-Ends laws no_empty k s ready)
        ((process_message-Keeps frugal n).at s owns)

  -- In such an environment, on such a client, where the blocks held are those of the client:
  -- ovnc_client_run, given one message more than there are bytes to come, and then
  -- ovnc_client_destroy, end without a fault and leave no block.
  pub run-destroy-Frees :
      (fuel k : ℕ) (s : St E)
      → k < fuel
      → IsReady input connected k s
      → s.live ≡ blocks s.client
      → Ends (λ _ s'. s'.live ≡ 0) (λ _. ⊥) (try (run fuel) (λ _. destroy) s)
  run-destroy-Frees fuel k s lt ready owns =
      let finish : (e : Option Error) → Safe {E = E} (Owns 0) (λ _ t. t.live ≡ 0) (λ _. ⊥) destroy =
        λ e. record {
          at = λ t h.
              Ends-mono (destroy t) (λ _ t' q. omega (arith, q, h)) (λ t' x. x) (destroy-Frees t);
        } in
      (Safe-try {P = λ t. IsReady input connected k t × Owns 0 t} {Y = Owns 0} (λ _. destroy)
          (record {
            at = λ t q.
                Ends-mono (run fuel t) (λ _ t' x. absurd x.0) (λ t' x. x.1)
                  (Ends-both _ _ _ _ (run fuel t) (run-Ends laws no_empty fuel k t lt q.0)
                    ((run-Keeps frugal 0 fuel).at t q.1));
          })
          (finish none) (λ e. finish (some e))).at
        s (ready, omega (arith, owns))
