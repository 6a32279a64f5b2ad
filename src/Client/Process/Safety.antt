-- ===== src/Client/Process/Safety.antt =====
-- The message loop of a client ends without a fault, and a failed session is closed.
use libopenvnc.Base.{ℕ, zero, suc, ◌-◌, ◌<◌, ◌≡◌, false, List, arith, ◌∙◌}
use libopenvnc.Error.{Error}
use libopenvnc.State.{ClientState, connected}
use libopenvnc.Run.{St, System}
use libopenvnc.Run.Safe.{
  Ends, Safe, Safe-pre, Safe-bind, Safe-try, Safe-gets, Safe-raise, Safe-pure, Safe-assume,
}
use libopenvnc.Session.{IsLinked, IsReady, IsTame}
use libopenvnc.Session.Local.{IsLinked-IsStable}
use libopenvnc.Session.Primitives.{notify_if-Safe}
use libopenvnc.Dispatch.Safety.{recv_server_message-Safe}
use libopenvnc.Client.Process.{close_session, process_message, run_loop, run}
use libopenvnc.Client.Lifecycle.Closing.{IsClosed, disconnect-Safe}

module _ {E : Type 0} ⦃sys : System E⦄ {input output : E → List ℕ}
    (laws : IsTame input output) where
  -- The reaction to an error: the session is closed, and the error is returned.
  pub close_session-Safe :
      (k : ℕ) (e : Error) {Q : Unit {0} → St E → Type 0}
      → Safe (IsLinked input connected k) Q (λ s. IsClosed s.client) (close_session e)
  unfolding close_session
  close_session-Safe k e =
      Safe-bind (notify_if-Safe (IsLinked-IsStable laws connected k) _ _)
        λ _. Safe-bind (Safe-pre (λ s h. h.state) disconnect-Safe) λ _. Safe-raise e (λ s h. h)

module _ {E : Type 0} ⦃sys : System E⦄ {input output : E → List ℕ} (laws : IsTame input output)
    (no_empty : (w : E) → (sys.malloc 0 w).0 ≡ false) where
  connected_now :
      (k : ℕ) (state : ClientState) (s : St E)
      → IsReady input connected k s × (state ≡ s.client.state)
      → IsReady input connected k s × (state ≡ connected)
  connected_now k state s (h, e) = (h, e ∙ h.linked.state)

  process_message-Safe :
      (k : ℕ)
      → Safe
          (IsReady input connected k)
          (λ _ s. IsReady input connected (k - 1) s)
          (λ s. IsClosed s.client)
          process_message
  unfolding process_message
  process_message-Safe k = Safe-bind (Safe-gets (λ s. s.client.state)) λ state.
      Safe-pre (connected_now k state) (
        Safe-assume λ (e : state ≡ connected). rw e (
          Safe-try _ (recv_server_message-Safe laws no_empty connected k)
            (Safe-pure tt (λ s q. q.0)) (λ err. close_session-Safe laws k err)))

  run_loop-Safe :
      (fuel k : ℕ)
      → k < fuel
      → Safe (IsReady input connected k) (λ _ _. ⊥) (λ s. IsClosed s.client) (run_loop fuel)
  unfolding run_loop
  run_loop-Safe zero k lt = absurd (omega arith)
  run_loop-Safe (suc fuel) k lt = Safe-bind (Safe-gets (λ s. s.client.state)) λ state.
      Safe-pre (connected_now k state) (
        Safe-assume λ (e : state ≡ connected). rw e (
          Safe-try _ (recv_server_message-Safe laws no_empty connected k)
            (Safe-assume λ some_left. run_loop-Safe fuel (k - 1) (omega arith))
            (λ err. close_session-Safe laws k err)))

  run-Safe :
      (fuel k : ℕ)
      → k < fuel
      → Safe (IsReady input connected k) (λ _ _. ⊥) (λ s. IsClosed s.client) (run fuel)
  unfolding run
  run-Safe fuel k lt = Safe-bind (Safe-gets (λ s. s.client.state)) λ state.
      Safe-pre (connected_now k state)
        (Safe-assume λ (e : state ≡ connected). rw e (run_loop-Safe fuel k lt))

  -- ovnc_client_process_message, in an environment that meets `Session.IsTame` and where
  -- `malloc(0)` returns NULL, on a connected client whose framebuffer has its block, for any
  -- bytes from the server: there is no fault. It returns OVNC_OK and the client is ready for
  -- the next message, or an error code and the session is closed: the state is DISCONNECTED and
  -- the transport is NULL.
  pub process_message-Ends :
      (k : ℕ) (s : St E)
      → IsReady input connected k s
      → Ends
          (λ _ s'. IsReady input connected (k - 1) s')
          (λ s'. IsClosed s'.client)
          (process_message s)
  process_message-Ends k s ready = (process_message-Safe k).at s ready

  -- ovnc_client_run, in an environment that meets `Session.IsTame` and where `malloc(0)`
  -- returns NULL, on a connected client whose framebuffer has its block, with at most `k` bytes
  -- to come from the server: the loop ends within `k + 1` messages, without a fault. It never
  -- returns OVNC_OK (no callback closes the session), but an error code, and then the state is
  -- DISCONNECTED and the transport is NULL.
  pub run-Ends :
      (fuel k : ℕ) (s : St E)
      → k < fuel
      → IsReady input connected k s
      → Ends (λ _ _. ⊥) (λ s'. IsClosed s'.client) (run fuel s)
  run-Ends fuel k s lt ready = (run-Safe fuel k lt).at s ready
