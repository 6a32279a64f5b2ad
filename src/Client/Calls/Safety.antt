-- ===== src/Client/Calls/Safety.antt =====
-- The calls of a careful application have no fault, in any order.
use mathlib.Core.Path.{subst}
use libopenvnc.Base.{ℕ, ◌-◌, ◌<◌, ◌≡◌, ap, true, false, some, List, length, arith}
use libopenvnc.State.{connected}
use libopenvnc.Run.{St, System, ◌>>=◌}
use libopenvnc.Run.Safe.{Ends, Ends-mono, Safe, Safe-mono, Safe-pre, Safe-modify, Safe-exists}
use libopenvnc.Session.{IsLinked, IsReady, IsTame}
use libopenvnc.Session.Local.{IsLinked-IsHeld, IsReady-IsHeld}
use libopenvnc.Handshake.Opening.{HasEncodings}
use libopenvnc.Client.Lifecycle.{is_connected_state, is_created, set_user_data}
use libopenvnc.Client.Lifecycle.Closing.{IsClosed, disconnect-Safe}
use libopenvnc.Client.Lifecycle.Connecting.{IsFresh, connect-Ends}
use libopenvnc.Client.Process.{process_message}
use libopenvnc.Client.Process.Safety.{process_message-Ends, run-Ends}
use libopenvnc.Client.Requests.{set_pixel_format}
use libopenvnc.Client.Requests.Format.{set_pixel_format-Ends}
use libopenvnc.Client.Calls.Refused.{off-Safe, connect_again}
use libopenvnc.Client.Calls.Steady.{steady-Safe, IsReady-set, IsLinked-set}
use libopenvnc.Client.Calls.{
  Call, perform, Phase, idle, ready, unsettled, closed, next, HasArguments, IsAllowed, Reaches,
  started, returned, failed,
}

module _ {E : Type 0} ⦃sys : System E⦄ {input output : E → List ℕ} (laws : IsTame input output)
    (no_empty : (w : E) → (sys.malloc 0 w).0 ≡ false)
    (kept : (s : St E) → HasEncodings s.client → HasEncodings (sys.alloc_framebuffer s).1.client)
    (patience : E → ℕ) (enough : (w : E) → length (input w) < patience w) where
  -- What holds of a client in each phase.
  abbrev pub IsAt : Phase → St E → Type 0
  IsAt idle s = IsFresh s.client
  IsAt ready s = (k : ℕ) × IsReady input connected k s
  IsAt unsettled s = (k : ℕ) × IsLinked input connected k s
  IsAt closed s = IsClosed s.client

  -- A call keeps to the phases.
  abbrev Keeps : Phase → Call → Type 0
  Keeps p c =
      Safe {A = Unit {0}} (IsAt p) (λ _. IsAt (next p c true)) (IsAt (next p c false))
        (perform patience c)

  -- An error is as good for the state as a success, or better.
  connect-idle : Keeps idle Call.connect
  unfolding perform
  connect-idle = record { at = λ s h. connect-Ends laws kept s h.0 h.1 }

  idle-off : (s : St E) → IsAt idle s → is_connected_state s.client.state ≡ false
  idle-off s h = ap is_connected_state h.0.state

  closed-off : (s : St E) → IsAt closed s → is_connected_state s.client.state ≡ false
  closed-off s h = ap is_connected_state h.state

  closed-Keeps : (c : Call) → Keeps closed c
  unfolding perform set_user_data
  closed-Keeps c =
      off-Safe patience closed-off c (λ _. connect_again (λ s h. ap is_created h.state))
        (λ p. Safe-modify _ (λ s h. record { state = h.state; transport = h.transport }))

  idle-Keeps : (c : Call) → Keeps idle c
  unfolding perform set_user_data
  idle-Keeps Call.connect = connect-idle
  idle-Keeps c =
      off-Safe patience idle-off c (λ is. absurd is)
        (λ p. Safe-modify _ (λ s h. (
          record { state = h.0.state; transport = h.0.transport },
          record { enough = h.1.enough; bound = h.1.bound },
        )))

  run_now :
      (k : ℕ) (s : St E)
      → IsReady input connected k s
      → Ends (λ _ _. ⊥) (IsAt closed) (perform patience Call.run s)
  unfolding perform ◌>>=◌
  run_now k s h =
      run-Ends laws no_empty (patience s.world) (length (input s.world)) s (enough s.world)
        (record {
          linked = record {
            transport = h.linked.transport;
            state = h.linked.state;
            pending = omega arith;
          };
          geometry = h.geometry;
          fits = h.fits;
        })

  ready-Keeps : (c : Call) → HasArguments c → Keeps ready c
  unfolding perform
  ready-Keeps Call.process_message args = Safe-exists λ k. record {
    at = λ s h.
        Ends-mono (process_message s) (λ _ s' q. (k - 1, q)) (λ s' x. x)
          (process_message-Ends laws no_empty k s h);
  }
  ready-Keeps Call.run args = Safe-exists λ k. record {
    at = λ s h.
        Ends-mono (perform patience Call.run s) (λ _ s' x. absurd x) (λ s' x. x) (run_now k s h);
  }
  ready-Keeps (Call.set_pixel_format (some fmt)) args = Safe-exists λ k. record {
    at = λ s h.
        Ends-mono (set_pixel_format (some fmt) s) (λ _ s' q. (k, q)) (λ s' x. (k, x))
          (set_pixel_format-Ends laws k fmt s h);
  }
  ready-Keeps Call.disconnect args =
      Safe-exists λ k. Safe-pre (λ s h. h.linked.state) disconnect-Safe
  ready-Keeps c args = Safe-exists λ k.
      Safe-mono (λ s h. h) (λ _ s h. (k, h)) (λ s h. (k, h))
        (steady-Safe laws patience (IsReady-IsHeld connected k) (λ s h. h.linked.state)
          (IsReady-set laws patience k) c tt args)

  unsettled-Keeps : (c : Call) → IsAllowed unsettled c → Keeps unsettled c
  unfolding perform
  unsettled-Keeps Call.process_message allowed = absurd allowed.timing
  unsettled-Keeps Call.run allowed = absurd allowed.timing
  unsettled-Keeps (Call.set_pixel_format (some fmt)) allowed = absurd allowed.timing
  unsettled-Keeps Call.disconnect allowed =
      Safe-exists λ k. Safe-pre (λ s h. h.state) disconnect-Safe
  unsettled-Keeps c allowed = Safe-exists λ k.
      Safe-mono (λ s h. h) (λ _ s h. (k, h)) (λ s h. (k, h))
        (steady-Safe laws patience (IsLinked-IsHeld connected k) (λ s h. h.state)
          (IsLinked-set laws patience k) c tt allowed.arguments)

  -- An allowed call, in each phase.
  perform-Keeps : (p : Phase) (c : Call) → IsAllowed p c → Keeps p c
  perform-Keeps idle c allowed = idle-Keeps c
  perform-Keeps ready c allowed = ready-Keeps c allowed.arguments
  perform-Keeps unsettled c allowed = unsettled-Keeps c allowed
  perform-Keeps closed c allowed = closed-Keeps c

  Reaches-IsAt :
      (start : St E)
      → IsFresh start.client
      → (p : Phase) (s : St E) → Reaches patience start p s
      → IsAt p s
  Reaches-IsAt start fresh p t started = fresh
  Reaches-IsAt start fresh p t (returned q s s' c reached allowed e) =
      subst (Ends (λ _. IsAt (next q c true)) (IsAt (next q c false))) e
        ((perform-Keeps q c allowed).at s (Reaches-IsAt start fresh q s reached))
  Reaches-IsAt start fresh p t (failed q s s' c err reached allowed e) =
      subst (Ends (λ _. IsAt (next q c true)) (IsAt (next q c false))) e
        ((perform-Keeps q c allowed).at s (Reaches-IsAt start fresh q s reached))

  -- Any sequence of calls that starts on a client as ovnc_client_create makes it, in an environment that
  -- meets `Session.IsTame`, where `malloc(0)` returns NULL, `alloc_framebuffer` leaves the configured
  -- list of encodings alone, and ovnc_client_run may handle more messages than there are bytes to come.
  -- The calls (all of `Call`) may come in any order, also where they make no sense for the state, and
  -- each may fail; asked is only that texts and arrays are as long as they are said to be (an array has
  -- fewer than 2 ^ 61 elements), and that after a
  -- ovnc_client_set_pixel_format that returned an error no message is read and the format is not
  -- changed again. Then the client is in the phase that the calls and their results tell: idle
  -- (CREATED, no transport), ready (connected, with a framebuffer in a block of its size), unsettled
  -- (connected) or closed (DISCONNECTED, no transport). And the next such call has no fault, and leads
  -- to the next phase.
  pub perform-Ends :
      (start : St E) (p : Phase) (s : St E) (c : Call)
      → IsFresh start.client
      → Reaches patience start p s
      → IsAllowed p c
      → IsAt p s × Ends (λ _. IsAt (next p c true)) (IsAt (next p c false)) (perform patience c s)
  perform-Ends start p s c fresh reached allowed =
      let now = Reaches-IsAt start fresh p s reached in (now, (perform-Keeps p c allowed).at s now)
