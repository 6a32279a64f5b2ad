-- ===== src/Client/Calls/Steady.antt =====
-- Calls that leave a session as it is.
use libopenvnc.Base.{ℕ, ◌≡◌, ap, none, some, List}
use libopenvnc.State.{connected}
use libopenvnc.Run.{St, System}
use libopenvnc.Run.Safe.{Safe, Safe-raise, Safe-modify}
use libopenvnc.Session.{IsLinked, IsReady, IsTame}
use libopenvnc.Session.Local.{IsHeld}
use libopenvnc.Client.Lifecycle.{is_created, set_user_data}
use libopenvnc.Client.Requests.{set_pixel_format}
use libopenvnc.Client.Requests.Safety.{
  request_update-Safe, client_send_key_event-Safe, client_send_pointer_event-Safe,
  client_send_cut_text-Safe, set_encodings-Safe,
}
use libopenvnc.Client.Calls.Refused.{connect_again}
use libopenvnc.Client.Calls.{Call, perform, HasArguments}

-- The calls that leave the phase of a connected client alone.
abbrev pub IsSteady : Call → Type 0
IsSteady Call.process_message = ⊥
IsSteady Call.run = ⊥
IsSteady (Call.set_pixel_format (some _)) = ⊥
IsSteady Call.disconnect = ⊥
IsSteady _ = Unit {0}

module _ {E : Type 0} ⦃sys : System E⦄ {input output : E → List ℕ} (laws : IsTame input output)
    (patience : E → ℕ) where
  module _ {P : St E → Type 0} (held : IsHeld input P)
      (on : (s : St E) → P s → s.client.state ≡ connected)
      (set : (p : ℕ) → Safe P (λ _. P) P (perform patience (Call.set_user_data p))) where
    pub steady-Safe :
        (c : Call) → IsSteady c → HasArguments c → Safe P (λ _. P) P (perform patience c)
    unfolding perform set_pixel_format
    steady-Safe Call.connect is args = connect_again (λ s h. ap is_created (on s h))
    steady-Safe Call.process_message is args = absurd is
    steady-Safe Call.run is args = absurd is
    steady-Safe (Call.request_update rect incremental) is args =
        request_update-Safe laws held rect incremental
    steady-Safe (Call.send_key_event key down) is args =
        client_send_key_event-Safe laws held key down
    steady-Safe (Call.send_pointer_event x y button_mask) is args =
        client_send_pointer_event-Safe laws held x y button_mask
    steady-Safe (Call.send_cut_text text len) is args =
        client_send_cut_text-Safe laws held text len args
    steady-Safe (Call.set_pixel_format none) is args = Safe-raise _ (λ s q. q)
    steady-Safe (Call.set_pixel_format (some fmt)) is args = absurd is
    steady-Safe (Call.set_encodings encodings n) is args =
        set_encodings-Safe laws held encodings n args
    steady-Safe (Call.set_user_data p) is args = set p
    steady-Safe Call.disconnect is args = absurd is

  pub IsReady-set :
      (k p : ℕ)
      → Safe
          (IsReady input connected k)
          (λ _. IsReady input connected k)
          (IsReady input connected k)
          (perform patience (Call.set_user_data p))
  unfolding perform set_user_data
  IsReady-set k p = Safe-modify _ (λ s h. record {
    linked = record {
      transport = h.linked.transport;
      state = h.linked.state;
      pending = h.linked.pending;
    };
    geometry = h.geometry;
    fits = h.fits;
  })

  pub IsLinked-set :
      (k p : ℕ)
      → Safe
          (IsLinked input connected k)
          (λ _. IsLinked input connected k)
          (IsLinked input connected k)
          (perform patience (Call.set_user_data p))
  unfolding perform set_user_data
  IsLinked-set k p =
      Safe-modify _
        (λ s h. record { transport = h.transport; state = h.state; pending = h.pending })
