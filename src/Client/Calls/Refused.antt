-- ===== src/Client/Calls/Refused.antt =====
-- Calls on a client that is not connected, and a second ovnc_client_connect.
use libopenvnc.Base.{ℕ, ◌≡◌, ap, ◌∙◌, false, none, some}
use libopenvnc.State.{Client, ClientState}
use libopenvnc.Run.{St, System, Action, gets, ◌>>=◌}
use libopenvnc.Run.Safe.{Safe, Safe-pre, Safe-bind, Safe-raise, Safe-pure, Safe-gets, Safe-assume}
use libopenvnc.Client.Lifecycle.{is_connected_state, is_created, connect, disconnect}
use libopenvnc.Client.Process.{process_message, run}
use libopenvnc.Client.Requests.{
  when_connected, request_update, client_send_key_event, client_send_pointer_event,
  client_send_cut_text, set_encodings, set_pixel_format,
}
use libopenvnc.Client.Calls.{Call, perform}

abbrev pub IsConnect : Call → Type 0
IsConnect Call.connect = Unit {0}
IsConnect _ = ⊥

module _ {E : Type 0} ⦃sys : System E⦄ (patience : E → ℕ) {P : St E → Type 0}
    (off : (s : St E) → P s → is_connected_state s.client.state ≡ false) where
  -- A look at the state, which is not CONNECTED.
  state_off :
      {m : ClientState → Action E Unit}
      → ((state : ClientState) → is_connected_state state ≡ false → Safe P (λ _. P) P (m state))
      → Safe P (λ _. P) P (gets (λ s. s.client.state) >>= m)
  state_off h = Safe-bind (Safe-gets (λ s. s.client.state)) λ state.
      Safe-pre {P = λ s. P s × (is_connected_state state ≡ false)}
        (λ s q. (q.0, ap is_connected_state q.1 ∙ off s q.0)) (Safe-assume (h state))

  when_off : (m : Action E Unit) → Safe P (λ _. P) P (when_connected m)
  when_off m = state_off λ state e. rw e (Safe-raise _ (λ s q. q))

  -- All but ovnc_client_connect and the setting of the user data does nothing on a client that is not
  -- connected.
  pub off-Safe :
      (c : Call)
      → (IsConnect c → Safe P (λ _. P) P (perform patience Call.connect))
      → ((p : ℕ) → Safe P (λ _. P) P (perform patience (Call.set_user_data p)))
      → Safe P (λ _. P) P (perform patience c)
  unfolding perform process_message run request_update client_send_key_event
      client_send_pointer_event client_send_cut_text set_encodings set_pixel_format disconnect
  off-Safe Call.connect on set = on tt
  off-Safe Call.process_message on set = state_off λ state e. rw e (Safe-raise _ (λ s q. q))
  off-Safe Call.run on set =
      Safe-bind (Safe-gets (λ s. patience s.world))
        λ fuel. Safe-pre {P = P} (λ s q. q.0) (state_off λ state e. rw e (Safe-raise _ (λ s q. q)))
  off-Safe (Call.request_update rect incremental) on set = when_off _
  off-Safe (Call.send_key_event key down) on set = when_off _
  off-Safe (Call.send_pointer_event x y button_mask) on set = when_off _
  off-Safe (Call.send_cut_text text len) on set = when_off _
  off-Safe (Call.set_pixel_format none) on set = Safe-raise _ (λ s q. q)
  off-Safe (Call.set_pixel_format (some fmt)) on set = when_off _
  off-Safe (Call.set_encodings none n) on set = Safe-raise _ (λ s q. q)
  off-Safe (Call.set_encodings (some es) n) on set = when_off _
  off-Safe (Call.set_user_data p) on set = set p
  off-Safe Call.disconnect on set = state_off λ state e. rw e (Safe-pure tt (λ s q. q))

module _ {E : Type 0} ⦃sys : System E⦄ where
  -- The state is not CREATED any more.
  pub connect_again :
      {P : St E → Type 0}
      → ((s : St E) → P s → is_created s.client.state ≡ false)
      → Safe P (λ _. P) P connect
  unfolding connect
  connect_again {P} not_new = Safe-bind (Safe-gets (λ s. s.client)) λ c.
      Safe-pre {P = λ s. P s × (is_created c.state ≡ false)}
        (λ s q. (q.0, ap (λ (d : Client). is_created d.state) q.1 ∙ not_new s q.0))
        (Safe-assume λ e. rw e (Safe-raise _ (λ s q. q)))
