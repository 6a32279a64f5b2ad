-- ===== src/Client/Process.antt =====
-- ovnc_client_process_message and ovnc_client_run of src/client/ovnc_client.c.
pub mod Safety
use libopenvnc.Base.{ℕ, zero, suc, not, none, some, if◌then◌else◌}
use libopenvnc.Error.{Error, invalid_arg}
use libopenvnc.State.{Event}
use libopenvnc.Run.{
  out_of_fuel, Action, System, pure, raise, abort, gets, ◌>>=◌, ◌>>◌, try, notify_if,
}
use libopenvnc.Dispatch.{recv_server_message}
use libopenvnc.Client.Lifecycle.{is_connected_state, disconnect}

module _ {E : Type 0} ⦃sys : System E⦄ where
  -- Both branches of ovnc_client_process_message on an error do this.
  unfoldable pub close_session : Error → Action E Unit
  unfolding disconnect
  close_session e = do notify_if (λ c. c.disconnected) (Event.disconnected e); disconnect; raise e

  -- ovnc_client_process_message
  unfoldable pub process_message : Action E Unit
  unfolding close_session
  process_message = do
    state ← gets (λ s. s.client.state)
    if not (is_connected_state state)
        then raise invalid_arg
        else try recv_server_message (λ err. elim err [ none ↦ pure tt | some e ↦ close_session e ])

  -- The loop of ovnc_client_run.
  unfoldable pub run_loop : ℕ → Action E Unit
  unfolding close_session
  run_loop zero = do
    state ← gets (λ s. s.client.state)
    if is_connected_state state then abort out_of_fuel else pure tt
  run_loop (suc fuel) = do
    state ← gets (λ s. s.client.state)
    if is_connected_state state
        then try recv_server_message
            (λ err. elim err [ none ↦ run_loop fuel | some e ↦ close_session e ])
        else pure tt

  -- ovnc_client_run, for so many messages.
  unfoldable pub run : ℕ → Action E Unit
  unfolding run_loop
  run fuel = do
    state ← gets (λ s. s.client.state)
    if is_connected_state state then run_loop fuel else raise invalid_arg
