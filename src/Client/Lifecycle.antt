-- ===== src/Client/Lifecycle.antt =====
-- Connecting, disconnecting and destroying a client, and what can be asked of it:
-- src/client/ovnc_client.c.
pub mod Closing
pub mod Connecting
pub mod Destroying
use libopenvnc.Base.{ℕ, Bool, true, false, ◌&&◌, not, none, some, if◌then◌else◌, is_some}
use libopenvnc.Error.{Error, invalid_arg}
use libopenvnc.State.{
  Client, ClientState, created, connected, disconnected, Framebuffer, ConnectionInfo,
}
use libopenvnc.Run.{
  St, Action, System, pure, raise, gets, ◌>>=◌, ◌>>◌, try, modify_client, free, free_if,
}
use libopenvnc.Socket.{platform_init, platform_cleanup}
use libopenvnc.Transport.{point_to, transport_create, transport_destroy, transport_connect}
use libopenvnc.Handshake.{handshake}

abbrev pub set_state : ClientState → Client → Client
set_state st c = record c { state = st }

-- `client->state == …`
abbrev pub is_created : ClientState → Bool
is_created created = true
is_created connected = false
is_created disconnected = false

abbrev pub is_connected_state : ClientState → Bool
is_connected_state created = false
is_connected_state connected = true
is_connected_state disconnected = false

module _ {E : Type 0} ⦃sys : System E⦄ where
  -- ovnc_client_disconnect
  unfoldable pub disconnect : Action E Unit
  disconnect = do
    state ← gets (λ s. s.client.state)
    if is_connected_state state
        then (do
          transport_destroy
          modify_client (point_to none)
          modify_client (set_state disconnected)
          platform_cleanup)
        else pure tt

  -- ovnc_client_destroy; after it the client is no more.
  unfoldable pub destroy : Action E Unit
  unfolding disconnect
  destroy = do
    state ← gets (λ s. s.client.state)
    if is_connected_state state then disconnect else pure tt
    c ← gets (λ s. s.client)
    free_if (not c.callbacks.alloc_framebuffer && is_some c.framebuffer.pixels)
    free_if (is_some c.encodings)
    free_if (is_some c.pixel_format)
    free
    free

  -- What ovnc_client_connect does where a step after ovnc__transport_create fails.
  unfoldable pub undo_connect : Error → Action E Unit
  undo_connect e = do transport_destroy; modify_client (point_to none); platform_cleanup; raise e

  abbrev pub or_undo : Action E Unit → Action E Unit
  or_undo m = try m (λ err. elim err [ none ↦ pure tt | some e ↦ undo_connect e ])

  -- ovnc_client_connect
  unfoldable pub connect : Action E Unit
  unfolding undo_connect
  connect = do
    c ← gets (λ s. s.client)
    if not (is_created c.state) then raise invalid_arg else do
      platform_init
      try transport_create
          (λ err. elim err [ none ↦ pure tt | some e ↦ platform_cleanup >> raise e ])
      or_undo (transport_connect c.host c.port c.connect_timeout_ms)
      or_undo handshake
      modify_client (set_state connected)

  -- ovnc_client_is_connected
  unfoldable pub is_connected : St E → Bool
  is_connected s = is_connected_state s.client.state

  -- ovnc_client_get_connection_info; `info` is not NULL.
  unfoldable pub get_connection_info : Action E ConnectionInfo
  get_connection_info = do
    c ← gets (λ s. s.client)
    if is_created c.state then raise invalid_arg else pure c.conn_info

  -- ovnc_client_get_framebuffer
  unfoldable pub get_framebuffer : St E → Framebuffer
  get_framebuffer s = s.client.framebuffer

  -- ovnc_client_get_user_data and ovnc_client_set_user_data
  unfoldable pub get_user_data : St E → ℕ
  get_user_data s = s.client.user_data

  unfoldable pub set_user_data : ℕ → Action E Unit
  set_user_data p = modify_client (λ c. record c { user_data = p })
