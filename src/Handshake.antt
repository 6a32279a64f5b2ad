-- ===== src/Handshake.antt =====
-- src/protocol/ovnc_handshake.c: the opening of a session, step by step.
pub mod Info
pub mod Version
pub mod Security
pub mod Init
pub mod Choices
pub mod Opening
pub mod ServerName
pub mod NameField
pub mod Block
pub mod Safety
pub mod Script
pub mod Agreement
pub mod Preferences
pub mod Transcript
use libopenvnc.Base.{
  ℕ, zero, suc, ◌+◌, ◌-◌, Bool, true, false, ◌&&◌, ◌||◌, not, Option, none, some, List, [], ◌∷◌,
  ltb, ◌==◌, if◌then◌else◌, length, take, drop, splice, ℤ, pos, negsuc, ◌==ℤ◌, ◌+ℤ◌, ◌*ℤ◌, sub_ℕ,
  ltb_ℤ, is_negative, is_some, size_of_int, mul_size,
}
use libopenvnc.Error.{
  nomem, connection_refused, version_mismatch, auth_failed, auth_unsupported, protocol,
}
use libopenvnc.Wire.{byte_at, read_u16, read_u32}
use libopenvnc.Pixel.{PixelFormat, bytes_per_pixel, from_wire}
use libopenvnc.State.{
  Client, ConnectionInfo, Framebuffer, version_33, version_37, version_38, security_invalid,
  security_none, security_vnc_auth, server_name_max,
}
use libopenvnc.Run.{
  out_of_fuel, Action, System, pure, raise, abort, gets, ◌>>=◌, ◌>>◌, try, or_raise, modify_client,
  free, malloc, call_alloc_framebuffer,
}
use libopenvnc.Transport.{
  transport_send, transport_recv, transport_recv_to, recv_block, recv_or_free,
}
use libopenvnc.Messages.{send_set_pixel_format, send_set_encodings}
use libopenvnc.Encoding.{zeroed, set_framebuffer}
use Version.{negotiate_version}
use Security.{negotiate_security, check_security_result}
use Init.{do_initialization}

module _ {E : Type 0} ⦃sys : System E⦄ where
  -- send_initial_messages
  abbrev pub send_format : Option PixelFormat → Action E Unit
  send_format none = pure tt
  send_format (some fmt) = send_set_pixel_format fmt

  abbrev pub send_encodings : Option (List ℤ) → ℕ → Action E Unit
  send_encodings none n = pure tt
  send_encodings (some es) n = if ltb 0 n then send_set_encodings es n else pure tt

  unfoldable pub send_initial_messages : Action E Unit
  send_initial_messages = do
    fmt ← gets (λ s. s.client.pixel_format)
    send_format fmt
    c ← gets (λ s. s.client)
    send_encodings c.encodings c.num_encodings

  -- ovnc__handshake
  unfoldable pub handshake : Action E Unit
  unfolding negotiate_version negotiate_security check_security_result do_initialization
      send_initial_messages
  handshake = do
    negotiate_version
    negotiate_security
    check_security_result
    do_initialization
    send_initial_messages
