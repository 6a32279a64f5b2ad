-- ===== src/Handshake/Security.antt =====
-- negotiate_security and check_security_result of src/protocol/ovnc_handshake.c.
use libopenvnc.Base.{ℕ, not, List, [], ◌∷◌, ltb, ◌==◌, if◌then◌else◌}
use libopenvnc.Error.{nomem, connection_refused, auth_failed, auth_unsupported}
use libopenvnc.Wire.{byte_at, read_u32}
use libopenvnc.State.{version_33, version_38, security_invalid, security_none, security_vnc_auth}
use libopenvnc.Run.{
  Action, System, pure, raise, gets, ◌>>=◌, ◌>>◌, try, modify_client, free, malloc,
}
use libopenvnc.Transport.{transport_send, transport_recv, recv_block, recv_or_free}
use libopenvnc.Handshake.Info.{set_conn_info}

-- The choice among the types of a list: the loop of negotiate_security.
unfoldable pub select_security : List ℕ → ℕ
select_security [] = security_invalid
select_security (t ∷ ts) = if t == security_none then security_none else select_security ts

module _ {E : Type 0} ⦃sys : System E⦄ where
  -- read_failure_reason: the reason is read, if there is memory for it, and dropped.
  unfoldable pub read_failure_reason : Action E Unit
  read_failure_reason = do
    len_buf ← transport_recv 4
    let reason_len = read_u32 len_buf
    if ltb 0 reason_len
        then (do
          found ← malloc reason_len
          if found
              then try (recv_block reason_len reason_len) (λ _. free >> raise connection_refused)
              else raise connection_refused)
        else raise connection_refused

  -- negotiate_security, for RFB 3.3 and for later versions
  unfoldable pub security_33 : Action E Unit
  unfolding read_failure_reason
  security_33 = do
    buf ← transport_recv 4
    let sec_type = read_u32 buf
    if sec_type == 0
        then read_failure_reason
        else if not (sec_type == security_none)
        then raise auth_unsupported
        else modify_client (set_conn_info (λ i. record i { security_type = sec_type }))

  unfoldable pub choose_security : List ℕ → Action E Unit
  unfolding select_security
  choose_security types = do
    let selected = select_security types
    if selected == security_invalid then raise auth_unsupported else do
      transport_send (selected ∷ [])
      modify_client (set_conn_info (λ i. record i { security_type = selected }))

  unfoldable pub security_37 : Action E Unit
  unfolding read_failure_reason choose_security
  security_37 = do
    counted ← transport_recv 1
    let count = byte_at counted 0
    if count == 0 then read_failure_reason else do
      found ← malloc count
      if found
          then (do types ← recv_or_free count count; free; choose_security types)
          else raise nomem

  unfoldable pub negotiate_security : Action E Unit
  unfolding security_33 security_37
  negotiate_security = do
    version ← gets (λ s. s.client.conn_info.rfb_version)
    if version == version_33 then security_33 else security_37

  -- check_security_result
  unfoldable pub check_security_result : Action E Unit
  unfolding read_failure_reason
  check_security_result = do
    info ← gets (λ s. s.client.conn_info)
    if info.rfb_version == version_38
        then (do
          buf ← transport_recv 4
          if not (read_u32 buf == 0)
              then try read_failure_reason (λ _. raise auth_failed)
              else pure tt)
        else if info.security_type == security_vnc_auth
        then (do
          buf ← transport_recv 4
          if not (read_u32 buf == 0) then raise auth_failed else pure tt)
        else pure tt
