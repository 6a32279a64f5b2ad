-- ===== src/Handshake/Opening.antt =====
-- The version and security steps of src/protocol/ovnc_handshake.c end without a fault.
use libopenvnc.Base.{
  ℕ, ◌≤◌, ◌<◌, ◌≡◌, ◌^◌, List, not, arith, ltb, ◌==◌, ◌==ℤ◌, ℤ, pos, length, some,
}
use libopenvnc.Wire.{byte_at, read_u32}
use libopenvnc.State.{
  Client, ConnectionInfo, created, version_33, version_38, security_none, security_vnc_auth,
  security_invalid,
}
use libopenvnc.Run.{St, System, Action, modify_client}
use libopenvnc.Run.Safe.{
  Safe, Safe-post, Safe-bind, Safe-if, Safe-raise, Safe-pure, Safe-assume, Safe-modify, Safe-gets,
  Safe-pre, Safe-try,
}
use libopenvnc.Session.{IsLinked, IsTame}
use libopenvnc.Session.Local.{IsHeld, IsLinked-IsHeld, IsHeld-and}
use libopenvnc.Session.Primitives.{
  malloc-Safe, free-Safe, transport_recv-Safe, transport_send-Safe, recv_block-Safe,
  recv_or_free-Safe,
}
use libopenvnc.Handshake.Info.{set_conn_info}
use libopenvnc.Handshake.Version.{is_banner, three_digits, negotiate_version}
use libopenvnc.Handshake.Security.{
  read_failure_reason, select_security, security_33, choose_security, security_37,
  negotiate_security, check_security_result,
}

-- The configured list of encodings has as many elements as `num_encodings` says.
pub record HasEncodings (c : Client) : Type 0 where
  pub enough : (es : List ℤ) → c.encodings ≡ some es → c.num_encodings ≤ length es
  pub bound : c.num_encodings < 2 ^ 61

module _ {E : Type 0} (input : E → List ℕ) where
  -- A client in the middle of ovnc_client_connect, with a property `F` of it.
  abbrev pub IsOpening : (Client → Type 0) → ℕ → St E → Type 0
  IsOpening F k s = IsLinked input created k s × F s.client

module _ {E : Type 0} ⦃sys : System E⦄ {input output : E → List ℕ} (laws : IsTame input output)
    (k : ℕ) (F : Client → Type 0) where
  pub IsOpening-IsHeld : IsHeld input (IsOpening input F k)
  IsOpening-IsHeld = IsHeld-and F (IsLinked-IsHeld created k)

  -- A step of the handshake: the client is still opening, whether it fails or not.
  abbrev pub Step : Action E Unit → Type 0
  Step m = Safe (IsOpening input F k) (λ _ s. IsOpening input F k s) (IsOpening input F k) m

  -- Filling the connection information does not touch the rest.
  pub set_info-Safe :
      (f : ConnectionInfo → ConnectionInfo)
      → ((c : Client) → F c → F (set_conn_info f c))
      → Step (modify_client (set_conn_info f))
  set_info-Safe f keep = Safe-modify _ (λ s q. (
    record { transport = q.0.transport; state = q.0.state; pending = q.0.pending },
    keep s.client q.1,
  ))

module _ {E : Type 0} ⦃sys : System E⦄ {input output : E → List ℕ} (laws : IsTame input output)
    (k : ℕ) (F : Client → Type 0)
    (keep : (f : ConnectionInfo → ConnectionInfo) (c : Client) → F c → F (set_conn_info f c)) where
  read_failure_reason-Step : Step laws k F read_failure_reason
  unfolding read_failure_reason
  read_failure_reason-Step =
      let held = IsOpening-IsHeld laws k F in
      Safe-bind (transport_recv-Safe laws held 4) λ buf. Safe-assume λ _.
        Safe-if (ltb 0 (read_u32 buf))
          (λ _. Safe-bind (malloc-Safe laws held.local _) λ found.
            Safe-if found
              (λ _.
                Safe-try _ (Safe-post (λ bs s q. q.0) (recv_block-Safe laws held _ _ (omega arith)))
                  (Safe-bind (free-Safe laws held.local) λ _. Safe-raise _ (λ s q. q))
                  (λ e. Safe-bind (free-Safe laws held.local) λ _. Safe-raise _ (λ s q. q)))
              (λ _. Safe-raise _ (λ s q. q)))
          (λ _. Safe-raise _ (λ s q. q))

  pub negotiate_version-Step : Step laws k F negotiate_version
  unfolding negotiate_version
  negotiate_version-Step =
      let held = IsOpening-IsHeld laws k F in
      Safe-bind (transport_recv-Safe laws held 12) λ buf. Safe-assume λ _.
        Safe-if (not (is_banner buf)) (λ _. Safe-raise _ (λ s q. q))
          (λ _.
            Safe-if (not (three_digits buf 4 ==ℤ pos 3)) (λ _. Safe-raise _ (λ s q. q))
              (λ _.
                Safe-bind (set_info-Safe laws k F _ (keep _)) λ _. transport_send-Safe laws held _))

  security_33-Step : Step laws k F security_33
  unfolding security_33
  security_33-Step = Safe-bind (transport_recv-Safe laws (IsOpening-IsHeld laws k F) 4) λ buf.
      Safe-assume λ _.
        Safe-if (read_u32 buf == 0) (λ _. read_failure_reason-Step)
          (λ _.
            Safe-if (not (read_u32 buf == security_none)) (λ _. Safe-raise _ (λ s q. q))
              (λ _. set_info-Safe laws k F _ (keep _)))

  choose_security-Step : (types : List ℕ) → Step laws k F (choose_security types)
  unfolding choose_security
  choose_security-Step types =
      Safe-if (select_security types == security_invalid) (λ _. Safe-raise _ (λ s q. q))
        (λ _.
          Safe-bind (transport_send-Safe laws (IsOpening-IsHeld laws k F) _)
            λ _. set_info-Safe laws k F _ (keep _))

  security_37-Step : Step laws k F security_37
  unfolding security_37
  security_37-Step =
      let held = IsOpening-IsHeld laws k F in
      Safe-bind (transport_recv-Safe laws held 1) λ counted. Safe-assume λ _.
        Safe-if (byte_at counted 0 == 0) (λ _. read_failure_reason-Step)
          (λ _. Safe-bind (malloc-Safe laws held.local _) λ found.
            Safe-if found
              (λ _. Safe-bind (recv_or_free-Safe laws held _ _ (omega arith)) λ types.
                Safe-assume
                  λ _. Safe-bind (free-Safe laws held.local) λ _. choose_security-Step types)
              (λ _. Safe-raise _ (λ s q. q)))

  pub negotiate_security-Step : Step laws k F negotiate_security
  unfolding negotiate_security
  negotiate_security-Step = Safe-bind (Safe-gets (λ s. s.client.conn_info.rfb_version)) λ version.
      Safe-pre (λ s q. q.0)
        (Safe-if (version == version_33) (λ _. security_33-Step) (λ _. security_37-Step))

  pub check_security_result-Step : Step laws k F check_security_result
  unfolding check_security_result
  check_security_result-Step =
      let held = IsOpening-IsHeld laws k F in
      Safe-bind (Safe-gets (λ s. s.client.conn_info)) λ info.
        Safe-pre (λ s q. q.0)
          (Safe-if (info.rfb_version == version_38)
            (λ _. Safe-bind (transport_recv-Safe laws held 4) λ buf. Safe-assume λ _.
              Safe-if (not (read_u32 buf == 0))
                (λ _.
                  Safe-try _ read_failure_reason-Step (Safe-raise _ (λ s q. q))
                    (λ e. Safe-raise _ (λ s q. q)))
                (λ _. Safe-pure tt (λ s q. q)))
            (λ _.
              Safe-if (info.security_type == security_vnc_auth)
                (λ _. Safe-bind (transport_recv-Safe laws held 4) λ buf. Safe-assume λ _.
                  Safe-if (not (read_u32 buf == 0)) (λ _. Safe-raise _ (λ s q. q))
                    (λ _. Safe-pure tt (λ s q. q)))
                (λ _. Safe-pure tt (λ s q. q))))
