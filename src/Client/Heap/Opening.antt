-- ===== src/Client/Heap/Opening.antt =====
-- The heap blocks through the handshake of src/protocol/ovnc_handshake.c, up to the framebuffer.
use libopenvnc.Base.{ℕ, zero, suc, ◌+◌, ◌-◌, splice, List, not, ltb, ◌==◌, ◌==ℤ◌, pos}
use libopenvnc.Wire.{byte_at, read_u32}
use libopenvnc.State.{
  ConnectionInfo, version_33, version_38, security_none, security_vnc_auth, security_invalid,
  server_name_max,
}
use libopenvnc.Run.{St, System, modify_client}
use libopenvnc.Run.Safe.{
  Safe-bind, Safe-if, Safe-raise, Safe-pure, Safe-modify, Safe-gets, Safe-pre, Safe-try,
}
use libopenvnc.Handshake.Info.{set_conn_info}
use libopenvnc.Handshake.Version.{is_banner, three_digits, negotiate_version}
use libopenvnc.Handshake.Security.{
  read_failure_reason, select_security, security_33, choose_security, security_37,
  negotiate_security, check_security_result,
}
use libopenvnc.Handshake.Init.{store_name, skip_loop, read_name}
use libopenvnc.Transport.{transport_recv_to}
use libopenvnc.Client.Heap.Counting.{
  IsCount, Goes, recv_to-Goes, recv-Goes, recv_block-Goes, recv_or_free-Goes, send-Goes,
  malloc_if-Goes, free-Goes,
}

module _ {E : Type 0} ⦃sys : System E⦄ {P : ℕ → St E → Type 0} (counts : IsCount P)
    (info : (f : ConnectionInfo → ConnectionInfo) (n : ℕ) (s : St E)
      → P n s
      → P n (record s { client = set_conn_info f s.client }))
    (n : ℕ) where
  set_info-Goes :
      (f : ConnectionInfo → ConnectionInfo) → Goes P n (λ _. n) n (modify_client (set_conn_info f))
  set_info-Goes f = Safe-modify _ (info f n)

  read_failure_reason-Goes : Goes P n (λ _. n) n read_failure_reason
  unfolding read_failure_reason
  read_failure_reason-Goes = Safe-bind (recv-Goes counts n 4) λ buf.
      Safe-if (ltb 0 (read_u32 buf))
        (λ _.
          malloc_if-Goes counts n n _
            (Safe-try _ (recv_block-Goes counts (n + 1) _ _)
              (Safe-bind (free-Goes counts n n) λ _. Safe-raise _ (λ s h. h))
              (λ e. Safe-bind (free-Goes counts n n) λ _. Safe-raise _ (λ s h. h)))
            (Safe-raise _ (λ s h. h)))
        (λ _. Safe-raise _ (λ s h. h))

  pub negotiate_version-Goes : Goes P n (λ _. n) n negotiate_version
  unfolding negotiate_version
  negotiate_version-Goes = Safe-bind (recv-Goes counts n 12) λ buf.
      Safe-if (not (is_banner buf)) (λ _. Safe-raise _ (λ s h. h))
        (λ _.
          Safe-if (not (three_digits buf 4 ==ℤ pos 3)) (λ _. Safe-raise _ (λ s h. h))
            (λ _. Safe-bind (set_info-Goes _) λ _. send-Goes counts n _))

  security_33-Goes : Goes P n (λ _. n) n security_33
  unfolding security_33
  security_33-Goes = Safe-bind (recv-Goes counts n 4) λ buf.
      Safe-if (read_u32 buf == 0) (λ _. read_failure_reason-Goes)
        (λ _.
          Safe-if (not (read_u32 buf == security_none)) (λ _. Safe-raise _ (λ s h. h))
            (λ _. set_info-Goes _))

  choose_security-Goes : (types : List ℕ) → Goes P n (λ _. n) n (choose_security types)
  unfolding choose_security
  choose_security-Goes types =
      Safe-if (select_security types == security_invalid) (λ _. Safe-raise _ (λ s h. h))
        (λ _. Safe-bind (send-Goes counts n _) λ _. set_info-Goes _)

  security_37-Goes : Goes P n (λ _. n) n security_37
  unfolding security_37
  security_37-Goes = Safe-bind (recv-Goes counts n 1) λ counted.
      Safe-if (byte_at counted 0 == 0) (λ _. read_failure_reason-Goes)
        (λ _.
          malloc_if-Goes counts n n _
            (Safe-bind (recv_or_free-Goes counts n _ _)
              λ types. Safe-bind (free-Goes counts n n) λ _. choose_security-Goes types)
            (Safe-raise _ (λ s h. h)))

  pub negotiate_security-Goes : Goes P n (λ _. n) n negotiate_security
  unfolding negotiate_security
  negotiate_security-Goes = Safe-bind (Safe-gets (λ s. s.client.conn_info.rfb_version)) λ version.
      Safe-pre (λ s q. q.0)
        (Safe-if (version == version_33) (λ _. security_33-Goes) (λ _. security_37-Goes))

  pub check_security_result-Goes : Goes P n (λ _. n) n check_security_result
  unfolding check_security_result
  check_security_result-Goes = Safe-bind (Safe-gets (λ s. s.client.conn_info)) λ i.
      Safe-pre (λ s q. q.0)
        (Safe-if (i.rfb_version == version_38)
          (λ _. Safe-bind (recv-Goes counts n 4) λ buf.
            Safe-if (not (read_u32 buf == 0))
              (λ _.
                Safe-try _ read_failure_reason-Goes (Safe-raise _ (λ s h. h))
                  (λ e. Safe-raise _ (λ s h. h)))
              (λ _. Safe-pure tt (λ s h. h)))
          (λ _.
            Safe-if (i.security_type == security_vnc_auth)
              (λ _. Safe-bind (recv-Goes counts n 4) λ buf.
                Safe-if (not (read_u32 buf == 0)) (λ _. Safe-raise _ (λ s h. h))
                  (λ _. Safe-pure tt (λ s h. h)))
              (λ _. Safe-pure tt (λ s h. h))))

  skip_loop-Goes : (fuel skip : ℕ) → Goes P n (λ _. n) n (skip_loop fuel skip)
  unfolding skip_loop
  skip_loop-Goes zero skip =
      Safe-if (skip == 0) (λ _. Safe-pure tt (λ s h. h)) (λ _. record { at = λ s h. tt })
  skip_loop-Goes (suc fuel) skip =
      Safe-if (skip == 0) (λ _. Safe-pure tt (λ s h. h))
        (λ _. Safe-bind (recv-Goes counts n _) λ _. skip_loop-Goes fuel _)

  recv_name-Goes : (len : ℕ) → Goes P n (λ _. n) n (transport_recv_to store_name len)
  recv_name-Goes len =
      recv_to-Goes counts n store_name len
        (λ bs. info (λ i. record i { name = splice i.name 0 bs }) n)

  pub read_name-Goes : (name_len : ℕ) → Goes P n (λ _. n) n (read_name name_len)
  unfolding read_name
  read_name-Goes name_len =
      Safe-if (ltb 0 name_len)
        (λ _.
          Safe-if (ltb (server_name_max - 1) name_len)
            (λ _. Safe-bind (recv_name-Goes _) λ _. Safe-bind (set_info-Goes _) λ _.
              skip_loop-Goes (name_len - (server_name_max - 1)) (name_len - (server_name_max - 1)))
            (λ _. Safe-bind (recv_name-Goes _) λ _. set_info-Goes _))
        (λ _. set_info-Goes _)
