-- ===== src/Handshake/Agreement.antt =====
-- What the version and security steps of src/protocol/ovnc_handshake.c send, where they succeed.
use libopenvnc.Base.{
  take, take-length-append, sym, ℕ, ◌≡◌, inl, inr, refl, ap, ◌∙◌, Bool, true, false, not, List, [],
  ◌∷◌, ◌++◌, append-nil, ltb, ◌==◌, ◌==ℤ◌, ==_iff, pos,
}
use libopenvnc.Wire.{byte_at, read_u32}
use libopenvnc.State.{version_33, version_38, security_invalid, security_none, security_vnc_auth}
use libopenvnc.Run.{St, System, modify_client}
use libopenvnc.Run.Safe.{
  EndsOr-mono, Safe-mono, Safe-post, Safe-pre, Safe-bind, Safe-if, Safe-raise, Safe-pure,
  Safe-modify, Safe-gets, Safe-try, Safe-assume,
}
use libopenvnc.Socket.Stream.{IsStream}
use libopenvnc.Session.Gives.{Gives, Yields-both, recv-Yields}
use libopenvnc.Transport.{transport_recv}
use libopenvnc.Session.Says.{
  IsMute, Gives-any, recv-Wrote, recv_or_free-Wrote, alloc-Wrote, release-Wrote, send-Wrote,
}
use libopenvnc.Handshake.Script.{
  Settings, choice_bytes, IsVersion, choose_version-IsVersion, rfc_text, version_str-rfc_text,
  Agrees, Said, secured,
}
use libopenvnc.Handshake.Info.{set_conn_info}
use libopenvnc.Handshake.Version.{
  is_banner, three_digits, choose_version, version_str, negotiate_version,
}
use libopenvnc.Handshake.Choices.{Answers, select_security-cases, choose_version-Answers}
use libopenvnc.Handshake.Security.{
  read_failure_reason, select_security, security_33, choose_security, security_37,
  negotiate_security, check_security_result,
}

not-false : (b : Bool) → not b ≡ false → b ≡ true
not-false true e = refl
not-false false e = cc

module _ {E : Type 0} ⦃sys : System E⦄ (input output : E → List ℕ) (stream : IsStream input output)
    (mute : IsMute output) where
  read_failure_reason-Gives :
      {P : St E → Type 0} {Q : Unit {0} → St E → Type 0} → Gives P Q read_failure_reason
  unfolding read_failure_reason
  read_failure_reason-Gives {P} = Safe-bind (Gives-any P _) λ buf.
      Safe-if (ltb 0 (read_u32 buf))
        (λ _. Safe-bind (Gives-any _ _) λ found.
          Safe-if found
            (λ _.
              Safe-try _ (Safe-mono (λ s h. h) (λ a s h. h) (λ s h. tt) (Gives-any _ _))
                (Safe-bind (Gives-any _ _) λ _. Safe-raise _ (λ s h. tt))
                (λ e. Safe-bind (Gives-any _ _) λ _. Safe-raise _ (λ s h. tt)))
            (λ _. Safe-raise _ (λ s h. tt)))
        (λ _. Safe-raise _ (λ s h. tt))

  -- A read of 12 bytes, where `came` are to come.
  recv-Took :
      (x : Settings) (o came : List ℕ)
      → Gives
          (λ s. Said output x o s × (input s.world ≡ came))
          (λ buf s. Said output x o s × (buf ≡ take 12 came))
          (transport_recv 12)
  recv-Took x o came = record {
    at = λ s h.
        EndsOr-mono (Unit {0}) (transport_recv 12 s)
          (λ buf s' q. (
            q.0,
            sym (take-length-append buf (input s'.world))
                ∙ ap (λ (n : ℕ). take n (buf ++ input s'.world)) q.1.0
                ∙ ap (take 12) (sym q.1.1 ∙ h.1),
          ))
          (λ s' x. x)
          (Yields-both _ _ (transport_recv 12 s) ((recv-Wrote output mute (Agrees x) o 12).at s h.0)
            (recv-Yields input output stream 12 s));
  }

  pub negotiate_version-Gives :
      (x : Settings) (o came : List ℕ)
      → Gives
          (λ s. Said output x o s × (input s.world ≡ came))
          (λ _ s.
            (v : ℕ) × ((IsVersion v × Answers (take 12 came) v)
              × Said output (record x { version = v }) (o ++ rfc_text v) s))
          negotiate_version
  unfolding negotiate_version
  negotiate_version-Gives x o came = Safe-bind (recv-Took x o came) λ buf. Safe-assume λ took.
      Safe-if (not (is_banner buf)) (λ _. Safe-raise _ (λ s h. tt))
        (λ _.
          Safe-if (not (three_digits buf 4 ==ℤ pos 3)) (λ _. Safe-raise _ (λ s h. tt))
            (λ _.
              let v = choose_version (three_digits buf 8) in
              Safe-bind
                (Safe-modify {Q = λ _. Said output (record x { version = v }) o} _
                  (λ s h. (h.0, ap (λ (y : Settings). record y { version = v }) h.1)))
                λ _.
                  Safe-post
                    (λ _ s h.
                      let known = choose_version-IsVersion (three_digits buf 8) in
                      let answers : Answers (take 12 came) v =
                        rw (sym took) (choose_version-Answers buf) in
                      (v, ((known, answers), rw (sym (version_str-rfc_text v known)) h)))
                    (send-Wrote input output stream (Agrees (record x { version = v })) o
                      (version_str v))))

  agree :
      (x : Settings) (o : List ℕ) (t : ℕ)
      → t ≡ security_none
      → Gives
          (Said output x o)
          (λ _. Said output (secured x) o)
          (modify_client (set_conn_info (λ i. record i { security_type = t })))
  agree x o t e = Safe-modify _ (λ s h. (
    h.0,
    ap (λ (y : Settings). record y { security_type = t }) h.1
        ∙ ap (λ (u : ℕ). record x { security_type = u }) e,
  ))

  security_33-Gives :
      (x : Settings) (o : List ℕ)
      → Gives (Said output x o) (λ _. Said output (secured x) o) security_33
  unfolding security_33
  security_33-Gives x o = Safe-bind (recv-Wrote output mute (Agrees x) o 4) λ buf.
      Safe-if (read_u32 buf == 0) (λ _. read_failure_reason-Gives)
        (λ _.
          Safe-if (not (read_u32 buf == security_none)) (λ _. Safe-raise _ (λ s h. tt))
            (λ same.
              agree x o (read_u32 buf)
                ((==_iff (read_u32 buf) security_none).0 (not-false _ same))))

  selected :
      (types : List ℕ)
      → (select_security types == security_invalid) ≡ false
      → select_security types ≡ security_none
  selected types found = elim (select_security-cases types) [
    | inl one ↦ one.0
    | inr none_there ↦ cc ((==_iff (select_security types) security_invalid).1 none_there.0, found)
  ]

  choose_security-Gives :
      (x : Settings) (o : List ℕ) (types : List ℕ)
      → Gives
          (Said output x o)
          (λ _. Said output (secured x) (o ++ (security_none ∷ [])))
          (choose_security types)
  unfolding choose_security
  choose_security-Gives x o types =
      Safe-if (select_security types == security_invalid) (λ _. Safe-raise _ (λ s h. tt))
        (λ found. rw (selected types found) (
          Safe-bind (send-Wrote input output stream (Agrees x) o (security_none ∷ []))
            λ _. agree x _ security_none refl))

  security_37-Gives :
      (x : Settings) (o : List ℕ)
      → Gives
          (Said output x o)
          (λ _. Said output (secured x) (o ++ (security_none ∷ [])))
          security_37
  unfolding security_37
  security_37-Gives x o = Safe-bind (recv-Wrote output mute (Agrees x) o 1) λ counted.
      Safe-if (byte_at counted 0 == 0) (λ _. read_failure_reason-Gives)
        (λ _. Safe-bind (alloc-Wrote output mute (Agrees x) o _) λ found.
          Safe-if found
            (λ _. Safe-bind (recv_or_free-Wrote output mute (Agrees x) o _ _) λ types.
              Safe-bind (release-Wrote output mute (Agrees x) o)
                λ _. choose_security-Gives x o types)
            (λ _. Safe-raise _ (λ s h. tt)))

  pub negotiate_security-Gives :
      (x : Settings) (o : List ℕ)
      → Gives
          (Said output x o)
          (λ _. Said output (secured x) (o ++ choice_bytes x.version security_none))
          negotiate_security
  unfolding negotiate_security
  negotiate_security-Gives x o =
      Safe-bind (Safe-gets (λ s. s.client.conn_info.rfb_version)) λ version.
        Safe-pre {P = λ s. Said output x o s × (version ≡ x.version)}
          (λ s q. (q.0, q.1 ∙ ap (λ (y : Settings). y.version) q.0.1))
          (Safe-assume λ e. rw e (
            Safe-if (x.version == version_33) (λ old. rw (old, append-nil) (security_33-Gives x o))
              (λ new. rw new (security_37-Gives x o))))

  pub check_security_result-Gives :
      (x : Settings) (o : List ℕ)
      → Gives (Said output x o) (λ _. Said output x o) check_security_result
  unfolding check_security_result
  check_security_result-Gives x o = Safe-bind (Safe-gets (λ s. s.client.conn_info)) λ info.
      Safe-pre (λ s q. q.0)
        (Safe-if (info.rfb_version == version_38)
          (λ _. Safe-bind (recv-Wrote output mute (Agrees x) o 4) λ buf.
            Safe-if (not (read_u32 buf == 0))
              (λ _.
                Safe-try _ (Safe-mono (λ s h. h) (λ a s h. h) (λ s h. h) (Gives-any _ _))
                  (Safe-raise _ (λ s h. tt)) (λ e. Safe-raise _ (λ s h. tt)))
              (λ _. Safe-pure tt (λ s h. h)))
          (λ _.
            Safe-if (info.security_type == security_vnc_auth)
              (λ _. Safe-bind (recv-Wrote output mute (Agrees x) o 4) λ buf.
                Safe-if (not (read_u32 buf == 0)) (λ _. Safe-raise _ (λ s h. tt))
                  (λ _. Safe-pure tt (λ s h. h)))
              (λ _. Safe-pure tt (λ s h. h))))
