-- ===== src/Handshake/Transcript.antt =====
-- The bytes that ovnc__handshake of src/protocol/ovnc_handshake.c sends.
use libopenvnc.Base.{
  ℕ, zero, suc, ◌-◌, ◌≡◌, refl, ap, ◌∙◌, sym, List, [], ◌∷◌, ◌++◌, append_assoc, arith, ltb, ◌==◌,
  is_negative, drop, take,
}
use libopenvnc.Wire.{read_u32}
use libopenvnc.Pixel.{bytes_per_pixel}
use libopenvnc.State.{created, security_none, server_name_max}
use libopenvnc.Run.{St, System}
use libopenvnc.Run.Safe.{
  Ends-mono, Safe-post, Safe-pre, Safe-bind, Safe-if, Safe-raise, Safe-pure, Safe-modify, Safe-gets,
  Safe-assume, Safe-exists, Ends,
}
use libopenvnc.Transport.{transport_recv_to}
use libopenvnc.Socket.Stream.{IsStream}
use libopenvnc.Session.Gives.{Gives, Yields-and}
use libopenvnc.Session.{IsTame, IsLinked, IsReady}
use libopenvnc.Handshake.Opening.{HasEncodings}
use libopenvnc.Handshake.Safety.{handshake-Safe}
use libopenvnc.Handshake.Preferences.{send_initial_messages-Gives}
use libopenvnc.Session.Says.{
  IsMute, recv-Wrote, recv_to-Wrote, alloc-Wrote, call_alloc-Wrote, send-Wrote,
}
use libopenvnc.Handshake.Script.{
  Settings, settings_of, format_bytes, encodings_bytes, choice_bytes, IsVersion, HasShortList,
  Agrees, Said, secured, Opened, rfc_text,
}
use libopenvnc.Handshake.Agreement.{
  negotiate_version-Gives, negotiate_security-Gives, check_security_result-Gives,
}
use libopenvnc.Handshake.Choices.{Answers}
use libopenvnc.Handshake.Init.{
  store_name, active_format, skip_loop, read_name, allocate, init_framebuffer, do_initialization,
}
use libopenvnc.Handshake.{handshake}

joined : (o a b c d : List ℕ) → (((o ++ a) ++ b) ++ c) ++ d ≡ o ++ (a ++ (b ++ (c ++ d)))
joined o a b c d =
    append_assoc ((o ++ a) ++ b) c d
    ∙ append_assoc (o ++ a) b (c ++ d)
    ∙ append_assoc o a (b ++ (c ++ d))

module _ {E : Type 0} ⦃sys : System E⦄ (input output : E → List ℕ) (stream : IsStream input output)
    (mute : IsMute output)
    (kept : (s : St E)
      → settings_of (sys.alloc_framebuffer s).1.client ≡ settings_of s.client) where
  skip_loop-Gives :
      (x : Settings) (o : List ℕ) (fuel skip : ℕ)
      → Gives (Said output x o) (λ _. Said output x o) (skip_loop fuel skip)
  unfolding skip_loop
  skip_loop-Gives x o zero skip =
      Safe-if (skip == 0) (λ _. Safe-pure tt (λ s h. h)) (λ _. record { at = λ s h. tt })
  skip_loop-Gives x o (suc fuel) skip =
      Safe-if (skip == 0) (λ _. Safe-pure tt (λ s h. h))
        (λ _. Safe-bind (recv-Wrote output mute (Agrees x) o _) λ _. skip_loop-Gives x o fuel _)

  read_name-Gives :
      (x : Settings) (o : List ℕ) (n : ℕ)
      → Gives (Said output x o) (λ _. Said output x o) (read_name n)
  unfolding read_name
  read_name-Gives x o n =
      let keep : (m : ℕ)
          → Gives (Said output x o) (λ _. Said output x o) (transport_recv_to store_name m) =
        λ m. recv_to-Wrote output mute (Agrees x) store_name o m (λ bs c g. g) in
      Safe-if (ltb 0 n)
        (λ _.
          Safe-if (ltb (server_name_max - 1) n)
            (λ _. Safe-bind (keep _) λ _.
              Safe-bind (Safe-modify {Q = λ _. Said output x o} _ (λ s h. h))
                λ _. skip_loop-Gives x o (n - (server_name_max - 1)) (n - (server_name_max - 1)))
            (λ _. Safe-bind (keep _) λ _. Safe-modify _ (λ s h. h)))
        (λ _. Safe-modify _ (λ s h. h))

  init_framebuffer-Gives :
      (x : Settings) (o : List ℕ) → Gives (Said output x o) (λ _. Said output x o) init_framebuffer
  unfolding init_framebuffer allocate
  init_framebuffer-Gives x o =
      let says = Said output x o in
      Safe-bind (Safe-gets (λ s. s.client)) λ c.
        Safe-pre {P = says} (λ s q. q.0)
          (Safe-bind (Safe-modify {Q = λ _. says} _ (λ s h. h)) λ _.
            Safe-if (is_negative (bytes_per_pixel (active_format c)))
              (λ _. Safe-raise _ (λ s h. tt))
              (λ _. Safe-bind (Safe-modify {Q = λ _. says} _ (λ s h. h)) λ _.
                Safe-if c.callbacks.alloc_framebuffer
                  (λ _. call_alloc-Wrote output mute (Agrees x) o (λ s g. kept s ∙ g))
                  (λ _. Safe-bind (alloc-Wrote output mute (Agrees x) o _) λ found.
                    Safe-bind (Safe-modify {Q = λ _. says} _ (λ s h. h)) λ _.
                      Safe-if found (λ _. Safe-pure tt (λ s h. h))
                        (λ _. Safe-raise _ (λ s h. tt)))))

  do_initialization-Gives :
      (x : Settings) (o : List ℕ)
      → Gives (Said output x o) (λ _. Said output x (o ++ (x.shared ∷ []))) do_initialization
  unfolding do_initialization
  do_initialization-Gives x o =
      let says = Said output x (o ++ (x.shared ∷ [])) in
      Safe-bind (Safe-gets (λ s. s.client.shared)) λ shared.
        Safe-pre {P = λ s. Said output x o s × (shared ≡ x.shared)}
          (λ s q. (q.0, q.1 ∙ ap (λ (y : Settings). y.shared) q.0.1))
          (Safe-assume λ e. rw e (
            Safe-bind (send-Wrote input output stream (Agrees x) o (x.shared ∷ [])) λ _.
              Safe-bind (recv-Wrote output mute (Agrees x) _ 24) λ header.
                Safe-bind (Safe-modify {Q = λ _. says} _ (λ s h. h)) λ _.
                  Safe-bind (read_name-Gives x _ (read_u32 (drop 20 header)))
                    λ _. init_framebuffer-Gives x _))

  -- ovnc__handshake sends the opening of RFC 6143, where it returns OVNC_OK.
  handshake-Gives :
      (x : Settings) (o came : List ℕ)
      → HasShortList x
      → Gives
          (λ s. Said output x o s × (input s.world ≡ came))
          (λ _. Opened output x came o)
          handshake
  unfolding handshake
  handshake-Gives x o came short =
      Safe-bind (negotiate_version-Gives input output stream mute x o came) λ _.
        Safe-exists
          {P = λ v s.
            (IsVersion v × Answers (take 12 came) v)
            × Said output (record x { version = v }) (o ++ rfc_text v) s}
          λ v.
            let y = record x { version = v } in
            let z = secured y in
            let o1 = o ++ rfc_text v in
            let o2 = o1 ++ choice_bytes v security_none in
            Safe-pre {P = λ s. Said output y o1 s × (IsVersion v × Answers (take 12 came) v)}
              (λ s q. (q.1, q.0))
              (Safe-assume λ known.
                Safe-bind (negotiate_security-Gives input output stream mute y o1) λ _.
                  Safe-bind (check_security_result-Gives input output stream mute z o2) λ _.
                    Safe-bind (do_initialization-Gives z o2) λ _.
                      Safe-post
                        (λ _ s h. (
                          v,
                          known.0,
                          known.1,
                          (
                            h.0
                                ∙ joined o (rfc_text v) (choice_bytes v security_none)
                                    (x.shared ∷ [])
                                    (format_bytes x.pixel_format
                                      ++ encodings_bytes x.encodings x.num_encodings),
                            h.1,
                          ),
                        ))
                        (send_initial_messages-Gives input output stream mute z
                          (o2 ++ (x.shared ∷ []))
                          (record { enough = short.enough; bound = short.bound })))

module _ {E : Type 0} ⦃sys : System E⦄ {input output : E → List ℕ} (laws : IsTame input output)
    (mute : IsMute output)
    (kept : (s : St E)
      → settings_of (sys.alloc_framebuffer s).1.client ≡ settings_of s.client) where
  list_kept : (s : St E) → HasEncodings s.client → HasEncodings (sys.alloc_framebuffer s).1.client
  list_kept s h = record {
    enough = λ es e.
        rw (ap (λ (x : Settings). x.num_encodings) (kept s))
          (h.enough es (sym (ap (λ (x : Settings). x.encodings) (kept s)) ∙ e));
    bound = rw (ap (λ (x : Settings). x.num_encodings) (kept s)) h.bound;
  }

  -- ovnc__handshake, on a client with a transport in the state CREATED whose list of encodings holds
  -- num_encodings elements, fewer than 2^16, in an environment that meets `Session.IsTame` and whose
  -- reads, allocations and callback `alloc_framebuffer` send nothing (`IsMute`) and leave the settings
  -- of the client alone: there is no fault. Where it returns OVNC_OK, a version 3.3, 3.7 or 3.8 is
  -- agreed, which is 3.8, 3.7 or 3.3 where the first 12 bytes that the server sent are "RFB 003.abc\n" with
  -- a number abc of 8 or more, of 7, or below 7; the type of security is None, the framebuffer is there,
  -- and what was sent is exactly the opening of RFC 6143: the text of that version, the type of security unless the version is 3.3, the
  -- shared flag, and the messages for the pixel format and the encodings that the application has set.
  pub handshake-Opens :
      (k : ℕ) (s : St E)
      → IsLinked input created k s
      → HasShortList (settings_of s.client)
      → Ends
          (λ _ s'.
            IsReady input created k s'
            × Opened output (settings_of s.client) (input s.world) (output s.world) s')
          (IsLinked input created k)
          (handshake s)
  handshake-Opens k s linked short =
      let listed : HasEncodings s.client = record {
        enough = short.enough;
        bound = omega (arith, short.bound);
      } in
      Yields-and _ _ _ (handshake s)
        (Ends-mono (handshake s) (λ _ s' q. q.0) (λ s' x. x.0)
          ((handshake-Safe laws k list_kept).at s (linked, listed)))
        ((handshake-Gives input output laws.stream mute kept (settings_of s.client) (output s.world)
            (input s.world) short).at
          s ((refl, refl), refl))
