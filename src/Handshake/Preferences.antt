-- ===== src/Handshake/Preferences.antt =====
-- What send_initial_messages of src/protocol/ovnc_handshake.c sends.
use libopenvnc.Base.{
  ℕ, ◌+◌, ◌^◌, ◌≤◌, ◌<◌, ◌≡◌, refl, ap, ◌∙◌, Option, none, some, List, ◌++◌, append_assoc,
  append-nil, arith, length, take, length-take, ◌%◌, ◌*◌, add_size, ltb, mul_size, ℤ,
}
use libopenvnc.Pixel.{PixelFormat}
use libopenvnc.Run.{System}
use libopenvnc.Run.Safe.{
  Safe-post, Safe-pre, Safe-bind, Safe-if, Safe-raise, Safe-pure, Safe-gets, Safe-try, Safe-assume,
}
use libopenvnc.Socket.Stream.{IsStream}
use libopenvnc.Session.Gives.{Gives}
use libopenvnc.Session.Says.{IsMute, Gives-any, alloc-Wrote, release-Wrote, send-Wrote}
use libopenvnc.Messages.{send_set_pixel_format, send_set_encodings}
use libopenvnc.Messages.Server.{set_pixel_format, set_encodings}
use libopenvnc.Messages.Sent.{bytes_of}
use libopenvnc.Handshake.Script.{
  Settings, settings_of, format_bytes, encodings_bytes, HasShortList, Agrees, Said,
}
use libopenvnc.Handshake.{send_format, send_encodings, send_initial_messages}

module _ {E : Type 0} ⦃sys : System E⦄ (input output : E → List ℕ) (stream : IsStream input output)
    (mute : IsMute output) where
  send_format-Gives :
      (x : Settings) (o : List ℕ) (fmt : Option PixelFormat)
      → Gives (Said output x o) (λ _. Said output x (o ++ format_bytes fmt)) (send_format fmt)
  unfolding send_set_pixel_format
  send_format-Gives x o none = Safe-pure tt (λ s h. rw append-nil h)
  send_format-Gives x o (some fmt) =
      send-Wrote input output stream (Agrees x) o (bytes_of (set_pixel_format fmt))

  send_list-Gives :
      (x : Settings) (o : List ℕ) (es : List ℤ) (n : ℕ)
      → n ≤ length es
      → n < 2 ^ 16
      → Gives
          (Said output x o)
          (λ _. Said output x (o ++ bytes_of (set_encodings (take n es))))
          (send_set_encodings es n)
  unfolding send_set_encodings
  send_list-Gives x o es n le small =
      let whole : n % 2 ^ 16 ≡ n = omega arith in
      let taken : length (take n es) ≡ n = omega (arith, length-take n es) in
      Safe-bind (alloc-Wrote output mute (Agrees x) o _) λ found.
        Safe-if found
          (λ _.
            Safe-if (ltb (length es) n) (λ _. record { at = λ s h. tt })
              (λ _.
                Safe-if (ltb (add_size 4 (mul_size 4 n)) (4 + 4 * n))
                  (λ _. record { at = λ s h. tt })
                  (λ _.
                    rw (whole, taken)
                      (Safe-try _ (send-Wrote input output stream (Agrees x) o _)
                        (Safe-bind (release-Wrote output mute (Agrees x) _)
                          λ _. Safe-pure tt (λ s h. h))
                        (λ e. Safe-bind (Gives-any _ _) λ _. Safe-raise e (λ s h. tt))))))
          (λ _. Safe-raise _ (λ s h. tt))

  send_encodings-Gives :
      (x : Settings) (o : List ℕ) (es : Option (List ℤ)) (n : ℕ)
      → ((l : List ℤ) → es ≡ some l → n ≤ length l)
      → n < 2 ^ 16
      → Gives
          (Said output x o)
          (λ _. Said output x (o ++ encodings_bytes es n))
          (send_encodings es n)
  send_encodings-Gives x o none n enough small = Safe-pure tt (λ s h. rw append-nil h)
  send_encodings-Gives x o (some es) n enough small =
      Safe-if (ltb 0 n) (λ more. rw more (send_list-Gives x o es n (enough es refl) small))
        (λ none_asked. rw none_asked (Safe-pure tt (λ s h. rw append-nil h)))

  pub send_initial_messages-Gives :
      (x : Settings) (o : List ℕ)
      → HasShortList x
      → Gives
          (Said output x o)
          (λ _.
            Said output x
              (o ++ (format_bytes x.pixel_format ++ encodings_bytes x.encodings x.num_encodings)))
          send_initial_messages
  unfolding send_initial_messages
  send_initial_messages-Gives x o short = Safe-bind (Safe-gets (λ s. s.client.pixel_format)) λ fmt.
      Safe-pre {P = λ s. Said output x o s × (fmt ≡ x.pixel_format)}
        (λ s q. (q.0, q.1 ∙ ap (λ (y : Settings). y.pixel_format) q.0.1))
        (Safe-assume λ e. rw e (
          Safe-bind (send_format-Gives x o x.pixel_format) λ _.
            Safe-bind (Safe-gets (λ s. s.client)) λ c.
              Safe-pre {P = λ s. Said output x (o ++ format_bytes x.pixel_format) s × Agrees x c}
                (λ s q. (q.0, ap settings_of q.1 ∙ q.0.1))
                (Safe-assume λ f.
                  rw
                    (ap (λ (y : Settings). y.encodings) f, ap (λ (y : Settings). y.num_encodings) f)
                    (Safe-post
                      (λ _ s h. (
                        h.0
                            ∙ append_assoc o (format_bytes x.pixel_format)
                                (encodings_bytes x.encodings x.num_encodings),
                        h.1,
                      ))
                      (send_encodings-Gives x _ x.encodings x.num_encodings short.enough
                        short.bound)))))
