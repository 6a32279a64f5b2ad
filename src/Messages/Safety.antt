-- ===== src/Messages/Safety.antt =====
-- The messages of src/protocol/ovnc_messages.c are sent without a fault in a session.
use libopenvnc.Base.{
  ℕ, ◌+◌, ◌*◌, ◌≤◌, ◌<◌, ◌≡◌, ◌^◌, List, ℤ, length, arith, ltb, le→ltb_false, mul_size, add_size,
}
use libopenvnc.Run.{St, System}
use libopenvnc.Run.Safe.{Safe, Safe-bind, Safe-if, Safe-raise, Safe-pure, Safe-try}
use libopenvnc.Session.{IsTame}
use libopenvnc.Session.Local.{IsHeld}
use libopenvnc.Session.Primitives.{free-Safe, malloc-Safe, transport_send-Safe}
use libopenvnc.Messages.{send_set_encodings, send_client_cut_text}

module _ {E : Type 0} ⦃sys : System E⦄ {input output : E → List ℕ} (laws : IsTame input output)
    {P : St E → Type 0} (held : IsHeld input P) where
  -- An array that has the elements that are announced fits in the block that is taken for it.
  pub send_set_encodings-Safe :
      (es : List ℤ) (n : ℕ)
      → n ≤ length es
      → n < 2 ^ 61
      → Safe P (λ _. P) P (send_set_encodings es n)
  unfolding send_set_encodings
  send_set_encodings-Safe es n le lt =
      let len : add_size 4 (mul_size 4 n) ≡ 4 + 4 * n = omega arith in
      Safe-bind (malloc-Safe laws held.local _) λ found.
        Safe-if found
          (λ _.
            rw
              (
                le→ltb_false (length es) n le,
                len,
                le→ltb_false (4 + 4 * n) (4 + 4 * n) (omega arith),
              )
              (Safe-try _ (transport_send-Safe laws held _)
                (Safe-bind (free-Safe laws held.local) λ _. Safe-pure tt (λ s q. q))
                (λ e. Safe-bind (free-Safe laws held.local) λ _. Safe-raise e (λ s q. q))))
          (λ _. Safe-raise _ (λ s q. q))

  -- The text has the bytes that are announced.
  pub send_client_cut_text-Safe :
      (text : List ℕ) (len : ℕ)
      → len ≤ length text
      → Safe P (λ _. P) P (send_client_cut_text text len)
  unfolding send_client_cut_text
  send_client_cut_text-Safe text len le = Safe-bind (transport_send-Safe laws held _) λ _.
      Safe-if (ltb 0 len)
        (λ _. rw (le→ltb_false (length text) len le) (transport_send-Safe laws held _))
        (λ _. Safe-pure tt (λ s q. q))
