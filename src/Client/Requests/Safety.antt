-- ===== src/Client/Requests/Safety.antt =====
-- The calls of src/client/ovnc_client.c that send a message keep a session as it is.
use libopenvnc.Base.{ℕ, ◌≤◌, ◌<◌, ◌≡◌, refl, ◌^◌, Option, none, some, List, ℤ, length}
use libopenvnc.State.{Rect}
use libopenvnc.Run.{St, System, Action}
use libopenvnc.Run.Safe.{Safe, Safe-bind, Safe-if, Safe-raise, Safe-gets, Safe-pre}
use libopenvnc.Session.{IsTame}
use libopenvnc.Session.Local.{IsHeld}
use libopenvnc.Session.Primitives.{transport_send-Safe}
use libopenvnc.Messages.{send_fb_update_request, send_key_event, send_pointer_event}
use libopenvnc.Messages.Safety.{send_set_encodings-Safe, send_client_cut_text-Safe}
use libopenvnc.Client.Lifecycle.{is_connected_state}
use libopenvnc.Client.Requests.{
  when_connected, request_update, client_send_key_event, client_send_pointer_event,
  client_send_cut_text, set_encodings,
}

-- The text is NULL, or has as many bytes as the call says.
abbrev pub IsText : Option (List ℕ) → ℕ → Type 0
IsText text len = (bytes : List ℕ) → text ≡ some bytes → len ≤ length bytes

-- The array is NULL, or has as many elements as the call says.
pub record IsArray (encodings : Option (List ℤ)) (n : ℕ) : Type 0 where
  pub enough : (es : List ℤ) → encodings ≡ some es → n ≤ length es
  pub bound : n < 2 ^ 61

module _ {E : Type 0} ⦃sys : System E⦄ {P : St E → Type 0} where
  -- The guard itself changes nothing.
  when_connected-Safe :
      {m : Action E Unit} → Safe P (λ _. P) P m → Safe P (λ _. P) P (when_connected m)
  when_connected-Safe h = Safe-bind (Safe-gets (λ s. s.client.state)) λ state.
      Safe-pre (λ s q. q.0)
        (Safe-if (is_connected_state state) (λ _. h) (λ _. Safe-raise _ (λ s q. q)))

module _ {E : Type 0} ⦃sys : System E⦄ {input output : E → List ℕ} (laws : IsTame input output)
    {P : St E → Type 0} (held : IsHeld input P) where
  pub request_update-Safe :
      (rect : Option Rect) (incremental : ℤ) → Safe P (λ _. P) P (request_update rect incremental)
  unfolding request_update send_fb_update_request
  request_update-Safe rect incremental = when_connected-Safe (
      Safe-bind (Safe-gets (λ s. s.client.framebuffer))
        λ fb. Safe-pre (λ s q. q.0) (transport_send-Safe laws held _))

  pub client_send_key_event-Safe :
      (key : ℕ) (down : ℤ) → Safe P (λ _. P) P (client_send_key_event key down)
  unfolding client_send_key_event send_key_event
  client_send_key_event-Safe key down = when_connected-Safe (transport_send-Safe laws held _)

  pub client_send_pointer_event-Safe :
      (x y button_mask : ℕ) → Safe P (λ _. P) P (client_send_pointer_event x y button_mask)
  unfolding client_send_pointer_event send_pointer_event
  client_send_pointer_event-Safe x y button_mask =
      when_connected-Safe (transport_send-Safe laws held _)

  pub client_send_cut_text-Safe :
      (text : Option (List ℕ)) (len : ℕ)
      → IsText text len
      → Safe P (λ _. P) P (client_send_cut_text text len)
  unfolding client_send_cut_text
  client_send_cut_text-Safe none len h = when_connected-Safe (Safe-raise _ (λ s q. q))
  client_send_cut_text-Safe (some text) len h =
      when_connected-Safe (send_client_cut_text-Safe laws held text len (h text refl))

  pub set_encodings-Safe :
      (encodings : Option (List ℤ)) (n : ℕ)
      → IsArray encodings n
      → Safe P (λ _. P) P (set_encodings encodings n)
  unfolding set_encodings
  set_encodings-Safe none n h = Safe-raise _ (λ s q. q)
  set_encodings-Safe (some es) n h =
      when_connected-Safe (send_set_encodings-Safe laws held es n (h.enough es refl) h.bound)
