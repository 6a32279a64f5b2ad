-- ===== src/Client/Calls.antt =====
-- Any sequence of calls of the functions of src/client/ovnc_client.c on one client, between
-- ovnc_client_create and ovnc_client_destroy.
pub mod Refused
pub mod Steady
pub mod Safety
use libopenvnc.Base.{ℕ, ◌≡◌, Bool, true, false, Option, none, some, List, ℤ}
use libopenvnc.Error.{Error}
use libopenvnc.Pixel.{PixelFormat}
use libopenvnc.State.{Rect}
use libopenvnc.Run.{ok, fail, St, Action, System, gets, ◌>>=◌}
use libopenvnc.Client.Lifecycle
use libopenvnc.Client.Process
use libopenvnc.Client.Requests
use libopenvnc.Client.Requests.Safety.{IsText, IsArray}

-- A call, with its arguments beside the client.
pub data Call : Type 0 where
  connect : Call
  process_message : Call
  run : Call
  request_update : Option Rect → ℤ → Call
  send_key_event : ℕ → ℤ → Call
  send_pointer_event : ℕ → ℕ → ℕ → Call
  send_cut_text : Option (List ℕ) → ℕ → Call
  set_pixel_format : Option PixelFormat → Call
  set_encodings : Option (List ℤ) → ℕ → Call
  set_user_data : ℕ → Call
  disconnect : Call

module _ {E : Type 0} ⦃sys : System E⦄ where
  -- `patience` says how many messages ovnc_client_run may handle.
  unfoldable pub perform : (E → ℕ) → Call → Action E Unit
  perform patience connect = Lifecycle.connect
  perform patience process_message = Process.process_message
  perform patience run = do fuel ← gets (λ s. patience s.world); Process.run fuel
  perform patience (request_update rect incremental) = Requests.request_update rect incremental
  perform patience (send_key_event key down) = Requests.client_send_key_event key down
  perform patience (send_pointer_event x y button_mask) =
      Requests.client_send_pointer_event x y button_mask
  perform patience (send_cut_text text len) = Requests.client_send_cut_text text len
  perform patience (set_pixel_format format) = Requests.set_pixel_format format
  perform patience (set_encodings encodings n) = Requests.set_encodings encodings n
  perform patience (set_user_data p) = Lifecycle.set_user_data p
  perform patience disconnect = Lifecycle.disconnect

-- How far a client has come. It is unsettled after a change of the pixel format that returned an
-- error: the framebuffer may then lack its block.
pub data Phase : Type 0 where
  idle : Phase
  ready : Phase
  unsettled : Phase
  closed : Phase

-- The phase after a call, by whether it returned OVNC_OK.
abbrev from_idle : Call → Bool → Phase
from_idle connect true = ready
from_idle _ _ = idle

abbrev from_ready : Call → Bool → Phase
from_ready process_message false = closed
from_ready run false = closed
from_ready (set_pixel_format (some _)) false = unsettled
from_ready disconnect _ = closed
from_ready _ _ = ready

abbrev from_unsettled : Call → Phase
from_unsettled disconnect = closed
from_unsettled _ = unsettled

abbrev pub next : Phase → Call → Bool → Phase
next idle c is_ok = from_idle c is_ok
next ready c is_ok = from_ready c is_ok
next unsettled c is_ok = from_unsettled c
next closed c is_ok = closed

-- The memory that the arguments point to is as large as they say.
abbrev pub HasArguments : Call → Type 0
HasArguments (send_cut_text text len) = IsText text len
HasArguments (set_encodings encodings n) = IsArray encodings n
HasArguments _ = Unit {0}

-- An unsettled client reads no messages, and its pixel format is left alone.
abbrev OnUnsettled : Call → Type 0
OnUnsettled process_message = ⊥
OnUnsettled run = ⊥
OnUnsettled (set_pixel_format (some _)) = ⊥
OnUnsettled _ = Unit {0}

abbrev InPhase : Phase → Call → Type 0
InPhase unsettled c = OnUnsettled c
InPhase _ c = Unit {0}

-- What a careful application calls, and when.
pub record IsAllowed (p : Phase) (c : Call) : Type 0 where
  pub arguments : HasArguments c
  pub timing : InPhase p c

module _ {E : Type 0} ⦃sys : System E⦄ (patience : E → ℕ) (start : St E) where
  -- The states that calls lead to from `start`, a client that is not connected yet.
  pub data Reaches : Phase → St E → Type 0 where
    started : Reaches idle start
    returned :
        (p : Phase) (s s' : St E) (c : Call)
        → Reaches p s
        → IsAllowed p c
        → perform patience c s ≡ (ok tt, s')
        → Reaches (next p c true) s'
    failed :
        (p : Phase) (s s' : St E) (c : Call) (e : Error)
        → Reaches p s
        → IsAllowed p c
        → perform patience c s ≡ (fail e, s')
        → Reaches (next p c false) s'
