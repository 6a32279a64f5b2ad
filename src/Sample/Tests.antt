-- ===== src/Sample/Tests.antt =====
-- The theorems at concrete inputs.
use libopenvnc.Base.{ℕ, ◌-◌, ◌≤◌, refl, none, some, List, [], ◌∷◌, replicate, arith, pos}
use libopenvnc.State.{Rect, Framebuffer, Client, connected, zero_conn_info, no_callbacks}
use libopenvnc.Pixel.{bytes_per_pixel, init_default}
use libopenvnc.Run.{St}
use libopenvnc.Run.Safe.{Ends}
use libopenvnc.Session.{IsLinked, IsReady, HasGeometry}
use libopenvnc.Encoding.{decode_raw, decode_rect, encoding_desktop_size}
use libopenvnc.Encoding.Pixels.{RectInRange}
use libopenvnc.Encoding.Safety.{decode_raw-Ends, decode_rect-Ends}
use libopenvnc.Dispatch.{recv_server_message}
use libopenvnc.Dispatch.Safety.{recv_server_message-Ends}
use libopenvnc.Client.Process.{process_message, run}
use libopenvnc.Client.Process.Safety.{process_message-Ends, run-Ends}
use libopenvnc.Client.Lifecycle.Closing.{IsClosed}
use libopenvnc.Client.Requests.{set_pixel_format}
use libopenvnc.Client.Requests.Format.{set_pixel_format-Ends}
use libopenvnc.Sample.{World, sample, incoming, sample-IsTame, sample-no_empty}

-- A framebuffer of 2 by 2 pixels.
abbrev pub small : Framebuffer
small = record {
  width = 2;
  height = 2;
  format = init_default;
  pixels = some (replicate 16 0);
  data_size = 16;
}

abbrev pub client : Client
client = record {
  host = [];
  port = 5900;
  shared = 1;
  pixel_format = none;
  encodings = none;
  num_encodings = 0;
  connect_timeout_ms = 0;
  user_data = 0;
  callbacks = no_callbacks;
  state = connected;
  transport = some (record { sock = pos 3 });
  conn_info = zero_conn_info;
  framebuffer = small;
}

-- An update with one raw pixel at (1, 0), then a message of an unknown type.
abbrev pub bytes : List ℕ
bytes = 0 ∷ 0 ∷ 0 ∷ 1 ∷ 0 ∷ 1 ∷ 0 ∷ 0 ∷ 0 ∷ 1 ∷ 0 ∷ 1 ∷ 0 ∷ 0 ∷ 0 ∷ 0 ∷ 10 ∷ 20 ∷ 30 ∷ 40 ∷ 9 ∷ []

abbrev pub start : St World
start = record {
  client = client;
  world = record { incoming = bytes; outgoing = []; events = [] };
  live = 5;
  init_count = 1;
}

small-HasGeometry : HasGeometry small
unfolding bytes_per_pixel init_default
small-HasGeometry = record {
  width = omega arith;
  height = omega arith;
  size = (4, refl, omega arith, refl);
}

pub start-IsReady : IsReady incoming connected 21 start
start-IsReady = record {
  linked = record {
    transport = (record { sock = pos 3 }, refl);
    state = refl;
    pending = omega arith;
  };
  geometry = small-HasGeometry;
  fits = record { block = (replicate 16 0, refl, omega arith) };
}

abbrev pub rect : Rect
rect = record { x = 1; y = 0; width = 1; height = 2 }

pub rect-InRange : RectInRange rect
rect-InRange = omega arith

decode_raw-Ends_example :
    Ends
      (λ _ s. IsReady incoming connected 21 s)
      (IsLinked incoming connected 21)
      (decode_raw rect start)
decode_raw-Ends_example =
    decode_raw-Ends sample-IsTame connected 21 rect rect-InRange start start-IsReady

decode_rect-Ends_example :
    Ends
      (λ _ s. IsReady incoming connected 21 s)
      (IsLinked incoming connected 21)
      (decode_rect rect encoding_desktop_size start)
decode_rect-Ends_example =
    decode_rect-Ends sample-IsTame connected 21 rect rect-InRange start start-IsReady
      encoding_desktop_size

recv_server_message-Ends_example :
    Ends
      (λ _ s. IsReady incoming connected (21 - 1) s × (1 ≤ 21))
      (IsLinked incoming connected 21)
      (recv_server_message start)
recv_server_message-Ends_example =
    recv_server_message-Ends sample-IsTame sample-no_empty connected 21 start start-IsReady

process_message-Ends_example :
    Ends
      (λ _ s. IsReady incoming connected (21 - 1) s)
      (λ s. IsClosed s.client)
      (process_message start)
process_message-Ends_example =
    process_message-Ends sample-IsTame sample-no_empty 21 start start-IsReady

run-Ends_example : Ends (λ _ _. ⊥) (λ s. IsClosed s.client) (run 22 start)
run-Ends_example = run-Ends sample-IsTame sample-no_empty 22 21 start (omega arith) start-IsReady

set_pixel_format-Ends_example :
    Ends
      (λ _ s. IsReady incoming connected 21 s)
      (IsLinked incoming connected 21)
      (set_pixel_format (some init_default) start)
set_pixel_format-Ends_example =
    set_pixel_format-Ends sample-IsTame 21 init_default start start-IsReady
