-- ===== src/Sample/CallTests.antt =====
-- The theorem on sequences of calls at a concrete session.
use libopenvnc.Base.{some, ◌≢◌, ℕ, suc, ◌≡◌, ◌<◌, refl, length, arith}
use libopenvnc.Run.{ok, St, ◌>>=◌, try, malloc}
use libopenvnc.Wire.{read_u16, read_u32, write_u16, write_u32, write_s32}
use libopenvnc.Pixel.{to_wire, from_wire, bytes_per_pixel, init_default}
use libopenvnc.Socket.{platform_init}
use libopenvnc.Socket.Connect.{try_address}
use libopenvnc.Transport.{
  transport_create, transport_connect, transport_recv, transport_send, recv_or_free,
}
use libopenvnc.Messages.{send_set_encodings, encoding_bytes}
use libopenvnc.Handshake.{handshake}
use libopenvnc.Handshake.Opening.{HasEncodings}
use libopenvnc.Run.Safe.{Ends}
use libopenvnc.Client.Lifecycle.{connect}
use libopenvnc.Client.Calls.{
  unsettled, Call, perform, Reaches, returned, started, idle, ready, closed,
}
use libopenvnc.Client.Calls.Safety.{IsAt, perform-Ends}
use libopenvnc.Client.Heap.{Owns}
use libopenvnc.Client.Heap.Calls.{perform-Balanced}
use libopenvnc.Sample.HeapTests.{sample-IsFrugal}
use libopenvnc.Sample.{World, sample, sample-IsTame, sample-no_empty}
use libopenvnc.Sample.ConnectTests.{fresh, fresh-HasEncodings}

-- More messages than there are bytes.
abbrev rounds : World → ℕ
rounds w = suc (length w.incoming)

enough : (w : World) → length w.incoming < rounds w
enough w = omega arith

list_kept :
    (s : St World) → HasEncodings s.client → HasEncodings (sample.alloc_framebuffer s).1.client
list_kept s h = record { enough = h.enough; bound = h.bound }

-- The client once it is connected.
abbrev joined : St World
joined = (perform rounds Call.connect fresh).1

joins : perform rounds Call.connect fresh ≡ (ok tt, joined)
unfolding perform connect ◌>>=◌ platform_init try transport_create transport_connect try_address
    handshake transport_recv transport_send recv_or_free read_u32 to_wire bytes_per_pixel from_wire
    init_default read_u16 send_set_encodings encoding_bytes write_s32 write_u16 write_u32 malloc
joins = refl

-- The client of `fresh` has been connected, and a message is read next.
joined-Reaches : Reaches rounds fresh ready joined
joined-Reaches =
    returned idle fresh joined Call.connect started (record { arguments = tt; timing = tt }) joins

perform-Ends_example :
    IsAt sample-IsTame sample-no_empty list_kept rounds enough ready joined
    × Ends
        (λ _. IsAt sample-IsTame sample-no_empty list_kept rounds enough ready)
        (IsAt sample-IsTame sample-no_empty list_kept rounds enough closed)
        (perform rounds Call.process_message joined)
perform-Ends_example =
    perform-Ends sample-IsTame sample-no_empty list_kept rounds enough fresh ready joined
      Call.process_message (record { state = refl; transport = refl }, fresh-HasEncodings)
      joined-Reaches (record { arguments = tt; timing = tt })

joined-Owns : Owns 0 joined
unfolding perform connect ◌>>=◌ platform_init try transport_create transport_connect try_address
    handshake transport_recv transport_send recv_or_free read_u32 to_wire bytes_per_pixel from_wire
    init_default read_u16 send_set_encodings encoding_bytes write_s32 write_u16 write_u32 malloc
joined-Owns = refl

ready_now : ready ≢ idle
ready_now e = cc

-- The blocks of `joined` are the client, its host, its encodings, its framebuffer and its transport.
perform-Balanced_example :
    Ends
      (λ _ s. IsAt sample-IsTame sample-no_empty list_kept rounds enough ready s × Owns 0 s)
      (λ s. IsAt sample-IsTame sample-no_empty list_kept rounds enough unsettled s × Owns 0 s)
      (perform rounds (Call.set_pixel_format (some init_default)) joined)
perform-Balanced_example =
    perform-Balanced sample-IsTame sample-no_empty list_kept rounds enough sample-IsFrugal 0 fresh
      ready joined (Call.set_pixel_format (some init_default))
      (record { state = refl; transport = refl }, fresh-HasEncodings) joined-Reaches ready_now
      (record { arguments = tt; timing = tt }) joined-Owns
