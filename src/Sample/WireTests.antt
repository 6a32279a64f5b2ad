-- ===== src/Sample/WireTests.antt =====
-- The theorems on the wire formats, the errors and the socket loops at concrete inputs.
use libopenvnc.Base.{List, length-take, ◌≡◌, [], ◌∷◌, ◌++◌, arith, pos, negsuc}
use libopenvnc.Wire.{read_u16, read_u32, read_s32, write_u16, write_u32, write_s32}
use libopenvnc.Wire.RoundTrip.{
  read_u32-write_u32, read_s32-write_s32, write_u16-read_u16, write_u32-read_u32,
}
use libopenvnc.Pixel.{init_default, to_wire, from_wire}
use libopenvnc.Pixel.RoundTrip.{from_wire-to_wire, to_wire-from_wire}
use libopenvnc.Socket.{socket_recv_all, socket_send_all}
use libopenvnc.Socket.Stream.{
  ReadsFrom, WritesTo, socket_recv_all-ReadsFrom, socket_send_all-WritesTo,
}
use libopenvnc.Socket.Arrival.{IsOpen, GetsAll, socket_recv_all-GetsAll}
use libopenvnc.Dispatch.Colors.{Color}
use libopenvnc.Sample.{World, incoming, outgoing, sample, sample-IsStream}

abbrev world : World
world = record { incoming = 7 ∷ 8 ∷ 9 ∷ []; outgoing = 1 ∷ []; events = [] }

read_u32-write_u32_example : read_u32 (write_u32 4294967295 ++ []) ≡ 4294967295
read_u32-write_u32_example = read_u32-write_u32 4294967295 [] (omega arith)

read_s32-write_s32_example : read_s32 (write_s32 (negsuc 238) ++ (1 ∷ [])) ≡ negsuc 238
read_s32-write_s32_example = read_s32-write_s32 (negsuc 238) (1 ∷ []) (omega arith)

write_u16-read_u16_example : write_u16 (read_u16 (18 ∷ 52 ∷ 9 ∷ [])) ≡ 18 ∷ 52 ∷ []
write_u16-read_u16_example = write_u16-read_u16 18 52 (9 ∷ []) (omega arith) (omega arith)

write_u32-read_u32_example : write_u32 (read_u32 (255 ∷ 0 ∷ 1 ∷ 2 ∷ [])) ≡ 255 ∷ 0 ∷ 1 ∷ 2 ∷ []
write_u32-read_u32_example = write_u32-read_u32 255 0 1 2 [] (omega arith)

from_wire-to_wire_example : from_wire (to_wire init_default ++ (5 ∷ [])) ≡ init_default
unfolding init_default
from_wire-to_wire_example = from_wire-to_wire init_default (5 ∷ []) (omega arith)

to_wire-from_wire_example :
    to_wire (from_wire (32 ∷ 24 ∷ 0 ∷ 1 ∷ 0 ∷ 255 ∷ 1 ∷ 255 ∷ 0 ∷ 63 ∷ 16 ∷ 8 ∷ 0 ∷ 4 ∷ 5 ∷ 6 ∷ []))
    ≡ 32 ∷ 24 ∷ 0 ∷ 1 ∷ 0 ∷ 255 ∷ 1 ∷ 255 ∷ 0 ∷ 63 ∷ 16 ∷ 8 ∷ 0 ∷ 0 ∷ 0 ∷ 0 ∷ []
to_wire-from_wire_example =
    to_wire-from_wire 32 24 0 1 0 255 1 255 0 63 16 8 0 4 5 6 [] (omega arith)

socket_recv_all-ReadsFrom_example : ReadsFrom incoming 2 world (socket_recv_all (pos 3) 2 world)
socket_recv_all-ReadsFrom_example =
    socket_recv_all-ReadsFrom incoming outgoing sample-IsStream (pos 3) 2 world

socket_send_all-WritesTo_example :
    WritesTo outgoing (4 ∷ 5 ∷ []) world (socket_send_all (pos 3) (4 ∷ 5 ∷ []) world)
socket_send_all-WritesTo_example =
    socket_send_all-WritesTo incoming outgoing sample-IsStream (pos 3) (4 ∷ 5 ∷ []) world

sample-IsOpen : IsOpen incoming
sample-IsOpen = record {
  serves = λ sock n w asked there e. omega (arith, length-take n w.incoming, e, asked, there);
}

socket_recv_all-GetsAll_example :
    GetsAll incoming outgoing sample-IsStream sample-IsOpen 2 world
      (socket_recv_all (pos 3) 2 world)
socket_recv_all-GetsAll_example =
    socket_recv_all-GetsAll incoming outgoing sample-IsStream sample-IsOpen (pos 3) 2 world
      (omega arith)

abbrev two_colors : List Color
two_colors =
    record { red = 65535; green = 0; blue = 7 } ∷ record { red = 1; green = 256; blue = 4660 } ∷ []
