-- ===== src/Lib.antt =====
-- libopenvnc, a VNC (RFB) client library in C.
--
-- The program. An application creates a client, connects it, and then calls it in a loop to handle
-- the messages of the server; the client keeps a framebuffer and tells the application of changes by
-- callbacks. The library has layers: sockets (src/platform), a transport over a socket
-- (src/transport), the RFB protocol (src/protocol: handshake, messages, encodings), and the public
-- client API (src/client). The server API (src/server) is stubs.
--
-- The files.
--   Base: shared names, lists, bit fields, `int` and `size_t`.
--   Error: ovnc_error_t (include/ovnc/ovnc_common.h, src/common/ovnc_error.c).
--   Wire: the byte order helpers of src/ovnc_internal.h.
--   Pixel: pixel formats (src/common/ovnc_pixel.c).
--   State: the structures of the client (include/ovnc, src/ovnc_internal.h).
--   Run: C functions as actions on the state, and the environment `System` that they act in.
--   Run.Safe: the rules by which actions are shown to be free of faults.
--   Socket: src/platform/ovnc_socket_posix.c; Socket.Stream and Socket.Arrival are about
--     its loops on a byte stream, Socket.Descriptors about the descriptors that a connect opens.
--   Winsock: src/platform/ovnc_socket_win32.c, and its counter (Winsock.Balance).
--   Transport: src/transport/ovnc_transport.c; Transport.Blocks is about a read into a heap block.
--   Messages and Dispatch: the two halves of src/protocol/ovnc_messages.c. Messages.Server is the
--     reader of a server, written from RFC 6143; Sent, Carried and Miscount hold the bytes sent
--     against it. Dispatch.Colors is about the color map, Dispatch.CutText about the longest text; Protocol
--     is what a message without rectangles is by RFC 6143, Reading and Delivered hold what the
--     application is told against it.
--   Encoding: src/protocol/ovnc_encoding.c and src/protocol/ovnc_enc_raw.c. Picture, Receiving, Drawing,
--     Drawn and Spilling are about the picture that a raw rectangle leaves.
--   Handshake: src/protocol/ovnc_handshake.c, with a child for each step (Version, Security, Init);
--     Opening, ServerName, Block and Safety are about faults of the steps and of the whole, Choices about
--     the version and the security type. Script is the opening as RFC 6143 has it;
--     Agreement, Preferences and Transcript hold what is sent against it. NameField is about the
--     array that gets the server's name.
--   Client: src/client/ovnc_client.c. Create, Lifecycle (connect, disconnect, destroy), Process
--     (the message loop) and Requests (what the application sends), each with its proofs below it;
--     Heap counts the heap blocks through the message loop (Decoding, Messages, Sessions), through
--     the start of a session (Opening, Starting, Linking, Connecting), through a second one
--     (Reconnect), and through any calls (Calls). Client.Calls is about any sequence of calls of these
--     functions: its phases say when a call keeps the client in order.
--   Example: examples/simple_client.c.
--   Server: src/server/ovnc_server.c and include/ovnc/ovnc_server.h.
--   Session: the invariant of a session and the contract of the environment, with rules for what is
--     read (Reads, Local, Primitives, Gives) and for what is sent (Sends, Says).
--   Sample: a concrete environment, and the theorems at concrete inputs.
--
-- How the code is modelled. `ovnc__recv_server_message` is `recv_server_message`, and so on: a
-- function keeps its name without the prefix. It is an action on the client, on the world outside
-- the library, on the number of heap blocks held and on the counter of src/platform; it ends with a
-- value (OVNC_OK), with an error code, or with a fault, which is undefined behaviour of C: a NULL
-- pointer that is followed, an access outside a block. The framebuffer's block is a list of bytes,
-- so its true size is known beside `data_size`; a temporary block is known by its size. The heap
-- blocks held are counted. Those of handle_color_map_entries have names besides, and to free one of
-- them twice is a fault; elsewhere a block that is freed twice is seen where it makes the count
-- wrong, and not where another block is forgotten for it. Numbers
-- are naturals, and where a C type wraps, the wrap is written out.
--
-- The environment. The kernel's sockets, the allocator, the resolver and the application's
-- callbacks are the fields of `Run.System`, and a theorem names what it asks of them. A callback may
-- change the whole state, since it may call the library, and it may end in undefined behaviour.
--
-- Bounds. The loops over rows, rectangles and colors recur on the rounds left. A read or write of n
-- bytes has n plus the interrupts to come as fuel, which is enough since a round takes a byte or an
-- interrupt; the skipped part of a long name has its length; `run` takes a number of messages.
--
-- Not modelled: what the example program prints, and the tests; a NULL client
-- as an argument of the public functions; an overflow of the counter of ovnc__platform_init.
pub mod Base
pub mod Error
pub mod Wire
pub mod Pixel
pub mod State
pub mod Run
pub mod Socket
pub mod Winsock
pub mod Transport
pub mod Messages
pub mod Encoding
pub mod Dispatch
pub mod Handshake
pub mod Client
pub mod Example
pub mod Server
pub mod Session
pub mod Sample
