-- ===== src/Sample/FaultTests.antt =====
-- The theorems on a lack of memory, and on too much of it, at concrete inputs.
use libopenvnc.Base.{
  ℕ, ◌≢◌, sym, ◌∙◌, zero, suc, ◌*◌, ◌%◌, ◌≤◌, All, ℤ, length-replicate, ◌-◌, ◌^◌, ◌≡◌, refl, true,
  false, List, [], ◌∷◌, ◌++◌, replicate, pos, arith, drop, some,
}
use libopenvnc.Error.{Error, nomem}
use libopenvnc.Wire.{read_u32}
use libopenvnc.Pixel.{PixelFormat, init_default, bytes_per_pixel, to_wire}
use libopenvnc.State.{connected}
use libopenvnc.Run.{ok, fail, crash, out_of_bounds, St, System}
use libopenvnc.Transport.{transport_recv, transport_send}
use libopenvnc.Dispatch.{handle_server_cut_text}
use libopenvnc.Dispatch.CutText.{handle_server_cut_text-overflows}
use libopenvnc.Wire.RoundTrip.{IsS32}
use libopenvnc.Run.Safe.{Ends}
use libopenvnc.Messages.{send_set_pixel_format, send_set_encodings}
use libopenvnc.Messages.Miscount.{Misread, send_set_encodings-Misread}
use libopenvnc.Client.Requests.{set_pixel_format}
use libopenvnc.Client.Requests.Format.{Oversizes, set_pixel_format-oversized}
use libopenvnc.Socket.{socket_recv_all, recv_loop}
use libopenvnc.Socket.Stream.{IsStream}
use libopenvnc.Session.{IsReady, IsTame}
use libopenvnc.Run.{◌>>=◌, malloc}
use libopenvnc.Client.Requests.{change_pixel_format, reallocate}
use libopenvnc.Sample.{sample-IsTame, World, sample, incoming, outgoing, sample-IsStream}
use libopenvnc.Sample.Tests.{start-IsReady, start}

-- An allocator whose empty blocks have an address too, and one that has nothing left.
abbrev generous : System World
generous = record sample { malloc = λ n w. (true, w) }

abbrev exhausted : System World
exhausted = record sample { malloc = λ n w. (false, w) }

-- The header of a text of 2 ^ 32 - 1 bytes.
abbrev long_header : List ℕ
long_header = 0 ∷ 0 ∷ 0 ∷ 255 ∷ 255 ∷ 255 ∷ 255 ∷ []

abbrev before_text : St World
before_text = record start { world = record start.world { incoming = long_header ++ (65 ∷ []) } }

abbrev after_header : St World
after_header = record start { world = record start.world { incoming = 65 ∷ [] } }

received : transport_recv ⦃sys = generous⦄ 7 before_text ≡ (ok long_header, after_header)
unfolding transport_recv
received = refl

long : read_u32 (drop 3 long_header) ≡ 2 ^ 32 - 1
unfolding read_u32
long = refl

generous-IsStream : IsStream ⦃sys = generous⦄ incoming outgoing
generous-IsStream = record { receives = sample-IsStream.receives; sends = sample-IsStream.sends }

handle_server_cut_text-overflows_example :
    let came = (socket_recv_all ⦃sys = generous⦄ (pos 3) (2 ^ 32 - 1) after_header.world).0 in
    let o = (handle_server_cut_text ⦃sys = generous⦄ before_text).0 in
    (came ≢ [] → o ≡ crash out_of_bounds) × (came ≡ [] → (e : Error) × (o ≡ fail e))
handle_server_cut_text-overflows_example =
    handle_server_cut_text-overflows ⦃sys = generous⦄ incoming outgoing generous-IsStream
      before_text after_header long_header (record { sock = pos 3 }) received long refl refl

-- One byte of the text comes.
one_byte : (socket_recv_all ⦃sys = generous⦄ (pos 3) (2 ^ 32 - 1) after_header.world).0 ≡ 65 ∷ []
unfolding socket_recv_all recv_loop
one_byte = refl

-- It is written outside the block.
written : (handle_server_cut_text ⦃sys = generous⦄ before_text).0 ≡ crash out_of_bounds
written =
    let both =
      handle_server_cut_text-overflows ⦃sys = generous⦄ incoming outgoing generous-IsStream
        before_text after_header long_header (record { sock = pos 3 }) received long refl refl in
    both.0 (λ e. cc (sym one_byte ∙ e))

-- A format of 8 bits per pixel.
abbrev small_format : PixelFormat
small_format = record {
  bits_per_pixel = 8;
  depth = 8;
  big_endian = 0;
  true_color = 1;
  red_max = 7;
  green_max = 7;
  blue_max = 3;
  red_shift = 0;
  green_shift = 3;
  blue_shift = 6;
}

abbrev small_start : St World
small_start = record start {
  client = record start.client {
    framebuffer = record start.client.framebuffer {
      format = small_format;
      data_size = 4;
      pixels = some (replicate 4 0);
    };
  };
}

has_one : bytes_per_pixel small_format ≡ pos 1
unfolding bytes_per_pixel
has_one = refl

has_four : bytes_per_pixel init_default ≡ pos 4
unfolding bytes_per_pixel init_default
has_four = refl

small_start-IsReady : IsReady incoming connected 21 small_start
unfolding bytes_per_pixel
small_start-IsReady = record {
  linked = record {
    transport = start-IsReady.linked.transport;
    state = refl;
    pending = start-IsReady.linked.pending;
  };
  geometry = record {
    width = omega arith;
    height = omega arith;
    size = (1, refl, omega arith, refl);
  };
  fits = record { block = (replicate 4 0, refl, omega arith) };
}

exhausted-IsTame : IsTame incoming ⦃sys = exhausted⦄ outgoing
exhausted-IsTame = record {
  stream = record { receives = sample-IsStream.receives; sends = sample-IsStream.sends };
  sends_only = λ sock p w. refl;
  malloc_only = λ n w. refl;
  notify_linked = sample-IsTame.notify_linked;
  notify_ready = sample-IsTame.notify_ready;
  allocates = sample-IsTame.allocates;
}

set_pixel_format-oversized_example :
    let t = set_pixel_format ⦃sys = exhausted⦄ (some init_default) small_start in
    Oversizes small_start.client 4 t.0 t.1.client
set_pixel_format-oversized_example =
    set_pixel_format-oversized ⦃sys = exhausted⦄ exhausted-IsTame 21 small_start init_default 1 4
      small_start-IsReady has_one has_four (omega arith) refl (λ w. refl)

-- The message is sent, and it is the memory that is missing.
no_memory_left : (set_pixel_format ⦃sys = exhausted⦄ (some init_default) small_start).0 ≡ fail nomem
unfolding set_pixel_format change_pixel_format send_set_pixel_format transport_send reallocate
    to_wire bytes_per_pixel ◌>>=◌ malloc init_default
no_memory_left = refl

-- One encoding more than the counter of the message can say.
abbrev crowd : List ℤ
crowd = replicate 65537 (pos 0)

All-replicate : (n : ℕ) → All IsS32 (replicate n (pos 0))
All-replicate zero = tt
All-replicate (suc n) = (omega arith, All-replicate n)

send_set_encodings-Misread_example :
    Ends
      (λ _ s.
        (bs : List ℕ) × (outgoing s.world ≡ start.world.outgoing ++ bs)
        × Misread incoming outgoing sample-IsStream (λ n w. refl) crowd 65537 bs
        × (2 ^ 18 ≤ 4 * (65537 - 65537 % 2 ^ 16)))
      (λ _. Unit {0})
      (send_set_encodings crowd 65537 start)
send_set_encodings-Misread_example =
    send_set_encodings-Misread incoming outgoing sample-IsStream (λ n w. refl) start crowd 65537
      (record { sock = pos 3 }, refl) (omega (arith, length-replicate 65537 (pos 0))) (omega arith)
      (omega arith) (All-replicate 65537)
