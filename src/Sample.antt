-- ===== src/Sample.antt =====
-- A world that meets the contract of `Session.IsTame`, on which the theorems are tried out: the
-- peer's bytes are a list, what is sent is collected, memory is found for every block that is not
-- empty, and the callbacks are recorded.
pub mod Tests
mod WireTests
mod FaultTests
pub mod ConnectTests
mod SessionTests
mod WinsockTests
pub mod HeapTests
mod DescriptorTests
mod CallTests
mod MessageTests
use libopenvnc.Base.{
  ℕ, zero, suc, ◌≤◌, ◌<◌, ◌≡◌, refl, Option, none, some, List, [], ◌∷◌, ◌++◌, length, take, drop,
  ltb, arith, pos, take-append-drop, take-length, length-take, sym, false,
}
use libopenvnc.Error.{Error}
use libopenvnc.State.{Event, ClientState}
use libopenvnc.Run.{Fault, St, System, Io, done, Connecting}
use libopenvnc.Socket.Stream.{IsStream}
use libopenvnc.Session.{IsLinked, IsReady, IsSized, IsTame, HasGeometry, Fits}
use libopenvnc.Session.Says.{IsMute}
use libopenvnc.Encoding.{zeroed}
use libopenvnc.Encoding.Pixels.{length-zeroed}

pub record World : Type 0 where
  pub incoming : List ℕ
  pub outgoing : List ℕ
  pub events : List Event

abbrev pub record_event : Event → St World → Option Fault × St World
record_event ev s =
    (none, record s { world = record s.world { events = s.world.events ++ (ev ∷ []) } })

abbrev pub give_block : St World → Option Error × St World
give_block s = (
  none,
  record s {
    client = record s.client {
      framebuffer = record s.client.framebuffer {
        pixels = some (zeroed s.client.framebuffer.data_size);
      };
    };
  },
)

instance abbrev pub sample : System World
sample = record {
  recv = λ sock n w. (done (take n w.incoming), record w { incoming = drop n w.incoming });
  send = λ sock p w. (done (length p), record w { outgoing = w.outgoing ++ p });
  close = λ sock w. w;
  getaddrinfo = λ host port w. (some (0 ∷ []), w);
  freeaddrinfo = λ res w. w;
  socket = λ addr w. (pos 3, w);
  connect = λ sock addr w. (Connecting.connected, w);
  get_flags = λ sock w. (pos 2, w);
  set_flags = λ sock flags w. w;
  o_nonblock = 2048;
  poll = λ sock ms w. (pos 1, w);
  so_error = λ sock w. (0, w);
  size_of = λ t. 8;
  malloc = λ n w. (ltb 0 n, w);
  interrupts = λ w. 0;
  notify = record_event;
  alloc_framebuffer = give_block;
}

abbrev pub incoming : World → List ℕ
incoming w = w.incoming

abbrev pub outgoing : World → List ℕ
outgoing w = w.outgoing

pub sample-IsStream : IsStream incoming outgoing
sample-IsStream = record {
  receives = λ sock n w.
      (omega (arith, length-take n w.incoming), sym (take-append-drop n w.incoming), omega arith);
  sends = λ sock p w. (omega arith, rw take-length, omega arith);
}

pub sample-IsTame : IsTame incoming outgoing
sample-IsTame = record {
  stream = sample-IsStream;
  sends_only = λ sock p w. refl;
  malloc_only = λ n w. refl;
  notify_linked = λ st k ev s h.
      (refl, record { transport = h.transport; state = h.state; pending = h.pending });
  notify_ready = λ st k ev s h. (
    refl,
    record {
      linked = record {
        transport = h.linked.transport;
        state = h.linked.state;
        pending = h.linked.pending;
      };
      geometry = h.geometry;
      fits = h.fits;
    },
  );
  allocates = λ st k s h. record {
    linked = record {
      transport = h.linked.transport;
      state = h.linked.state;
      pending = h.linked.pending;
    };
    geometry = record {
      width = h.geometry.width;
      height = h.geometry.height;
      size = h.geometry.size;
    };
    fits = record {
      block = (zeroed s.client.framebuffer.data_size, refl, rw length-zeroed (omega arith));
    };
  };
}

pub sample-no_empty : (w : World) → (sample.malloc 0 w).0 ≡ false
sample-no_empty w = refl

pub sample-IsMute : IsMute outgoing
sample-IsMute = record { recv = λ sock n w. refl; malloc = λ n w. refl; alloc = λ s. refl }
