-- ===== src/Session.antt =====
-- What holds of a client while it talks to a server, and what is asked of the kernel, the allocator
-- and the callbacks so that it stays so.
pub mod Reads
pub mod Gives
pub mod Sends
pub mod Says
pub mod Local
pub mod Primitives
use libopenvnc.Base.{ℕ, ◌*◌, ◌^◌, ◌≤◌, ◌<◌, ◌≡◌, Bool, Option, none, some, List, length, ℤ, pos}
use libopenvnc.Error.{Error}
use libopenvnc.Pixel.{bytes_per_pixel}
use libopenvnc.State.{Transport, Framebuffer, ClientState, Event}
use libopenvnc.Run.{Fault, St, System}
use libopenvnc.Socket.Stream.{IsStream}

-- The block that `data` points to holds `data_size` bytes.
pub record Fits (fb : Framebuffer) : Type 0 where
  pub block : (b : List ℕ) × (fb.pixels ≡ some b) × (fb.data_size ≤ length b)

-- `data_size` is the number of bytes of `height` rows of `width` pixels, for a format that has a
-- whole number of bytes per pixel.
pub record HasGeometry (fb : Framebuffer) : Type 0 where
  pub width : fb.width < 2 ^ 16
  pub height : fb.height < 2 ^ 16
  pub size :
      (n : ℕ) × (bytes_per_pixel fb.format ≡ pos n)
      × (n < 5)
      × (fb.data_size ≡ fb.width * fb.height * n)

module _ {E : Type 0} (input : E → List ℕ) where
  -- The client has a transport and is in the state `st`; at most `k` bytes are still to come.
  pub record IsLinked (st : ClientState) (k : ℕ) (s : St E) : Type 0 where
    pub transport : (t : Transport) × (s.client.transport ≡ some t)
    pub state : s.client.state ≡ st
    pub pending : length (input s.world) ≤ k

  -- The same, with a framebuffer of the right size in a block that holds it.
  pub record IsReady (st : ClientState) (k : ℕ) (s : St E) : Type 0 where
    pub linked : IsLinked st k s
    pub geometry : HasGeometry s.client.framebuffer
    pub fits : Fits s.client.framebuffer

  -- The client as `alloc_framebuffer` gets it: the new size is set, the block is still to come.
  pub record IsSized (st : ClientState) (k : ℕ) (s : St E) : Type 0 where
    pub linked : IsLinked st k s
    pub geometry : HasGeometry s.client.framebuffer

  -- What `alloc_framebuffer` leaves: on OVNC_OK a block of that size.
  abbrev pub Allocates : ClientState → ℕ → Option Error × St E → Type 0
  Allocates st k (none, s) = IsReady st k s
  Allocates st k (some e, s) = IsLinked st k s

  -- What a callback leaves: no fault, and a state in which `P` holds.
  abbrev pub Quietly : (St E → Type 0) → Option Fault × St E → Type 0
  Quietly P r = (r.0 ≡ none) × P r.1

  module _ ⦃sys : System E⦄ where
    -- The contract of the environment: a stream socket; an allocator that leaves the stream alone;
    -- callbacks without undefined behaviour that neither close the session nor break the framebuffer; and an
    -- `alloc_framebuffer` that provides `data_size` bytes when it returns OVNC_OK.
    pub record IsTame (output : E → List ℕ) : Type 0 where
      pub stream : IsStream input output
      pub sends_only : (sock : ℤ) (p : List ℕ) (w : E) → input (sys.send sock p w).1 ≡ input w
      pub malloc_only : (n : ℕ) (w : E) → input (sys.malloc n w).1 ≡ input w
      pub notify_linked :
          (st : ClientState) (k : ℕ) (ev : Event) (s : St E)
          → IsLinked st k s
          → Quietly (IsLinked st k) (sys.notify ev s)
      pub notify_ready :
          (st : ClientState) (k : ℕ) (ev : Event) (s : St E)
          → IsReady st k s
          → Quietly (IsReady st k) (sys.notify ev s)
      pub allocates :
          (st : ClientState) (k : ℕ) (s : St E)
          → IsSized st k s
          → Allocates st k (sys.alloc_framebuffer s)
