-- ===== src/Handshake/Block.antt =====
-- The framebuffer that do_initialization of src/protocol/ovnc_handshake.c sets up has its block.
use libopenvnc.Base.{
  ℕ, ◌<◌, ◌≡◌, ◌^◌, refl, true, false, List, Option, Bool, arith, if◌then◌else◌, pos, some, none,
  mul_size,
}
use libopenvnc.Error.{Error, nomem}
use libopenvnc.Pixel.{PixelFormat, bytes_per_pixel}
use libopenvnc.State.{Client, Framebuffer, created}
use libopenvnc.Run.{St, System, pure, raise, ◌>>◌, modify_client, returned, call_alloc_framebuffer}
use libopenvnc.Run.Safe.{
  Ends, Safe, Safe-bind, Safe-if, Safe-raise, Safe-pure, Safe-modify, Safe-pre,
}
use libopenvnc.Session.{IsLinked, IsReady, IsSized, IsTame, HasGeometry, Allocates}
use libopenvnc.Session.Local.{IsLinked-IsLocal, IsLocal}
use libopenvnc.Session.Primitives.{malloc-Safe}
use libopenvnc.Encoding.{zeroed, set_framebuffer}
use libopenvnc.Encoding.Pixels.{area-eq, length-zeroed, with_block-HasGeometry}
use libopenvnc.Handshake.Init.{allocate}

module _ {E : Type 0} ⦃sys : System E⦄ {input output : E → List ℕ} (laws : IsTame input output)
    (k : ℕ) (H : Client → Type 0)
    (kept : (s : St E) → H s.client → H (sys.alloc_framebuffer s).1.client) where
  returned-Ends :
      (r : Option Error × St E)
      → Allocates input created k r
      → H r.1.client
      → Ends
          (λ _ s. IsReady input created k s × H s.client)
          (λ s. IsLinked input created k s × H s.client)
          (returned r)
  returned-Ends (none, s) h g = (h, g)
  returned-Ends (some e, s) h g = (h, g)

  -- The application's `alloc_framebuffer`, which keeps `H`.
  call_alloc-Safe :
      Safe
        (λ s. IsSized input created k s × H s.client)
        (λ _ s. IsReady input created k s × H s.client)
        (λ s. IsLinked input created k s × H s.client)
        call_alloc_framebuffer
  unfolding call_alloc_framebuffer
  call_alloc-Safe = record {
    at = λ s h.
        returned-Ends (sys.alloc_framebuffer s) (laws.allocates created k s h.0) (kept s h.1);
  }

  module _
      (framed : (f : Framebuffer → Framebuffer) (c : Client) → H c → H (set_framebuffer f c)) where
    -- The framebuffer has the size and format that are given.
    abbrev pub Framed : ℕ → ℕ → PixelFormat → St E → Type 0
    Framed w h fmt s =
        IsLinked input created k s
        × H s.client
        × (s.client.framebuffer.width ≡ w)
        × (s.client.framebuffer.height ≡ h)
        × (s.client.framebuffer.format ≡ fmt)

    Framed-HasGeometry :
        (w h n : ℕ) (fmt : PixelFormat) (s : St E)
        → w < 2 ^ 16
        → h < 2 ^ 16
        → bytes_per_pixel fmt ≡ pos n
        → n < 5
        → Framed w h fmt s
        → HasGeometry (record s.client.framebuffer { data_size = mul_size (mul_size w h) n })
    Framed-HasGeometry w h n fmt s hw hh same lt q = record {
      width = rw q.2 hw;
      height = rw q.3 hh;
      size = (n, rw q.4 same, lt, rw (q.2, q.3) (area-eq w h n hw hh lt));
    }

    -- The framebuffer has its size, and the block is still to come.
    abbrev Sized : ℕ → St E → Type 0
    Sized size s =
        IsSized input created k s × (H s.client × (s.client.framebuffer.data_size ≡ size))

    Sized-IsLocal : (size : ℕ) → IsLocal input (Sized size)
    Sized-IsLocal size = record {
      moves = λ s v l le q. (
        record {
          linked = (IsLinked-IsLocal created k).moves s v l le q.0.linked;
          geometry = q.0.geometry;
        },
        q.1,
      );
    }

    -- The assignment of what `calloc` returned.
    stored-Safe :
        (found : Bool) (size : ℕ)
        → Safe
            (Sized size)
            (λ _ s. IsReady input created k s × H s.client)
            (λ s. IsLinked input created k s × H s.client)
            (modify_client (
                set_framebuffer
                  (λ fb. record fb { pixels = if found then some (zeroed size) else none }))
              >> (if found then pure tt else raise nomem))
    stored-Safe true size =
        Safe-bind
          (Safe-modify {Q = λ _ s. IsReady input created k s × H s.client} _ (λ s q. (
            record {
              linked = record {
                transport = q.0.linked.transport;
                state = q.0.linked.state;
                pending = q.0.linked.pending;
              };
              geometry = with_block-HasGeometry _ _ q.0.geometry;
              fits = record {
                block = (zeroed size, refl, rw length-zeroed (omega (arith, q.1.1)));
              };
            },
            framed (λ fb. record fb { pixels = some (zeroed size) }) s.client q.1.0,
          )))
          λ _. Safe-pure tt (λ s q. q)
    stored-Safe false size =
        Safe-bind
          (Safe-modify {Q = λ _ s. IsLinked input created k s × H s.client} _ (λ s q. (
            record {
              transport = q.0.linked.transport;
              state = q.0.linked.state;
              pending = q.0.linked.pending;
            },
            framed (λ fb. record fb { pixels = none }) s.client q.1.0,
          )))
          λ _. Safe-raise _ (λ s q. q)

    pub allocate-Safe :
        (set : Bool) (w h n : ℕ) (fmt : PixelFormat)
        → w < 2 ^ 16
        → h < 2 ^ 16
        → bytes_per_pixel fmt ≡ pos n
        → n < 5
        → Safe
            (Framed w h fmt)
            (λ _ s. IsReady input created k s × H s.client)
            (λ s. IsLinked input created k s × H s.client)
            (allocate set (mul_size (mul_size w h) n))
    unfolding allocate
    allocate-Safe set w h n fmt hw hh same lt =
        Safe-bind
          (Safe-modify {Q = λ _ s. Sized (mul_size (mul_size w h) n) s} _ (λ s q. (
            record {
              linked = record {
                transport = q.0.transport;
                state = q.0.state;
                pending = q.0.pending;
              };
              geometry = Framed-HasGeometry w h n fmt s hw hh same lt q;
            },
            (framed (λ fb. record fb { data_size = mul_size (mul_size w h) n }) s.client q.1, refl),
          )))
          λ _.
            Safe-if set (λ _. Safe-pre (λ s q. (q.0, q.1.0)) call_alloc-Safe)
              (λ _. Safe-bind (malloc-Safe laws (Sized-IsLocal _) _) λ found. stored-Safe found _)
