-- ===== src/Client/Heap/Starting.antt =====
-- The heap blocks through the whole handshake of src/protocol/ovnc_handshake.c, on a client that has
-- no framebuffer yet.
use libopenvnc.Base.{
  ℕ, ◌+◌, ◌*◌, ◌≡◌, ap, sym, length, ◌∙◌, Bool, true, false, not, ◌&&◌, Option, none, some, List, ℤ,
  ltb, drop, is_some, count, arith, add_size, mul_size, is_negative, if◌then◌else◌,
}
use libopenvnc.Wire.{read_u32}
use libopenvnc.Pixel.{PixelFormat, bytes_per_pixel}
use libopenvnc.State.{Client, ConnectionInfo, created}
use libopenvnc.Run.{St, System}
use libopenvnc.Run.Safe.{
  SafeOr, Safe-bind, Safe-if, Safe-raise, Safe-pure, Safe-modify, Safe-gets, Safe-pre, Safe-err,
  Safe-assume, Safe-try,
}
use libopenvnc.Encoding.{zeroed, set_framebuffer}
use libopenvnc.Messages.{send_set_pixel_format, send_set_encodings}
use libopenvnc.Handshake.{send_format, send_encodings, send_initial_messages, handshake}
use libopenvnc.Handshake.Info.{set_conn_info}
use libopenvnc.Handshake.Init.{active_format, allocate, init_framebuffer, do_initialization}
use libopenvnc.Client.Heap.{Owns, Keeps, IsFrugal, Owns-IsCount, call_alloc-Keeps}
use libopenvnc.Client.Heap.Counting.{
  IsCount, recv-Goes, send-Goes, malloc-Goes, malloc_if-Goes, free-Goes,
}
use libopenvnc.Client.Heap.Opening.{
  negotiate_version-Goes, negotiate_security-Goes, check_security_result-Goes, read_name-Goes,
}

-- A client that ovnc_client_connect works on: there is no framebuffer, and it may be the application's.
pub record IsBare (app : Bool) (c : Client) : Type 0 where
  pub pixels : is_some c.framebuffer.pixels ≡ false
  pub state : c.state ≡ created
  pub callback : c.callbacks.alloc_framebuffer ≡ app

-- With the blocks that it has, and `n` others.
abbrev pub Early : {E : Type 0} → Bool → ℕ → St E → Type 0
Early app n s = Owns n s × IsBare app s.client

module _ {E : Type 0} (app : Bool) where
  pub Early-IsCount : IsCount {E = E} (Early app)
  Early-IsCount = record {
    elsewhere = λ n s w h. (Owns-IsCount.elsewhere n s w h.0, h.1);
    taken = λ n s w h. (Owns-IsCount.taken n s w h.0, h.1);
    given = λ n s h. (Owns-IsCount.given n s h.0, h.1);
  }

module _ {E : Type 0} ⦃sys : System E⦄ (frugal : IsFrugal E) (n : ℕ) where
  -- What `calloc` returned is the client's block, where it is not NULL.
  stored_owned :
      (found : Bool) (size : ℕ) (s : St E)
      → Early false (n + count found) s
      → Owns n (record s {
        client =
            set_framebuffer
              (λ fb. record fb { pixels = if found then some (zeroed size) else none })
              s.client;
      })
  stored_owned true size s h = omega (
    arith,
    h.0,
    ap (λ (b : Bool). count (not b && is_some s.client.framebuffer.pixels)) h.1.callback,
    ap (λ (b : Bool). count (not b && true)) h.1.callback,
    ap count h.1.pixels,
  )
  stored_owned false size s h = omega (
    arith,
    h.0,
    ap (λ (b : Bool). count (not b && is_some s.client.framebuffer.pixels)) h.1.callback,
    ap (λ (b : Bool). count (not b && false)) h.1.callback,
    ap count h.1.pixels,
  )

  allocate-Goes :
      (app : Bool) (size : ℕ)
      → SafeOr {E = E} (Unit {0}) (Early app n) (λ _. Owns n) (Owns n) (allocate app size)
  unfolding allocate
  allocate-Goes true size =
      Safe-bind {Q = λ _. Early true n}
        (Safe-modify _ (λ s h.
          (h.0, record { pixels = h.1.pixels; state = h.1.state; callback = h.1.callback })))
        λ _. Safe-pre (λ s h. (h.0, h.1.callback)) (call_alloc-Keeps frugal n)
  allocate-Goes false size =
      Safe-bind {Q = λ _. Early false n}
        (Safe-modify _ (λ s h.
          (h.0, record { pixels = h.1.pixels; state = h.1.state; callback = h.1.callback })))
        λ _. Safe-bind (Safe-err (λ s h. h.0) (malloc-Goes (Early-IsCount false) n n size)) λ found.
          Safe-bind {Q = λ _. Owns n} (Safe-modify _ (λ s h. stored_owned found size s h))
            λ _. Safe-if found (λ _. Safe-pure tt (λ s h. h)) (λ _. Safe-raise _ (λ s h. h))

  init_framebuffer-Goes :
      (app : Bool) → SafeOr {E = E} (Unit {0}) (Early app n) (λ _. Owns n) (Owns n) init_framebuffer
  unfolding init_framebuffer
  init_framebuffer-Goes app = Safe-bind (Safe-gets (λ s. s.client)) λ c.
      Safe-pre {P = λ s. Early app n s × (app ≡ c.callbacks.alloc_framebuffer)}
        (λ s q.
          (q.0, sym q.0.1.callback ∙ ap (λ (d : Client). d.callbacks.alloc_framebuffer) (sym q.1)))
        (Safe-assume λ e.
          Safe-bind {Q = λ _. Early app n}
            (Safe-modify _ (λ s h.
              (h.0, record { pixels = h.1.pixels; state = h.1.state; callback = h.1.callback })))
            λ _.
              Safe-if (is_negative (bytes_per_pixel (active_format c)))
                (λ _. Safe-raise _ (λ s h. h.0)) (λ _. rw (← e) (allocate-Goes app _)))

  bare_info :
      (app : Bool) (f : ConnectionInfo → ConnectionInfo) (m : ℕ) (s : St E)
      → Early app m s
      → Early app m (record s { client = set_conn_info f s.client })
  bare_info app f m s h =
      (h.0, record { pixels = h.1.pixels; state = h.1.state; callback = h.1.callback })

  do_initialization-Goes :
      (app : Bool)
      → SafeOr {E = E} (Unit {0}) (Early app n) (λ _. Owns n) (Owns n) do_initialization
  unfolding do_initialization
  do_initialization-Goes app =
      let counts = Early-IsCount {E = E} app in
      Safe-bind (Safe-gets (λ s. s.client.shared)) λ shared.
        Safe-pre {P = Early app n} (λ s q. q.0)
          (Safe-bind (Safe-err (λ s h. h.0) (send-Goes counts n _)) λ _.
            Safe-bind (Safe-err (λ s h. h.0) (recv-Goes counts n 24)) λ header.
              Safe-bind {Q = λ _. Early app n}
                (Safe-modify _ (λ s h. (
                  h.0,
                  record { pixels = h.1.pixels; state = h.1.state; callback = h.1.callback },
                )))
                λ _.
                  Safe-bind
                    (Safe-err (λ s h. h.0)
                      (read_name-Goes counts (bare_info app) n (read_u32 (drop 20 header))))
                    λ _. init_framebuffer-Goes app)

  pub send_set_encodings-Keeps : (es : List ℤ) (len : ℕ) → Keeps E n (send_set_encodings es len)
  unfolding send_set_encodings
  send_set_encodings-Keeps es len =
      malloc_if-Goes Owns-IsCount n n _
        (Safe-if (ltb (length es) len) (λ _. record { at = λ s h. tt })
          (λ _.
            Safe-if (ltb (add_size 4 (mul_size 4 len)) (4 + 4 * len))
              (λ _. record { at = λ s h. tt })
              (λ _.
                Safe-try _ (send-Goes Owns-IsCount (n + 1) _)
                  (Safe-bind (free-Goes Owns-IsCount n n) λ _. Safe-pure tt (λ s h. h))
                  (λ e. Safe-bind (free-Goes Owns-IsCount n n) λ _. Safe-raise e (λ s h. h)))))
        (Safe-raise _ (λ s h. h))

  send_format-Keeps : (fmt : Option PixelFormat) → Keeps E n (send_format fmt)
  unfolding send_set_pixel_format
  send_format-Keeps none = Safe-pure tt (λ s h. h)
  send_format-Keeps (some fmt) = send-Goes Owns-IsCount n _

  send_encodings-Keeps : (o : Option (List ℤ)) (len : ℕ) → Keeps E n (send_encodings o len)
  send_encodings-Keeps none len = Safe-pure tt (λ s h. h)
  send_encodings-Keeps (some es) len =
      Safe-if (ltb 0 len) (λ _. send_set_encodings-Keeps es len) (λ _. Safe-pure tt (λ s h. h))

  send_initial_messages-Keeps : Keeps E n send_initial_messages
  unfolding send_initial_messages
  send_initial_messages-Keeps = Safe-bind (Safe-gets (λ s. s.client.pixel_format)) λ fmt.
      Safe-pre (λ s q. q.0)
        (Safe-bind (send_format-Keeps fmt) λ _.
          Safe-bind (Safe-gets (λ s. s.client))
            λ c. Safe-pre (λ s q. q.0) (send_encodings-Keeps c.encodings c.num_encodings))

  -- The whole handshake: the framebuffer is the only block that it leaves.
  pub handshake-Goes :
      (app : Bool) → SafeOr {E = E} (Unit {0}) (Early app n) (λ _. Owns n) (Owns n) handshake
  unfolding handshake
  handshake-Goes app =
      let counts = Early-IsCount {E = E} app in
      let info = bare_info app in
      Safe-bind (Safe-err (λ s h. h.0) (negotiate_version-Goes counts info n)) λ _.
        Safe-bind (Safe-err (λ s h. h.0) (negotiate_security-Goes counts info n)) λ _.
          Safe-bind (Safe-err (λ s h. h.0) (check_security_result-Goes counts info n))
            λ _. Safe-bind (do_initialization-Goes app) λ _. send_initial_messages-Keeps
