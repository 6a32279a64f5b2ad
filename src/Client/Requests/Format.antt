-- ===== src/Client/Requests/Format.antt =====
-- ovnc_client_set_pixel_format keeps a session in order, but for a change that finds no memory.
use libopenvnc.Base.{
  ℕ, length, ◌⊎◌, ◌<◌, ◌≡◌, ◌≢◌, refl, sym, ◌∙◌, true, false, not, some, List, arith, ap, inl, inr,
  pos, negsuc, ◌==ℤ◌, ℤ, ◌%◌, ◌^◌, ◌==◌, mul_size, size_of_int, ne→==_false,
}
use mathlib.Core.Option.{some-injective}
use libopenvnc.Error.{Error, nomem}
use libopenvnc.Pixel.{PixelFormat, bytes_per_pixel}
use libopenvnc.Pixel.RoundTrip.{bytes_per_pixel-cases}
use libopenvnc.State.{Client, Framebuffer, ClientState, connected}
use libopenvnc.Run.{Outcome, crash, ok, fail, St, System, ◌>>=◌, malloc}
use libopenvnc.Run.Safe.{
  Ends, Ends-mono, Safe, Safe-pre, Safe-err, Safe-modify, Safe-bind, Safe-gets, Safe-if, Safe-raise,
  Safe-pure, Safe-assume,
}
use libopenvnc.Messages.{send_set_pixel_format}
use libopenvnc.Session.{IsLinked, IsReady, IsTame, HasGeometry, Fits}
use libopenvnc.Session.Local.{
  IsHeld-and, IsLinked-IsHeld, IsReady-IsHeld, IsLinked-IsLocal, IsLocal-and,
}
use libopenvnc.Session.Primitives.{
  malloc-Safe, free_if-Safe, transport_send-Safe, call_alloc_framebuffer-Safe,
}
use libopenvnc.Encoding.{zeroed}
use libopenvnc.Encoding.Pixels.{area-eq, length-zeroed, with_block-HasGeometry}
use libopenvnc.Client.Lifecycle.{is_connected_state}
use libopenvnc.Client.Requests.{reallocate, change_pixel_format, set_pixel_format}

-- A framebuffer whose format has another number of bytes per pixel.
formatted-HasGeometry :
    (fb : Framebuffer) (fmt : PixelFormat) (n : ℕ)
    → HasGeometry fb
    → bytes_per_pixel fmt ≡ pos n
    → n < 5
    → HasGeometry (record fb { format = fmt; data_size = mul_size (mul_size fb.width fb.height) n })
formatted-HasGeometry fb fmt n g e lt = record {
  width = g.width;
  height = g.height;
  size = (n, e, lt, area-eq fb.width fb.height n g.width g.height lt);
}

same-bpp : (n : ℕ) (v : ℤ) → not (pos n ==ℤ v) ≡ false → v ≡ pos n
same-bpp n (pos m) e = ground arith
same-bpp n (negsuc m) e = ground arith

module _ {E : Type 0} ⦃sys : System E⦄ {input output : E → List ℕ} (laws : IsTame input output)
    (st : ClientState) (k : ℕ) (fmt : PixelFormat) (n : ℕ) (same : bytes_per_pixel fmt ≡ pos n)
    (lt : n < 5) where
  -- The framebuffer is `fb`, and the rest of the session is in order.
  abbrev Shows : Framebuffer → St E → Type 0
  Shows fb s = IsLinked input st k s × (s.client.framebuffer ≡ fb)

  reallocate-Safe :
      (fb : Framebuffer)
      → HasGeometry fb
      → Safe
          (Shows (record fb { format = fmt }))
          (λ _ s. IsReady input st k s)
          (IsLinked input st k)
          (reallocate (mul_size (mul_size fb.width fb.height) n))
  unfolding reallocate
  reallocate-Safe fb g =
      let whole = record fb {
        format = fmt;
        data_size = mul_size (mul_size fb.width fb.height) n;
      } in
      let local = IsLocal-and (λ c. c.framebuffer ≡ whole) (IsLinked-IsLocal st k) in
      Safe-bind
        (Safe-modify {Q = λ _ s. Shows whole s} _ (λ s q.
          (record { transport = q.0.transport; state = q.0.state; pending = q.0.pending }, rw q.1)))
        λ _. Safe-bind (Safe-gets (λ s. s.client)) λ c.
          Safe-pre (λ s q. q.0)
            (Safe-if c.callbacks.alloc_framebuffer
              (λ _.
                Safe-pre
                  (λ s q. record {
                    linked = q.0;
                    geometry = rw q.1 (formatted-HasGeometry fb fmt n g same lt);
                  })
                  (call_alloc_framebuffer-Safe laws st k))
              (λ _. Safe-bind (malloc-Safe laws local _) λ found.
                Safe-if found
                  (λ _. Safe-bind (free_if-Safe laws local _) λ _. Safe-modify _ (λ s q.
                    rw q.1 (record {
                      linked = record {
                        transport = q.0.transport;
                        state = q.0.state;
                        pending = q.0.pending;
                      };
                      geometry =
                          with_block-HasGeometry _ _ (formatted-HasGeometry fb fmt n g same lt);
                      fits = record { block = (zeroed _, refl, rw length-zeroed (omega arith)) };
                    })))
                  (λ _. Safe-raise _ (λ s q. q.0))))

  frame_facts :
      (fb : Framebuffer) (s : St E)
      → IsReady input st k s × (fb ≡ s.client.framebuffer)
      → Shows fb s × (HasGeometry fb × Fits fb)
  frame_facts fb s q = ((q.0.linked, sym q.1), (rw q.1 q.0.geometry, rw q.1 q.0.fits))

  -- The same number of bytes per pixel: nothing else changes.
  kept-IsReady :
      (fb : Framebuffer) (s : St E)
      → HasGeometry fb
      → Fits fb
      → bytes_per_pixel fb.format ≡ pos n
      → Shows (record fb { format = fmt }) s
      → IsReady input st k s
  kept-IsReady fb s g fits e q = record {
    linked = q.0;
    geometry = rw q.1 (record {
      width = g.width;
      height = g.height;
      size = (
        n,
        same,
        lt,
        (let (m, em, _, size) = g.size in let eq : m ≡ n = cc (em, e) in rw (← eq) size),
      );
    });
    fits = rw q.1 (record { block = fits.block });
  }

  pub change_pixel_format-Safe :
      Safe
        (IsReady input st k)
        (λ _ s. IsReady input st k s)
        (IsLinked input st k)
        (change_pixel_format fmt)
  unfolding change_pixel_format send_set_pixel_format
  change_pixel_format-Safe =
      let small : n % 2 ^ 64 ≡ n = omega arith in
      rw (same, small)
        (Safe-bind (Safe-err (λ s x. x.linked) (transport_send-Safe laws (IsReady-IsHeld st k) _))
          λ _. Safe-bind (Safe-gets (λ s. s.client.framebuffer)) λ fb. Safe-pre (frame_facts fb) (
            Safe-assume λ facts.
              Safe-bind
                (Safe-modify {Q = λ _ s. Shows (record fb { format = fmt }) s} _ (λ s q. (
                  record { transport = q.0.transport; state = q.0.state; pending = q.0.pending },
                  rw q.1,
                )))
                λ _.
                  Safe-if (not (pos n ==ℤ bytes_per_pixel fb.format))
                    (λ _. reallocate-Safe fb facts.0)
                    (λ e.
                      Safe-pure tt (λ s q. kept-IsReady fb s facts.0 facts.1 (same-bpp n _ e) q))))

module _ {E : Type 0} ⦃sys : System E⦄ {input output : E → List ℕ}
    (laws : IsTame input output) where
  change-Safe :
      (st : ClientState) (k : ℕ) (fmt : PixelFormat)
      → Safe
          (IsReady input st k)
          (λ _ s. IsReady input st k s)
          (IsLinked input st k)
          (change_pixel_format fmt)
  unfolding change_pixel_format
  change-Safe st k fmt = elim (bytes_per_pixel-cases fmt) [
    | inl one ↦ change_pixel_format-Safe laws st k fmt 1 one.0 (omega arith)
    | inr (inl two) ↦ change_pixel_format-Safe laws st k fmt 2 two.0 (omega arith)
    | inr (inr (inl four)) ↦ change_pixel_format-Safe laws st k fmt 4 four.0 (omega arith)
    | inr (inr (inr other)) ↦ rw other.0 (Safe-raise _ (λ s q. q.linked))
  ]

  now_connected :
      (k : ℕ) (state : ClientState) (s : St E)
      → IsReady input connected k s × (state ≡ s.client.state)
      → IsReady input connected k s × (state ≡ connected)
  now_connected k state s q = (q.0, q.1 ∙ q.0.linked.state)

  set_pixel_format-Safe :
      (k : ℕ) (fmt : PixelFormat)
      → Safe
          (IsReady input connected k)
          (λ _ s. IsReady input connected k s)
          (IsLinked input connected k)
          (set_pixel_format (some fmt))
  unfolding set_pixel_format
  set_pixel_format-Safe k fmt = Safe-bind (Safe-gets (λ s. s.client.state)) λ state.
      Safe-pre (now_connected k state)
        (Safe-assume λ (e : state ≡ connected). rw e (change-Safe connected k fmt))

  -- ovnc_client_set_pixel_format with a format that is not NULL, in an environment that meets
  -- `Session.IsTame`, on a connected client whose framebuffer has its block: there is no fault.
  -- Where it returns OVNC_OK, the framebuffer's block holds `data_size` bytes, which is width *
  -- height * bytes per pixel; where it returns an error, the client is still connected, and of
  -- the framebuffer nothing is said.
  pub set_pixel_format-Ends :
      (k : ℕ) (fmt : PixelFormat) (s : St E)
      → IsReady input connected k s
      → Ends
          (λ _ s'. IsReady input connected k s')
          (IsLinked input connected k)
          (set_pixel_format (some fmt) s)
  set_pixel_format-Ends k fmt s ready = (set_pixel_format-Safe k fmt).at s ready

-- The `data_size` that the code computes for `n` bytes per pixel.
abbrev pub new_size : Framebuffer → ℕ → ℕ
new_size fb n = mul_size (mul_size fb.width fb.height) (size_of_int (pos n))

-- Either the format of the client `c` was not changed, or it was, and there is no memory for its block.
abbrev pub Oversizes : Client → ℕ → Outcome Unit → Client → Type 0
Oversizes c n o d =
    ((e : Error) × (o ≡ fail e) × (d ≡ c))
    ⊎ ((o ≡ fail nomem)
        × (d.state ≡ connected)
        × (d.framebuffer.pixels ≡ c.framebuffer.pixels)
        × (d.framebuffer.data_size ≡ new_size c.framebuffer n)
        × ((b : List ℕ)
            → c.framebuffer.pixels ≡ some b
            → length b < new_size c.framebuffer n
            → ¬ Fits d.framebuffer))

-- A block that is too short does not fit.
unfit : (fb : Framebuffer) (b : List ℕ) → fb.pixels ≡ some b → length b < fb.data_size → ¬ Fits fb
unfit fb b here short fits =
    let (b', there, enough) = fits.block in
    omega (arith, enough, short, ap length (some-injective b b' (sym here ∙ there)))

module _ {E : Type 0} ⦃sys : System E⦄ (s : St E) (fmt : PixelFormat) (m n : ℕ)
    (state : s.client.state ≡ connected) (old : bytes_per_pixel s.client.framebuffer.format ≡ pos m)
    (new : bytes_per_pixel fmt ≡ pos n) (ne : m ≢ n)
    (unset : s.client.callbacks.alloc_framebuffer ≡ false)
    (none_left : (w : E) → (sys.malloc (new_size s.client.framebuffer n) w).0 ≡ false) where
  -- By what the sending of the message led to.
  sent-Oversizes :
      (r : Outcome Unit × St E)
      → send_set_pixel_format fmt s ≡ r
      → Ends (λ _ t. t.client ≡ s.client) (λ t. t.client ≡ s.client) r
      → let t = set_pixel_format (some fmt) s in Oversizes s.client n t.0 t.1.client
  unfolding set_pixel_format change_pixel_format reallocate ◌>>=◌ malloc
  sent-Oversizes (ok _, t) sent kept =
      let differ : (n == m) ≡ false = ne→==_false n m (λ e. ne (sym e)) in
      let is_open : is_connected_state s.client.state ≡ true = ap is_connected_state state in
      rw (is_open, new, sent, kept, old, differ, unset, none_left t.world)
        (inr (refl, state, refl, refl, λ b here short. unfit _ b here short))
  sent-Oversizes (fail e, t) sent kept =
      let is_open : is_connected_state s.client.state ≡ true = ap is_connected_state state in
      rw (is_open, new, sent) (inl (e, refl, kept))
  sent-Oversizes (crash f, t) sent kept = absurd kept

module _ {E : Type 0} ⦃sys : System E⦄ {input output : E → List ℕ}
    (laws : IsTame input output) where
  -- In an environment that meets `Session.IsTame`, on a connected client whose framebuffer has its
  -- block, where the new format has another number of bytes per pixel, `alloc_framebuffer` is not set and
  -- there is no memory for a block of the new size: ovnc_client_set_pixel_format never returns OVNC_OK.
  -- Either it returns an error code and the client is as before, or it returns OVNC_ERR_NOMEM, the client
  -- is still connected, and the old block stands beside the `data_size` of the new one: where the old block
  -- is shorter than that, `data` no longer points to `data_size` bytes.
  pub set_pixel_format-oversized :
      (k : ℕ) (s : St E) (fmt : PixelFormat) (m n : ℕ)
      → IsReady input connected k s
      → bytes_per_pixel s.client.framebuffer.format ≡ pos m
      → bytes_per_pixel fmt ≡ pos n
      → m ≢ n
      → s.client.callbacks.alloc_framebuffer ≡ false
      → ((w : E) → (sys.malloc (new_size s.client.framebuffer n) w).0 ≡ false)
      → let t = set_pixel_format (some fmt) s in Oversizes s.client n t.0 t.1.client
  unfolding send_set_pixel_format
  set_pixel_format-oversized k s fmt m n ready old new ne unset none_left =
      let held = IsHeld-and (λ c. c ≡ s.client) (IsLinked-IsHeld {input = input} connected k) in
      sent-Oversizes s fmt m n ready.linked.state old new ne unset none_left
        (send_set_pixel_format fmt s) refl
        (Ends-mono (send_set_pixel_format fmt s) (λ _ t q. q.1) (λ t q. q.1)
          ((transport_send-Safe laws held _).at s (ready.linked, refl)))
