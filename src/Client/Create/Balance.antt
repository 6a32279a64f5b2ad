-- ===== src/Client/Create/Balance.antt =====
-- What ovnc_client_create makes: every block is owned by the client, and none is left without one.
use libopenvnc.Base.{
  count, not, ◌/◌, ◌&&◌, ℕ, ◌+◌, ◌≤◌, ◌<◌, ◌≡◌, ◌^◌, refl, Bool, true, false, Option, some, none,
  List, length, ltb, arith, ℤ, is_some, mul_size, ap, Bool-cases, inl, inr, length-take,
}
use mathlib.Core.Option.{some-injective}
use libopenvnc.Pixel.{PixelFormat}
use libopenvnc.State.{Client, Callbacks}
use libopenvnc.Run.{System, client_struct, pixel_format_struct}
use libopenvnc.Handshake.Opening.{HasEncodings}
use libopenvnc.Client.Lifecycle.Connecting.{IsIdle}
use libopenvnc.Client.Lifecycle.{is_connected_state}
use libopenvnc.Client.Lifecycle.Destroying.{blocks}
use libopenvnc.Client.Create.{
  Config, Heap, new_client, take_block, copied_encodings, copy_encodings, copied_format,
  copy_format, copied_host, made_struct, create_for, create,
}

-- The blocks that a client without a framebuffer owns: itself, the host, the format, the encodings.
abbrev pub owned : Client → ℕ
owned c = 2 + count (is_some c.pixel_format) + count (is_some c.encodings)

no_frame : (b : Bool) → count (not b && false) ≡ 0
no_frame true = refl
no_frame false = refl

-- They are all that it holds.
pub blocks-owned :
    (c : Client) → IsIdle c → is_some c.framebuffer.pixels ≡ false → blocks c ≡ owned c
blocks-owned c idle bare = omega (
  arith,
  ap (λ (b : Bool). count (not c.callbacks.alloc_framebuffer && b)) bare,
  no_frame c.callbacks.alloc_framebuffer,
  ap (λ (b : Bool). count (b && is_some c.transport)) (ap is_connected_state idle.state),
)

-- The array of a configuration has the elements that it announces.
pub record IsConfig (cfg : Config) : Type 0 where
  pub enough : (es : List ℤ) → cfg.encodings ≡ some es → cfg.num_encodings ≤ length es
  pub bound : cfg.num_encodings < 2 ^ 61

module _ {E : Type 0} where
  -- Nothing is held besides `live` blocks and those that the client owns; the client can be connected.
  abbrev pub Makes : ℕ → Option Client × Heap E → Type 0
  Makes live (none, (w, l)) = l ≡ live
  Makes live (some c, (w, l)) =
      (l ≡ live + owned c) × IsIdle c × HasEncodings c × (is_some c.framebuffer.pixels ≡ false)

  new_client-Makes :
      (live : ℕ) (cfg : Config) (host : List ℕ) (fmt : Option PixelFormat)
      (callbacks : Option Callbacks) (w : E)
      → Makes live
          (some (new_client cfg host fmt none 0 callbacks), (w, live + 2 + count (is_some fmt)))
  new_client-Makes live cfg host fmt callbacks w = (
    omega arith,
    record { state = refl; transport = refl },
    record { enough = λ es e. omega arith; bound = omega arith },
    refl,
  )

module _ {E : Type 0} ⦃sys : System E⦄ (live : ℕ) (cfg : Config) (valid : IsConfig cfg)
    (host : List ℕ) (callbacks : Option Callbacks) where
  copied_encodings-Makes :
      (fmt : Option PixelFormat) (es : List ℤ) (l : ℕ) (r : Bool × E)
      → cfg.num_encodings ≤ length es
      → l ≡ live + 2 + count (is_some fmt)
      → Makes live
          (copied_encodings cfg host fmt callbacks es (2 + count (is_some fmt)) (take_block l r))
  copied_encodings-Makes fmt es l (true, w) le at = (
    omega arith,
    record { state = refl; transport = refl },
    record {
      enough = λ fs e. omega (
        arith,
        valid.bound,
        length-take (mul_size cfg.num_encodings 4 / 4) es,
        ap length (some-injective _ fs e),
      );
      bound = valid.bound;
    },
    refl,
  )
  copied_encodings-Makes fmt es l (false, w) le at = omega arith

  copy_encodings-Makes :
      (fmt : Option PixelFormat) (o : Option (List ℤ)) (w : E) (l : ℕ)
      → ((es : List ℤ) → o ≡ some es → cfg.num_encodings ≤ length es)
      → l ≡ live + 2 + count (is_some fmt)
      → Makes live (copy_encodings cfg host fmt callbacks (2 + count (is_some fmt)) o (w, l))
  copy_encodings-Makes fmt none w l enough at =
      rw at (new_client-Makes live cfg host fmt callbacks w)
  copy_encodings-Makes fmt (some es) w l enough at = elim (Bool-cases (ltb 0 cfg.num_encodings)) [
    | inl more ↦ rw more (
        copied_encodings-Makes fmt es l (sys.malloc (mul_size cfg.num_encodings 4) w)
          (enough es refl) at)
    | inr no_more ↦ rw (no_more, at) (new_client-Makes live cfg host fmt callbacks w)
  ]

  copied_format-Makes :
      (fmt : PixelFormat) (l : ℕ) (r : Bool × E)
      → l ≡ live + 2
      → Makes live (copied_format cfg host fmt callbacks (take_block l r))
  copied_format-Makes fmt l (true, w) at =
      copy_encodings-Makes (some fmt) cfg.encodings w (l + 1) valid.enough (omega arith)
  copied_format-Makes fmt l (false, w) at = omega arith

  copy_format-Makes :
      (o : Option PixelFormat) (w : E) (l : ℕ)
      → l ≡ live + 2
      → Makes live (copy_format cfg host callbacks o (w, l))
  copy_format-Makes none w l at =
      copy_encodings-Makes none cfg.encodings w l valid.enough (omega arith)
  copy_format-Makes (some fmt) w l at =
      copied_format-Makes fmt l (sys.malloc (sys.size_of pixel_format_struct) w) at

  copied_host-Makes :
      (r : Bool × E) → Makes live (copied_host cfg host callbacks (take_block (live + 1) r))
  copied_host-Makes (true, w) = copy_format-Makes cfg.pixel_format w (live + 1 + 1) (omega arith)
  copied_host-Makes (false, w) = omega arith

  made_struct-Makes :
      (r : Bool × E) → Makes live (made_struct cfg host callbacks (take_block live r))
  made_struct-Makes (true, w) = copied_host-Makes (sys.malloc (length host + 1) w)
  made_struct-Makes (false, w) = refl

module _ {E : Type 0} ⦃sys : System E⦄ where
  -- ovnc_client_create, for a configuration whose array has the elements that it announces, fewer
  -- than 2 ^ 61: where it returns NULL, every block that it took is freed again. Where it returns a
  -- client, the blocks taken are the ones that the client points to, the state is CREATED, the
  -- transport is NULL, there is no framebuffer, and the copied list has `num_encodings` elements.
  pub create-Makes :
      (cfg : Config) (callbacks : Option Callbacks) (w : E) (live : ℕ)
      → IsConfig cfg
      → Makes live (create (some cfg) callbacks (w, live))
  unfolding create
  create-Makes cfg callbacks w live valid = created_for cfg.host
    where
      created_for : (o : Option (List ℕ)) → Makes live (create_for cfg callbacks o (w, live))
      created_for none = refl
      created_for (some host) =
          made_struct-Makes live cfg valid host callbacks (sys.malloc (sys.size_of client_struct) w)
