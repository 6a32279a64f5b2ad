-- ===== src/Client/Create.antt =====
-- ovnc_client_create of src/client/ovnc_client.c.
pub mod Balance
use libopenvnc.Base.{
  ℕ, ◌+◌, ◌-◌, Bool, true, false, Option, none, some, List, ltb, ◌==◌, if◌then◌else◌, length, take,
  ℤ, mul_size, ◌/◌,
}
use libopenvnc.Pixel.{PixelFormat}
use libopenvnc.State.{Client, created, Callbacks, zero_conn_info, zero_framebuffer, no_callbacks}
use libopenvnc.Run.{System, client_struct, pixel_format_struct}

-- ovnc_client_config_t; `host` is the text without its final NUL.
pub record Config : Type 0 where
  pub host : Option (List ℕ)
  pub port : ℕ
  pub shared : ℕ
  pub pixel_format : Option PixelFormat
  pub encodings : Option (List ℤ)
  pub num_encodings : ℕ
  pub connect_timeout_ms : ℕ
  pub user_data : ℕ

-- The world and the number of blocks held, before there is a client.
abbrev pub Heap : Type 0 → Type 0
Heap E = E × ℕ

-- The client that `calloc` and the assignments of ovnc_client_create make.
abbrev pub new_client :
    Config → List ℕ → Option PixelFormat → Option (List ℤ) → ℕ → Option Callbacks → Client
new_client cfg host fmt encodings num callbacks = record {
  host = host;
  port = (if cfg.port == 0 then 5900 else cfg.port);
  shared = cfg.shared;
  pixel_format = fmt;
  encodings = encodings;
  num_encodings = num;
  connect_timeout_ms = cfg.connect_timeout_ms;
  user_data = cfg.user_data;
  callbacks = elim callbacks [ none ↦ no_callbacks | some c ↦ c ];
  state = created;
  transport = none;
  conn_info = zero_conn_info;
  framebuffer = zero_framebuffer;
}

module _ {E : Type 0} ⦃sys : System E⦄ where
  -- `malloc` and `calloc` before there is a client
  abbrev pub take_block : ℕ → Bool × E → Bool × Heap E
  take_block live (found, w) = (found, (w, if found then live + 1 else live))

  abbrev pub alloc : ℕ → Heap E → Bool × Heap E
  alloc n (w, live) = take_block live (sys.malloc n w)

  -- The last part of ovnc_client_create, with the host and the format copied; `copied` blocks are
  -- freed where there is no memory. The caller's array has at least `num_encodings` elements, each of
  -- 4 bytes, and `enc_size` bytes are copied, a size_t that wraps.
  abbrev pub copied_encodings :
      Config
      → List ℕ
      → Option PixelFormat
      → Option Callbacks
      → List ℤ
      → ℕ
      → Bool × Heap E
      → Option Client × Heap E
  copied_encodings cfg host fmt callbacks es copied (true, h) = (
    some (
        new_client cfg host fmt (some (take (mul_size cfg.num_encodings 4 / 4) es))
          cfg.num_encodings callbacks),
    h,
  )
  copied_encodings cfg host fmt callbacks es copied (false, (w, live)) = (none, (w, live - copied))

  abbrev pub copy_encodings :
      Config
      → List ℕ
      → Option PixelFormat
      → Option Callbacks
      → ℕ
      → Option (List ℤ)
      → Heap E
      → Option Client × Heap E
  copy_encodings cfg host fmt callbacks copied none h =
      (some (new_client cfg host fmt none 0 callbacks), h)
  copy_encodings cfg host fmt callbacks copied (some es) h =
      if ltb 0 cfg.num_encodings
      then copied_encodings cfg host fmt callbacks es copied
          (alloc (mul_size cfg.num_encodings 4) h)
      else (some (new_client cfg host fmt none 0 callbacks), h)

  -- The part before it, with the host copied into the second block.
  abbrev pub copied_format :
      Config → List ℕ → PixelFormat → Option Callbacks → Bool × Heap E → Option Client × Heap E
  copied_format cfg host fmt callbacks (true, h) =
      copy_encodings cfg host (some fmt) callbacks 3 cfg.encodings h
  copied_format cfg host fmt callbacks (false, (w, live)) = (none, (w, live - 2))

  abbrev pub copy_format :
      Config → List ℕ → Option Callbacks → Option PixelFormat → Heap E → Option Client × Heap E
  copy_format cfg host callbacks none h = copy_encodings cfg host none callbacks 2 cfg.encodings h
  copy_format cfg host callbacks (some fmt) h =
      copied_format cfg host fmt callbacks (alloc (sys.size_of pixel_format_struct) h)

  abbrev pub copied_host :
      Config → List ℕ → Option Callbacks → Bool × Heap E → Option Client × Heap E
  copied_host cfg host callbacks (true, h) = copy_format cfg host callbacks cfg.pixel_format h
  copied_host cfg host callbacks (false, (w, live)) = (none, (w, live - 1))

  abbrev pub made_struct :
      Config → List ℕ → Option Callbacks → Bool × Heap E → Option Client × Heap E
  made_struct cfg host callbacks (true, h) =
      copied_host cfg host callbacks (alloc (length host + 1) h)
  made_struct cfg host callbacks (false, h) = (none, h)

  abbrev pub create_for :
      Config → Option Callbacks → Option (List ℕ) → Heap E → Option Client × Heap E
  create_for cfg callbacks none h = (none, h)
  create_for cfg callbacks (some host) h =
      made_struct cfg host callbacks (alloc (sys.size_of client_struct) h)

  -- ovnc_client_create
  unfoldable pub create : Option Config → Option Callbacks → Heap E → Option Client × Heap E
  create none callbacks h = (none, h)
  create (some cfg) callbacks h = create_for cfg callbacks cfg.host h
