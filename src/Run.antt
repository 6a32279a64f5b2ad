-- ===== src/Run.antt =====
-- How the C functions are run: a function that returns `ovnc_error_t` is an action on the client
-- and on the world, which are changed also where it fails.
-- What the library calls outside its own code is the parameter `System`: the kernel's sockets, the
-- allocator, the resolver, and the callbacks of the application.
pub mod Safe
pub mod Both
use libopenvnc.Base.{
  ℕ, ◌+◌, ◌-◌, Bool, true, false, Option, none, some, List, ℤ, ltb, if◌then◌else◌, is_some,
}
use libopenvnc.Error.{Error}
use libopenvnc.State.{Socket, Client, Callbacks, Event}

-- Undefined behaviour of C, and a loop that was given too few rounds.
pub data Fault : Type 0 where
  null_pointer : Fault
  out_of_bounds : Fault
  out_of_fuel : Fault
  double_free : Fault

-- What a C function ends in: OVNC_OK with the values that it hands on, an error code, or a fault.
pub data Outcome (A : Type 0) : Type 0 where
  ok : A → Outcome A
  fail : Error → Outcome A
  crash : Fault → Outcome A

-- The client, the world outside the library, the heap blocks that the library holds, and the
-- counter `platform_init_count` of src/platform.
pub record St (E : Type 0) : Type 0 where
  pub client : Client
  pub world : E
  pub live : ℕ
  pub init_count : ℕ

abbrev pub Action : Type 0 → Type 0 → Type 0
Action E A = St E → Outcome A × St E

-- What a call of `recv` or `send` returns: a count (with the bytes, for `recv`), or -1 with the
-- `errno` EINTR, or -1 with another.
pub data Io (A : Type 0) : Type 0 where
  done : A → Io A
  interrupted : Io A
  failed : Io A

-- `struct addrinfo`, which the library hands from one call to the next and never looks into.
abbrev pub Address : Type 0
Address = ℕ

-- What `connect` returns: 0, or -1 with the `errno` EINPROGRESS, or -1 with another.
pub data Connecting : Type 0 where
  connected : Connecting
  in_progress : Connecting
  refused : Connecting

-- The structures whose size the library asks of the compiler.
pub data CType : Type 0 where
  client_struct pixel_format_struct transport_struct : CType

-- The kernel, the allocator, and the application, acting on a world of type E. A callback may call
-- the library again, so it acts on the whole state.
pub record System (E : Type 0) : Type 0 where
  pub recv : Socket → ℕ → E → Io (List ℕ) × E
  pub send : Socket → List ℕ → E → Io ℕ × E
  pub close : Socket → E → E
  -- `getaddrinfo` of a host and a port: the addresses, or `none` for an error
  pub getaddrinfo : List ℕ → ℕ → E → Option (List Address) × E
  pub freeaddrinfo : List Address → E → E
  pub socket : Address → E → Socket × E
  pub connect : Socket → Address → E → Connecting × E
  -- `fcntl` with F_GETFL and F_SETFL, and O_NONBLOCK
  pub get_flags : Socket → E → ℤ × E
  pub set_flags : Socket → ℕ → E → E
  pub o_nonblock : ℕ
  -- `poll` of one socket for POLLOUT, for at most so many milliseconds, and SO_ERROR
  pub poll : Socket → ℤ → E → ℤ × E
  pub so_error : Socket → E → ℕ × E
  -- `sizeof`
  pub size_of : CType → ℕ
  -- whether `malloc` or `calloc` finds that many bytes
  pub malloc : ℕ → E → Bool × E
  -- how many calls in a row the kernel may interrupt from here on
  pub interrupts : E → ℕ
  -- a callback that returns nothing; `some f` is undefined behaviour in it
  pub notify : Event → St E → Option Fault × St E
  pub alloc_framebuffer : St E → Option Error × St E

module _ {E : Type 0} where
  module _ {A : Type 0} where
    abbrev pub pure : A → Action E A
    pure a s = (ok a, s)

    abbrev pub raise : Error → Action E A
    raise e s = (fail e, s)

    abbrev pub abort : Fault → Action E A
    abort f s = (crash f, s)

    abbrev pub gets : (St E → A) → Action E A
    gets f s = (ok (f s), s)

    -- The error code that a callback returned; `none` is OVNC_OK.
    abbrev pub or_raise : A → Option Error → Action E A
    or_raise a none = pure a
    or_raise a (some e) = raise e

  module _ {A B : Type 0} where
    abbrev pub and_then : Outcome A → (A → Action E B) → Action E B
    and_then (ok a) f s = f a s
    and_then (fail e) f s = (fail e, s)
    and_then (crash c) f s = (crash c, s)

    infixl 5 ◌>>=◌ ◌>>◌
    unfoldable pub ◌>>=◌ : Action E A → (A → Action E B) → Action E B
    ◌>>=◌ m f s = let (r, s') = m s in and_then r f s'

    abbrev pub ◌>>◌ : Action E A → Action E B → Action E B
    m >> k = m >>= λ _. k

    abbrev pub settle : Outcome A → (Option Error → Action E B) → Action E B
    settle (ok _) f s = f none s
    settle (fail e) f s = f (some e) s
    settle (crash c) f s = (crash c, s)

    -- `err = m; …`: the code goes on with the error code in hand.
    unfoldable pub try : Action E A → (Option Error → Action E B) → Action E B
    try m f s = let (r, s') = m s in settle r f s'

  abbrev pub modify_client : (Client → Client) → Action E Unit
  modify_client f s = (ok tt, record s { client = f s.client })

  -- `free` of a pointer that is not NULL
  abbrev pub free : Action E Unit
  free s = (ok tt, record s { live = s.live - 1 })

  abbrev pub free_if : Bool → Action E Unit
  free_if b s = (ok tt, if b then record s { live = s.live - 1 } else s)

  abbrev pub held : Bool × E → Action E Bool
  held (b, w) s = (ok b, record s { world = w; live = if b then s.live + 1 else s.live })

  -- What a call of a callback ends with.
  abbrev pub called : Option Fault × St E → Outcome Unit × St E
  called (none, s) = (ok tt, s)
  called (some f, s) = (crash f, s)

  module _ ⦃sys : System E⦄ where
    -- `malloc` and `calloc`: whether the pointer is not NULL
    unfoldable pub malloc : ℕ → Action E Bool
    malloc n s = held (sys.malloc n s.world) s

    -- `if (client->callbacks.f) client->callbacks.f(client, …)`
    unfoldable pub notify_if : (Callbacks → Bool) → Event → Action E Unit
    notify_if f ev s = if f s.client.callbacks then called (sys.notify ev s) else (ok tt, s)

    -- A call of `client->callbacks.alloc_framebuffer(client, &client->framebuffer)`.
    abbrev pub returned : Option Error × St E → Outcome Unit × St E
    returned (none, s) = (ok tt, s)
    returned (some e, s) = (fail e, s)

    unfoldable pub call_alloc_framebuffer : Action E Unit
    call_alloc_framebuffer s = returned (sys.alloc_framebuffer s)
