-- ===== src/Handshake/Init.antt =====
-- do_initialization of src/protocol/ovnc_handshake.c.
use libopenvnc.Base.{
  Bool, ℕ, zero, suc, ◌-◌, none, some, List, [], ◌∷◌, ltb, ◌==◌, if◌then◌else◌, drop, splice,
  is_negative, size_of_int, mul_size,
}
use libopenvnc.Error.{nomem, protocol}
use libopenvnc.Wire.{read_u16, read_u32}
use libopenvnc.Pixel.{PixelFormat, bytes_per_pixel, from_wire}
use libopenvnc.State.{Client, Framebuffer, server_name_max}
use libopenvnc.Run.{
  out_of_fuel, Action, System, pure, raise, abort, gets, ◌>>=◌, ◌>>◌, modify_client, malloc,
  call_alloc_framebuffer,
}
use libopenvnc.Transport.{transport_send, transport_recv, transport_recv_to}
use libopenvnc.Encoding.{zeroed, set_framebuffer}
use libopenvnc.Handshake.Info.{set_conn_info}

abbrev pub store_name : List ℕ → Client → Client
store_name bs = set_conn_info (λ i. record i { name = splice i.name 0 bs })

-- `name[at] = '\\0'; name_truncated = flag;`
abbrev pub end_name : ℕ → ℕ → Client → Client
end_name at flag =
    set_conn_info (λ i. record i { name = splice i.name at (0 ∷ []); name_truncated = flag })

abbrev pub start_framebuffer : PixelFormat → ℕ → ℕ → Framebuffer → Framebuffer
start_framebuffer fmt width height fb = record fb { width = width; height = height; format = fmt }

-- The format that the framebuffer gets: the configured one, or the server's.
abbrev pub active_format : Client → PixelFormat
active_format c = elim c.pixel_format [ none ↦ c.conn_info.pixel_format | some f ↦ f ]

module _ {E : Type 0} ⦃sys : System E⦄ where
  -- The loop of do_initialization that drops the rest of a long name.
  unfoldable pub skip_loop : ℕ → ℕ → Action E Unit
  skip_loop zero skip = if skip == 0 then pure tt else abort out_of_fuel
  skip_loop (suc fuel) skip = if skip == 0 then pure tt else do
    let chunk = if ltb 256 skip then 256 else skip
    transport_recv chunk
    skip_loop fuel (skip - chunk)

  -- The part of do_initialization that reads the server's name. A round of the loop drops a byte,
  -- so `skip` rounds are enough.
  unfoldable pub read_name : ℕ → Action E Unit
  unfolding skip_loop
  read_name name_len =
      if ltb 0 name_len
      then (if ltb (server_name_max - 1) name_len
          then (do
            transport_recv_to store_name (server_name_max - 1)
            modify_client (end_name (server_name_max - 1) 1)
            let skip = name_len - (server_name_max - 1)
            skip_loop skip skip)
          else (do transport_recv_to store_name name_len; modify_client (end_name name_len 0)))
      else modify_client (end_name 0 0)

  -- The last part, with the size of the framebuffer in bytes.
  unfoldable pub allocate : Bool → ℕ → Action E Unit
  allocate has_callback size = do
    modify_client (set_framebuffer (λ fb. record fb { data_size = size }))
    if has_callback then call_alloc_framebuffer else do
      found ← malloc size
      modify_client (
          set_framebuffer (λ fb. record fb { pixels = if found then some (zeroed size) else none }))
      if found then pure tt else raise nomem

  -- The part that sets up the framebuffer.
  unfoldable pub init_framebuffer : Action E Unit
  unfolding allocate
  init_framebuffer = do
    c ← gets (λ s. s.client)
    let fmt = active_format c
    modify_client (set_framebuffer (start_framebuffer fmt c.conn_info.width c.conn_info.height))
    let bpp = bytes_per_pixel fmt
    if is_negative bpp
        then raise protocol
        else allocate c.callbacks.alloc_framebuffer
            (mul_size (mul_size c.conn_info.width c.conn_info.height) (size_of_int bpp))

  -- do_initialization
  unfoldable pub do_initialization : Action E Unit
  unfolding read_name init_framebuffer
  do_initialization = do
    shared ← gets (λ s. s.client.shared)
    transport_send (shared ∷ [])
    header ← transport_recv 24
    let name_len = read_u32 (drop 20 header)
    modify_client (
        set_conn_info (λ i. record i {
          width = read_u16 header;
          height = read_u16 (drop 2 header);
          pixel_format = from_wire (drop 4 header);
          name_length = name_len;
        }))
    read_name name_len
    init_framebuffer
