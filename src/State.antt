-- ===== src/State.antt =====
-- The data of the library: include/ovnc/ovnc_common.h, the callback table of
-- include/ovnc/ovnc_client.h, `ovnc_transport` of src/transport/ovnc_transport.h and the client
-- of src/ovnc_internal.h.
use libopenvnc.Base.{ℕ, Bool, false, Option, none, List, ℤ, negsuc, replicate}
use libopenvnc.Error.{Error}
use libopenvnc.Pixel.{PixelFormat}

-- ovnc_rfb_version_t; a zeroed client has version 0.
abbrev pub version_33 : ℕ
version_33 = 33

abbrev pub version_37 : ℕ
version_37 = 37

abbrev pub version_38 : ℕ
version_38 = 38

-- ovnc_security_type_t
abbrev pub security_invalid : ℕ
security_invalid = 0

abbrev pub security_none : ℕ
security_none = 1

abbrev pub security_vnc_auth : ℕ
security_vnc_auth = 2

-- ovnc_rect_t
pub record Rect : Type 0 where
  pub x : ℕ
  pub y : ℕ
  pub width : ℕ
  pub height : ℕ

-- ovnc_framebuffer_t. `pixels` is the field `data`: `none` is NULL, and a block is the list of its
-- bytes, so its length is what was really allocated, whatever `data_size` says.
pub record Framebuffer : Type 0 where
  pub width : ℕ
  pub height : ℕ
  pub format : PixelFormat
  pub pixels : Option (List ℕ)
  pub data_size : ℕ

-- OVNC_SERVER_NAME_MAX
abbrev pub server_name_max : ℕ
server_name_max = 256

-- ovnc_connection_info_t; `name` holds the 256 bytes of the array.
pub record ConnectionInfo : Type 0 where
  pub name : List ℕ
  pub name_length : ℕ
  pub name_truncated : ℕ
  pub width : ℕ
  pub height : ℕ
  pub pixel_format : PixelFormat
  pub rfb_version : ℕ
  pub security_type : ℕ

-- ovnc_client_callbacks_t: which callbacks the application has set.
pub record Callbacks : Type 0 where
  pub alloc_framebuffer : Bool
  pub framebuffer_update : Bool
  pub framebuffer_update_finished : Bool
  pub cursor_update : Bool
  pub desktop_resize : Bool
  pub bell : Bool
  pub server_cut_text : Bool
  pub color_map_update : Bool
  pub disconnected : Bool
  pub get_password : Bool

-- One call of a callback that returns nothing, with its arguments. A pointer is `none` for NULL.
pub data Event : Type 0 where
  framebuffer_update : Rect → Event
  framebuffer_update_finished : Event
  cursor_update : ℕ → ℕ → ℕ → ℕ → Option (List ℕ) → Option (List ℕ) → Event
  desktop_resize : ℕ → ℕ → Event
  bell : Event
  server_cut_text : List ℕ → ℕ → Event
  color_map_update : ℕ → ℕ → List ℕ → List ℕ → List ℕ → Event
  disconnected : Error → Event

-- ovnc_socket_t and OVNC_INVALID_SOCKET
abbrev pub Socket : Type 0
Socket = ℤ

abbrev pub invalid_socket : Socket
invalid_socket = negsuc 0

-- struct ovnc_transport
pub record Transport : Type 0 where
  pub sock : Socket

-- ovnc_client_state_t
pub data ClientState : Type 0 where
  created connected disconnected : ClientState

-- struct ovnc_client
pub record Client : Type 0 where
  pub host : List ℕ
  pub port : ℕ
  pub shared : ℕ
  pub pixel_format : Option PixelFormat
  pub encodings : Option (List ℤ)
  pub num_encodings : ℕ
  pub connect_timeout_ms : ℕ
  pub user_data : ℕ
  pub callbacks : Callbacks
  pub state : ClientState
  pub transport : Option Transport
  pub conn_info : ConnectionInfo
  pub framebuffer : Framebuffer

-- What `calloc` leaves in a structure.
abbrev pub zero_format : PixelFormat
zero_format = record {
  bits_per_pixel = 0;
  depth = 0;
  big_endian = 0;
  true_color = 0;
  red_max = 0;
  green_max = 0;
  blue_max = 0;
  red_shift = 0;
  green_shift = 0;
  blue_shift = 0;
}

abbrev pub zero_conn_info : ConnectionInfo
zero_conn_info = record {
  name = replicate server_name_max 0;
  name_length = 0;
  name_truncated = 0;
  width = 0;
  height = 0;
  pixel_format = zero_format;
  rfb_version = 0;
  security_type = 0;
}

abbrev pub zero_framebuffer : Framebuffer
zero_framebuffer = record {
  width = 0;
  height = 0;
  format = zero_format;
  pixels = none;
  data_size = 0;
}

abbrev pub no_callbacks : Callbacks
no_callbacks = record {
  alloc_framebuffer = false;
  framebuffer_update = false;
  framebuffer_update_finished = false;
  cursor_update = false;
  desktop_resize = false;
  bell = false;
  server_cut_text = false;
  color_map_update = false;
  disconnected = false;
  get_password = false;
}
