-- ===== src/Server.antt =====
-- The server API: include/ovnc/ovnc_server.h and src/server/ovnc_server.c, which is stubs so far.
-- There is no server that a pointer could point to, so a server is any type.
use libopenvnc.Base.{ℕ, Bool, Option, none, some, List}
use libopenvnc.Error.{Error, invalid_arg}
use libopenvnc.Pixel.{PixelFormat}
use libopenvnc.State.{Rect, Framebuffer}

-- ovnc_server_callbacks_t: which callbacks the application has set.
pub record ServerCallbacks : Type 0 where
  pub client_connected : Bool
  pub client_disconnected : Bool
  pub key_event : Bool
  pub pointer_event : Bool
  pub cut_text : Bool
  pub verify_password : Bool

-- ovnc_server_config_t; `none` is NULL.
pub record ServerConfig : Type 0 where
  pub name : Option (List ℕ)
  pub port : ℕ
  pub width : ℕ
  pub height : ℕ
  pub pixel_format : PixelFormat
  pub security_types : Option (List ℕ)
  pub num_security_types : ℕ
  pub user_data : ℕ

-- What a function of the server returns: `none` is OVNC_OK.
abbrev pub Result : Type 0
Result = Option Error

module _ {Server : Type 0} where
  -- ovnc_server_create and ovnc_server_destroy
  unfoldable pub server_create : Option ServerConfig → Option ServerCallbacks → Option Server
  server_create config callbacks = none

  unfoldable pub server_destroy : Option Server → Unit {0}
  server_destroy server = tt

  -- ovnc_server_start, ovnc_server_stop and ovnc_server_run
  unfoldable pub server_start : Option Server → Result
  server_start server = some invalid_arg

  unfoldable pub server_stop : Option Server → Result
  server_stop server = some invalid_arg

  unfoldable pub server_run : Option Server → Result
  server_run server = some invalid_arg

  -- ovnc_server_get_framebuffer
  unfoldable pub server_get_framebuffer : Option Server → Option Framebuffer
  server_get_framebuffer server = none

  -- ovnc_server_mark_rect_modified and ovnc_server_resize
  unfoldable pub server_mark_rect_modified : Option Server → Option Rect → Result
  server_mark_rect_modified server rect = some invalid_arg

  unfoldable pub server_resize : Option Server → ℕ → ℕ → Result
  server_resize server width height = some invalid_arg

  -- ovnc_server_send_bell and ovnc_server_send_cut_text
  unfoldable pub server_send_bell : Option Server → Result
  server_send_bell server = some invalid_arg

  unfoldable pub server_send_cut_text : Option Server → Option (List ℕ) → ℕ → Result
  server_send_cut_text server text length = some invalid_arg

  -- ovnc_server_get_user_data and ovnc_server_set_user_data; 0 is NULL.
  unfoldable pub server_get_user_data : Option Server → ℕ
  server_get_user_data server = 0

  unfoldable pub server_set_user_data : Option Server → ℕ → Unit {0}
  server_set_user_data server ptr = tt
