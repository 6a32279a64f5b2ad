-- ===== src/Winsock.antt =====
-- src/platform/ovnc_socket_win32.c: the counter that starts and stops Winsock, and the stubs of the
-- socket functions.
pub mod Balance
use libopenvnc.Base.{ℕ, ◌+◌, ◌-◌, Option, none, some, List, ltb, ◌==◌, ◌==ℤ◌, if◌then◌else◌}
use libopenvnc.Error.{Error, io, not_implemented}
use libopenvnc.State.{Socket, invalid_socket}

-- Winsock, acting on a world of type W: WSAStartup of a version, with what it returns; WSACleanup;
-- closesocket.
pub record Winsock (W : Type 0) : Type 0 where
  pub wsa_startup : ℕ → W → ℕ × W
  pub wsa_cleanup : W → W
  pub closesocket : Socket → W → W

-- `platform_init_count`, and the world.
pub record Platform (W : Type 0) : Type 0 where
  pub init_count : ℕ
  pub world : W

-- MAKEWORD(2, 2)
abbrev pub version_22 : ℕ
version_22 = 514

module _ {W : Type 0} ⦃winsock : Winsock W⦄ where
  -- The rest of ovnc__platform_init, by what WSAStartup returned.
  abbrev pub started : ℕ → ℕ × W → Option Error × Platform W
  started n (code, w) =
      if code == 0
      then (none, record { init_count = n + 1; world = w })
      else (some io, record { init_count = n; world = w })

  -- ovnc__platform_init; `none` is OVNC_OK.
  unfoldable pub platform_init : Platform W → Option Error × Platform W
  platform_init p =
      if p.init_count == 0
      then started p.init_count (winsock.wsa_startup version_22 p.world)
      else (none, record p { init_count = p.init_count + 1 })

  -- ovnc__platform_cleanup
  unfoldable pub platform_cleanup : Platform W → Platform W
  platform_cleanup p =
      if ltb 0 p.init_count
      then (let n = p.init_count - 1 in
          record {
            init_count = n;
            world = if n == 0 then winsock.wsa_cleanup p.world else p.world;
          })
      else p

  -- ovnc__socket_connect: the socket that `out` gets, and the result
  unfoldable pub socket_connect : List ℕ → ℕ → ℕ → Platform W → Socket × Option Error × Platform W
  socket_connect host port timeout_ms p = (invalid_socket, some not_implemented, p)

  -- ovnc__socket_close
  unfoldable pub socket_close : Socket → Platform W → Platform W
  socket_close sock p =
      if sock ==ℤ invalid_socket then p else record p { world = winsock.closesocket sock p.world }

  -- ovnc__socket_send_all and ovnc__socket_recv_all, which leaves the buffer alone
  unfoldable pub socket_send_all : Socket → List ℕ → Platform W → Option Error × Platform W
  socket_send_all sock bytes p = (some not_implemented, p)

  unfoldable pub socket_recv_all : Socket → ℕ → Platform W → Option Error × Platform W
  socket_recv_all sock len p = (some not_implemented, p)
