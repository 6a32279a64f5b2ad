-- ===== src/Socket.antt =====
-- src/platform/ovnc_socket_posix.c: the platform counter, and whole reads and writes on a socket.
-- `size_t` counts: no subtraction below goes under 0, since more than was asked for is a fault.
pub mod Connect
pub mod Stream
pub mod Arrival
pub mod Descriptors
use libopenvnc.Base.{
  ℕ, zero, suc, ◌+◌, ◌-◌, Bool, true, false, List, [], ◌∷◌, ◌++◌, ltb, ◌==◌, if◌then◌else◌, length,
  drop,
}
use libopenvnc.Error.{io, connection_closed}
use libopenvnc.State.{Socket}
use libopenvnc.Run.{
  Outcome, ok, fail, crash, out_of_bounds, out_of_fuel, System, Io, done, interrupted, failed, St,
  Action,
}

-- What a read of a socket leaves: the bytes at the front of the buffer, the result, the world.
abbrev pub Read : Type 0 → Type 0
Read E = List ℕ × Outcome Unit × E

module _ {E : Type 0} where
  -- The bytes of one `recv`, then those of the rounds that follow.
  abbrev pub prepend : List ℕ → Read E → Read E
  prepend bs (more, r, w) = (bs ++ more, r, w)

  -- ovnc__platform_init
  unfoldable pub platform_init : Action E Unit
  platform_init s = (ok tt, record s { init_count = s.init_count + 1 })

  -- ovnc__platform_cleanup
  unfoldable pub platform_cleanup : Action E Unit
  platform_cleanup s =
      (ok tt, if ltb 0 s.init_count then record s { init_count = s.init_count - 1 } else s)

  module _ ⦃sys : System E⦄ where
    -- One round of ovnc__socket_recv_all, by what `recv` returned: EINTR goes round, any other error
    -- and a count of 0 end the loop. `next` is the rest of the loop.
    abbrev pub recv_round : (ℕ → E → Read E) → ℕ → Io (List ℕ) × E → Read E
    recv_round next remaining (interrupted, w) = next remaining w
    recv_round next remaining (failed, w) = ([], fail io, w)
    recv_round next remaining (done bs, w) =
        if length bs == 0
        then ([], fail connection_closed, w)
        else if ltb remaining (length bs)
        then ([], crash out_of_bounds, w)
        else prepend bs (next (remaining - length bs) w)

    unfoldable pub recv_loop : ℕ → Socket → ℕ → E → Read E
    recv_loop zero sock remaining w = ([], (if remaining == 0 then ok tt else crash out_of_fuel), w)
    recv_loop (suc fuel) sock remaining w =
        if remaining == 0
        then ([], ok tt, w)
        else recv_round (recv_loop fuel sock) remaining (sys.recv sock remaining w)

    -- ovnc__socket_recv_all. A round takes a byte or an interrupt, hence the fuel.
    unfoldable pub socket_recv_all : Socket → ℕ → E → Read E
    unfolding recv_loop
    socket_recv_all sock len w = recv_loop (suc (len + sys.interrupts w)) sock len w

    -- One round of ovnc__socket_send_all; `p` is what is left to send.
    abbrev pub send_round : (List ℕ → E → Outcome Unit × E) → List ℕ → Io ℕ × E → Outcome Unit × E
    send_round next p (interrupted, w) = next p w
    send_round next p (failed, w) = (fail io, w)
    send_round next p (done n, w) =
        if n == 0
        then (fail connection_closed, w)
        else if ltb (length p) n
        then (crash out_of_bounds, w)
        else next (drop n p) w

    unfoldable pub send_loop : ℕ → Socket → List ℕ → E → Outcome Unit × E
    send_loop zero sock p w = ((if length p == 0 then ok tt else crash out_of_fuel), w)
    send_loop (suc fuel) sock p w =
        if length p == 0 then (ok tt, w) else send_round (send_loop fuel sock) p (sys.send sock p w)

    -- ovnc__socket_send_all
    unfoldable pub socket_send_all : Socket → List ℕ → E → Outcome Unit × E
    unfolding send_loop
    socket_send_all sock p w = send_loop (suc (length p + sys.interrupts w)) sock p w
