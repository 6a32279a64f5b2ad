-- ===== src/Socket/Connect.antt =====
-- ovnc__socket_connect and ovnc__socket_close of src/platform/ovnc_socket_posix.c.
use libopenvnc.Base.{
  ℕ, zero, suc, Option, none, some, List, [], ◌∷◌, ◌==◌, ltb, if◌then◌else◌, ℤ, pos, negsuc, ◌==ℤ◌,
  is_negative, bit_or,
}
use libopenvnc.Error.{Error, io, timeout, connection_refused}
use libopenvnc.State.{Socket, invalid_socket}
use libopenvnc.Wire.{s32_of_u32}
use libopenvnc.Run.{Outcome, ok, fail, System, Address, Connecting, connected, in_progress, refused}

-- What one round of the loop over the addresses comes to: a connected socket, or `continue` with
-- the value of `err`.
pub data Attempt : Type 0 where
  made : Socket → Attempt
  next : Error → Attempt

module _ {E : Type 0} ⦃sys : System E⦄ where
  -- `if (flags >= 0) fcntl(sock, F_SETFL, …)`, with the flags changed by `f`
  abbrev pub change_flags : Socket → ℤ → (ℕ → ℕ) → E → E
  change_flags sock (pos flags) f w = sys.set_flags sock (f flags) w
  change_flags sock (negsuc _) f w = w

  -- `close(sock); err = …; continue;`
  abbrev pub give_up : Socket → Error → E → Attempt × E
  give_up sock err w = (next err, sys.close sock w)

  abbrev pub check_so_error : Socket → ℤ → ℕ × E → Attempt × E
  check_so_error sock flags (so_error, w) =
      if so_error == 0
      then (made sock, change_flags sock flags (λ f. f) w)
      else give_up sock connection_refused w

  -- After EINPROGRESS, with what `poll` returned.
  abbrev pub await : Socket → ℤ → ℤ × E → Attempt × E
  await sock flags (pos zero, w) = give_up sock timeout w
  await sock flags (pos (suc _), w) = check_so_error sock flags (sys.so_error sock w)
  await sock flags (negsuc _, w) = give_up sock io w

  abbrev pub connect_timed : Socket → ℤ → ℕ → Error → Connecting × E → Attempt × E
  connect_timed sock flags timeout_ms err (connected, w) =
      (made sock, change_flags sock flags (λ f. f) w)
  connect_timed sock flags timeout_ms err (in_progress, w) =
      await sock flags (sys.poll sock (s32_of_u32 timeout_ms) w)
  connect_timed sock flags timeout_ms err (refused, w) = give_up sock err w

  abbrev pub connect_blocking : Socket → Error → Connecting × E → Attempt × E
  connect_blocking sock err (connected, w) = (made sock, w)
  connect_blocking sock err (_, w) = give_up sock err w

  -- The body of the loop, once `socket` has returned `sock`.
  unfoldable pub attempt : Address → ℕ → Error → Socket → E → Attempt × E
  attempt addr timeout_ms err sock w =
      if ltb 0 timeout_ms
      then (let (flags, w1) = sys.get_flags sock w in
          let w2 = change_flags sock flags (λ f. bit_or f sys.o_nonblock) w1 in
          connect_timed sock flags timeout_ms err (sys.connect sock addr w2))
      else connect_blocking sock err (sys.connect sock addr w)

  unfoldable pub try_address : Address → ℕ → Error → E → Attempt × E
  unfolding attempt
  try_address addr timeout_ms err w =
      let (sock, w1) = sys.socket addr w in
      if is_negative sock then (next err, w1) else attempt addr timeout_ms err sock w1

  -- The loop, from the value of `err` so far: the socket that goes to `*out`, and the result.
  unfoldable pub connect_loop : List Address → ℕ → Error → E → Socket × Outcome Unit × E
  connect_loop [] timeout_ms err w = (invalid_socket, fail err, w)
  connect_loop (addr ∷ rest) timeout_ms err w =
      let (r, w') = try_address addr timeout_ms err w in
      elim r [ made sock ↦ (sock, ok tt, w') | next err' ↦ connect_loop rest timeout_ms err' w' ]

  abbrev pub release : List Address → Socket × Outcome Unit × E → Socket × Outcome Unit × E
  release res (sock, r, w) = (sock, r, sys.freeaddrinfo res w)

  abbrev pub resolved : ℕ → Option (List Address) × E → Socket × Outcome Unit × E
  resolved timeout_ms (none, w) = (invalid_socket, fail connection_refused, w)
  resolved timeout_ms (some res, w) = release res (connect_loop res timeout_ms connection_refused w)

  -- ovnc__socket_connect: `*out`, the result and the world.
  unfoldable pub socket_connect : List ℕ → ℕ → ℕ → E → Socket × Outcome Unit × E
  unfolding connect_loop
  socket_connect host port timeout_ms w = resolved timeout_ms (sys.getaddrinfo host port w)

  -- ovnc__socket_close
  unfoldable pub socket_close : Socket → E → E
  socket_close sock w = if sock ==ℤ invalid_socket then w else sys.close sock w
