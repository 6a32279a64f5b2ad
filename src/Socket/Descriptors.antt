-- ===== src/Socket/Descriptors.antt =====
-- The descriptors that ovnc__socket_connect of src/platform/ovnc_socket_posix.c opens and closes.
use native.Mathlib.Nat.{suc_inj}
use libopenvnc.Base.{
  ℕ, zero, suc, ◌≡◌, ◌≢◌, ◌⊎◌, inl, inr, refl, ap, ◌∙◌, sym, Bool, true, false, Option, none, some,
  List, [], ◌∷◌, ◌==◌, ltb, if◌then◌else◌, ℤ, pos, negsuc, pos_part, neg_part, is_negative,
  Bool-cases, bit_or, ==_iff,
}
use libopenvnc.Error.{Error, io, timeout, connection_refused}
use libopenvnc.State.{Socket, invalid_socket}
use libopenvnc.Wire.{s32_of_u32}
use libopenvnc.Run.{
  Outcome, ok, fail, crash, System, Address, Connecting, connected, in_progress, refused,
}
use libopenvnc.Socket.Connect.{
  Attempt, made, next, change_flags, give_up, check_so_error, await, connect_timed,
  connect_blocking, attempt, try_address, connect_loop, release, resolved, socket_connect,
}

ℤ-cases : (a b : ℤ) → (a ≡ b) ⊎ (a ≢ b)
ℤ-cases (pos a) (pos b) = elim (Bool-cases (a == b)) [
  | inl same ↦ inl (ap pos ((==_iff a b).0 same))
  | inr other ↦ inr (λ e. cc (other, (==_iff a b).1 (ap pos_part e)))
]
ℤ-cases (negsuc a) (negsuc b) = elim (Bool-cases (a == b)) [
  | inl same ↦ inl (ap negsuc ((==_iff a b).0 same))
  | inr other ↦ inr (λ e. cc (other, (==_iff a b).1 (suc_inj (ap neg_part e))))
]
ℤ-cases (pos a) (negsuc b) = inr (λ e. cc)
ℤ-cases (negsuc a) (pos b) = inr (λ e. cc)

module _ {E : Type 0} (is_open : E → Socket → Bool) where
  -- The same descriptors are open.
  abbrev pub Same : E → E → Type 0
  Same w w' = (fd : Socket) → is_open w' fd ≡ is_open w fd

  -- `sock` is open besides.
  abbrev pub Opens : Socket → E → E → Type 0
  Opens sock w w' =
      (is_open w sock ≡ false)
      × (is_open w' sock ≡ true)
      × ((fd : Socket) → fd ≢ sock → is_open w' fd ≡ is_open w fd)

  -- What POSIX says of the calls that ovnc__socket_connect makes: `socket` opens a descriptor that was
  -- not open, or fails; `close` closes its own; the others neither open nor close one.
  pub record IsPosix ⦃sys : System E⦄ : Type 0 where
    pub fails :
        (addr : Address) (w : E)
        → is_negative (sys.socket addr w).0 ≡ true
        → Same w (sys.socket addr w).1
    pub opens :
        (addr : Address) (w : E)
        → is_negative (sys.socket addr w).0 ≡ false
        → Opens (sys.socket addr w).0 w (sys.socket addr w).1
    pub closes : (sock : Socket) (w : E) → is_open (sys.close sock w) sock ≡ false
    pub closes_only :
        (sock fd : Socket) (w : E) → fd ≢ sock → is_open (sys.close sock w) fd ≡ is_open w fd
    pub getaddrinfo : (host : List ℕ) (port : ℕ) (w : E) → Same w (sys.getaddrinfo host port w).1
    pub freeaddrinfo : (res : List Address) (w : E) → Same w (sys.freeaddrinfo res w)
    pub connect : (sock : Socket) (addr : Address) (w : E) → Same w (sys.connect sock addr w).1
    pub get_flags : (sock : Socket) (w : E) → Same w (sys.get_flags sock w).1
    pub set_flags : (sock : Socket) (flags : ℕ) (w : E) → Same w (sys.set_flags sock flags w)
    pub poll : (sock : Socket) (ms : ℤ) (w : E) → Same w (sys.poll sock ms w).1
    pub so_error : (sock : Socket) (w : E) → Same w (sys.so_error sock w).1

  Opens-Same : (sock : Socket) (w u v : E) → Opens sock w u → Same u v → Opens sock w v
  Opens-Same sock w u v h k = (h.0, k sock ∙ h.1, λ fd other. k fd ∙ h.2 fd other)

  -- What one address comes to, and the whole.
  abbrev Tried : E → Attempt × E → Type 0
  Tried w (made sock, w') = Opens sock w w'
  Tried w (next err, w') = Same w w'

  abbrev pub Connected : E → Socket × Outcome Unit × E → Type 0
  Connected w (sock, ok _, w') = Opens sock w w'
  Connected w (sock, fail _, w') = (sock ≡ invalid_socket) × Same w w'
  Connected w (sock, crash _, w') = ⊥

module _ {E : Type 0} ⦃sys : System E⦄ (is_open : E → Socket → Bool) (posix : IsPosix is_open) where
  module _ (sock : Socket) (w : E) where
    give_up-Tried :
        (err : Error) (u : E) → Opens is_open sock w u → Tried is_open w (give_up sock err u)
    give_up-Tried err u h fd = elim (ℤ-cases fd sock) [
      | inl same ↦ rw same (posix.closes sock u ∙ sym h.0)
      | inr other ↦ posix.closes_only sock fd u other ∙ h.2 fd other
    ]

    flags-Opens :
        (flags : ℤ) (f : ℕ → ℕ) (u : E)
        → Opens is_open sock w u
        → Opens is_open sock w (change_flags sock flags f u)
    flags-Opens (pos flags) f u h =
        Opens-Same is_open sock w u _ h (posix.set_flags sock (f flags) u)
    flags-Opens (negsuc _) f u h = h

    check_so_error-Tried :
        (flags : ℤ) (r : ℕ × E)
        → Opens is_open sock w r.1
        → Tried is_open w (check_so_error sock flags r)
    check_so_error-Tried flags (code, u) h = elim (Bool-cases (code == 0)) [
      | inl fine ↦ rw fine (flags-Opens flags (λ f. f) u h)
      | inr other ↦ rw other (give_up-Tried connection_refused u h)
    ]

    await-Tried :
        (flags : ℤ) (r : ℤ × E) → Opens is_open sock w r.1 → Tried is_open w (await sock flags r)
    await-Tried flags (pos zero, u) h = give_up-Tried timeout u h
    await-Tried flags (pos (suc _), u) h =
        check_so_error-Tried flags (sys.so_error sock u)
          (Opens-Same is_open sock w u _ h (posix.so_error sock u))
    await-Tried flags (negsuc _, u) h = give_up-Tried io u h

    timed-Tried :
        (flags : ℤ) (ms : ℕ) (err : Error) (r : Connecting × E)
        → Opens is_open sock w r.1
        → Tried is_open w (connect_timed sock flags ms err r)
    timed-Tried flags ms err (connected, u) h = flags-Opens flags (λ f. f) u h
    timed-Tried flags ms err (in_progress, u) h =
        await-Tried flags (sys.poll sock (s32_of_u32 ms) u)
          (Opens-Same is_open sock w u _ h (posix.poll sock (s32_of_u32 ms) u))
    timed-Tried flags ms err (refused, u) h = give_up-Tried err u h

    blocking-Tried :
        (err : Error) (r : Connecting × E)
        → Opens is_open sock w r.1
        → Tried is_open w (connect_blocking sock err r)
    blocking-Tried err (connected, u) h = h
    blocking-Tried err (in_progress, u) h = give_up-Tried err u h
    blocking-Tried err (refused, u) h = give_up-Tried err u h

    if-Tried :
        (b : Bool) (x y : Attempt × E)
        → Tried is_open w x
        → Tried is_open w y
        → Tried is_open w (if b then x else y)
    if-Tried true x y h k = h
    if-Tried false x y h k = k

    attempt-Tried :
        (addr : Address) (ms : ℕ) (err : Error) (u : E)
        → Opens is_open sock w u
        → Tried is_open w (attempt addr ms err sock u)
    unfolding attempt
    attempt-Tried addr ms err u h =
        let flags = (sys.get_flags sock u).0 in
        let u1 = (sys.get_flags sock u).1 in
        let u2 = change_flags sock flags (λ f. bit_or f sys.o_nonblock) u1 in
        let h2 : Opens is_open sock w u2 =
          flags-Opens flags (λ f. bit_or f sys.o_nonblock) u1
            (Opens-Same is_open sock w u u1 h (posix.get_flags sock u)) in
        if-Tried (ltb 0 ms) _ _
          (timed-Tried flags ms err (sys.connect sock addr u2)
            (Opens-Same is_open sock w u2 _ h2 (posix.connect sock addr u2)))
          (blocking-Tried err (sys.connect sock addr u)
            (Opens-Same is_open sock w u _ h (posix.connect sock addr u)))

  try_address-Tried :
      (addr : Address) (ms : ℕ) (err : Error) (w : E) → Tried is_open w (try_address addr ms err w)
  unfolding try_address
  try_address-Tried addr ms err w = elim (Bool-cases (is_negative (sys.socket addr w).0)) [
    | inl bad ↦ rw bad (posix.fails addr w bad)
    | inr good ↦ rw good (
        attempt-Tried (sys.socket addr w).0 w addr ms err (sys.socket addr w).1
          (posix.opens addr w good))
  ]

  -- From a world with the same descriptors.
  Connected-Same :
      (w u : E) (r : Socket × Outcome Unit × E)
      → Same is_open w u
      → Connected is_open u r
      → Connected is_open w r
  Connected-Same w u (sock, ok _, v) k h =
      (sym (k sock) ∙ h.0, h.1, λ fd other. h.2 fd other ∙ k fd)
  Connected-Same w u (sock, fail _, v) k h = (h.0, λ fd. h.1 fd ∙ k fd)
  Connected-Same w u (sock, crash _, v) k h = h

  step-Connected :
      (rest : List Address) (ms : ℕ) (w : E) (r : Attempt × E)
      → Tried is_open w r
      → ((err : Error) (u : E) → Connected is_open u (connect_loop rest ms err u))
      → Connected is_open w (elim r.0 as (λ _. Socket × Outcome Unit × E) [
        | made sock ↦ (sock, ok tt, r.1)
        | next err ↦ connect_loop rest ms err r.1
      ])
  step-Connected rest ms w (made sock, u) h ih = h
  step-Connected rest ms w (next err, u) h ih =
      Connected-Same w u (connect_loop rest ms err u) h (ih err u)

  connect_loop-Connected :
      (res : List Address) (ms : ℕ) (err : Error) (w : E)
      → Connected is_open w (connect_loop res ms err w)
  unfolding connect_loop
  connect_loop-Connected [] ms err w = (refl, λ fd. refl)
  connect_loop-Connected (addr ∷ rest) ms err w =
      step-Connected rest ms w (try_address addr ms err w) (try_address-Tried addr ms err w)
        (λ e u. connect_loop-Connected rest ms e u)

  release-Connected :
      (w : E) (res : List Address) (r : Socket × Outcome Unit × E)
      → Connected is_open w r
      → Connected is_open w (release res r)
  release-Connected w res (sock, ok _, u) h =
      Opens-Same is_open sock w u _ h (posix.freeaddrinfo res u)
  release-Connected w res (sock, fail _, u) h = (h.0, λ fd. posix.freeaddrinfo res u fd ∙ h.1 fd)
  release-Connected w res (sock, crash _, u) h = h

  resolved-Connected :
      (ms : ℕ) (w : E) (r : Option (List Address) × E)
      → Same is_open w r.1
      → Connected is_open w (resolved ms r)
  resolved-Connected ms w (none, u) h = (refl, h)
  resolved-Connected ms w (some res, u) h =
      Connected-Same w u (release res (connect_loop res ms connection_refused u)) h (
        release-Connected u res (connect_loop res ms connection_refused u)
          (connect_loop-Connected res ms connection_refused u))

  -- ovnc__socket_connect, on a system whose calls open and close descriptors as POSIX says (`IsPosix`),
  -- always ends, without a fault. On OVNC_OK the socket that it hands out is open and was not open
  -- before; on an error code it hands out OVNC_INVALID_SOCKET; and every other descriptor is open after it
  -- just where it was before. So no socket of an address that did not answer is left open, whatever
  -- the number of addresses, and with or without a timeout.
  pub socket_connect-Connected :
      (host : List ℕ) (port timeout_ms : ℕ) (w : E)
      → Connected is_open w (socket_connect host port timeout_ms w)
  unfolding socket_connect
  socket_connect-Connected host port timeout_ms w =
      resolved-Connected timeout_ms w (sys.getaddrinfo host port w) (posix.getaddrinfo host port w)
