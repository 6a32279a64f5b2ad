-- ===== src/Sample/DescriptorTests.antt =====
-- The theorem on the descriptors of ovnc__socket_connect, on a machine with room for one socket: 3.
use libopenvnc.Base.{
  zero, suc, ◌≡◌, ◌≢◌, refl, Bool, true, false, ◌&&◌, some, none, [], ◌∷◌, pos, negsuc, ◌==ℤ◌,
  is_negative, ==_iff, ap, ◌∙◌, sym, if◌then◌else◌, Bool-cases, inl, inr,
}
use libopenvnc.State.{Socket}
use libopenvnc.Run.{System, failed, Address, Connecting, connected, refused}
use libopenvnc.Socket.Connect.{socket_connect}
use libopenvnc.Socket.Descriptors.{IsPosix, Connected, socket_connect-Connected}

-- The first address refuses, the second is there.
abbrev answer : Address → Connecting
answer zero = refused
answer (suc _) = connected

abbrev take_socket : Bool → Socket × Bool
take_socket false = (pos 3, true)
take_socket true = (negsuc 0, true)

abbrev release_socket : Socket → Bool → Bool
release_socket sock w = if sock ==ℤ pos 3 then false else w

abbrev is_open : Bool → Socket → Bool
is_open w sock = w && (sock ==ℤ pos 3)

instance abbrev small_machine : System Bool
small_machine = record {
  recv = λ sock n w. (failed, w);
  send = λ sock p w. (failed, w);
  close = release_socket;
  getaddrinfo = λ host port w. (some (0 ∷ 1 ∷ []), w);
  freeaddrinfo = λ res w. w;
  socket = λ addr w. take_socket w;
  connect = λ sock addr w. (answer addr, w);
  get_flags = λ sock w. (pos 2, w);
  set_flags = λ sock flags w. w;
  o_nonblock = 2048;
  poll = λ sock ms w. (pos 1, w);
  so_error = λ sock w. (0, w);
  size_of = λ t. 8;
  malloc = λ n w. (true, w);
  interrupts = λ w. 0;
  notify = λ ev s. (none, s);
  alloc_framebuffer = λ s. (none, s);
}

is_three : (sock : Socket) → (sock ==ℤ pos 3) ≡ true → sock ≡ pos 3
is_three (pos n) e = ap pos ((==_iff n 3).0 e)
is_three (negsuc n) e = cc

other_socket : (fd : Socket) → fd ≢ pos 3 → (fd ==ℤ pos 3) ≡ false
other_socket fd other = elim (Bool-cases (fd ==ℤ pos 3)) [
  | inl three ↦ absurd (other (is_three fd three))
  | inr four ↦ four
]

closed : (w : Bool) → (w && false) ≡ false
closed true = refl
closed false = refl

still : (fd : Socket) (w : Bool) → (fd ==ℤ pos 3) ≡ false → false ≡ is_open w fd
still fd w e = rw (e, closed w) refl

take_fails :
    (w : Bool)
    → is_negative (take_socket w).0 ≡ true
    → (fd : Socket) → is_open (take_socket w).1 fd ≡ is_open w fd
take_fails true e fd = refl
take_fails false e fd = cc

take_opens :
    (w : Bool)
    → is_negative (take_socket w).0 ≡ false
    → (is_open w (take_socket w).0 ≡ false)
      × (is_open (take_socket w).1 (take_socket w).0 ≡ true)
      × ((fd : Socket) → fd ≢ (take_socket w).0 → is_open (take_socket w).1 fd ≡ is_open w fd)
take_opens true e = cc
take_opens false e = (refl, refl, other_socket)

release_closes : (sock : Socket) (w : Bool) → is_open (release_socket sock w) sock ≡ false
release_closes sock w = elim (Bool-cases (sock ==ℤ pos 3)) [
  | inl three ↦ rw three refl
  | inr other ↦ rw other (closed w)
]

release_only :
    (sock fd : Socket) (w : Bool) → fd ≢ sock → is_open (release_socket sock w) fd ≡ is_open w fd
release_only sock fd w other = elim (Bool-cases (sock ==ℤ pos 3)) [
  | inl three ↦ rw three (still fd w (other_socket fd (λ e. other (e ∙ sym (is_three sock three)))))
  | inr four ↦ rw four refl
]

machine-IsPosix : IsPosix is_open
machine-IsPosix = record {
  fails = λ addr w e fd. take_fails w e fd;
  opens = λ addr w e. take_opens w e;
  closes = release_closes;
  closes_only = release_only;
  getaddrinfo = λ host port w fd. refl;
  freeaddrinfo = λ res w fd. refl;
  connect = λ sock addr w fd. refl;
  get_flags = λ sock w fd. refl;
  set_flags = λ sock flags w fd. refl;
  poll = λ sock ms w fd. refl;
  so_error = λ sock w fd. refl;
}

socket_connect-Connected_example : Connected is_open false (socket_connect [] 5900 100 false)
socket_connect-Connected_example =
    socket_connect-Connected is_open machine-IsPosix [] 5900 100 false
