-- ===== src/Winsock/Balance.antt =====
-- The calls of WSAStartup and WSACleanup that src/platform/ovnc_socket_win32.c makes.
use libopenvnc.Base.{
  ℕ, zero, suc, ◌+◌, ◌-◌, ◌≡◌, false, List, ltb, ◌==◌, ◌==ℤ◌, arith, if◌then◌else◌, Bool-cases, inl,
  inr, suc-==-zero, ==_iff, lt→ltb,
}
use libopenvnc.State.{Socket, invalid_socket}
use libopenvnc.Winsock.{
  Winsock, Platform, version_22, started, platform_init, platform_cleanup, socket_connect,
  socket_close, socket_send_all, socket_recv_all,
}

-- The calls that the library makes of the platform, one after the other.
pub data Call : Type 0 where
  init cleanup : Call
  connect : List ℕ → ℕ → ℕ → Call
  close : Socket → Call
  send : Socket → List ℕ → Call
  recv : Socket → ℕ → Call

-- `opened` counts the calls of WSAStartup that succeeded, and `closed` all calls of WSACleanup.
pub record IsCounted {W : Type 0} ⦃winsock : Winsock W⦄ (opened closed : W → ℕ) : Type 0 where
  pub starts :
      (v : ℕ) (w : W)
      → (winsock.wsa_startup v w).0 ≡ 0
      → opened (winsock.wsa_startup v w).1 ≡ opened w + 1
  pub refuses :
      (v : ℕ) (w : W)
      → ((winsock.wsa_startup v w).0 == 0) ≡ false
      → opened (winsock.wsa_startup v w).1 ≡ opened w
  pub starting : (v : ℕ) (w : W) → closed (winsock.wsa_startup v w).1 ≡ closed w
  pub cleans : (w : W) → closed (winsock.wsa_cleanup w) ≡ closed w + 1
  pub cleaning : (w : W) → opened (winsock.wsa_cleanup w) ≡ opened w
  pub closes :
      (sock : Socket) (w : W)
      → (opened (winsock.closesocket sock w) ≡ opened w)
        × (closed (winsock.closesocket sock w) ≡ closed w)

module _ {W : Type 0} ⦃winsock : Winsock W⦄ where
  abbrev pub call : Call → Platform W → Platform W
  call init p = (platform_init p).1
  call cleanup p = platform_cleanup p
  call (connect host port timeout_ms) p = (socket_connect host port timeout_ms p).2
  call (close sock) p = socket_close sock p
  call (send sock bytes) p = (socket_send_all sock bytes p).1
  call (recv sock len) p = (socket_recv_all sock len p).1

  -- What a sequence of calls leads to.
  pub data Reaches (p : Platform W) : Platform W → Type 0 where
    nothing : Reaches p p
    later : {q : Platform W} (c : Call) → Reaches p q → Reaches p (call c q)

module _ {W : Type 0} ⦃winsock : Winsock W⦄ (opened closed : W → ℕ)
    (counted : IsCounted opened closed) where
  -- There was one start more than clean-ups where the counter is not 0, and otherwise as many.
  abbrev pub IsBalanced : Platform W → Type 0
  IsBalanced p = opened p.world ≡ closed p.world + (if ltb 0 p.init_count then 1 else 0)

  started-IsBalanced :
      (w : W) (r : ℕ × W)
      → opened w ≡ closed w + 0
      → (r.0 ≡ 0 → opened r.1 ≡ opened w + 1)
      → ((r.0 == 0) ≡ false → opened r.1 ≡ opened w)
      → closed r.1 ≡ closed w
      → IsBalanced (started 0 r).1
  started-IsBalanced w (code, v) h ok bad same = elim (Bool-cases (code == 0)) [
    | inl fine ↦ rw fine (omega (arith, ok ((==_iff code 0).0 fine), h, same))
    | inr other ↦ rw other (omega (arith, bad other, h, same))
  ]

  platform_init-IsBalanced :
      (n : ℕ) (w : W)
      → IsBalanced (record { init_count = n; world = w })
      → IsBalanced (platform_init (record { init_count = n; world = w })).1
  unfolding platform_init
  platform_init-IsBalanced zero w h =
      started-IsBalanced w (winsock.wsa_startup version_22 w) h (counted.starts version_22 w)
        (counted.refuses version_22 w) (counted.starting version_22 w)
  platform_init-IsBalanced (suc n) w h =
      rw (suc-==-zero n, lt→ltb 0 (suc n + 1) (omega arith))
        (rw (lt→ltb 0 (suc n) (omega arith)) at h)

  platform_cleanup-IsBalanced :
      (n : ℕ) (w : W)
      → IsBalanced (record { init_count = n; world = w })
      → IsBalanced (platform_cleanup (record { init_count = n; world = w }))
  unfolding platform_cleanup
  platform_cleanup-IsBalanced zero w h = h
  platform_cleanup-IsBalanced (suc zero) w h =
      let one : opened w ≡ closed w + 1 = h in
      omega (arith, counted.cleans w, counted.cleaning w, one)
  platform_cleanup-IsBalanced (suc (suc n)) w h =
      let e : suc (suc n) - 1 ≡ suc n = omega arith in
      let over = lt→ltb 0 (suc (suc n)) (omega arith) in
      rw (over, e, suc-==-zero n, lt→ltb 0 (suc n) (omega arith)) (rw over at h)

  socket_close-IsBalanced :
      (sock : Socket) (p : Platform W) → IsBalanced p → IsBalanced (socket_close sock p)
  unfolding socket_close
  socket_close-IsBalanced sock p h = elim (Bool-cases (sock ==ℤ invalid_socket)) [
    | inl none_there ↦ rw none_there h
    | inr open_one ↦
        rw (open_one, (counted.closes sock p.world).0, (counted.closes sock p.world).1) h
  ]

  call-IsBalanced : (c : Call) (p : Platform W) → IsBalanced p → IsBalanced (call c p)
  unfolding socket_connect socket_send_all socket_recv_all
  call-IsBalanced init p h = platform_init-IsBalanced p.init_count p.world h
  call-IsBalanced cleanup p h = platform_cleanup-IsBalanced p.init_count p.world h
  call-IsBalanced (connect host port timeout_ms) p h = h
  call-IsBalanced (close sock) p h = socket_close-IsBalanced sock p h
  call-IsBalanced (send sock bytes) p h = h
  call-IsBalanced (recv sock len) p h = h

  -- However the library calls src/platform/ovnc_socket_win32.c, in whatever order, where `opened` counts
  -- the calls of WSAStartup that succeeded and `closed` counts all calls of WSACleanup (`IsCounted`): from
  -- a state in which it is so, there was exactly one such start more than there were clean-ups wherever
  -- platform_init_count is not 0, and exactly as many where it is 0. So no call of the library cleans up
  -- without a start that is still open.
  pub Reaches-IsBalanced : (p q : Platform W) → Reaches p q → IsBalanced p → IsBalanced q
  Reaches-IsBalanced p q nothing h = h
  Reaches-IsBalanced p q (later {q = r} c reached) h =
      call-IsBalanced c r (Reaches-IsBalanced p r reached h)
