-- ===== src/Socket/Stream.antt =====
-- On a byte stream the loops of src/platform/ovnc_socket_posix.c read and write whole blocks.
use libopenvnc.Base.{
  ℕ, zero, suc, ◌+◌, ◌-◌, ◌≤◌, ◌<◌, ◌≡◌, refl, List, [], ◌∷◌, ◌++◌, append_assoc, append-nil, arith,
  length, take, drop, length-append, length-drop, sym, ◌∙◌, ◌≢◌, le→ltb_false, suc-==-zero,
  take-append-drop, take-add,
}
use libopenvnc.State.{Socket}
use libopenvnc.Run.{Outcome, ok, fail, crash, System, Io, done, interrupted, failed}
use libopenvnc.Socket.{
  Read, prepend, recv_round, recv_loop, socket_recv_all, send_round, send_loop, socket_send_all,
}

module _ {E : Type 0} ⦃sys : System E⦄ where
  -- What `recv` of at most `n` bytes may do to the bytes that are still to come from the peer.
  abbrev pub Receives : (E → List ℕ) → ℕ → E → Io (List ℕ) × E → Type 0
  Receives input n w (done bs, w') =
      (length bs ≤ n) × (input w ≡ bs ++ input w') × (sys.interrupts w' ≤ sys.interrupts w)
  Receives input n w (interrupted, w') =
      (input w' ≡ input w) × (sys.interrupts w' < sys.interrupts w)
  Receives input n w (failed, w') = input w' ≡ input w

  -- The same for `send` and the bytes that went to the peer.
  abbrev pub Sends : (E → List ℕ) → List ℕ → E → Io ℕ × E → Type 0
  Sends output p w (done n, w') =
      (n ≤ length p) × (output w' ≡ output w ++ take n p) × (sys.interrupts w' ≤ sys.interrupts w)
  Sends output p w (interrupted, w') =
      (output w' ≡ output w) × (sys.interrupts w' < sys.interrupts w)
  Sends output p w (failed, w') = output w' ≡ output w

  -- A connected stream socket, as POSIX documents `recv` and `send`: no more bytes than were asked
  -- for, in order, none lost, and only so many interrupts in a row.
  pub record IsStream (input output : E → List ℕ) : Type 0 where
    pub receives : (sock : Socket) (n : ℕ) (w : E) → Receives input n w (sys.recv sock n w)
    pub sends : (sock : Socket) (p : List ℕ) (w : E) → Sends output p w (sys.send sock p w)

module _ {E : Type 0} (input : E → List ℕ) where
  -- A read of `n` bytes: all of them, or an error after some of them. Either way nothing is lost.
  abbrev pub ReadsFrom : ℕ → E → Read E → Type 0
  ReadsFrom n w (bs, ok _, w') = (length bs ≡ n) × (input w ≡ bs ++ input w')
  ReadsFrom n w (bs, fail _, w') = (length bs < n) × (input w ≡ bs ++ input w')
  ReadsFrom n w (bs, crash _, w') = ⊥

  ReadsFrom-prepend :
      (n : ℕ) (w w' : E) (bs : List ℕ) (r : Read E)
      → length bs ≤ n
      → input w ≡ bs ++ input w'
      → ReadsFrom (n - length bs) w' r
      → ReadsFrom n w (prepend bs r)
  ReadsFrom-prepend n w w' bs (more, ok _, w'') fits split h =
      (omega (arith, length-append bs more), rw (append_assoc, ← h.1) split)
  ReadsFrom-prepend n w w' bs (more, fail _, w'') fits split h =
      (omega (arith, length-append bs more), rw (append_assoc, ← h.1) split)
  ReadsFrom-prepend n w w' bs (more, crash _, w'') fits split h = h

  -- A read that starts from another world with the same bytes to come.
  ReadsFrom-same :
      (n : ℕ) (w w' : E) (r : Read E) → input w' ≡ input w → ReadsFrom n w' r → ReadsFrom n w r
  ReadsFrom-same n w w' (bs, ok _, _) same h = (h.0, sym same ∙ h.1)
  ReadsFrom-same n w w' (bs, fail _, _) same h = (h.0, sym same ∙ h.1)
  ReadsFrom-same n w w' (bs, crash _, _) same h = h

module _ {E : Type 0} ⦃sys : System E⦄ (input : E → List ℕ) where
  recv_round-ReadsFrom :
      (fuel n : ℕ) (w : E) (next : ℕ → E → Read E) (r : Io (List ℕ) × E)
      → n + sys.interrupts w < suc fuel
      → n ≢ 0
      → Receives input n w r
      → ((m : ℕ) (v : E) → m + sys.interrupts v < fuel → ReadsFrom input m v (next m v))
      → ReadsFrom input n w (recv_round next n r)
  recv_round-ReadsFrom fuel n w next (interrupted, w') h some law ih =
      ReadsFrom-same input n w w' (next n w') law.0 (ih n w' (omega arith))
  recv_round-ReadsFrom fuel n w next (failed, w') h some law ih = (omega arith, sym law)
  recv_round-ReadsFrom fuel n w next (done [], w') h some law ih = (omega arith, law.1)
  recv_round-ReadsFrom fuel n w next (done (b ∷ bs), w') h some law ih =
      rw (suc-==-zero (length bs), le→ltb_false n (suc (length bs)) law.0)
        (ReadsFrom-prepend input n w w' (b ∷ bs) (next (n - length (b ∷ bs)) w') law.0 law.1
          (ih (n - length (b ∷ bs)) w' (omega arith)))

module _ {E : Type 0} ⦃sys : System E⦄ (input output : E → List ℕ)
    (laws : IsStream input output) where
  recv_loop-ReadsFrom :
      (fuel : ℕ) (sock : Socket) (n : ℕ) (w : E)
      → n + sys.interrupts w < fuel
      → ReadsFrom input n w (recv_loop fuel sock n w)
  unfolding recv_loop
  recv_loop-ReadsFrom zero sock n w h = absurd (omega arith)
  recv_loop-ReadsFrom (suc fuel) sock zero w h = (refl, refl)
  recv_loop-ReadsFrom (suc fuel) sock (suc n) w h = rw (suc-==-zero n) (
      recv_round-ReadsFrom input fuel (suc n) w (recv_loop fuel sock) (sys.recv sock (suc n) w) h
        (omega arith) (laws.receives sock (suc n) w) (recv_loop-ReadsFrom fuel sock))

  -- ovnc__socket_recv_all, on a socket that is a byte stream (`IsStream`), always ends, and
  -- reads all `n` bytes, or fewer and fails; what it stored and what is still to come make up
  -- what was to come before, so no byte is lost or repeated.
  pub socket_recv_all-ReadsFrom :
      (sock : Socket) (n : ℕ) (w : E) → ReadsFrom input n w (socket_recv_all sock n w)
  unfolding socket_recv_all
  socket_recv_all-ReadsFrom sock n w =
      recv_loop-ReadsFrom (suc (n + sys.interrupts w)) sock n w (omega arith)

module _ {E : Type 0} (output : E → List ℕ) where
  -- A write of `p`: all of it, or an error after some of it.
  abbrev pub WritesTo : List ℕ → E → Outcome Unit × E → Type 0
  WritesTo p w (ok _, w') = output w' ≡ output w ++ p
  WritesTo p w (fail _, w') = (k : ℕ) × (k < length p) × (output w' ≡ output w ++ take k p)
  WritesTo p w (crash _, w') = ⊥

  WritesTo-same :
      (p : List ℕ) (w w' : E) (r : Outcome Unit × E)
      → output w' ≡ output w
      → WritesTo p w' r
      → WritesTo p w r
  WritesTo-same p w w' (ok _, _) same h = rw (← same) h
  WritesTo-same p w w' (fail _, _) same (k, lt, e) = (k, lt, rw (← same) e)
  WritesTo-same p w w' (crash _, _) same h = h

  WritesTo-after :
      (n : ℕ) (p : List ℕ) (w w' : E) (r : Outcome Unit × E)
      → n ≤ length p
      → output w' ≡ output w ++ take n p
      → WritesTo (drop n p) w' r
      → WritesTo p w r
  WritesTo-after n p w w' (ok _, w'') fits first h = rw (h, first, append_assoc, take-append-drop)
  WritesTo-after n p w w' (fail _, w'') fits first (k, lt, e) =
      (n + k, omega (arith, length-drop n p), rw (e, first, append_assoc, take-add n k p fits))
  WritesTo-after n p w w' (crash _, w'') fits first h = h

module _ {E : Type 0} ⦃sys : System E⦄ (output : E → List ℕ) where
  send_round-WritesTo :
      (fuel : ℕ) (p : List ℕ) (w : E) (next : List ℕ → E → Outcome Unit × E) (r : Io ℕ × E)
      → length p + sys.interrupts w < suc fuel
      → length p ≢ 0
      → Sends output p w r
      → ((q : List ℕ) (v : E) → length q + sys.interrupts v < fuel → WritesTo output q v (next q v))
      → WritesTo output p w (send_round next p r)
  send_round-WritesTo fuel p w next (interrupted, w') h some law ih =
      WritesTo-same output p w w' (next p w') law.0 (ih p w' (omega arith))
  send_round-WritesTo fuel p w next (failed, w') h some law ih =
      (0, omega arith, rw (law, append-nil))
  send_round-WritesTo fuel p w next (done zero, w') h some law ih = (0, omega arith, law.1)
  send_round-WritesTo fuel p w next (done (suc n), w') h some law ih =
      rw (suc-==-zero n, le→ltb_false (length p) (suc n) law.0)
        (WritesTo-after output (suc n) p w w' (next (drop (suc n) p) w') law.0 law.1
          (ih (drop (suc n) p) w' (omega (arith, length-drop (suc n) p))))

module _ {E : Type 0} ⦃sys : System E⦄ (input output : E → List ℕ)
    (laws : IsStream input output) where
  send_loop-WritesTo :
      (fuel : ℕ) (sock : Socket) (p : List ℕ) (w : E)
      → length p + sys.interrupts w < fuel
      → WritesTo output p w (send_loop fuel sock p w)
  unfolding send_loop
  send_loop-WritesTo zero sock p w h = absurd (omega arith)
  send_loop-WritesTo (suc fuel) sock [] w h = rw append-nil
  send_loop-WritesTo (suc fuel) sock (b ∷ p) w h = rw (suc-==-zero (length p)) (
      send_round-WritesTo output fuel (b ∷ p) w (send_loop fuel sock) (sys.send sock (b ∷ p) w) h
        (omega arith) (laws.sends sock (b ∷ p) w) (send_loop-WritesTo fuel sock))

  -- ovnc__socket_send_all, on a socket that is a byte stream (`IsStream`), always ends: the
  -- peer gets all of `p`, or a proper prefix of it and the caller an error.
  pub socket_send_all-WritesTo :
      (sock : Socket) (p : List ℕ) (w : E) → WritesTo output p w (socket_send_all sock p w)
  unfolding socket_send_all
  socket_send_all-WritesTo sock p w =
      send_loop-WritesTo (suc (length p + sys.interrupts w)) sock p w (omega arith)
