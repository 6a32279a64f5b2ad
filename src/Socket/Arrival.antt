-- ===== src/Socket/Arrival.antt =====
-- The read loop of src/platform/ovnc_socket_posix.c where the bytes are there.
use libopenvnc.Base.{
  ℕ, zero, suc, ◌+◌, ◌-◌, ◌≤◌, ◌<◌, ◌≡◌, ◌≢◌, refl, ap, ◌∙◌, sym, List, [], ◌∷◌, ◌++◌, arith,
  length, take, drop, length-append, le→ltb_false, suc-==-zero,
}
use libopenvnc.State.{Socket}
use libopenvnc.Run.{ok, fail, crash, System, Io, done, interrupted, failed}
use libopenvnc.Socket.{Read, prepend, recv_round, recv_loop, socket_recv_all}
use libopenvnc.Socket.Stream.{IsStream, Receives, ReadsFrom, socket_recv_all-ReadsFrom}

-- A read that has all its bytes.
abbrev IsWhole : {E : Type 0} → Read E → Type 0
IsWhole (bs, ok _, w) = Unit {0}
IsWhole (bs, fail _, w) = ⊥
IsWhole (bs, crash _, w) = ⊥

-- What `recv` does where bytes are there to be read: it takes some, or it is interrupted.
abbrev Serves : {E : Type 0} → Io (List ℕ) × E → Type 0
Serves (done bs, w) = length bs ≢ 0
Serves (interrupted, w) = Unit {0}
Serves (failed, w) = ⊥

-- A peer that keeps the connection: `recv` fails, or finds the end of the stream, only where no byte is
-- left.
pub record IsOpen {E : Type 0} ⦃sys : System E⦄ (input : E → List ℕ) : Type 0 where
  pub serves :
      (sock : Socket) (n : ℕ) (w : E) → n ≢ 0 → length (input w) ≢ 0 → Serves (sys.recv sock n w)

module _ {E : Type 0} ⦃sys : System E⦄ (input : E → List ℕ) where
  prepend-IsWhole : (bs : List ℕ) (r : Read E) → IsWhole r → IsWhole (prepend bs r)
  prepend-IsWhole bs (more, ok _, w) h = tt
  prepend-IsWhole bs (more, fail _, w) h = h
  prepend-IsWhole bs (more, crash _, w) h = h

  recv_round-IsWhole :
      (fuel n : ℕ) (w : E) (next : ℕ → E → Read E) (r : Io (List ℕ) × E)
      → n + sys.interrupts w < suc fuel
      → n ≤ length (input w)
      → Receives input n w r
      → Serves r
      → ((m : ℕ) (v : E) → m + sys.interrupts v < fuel → m ≤ length (input v) → IsWhole (next m v))
      → IsWhole (recv_round next n r)
  recv_round-IsWhole fuel n w next (interrupted, w') h le law served ih =
      ih n w' (omega arith) (rw law.0 le)
  recv_round-IsWhole fuel n w next (failed, w') h le law served ih = served
  recv_round-IsWhole fuel n w next (done [], w') h le law served ih = absurd (served refl)
  recv_round-IsWhole fuel n w next (done (b ∷ bs), w') h le law served ih =
      rw (suc-==-zero (length bs), le→ltb_false n (suc (length bs)) law.0)
        (prepend-IsWhole (b ∷ bs) (next (n - length (b ∷ bs)) w') (
          ih (n - length (b ∷ bs)) w' (omega arith)
            (omega (arith, ap length law.1, length-append (b ∷ bs) (input w')))))

module _ {E : Type 0} ⦃sys : System E⦄ (input output : E → List ℕ) (stream : IsStream input output)
    (open_peer : IsOpen input) where
  recv_loop-IsWhole :
      (fuel : ℕ) (sock : Socket) (n : ℕ) (w : E)
      → n + sys.interrupts w < fuel
      → n ≤ length (input w)
      → IsWhole (recv_loop fuel sock n w)
  unfolding recv_loop
  recv_loop-IsWhole zero sock n w h le = absurd (omega arith)
  recv_loop-IsWhole (suc fuel) sock zero w h le = tt
  recv_loop-IsWhole (suc fuel) sock (suc n) w h le = rw (suc-==-zero n) (
      recv_round-IsWhole input fuel (suc n) w (recv_loop fuel sock) (sys.recv sock (suc n) w) h le
        (stream.receives sock (suc n) w)
        (open_peer.serves sock (suc n) w (omega arith) (omega arith)) (recv_loop-IsWhole fuel sock))

  take-front : (bs more : List ℕ) → take (length bs) (bs ++ more) ≡ bs
  take-front [] more = refl
  take-front (b ∷ bs) more = ap (λ l. b ∷ l) (take-front bs more)

  drop-front : (bs more : List ℕ) → drop (length bs) (bs ++ more) ≡ more
  drop-front [] more = refl
  drop-front (b ∷ bs) more = drop-front bs more

  -- A read of `n` bytes from `w` that returns OVNC_OK, with exactly the next `n` bytes.
  abbrev pub GetsAll : ℕ → E → Read E → Type 0
  GetsAll n w (bs, ok _, w') = (bs ≡ take n (input w)) × (input w' ≡ drop n (input w))
  GetsAll n w (bs, fail _, w') = ⊥
  GetsAll n w (bs, crash _, w') = ⊥

  whole-GetsAll : (n : ℕ) (w : E) (r : Read E) → IsWhole r → ReadsFrom input n w r → GetsAll n w r
  whole-GetsAll n w (bs, ok _, w') done_all h = (
    sym (
        ap (λ (k : ℕ). take k (input w)) (sym h.0)
        ∙ ap (λ l. take (length bs) l) h.1
        ∙ take-front bs (input w')),
    sym (
        ap (λ (k : ℕ). drop k (input w)) (sym h.0)
        ∙ ap (λ l. drop (length bs) l) h.1
        ∙ drop-front bs (input w')),
  )
  whole-GetsAll n w (bs, fail _, w') done_all h = done_all
  whole-GetsAll n w (bs, crash _, w') done_all h = done_all

  -- ovnc__socket_recv_all, on a byte stream (`IsStream`) whose peer keeps the connection (`IsOpen`: `recv`
  -- fails or ends only where no byte is left) and with at least `n` bytes to come, returns OVNC_OK,
  -- however the kernel cuts the bytes into pieces and however often it interrupts: the buffer gets
  -- exactly the next `n` bytes, and those behind them are still to come.
  pub socket_recv_all-GetsAll :
      (sock : Socket) (n : ℕ) (w : E)
      → n ≤ length (input w)
      → GetsAll n w (socket_recv_all sock n w)
  unfolding socket_recv_all
  socket_recv_all-GetsAll sock n w le =
      whole-GetsAll n w (socket_recv_all sock n w)
        (recv_loop-IsWhole (suc (n + sys.interrupts w)) sock n w (omega arith) le)
        (socket_recv_all-ReadsFrom input output stream sock n w)
