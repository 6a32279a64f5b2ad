-- ===== src/Client/Heap/Counting.antt =====
-- The steps that read, send, and take or free a block, for any way to count the blocks that a
-- function in progress holds.
use mathlib.Core.Path.{subst}
use libopenvnc.Base.{
  if◌then◌else◌, ◌≡◌, sym, ℕ, ◌+◌, ◌-◌, Bool, true, false, Option, none, some, List, arith, count,
}
use libopenvnc.State.{Client, Transport}
use libopenvnc.Run.{
  Outcome, ok, fail, crash, St, System, Action, held, malloc, free, free_if, ◌>>=◌,
}
use libopenvnc.Run.Safe.{EndsOr, SafeOr, Safe-bind, Safe-if, Safe-pre}
use libopenvnc.Socket.{Read, socket_recv_all, socket_send_all}
use libopenvnc.Transport.Blocks.{recv_block-EndsOr}
use libopenvnc.Transport.{
  transport_recv_to, transport_recv, transport_send, recv_block, recv_or_free, on_transport,
  delivered, freed, sent,
}

-- `P n`: a state with `n` blocks beside those that the client has by itself.
pub record IsCount {E : Type 0} (P : ℕ → St E → Type 0) : Type 0 where
  pub elsewhere : (n : ℕ) (s : St E) (w : E) → P n s → P n (record s { world = w })
  pub taken :
      (n : ℕ) (s : St E) (w : E) → P n s → P (n + 1) (record s { world = w; live = s.live + 1 })
  pub given : (n : ℕ) (s : St E) → P (n + 1) s → P n (record s { live = s.live - 1 })

-- From `m` blocks to `n`, and `k` where it returns an error code. A fault is left open.
abbrev pub Goes : {E A : Type 0} → (ℕ → St E → Type 0) → ℕ → (A → ℕ) → ℕ → Action E A → Type 0
Goes P m n k = SafeOr (Unit {0}) (P m) (λ a. P (n a)) (P k)

module _ {E : Type 0} ⦃sys : System E⦄ {P : ℕ → St E → Type 0} (counts : IsCount P) where
  delivered-Goes :
      (n : ℕ) (keep : List ℕ → Client → Client) (s : St E) (r : Read E)
      → ((bs : List ℕ) (t : St E) → P n t → P n (record t { client = keep bs t.client }))
      → P n s
      → EndsOr (Unit {0}) (λ _. P n) (P n) (delivered keep s r)
  delivered-Goes n keep s (bs, ok _, w) kept h =
      kept bs (record s { world = w }) (counts.elsewhere n s w h)
  delivered-Goes n keep s (bs, fail _, w) kept h =
      kept bs (record s { world = w }) (counts.elsewhere n s w h)
  delivered-Goes n keep s (bs, crash _, w) kept h = tt

  linked-Goes :
      (n : ℕ) (keep : List ℕ → Client → Client) (len : ℕ) (s : St E) (t : Option Transport)
      → ((bs : List ℕ) (u : St E) → P n u → P n (record u { client = keep bs u.client }))
      → P n s
      → EndsOr
          (Unit {0})
          (λ _. P n)
          (P n)
          (on_transport t (λ u s'. delivered keep s' (socket_recv_all u.sock len s'.world)) s)
  linked-Goes n keep len s none kept h = tt
  linked-Goes n keep len s (some t) kept h =
      delivered-Goes n keep s (socket_recv_all t.sock len s.world) kept h

  -- A read that stores its bytes with `keep`.
  pub recv_to-Goes :
      (n : ℕ) (keep : List ℕ → Client → Client) (len : ℕ)
      → ((bs : List ℕ) (s : St E) → P n s → P n (record s { client = keep bs s.client }))
      → Goes P n (λ _. n) n (transport_recv_to keep len)
  unfolding transport_recv_to
  recv_to-Goes n keep len kept = record {
    at = λ s h. linked-Goes n keep len s s.client.transport kept h;
  }

  pub recv-Goes : (n len : ℕ) → Goes P n (λ _. n) n (transport_recv len)
  unfolding transport_recv
  recv-Goes n len = recv_to-Goes n (λ _ c. c) len (λ bs s h. h)

  pub recv_block-Goes : (n cap len : ℕ) → Goes P n (λ _. n) n (recv_block cap len)
  recv_block-Goes n cap len = record {
    at = λ s h. recv_block-EndsOr _ _ cap len s ((recv-Goes n len).at s h);
  }

  freed-Goes :
      (n : ℕ) (r : Outcome (List ℕ) × St E)
      → EndsOr (Unit {0}) (λ _. P (n + 1)) (P (n + 1)) r
      → EndsOr (Unit {0}) (λ _. P (n + 1)) (P n) (freed r)
  freed-Goes n (ok bs, s) h = h
  freed-Goes n (fail e, s) h = counts.given n s h
  freed-Goes n (crash f, s) h = tt

  -- A read into a block that is freed where the read fails.
  pub recv_or_free-Goes : (n cap len : ℕ) → Goes P (n + 1) (λ _. n + 1) n (recv_or_free cap len)
  unfolding recv_or_free
  recv_or_free-Goes n cap len = record {
    at = λ s h. freed-Goes n (recv_block cap len s) ((recv_block-Goes (n + 1) cap len).at s h);
  }

  sent-Goes :
      (n : ℕ) (s : St E) (r : Outcome Unit × E)
      → P n s
      → EndsOr (Unit {0}) (λ _. P n) (P n) (sent s r)
  sent-Goes n s (ok _, w) h = counts.elsewhere n s w h
  sent-Goes n s (fail _, w) h = counts.elsewhere n s w h
  sent-Goes n s (crash _, w) h = tt

  on-Goes :
      (n : ℕ) (p : List ℕ) (s : St E) (o : Option Transport)
      → P n s
      → EndsOr
          (Unit {0})
          (λ _. P n)
          (P n)
          (on_transport o (λ t s'. sent s' (socket_send_all t.sock p s'.world)) s)
  on-Goes n p s none h = tt
  on-Goes n p s (some t) h = sent-Goes n s (socket_send_all t.sock p s.world) h

  pub send-Goes : (n : ℕ) (p : List ℕ) → Goes P n (λ _. n) n (transport_send p)
  unfolding transport_send
  send-Goes n p = record { at = λ s h. on-Goes n p s s.client.transport h }

  held-Goes :
      (n : ℕ) (s : St E) (X : St E → Type 0) (r : Bool × E)
      → P n s
      → EndsOr (Unit {0}) (λ b. P (n + count b)) X (held r s)
  held-Goes n s X (true, w) h = counts.taken n s w h
  held-Goes n s X (false, w) h =
      subst (λ (m : ℕ). P m (record s { world = w })) (sym none_more) (counts.elsewhere n s w h)
    where
      none_more : n + 0 ≡ n
      none_more = omega arith

  pub malloc-Goes : (n k len : ℕ) → Goes P n (λ b. n + count b) k (malloc len)
  unfolding malloc
  malloc-Goes n k len = record { at = λ s h. held-Goes n s (P k) (sys.malloc len s.world) h }

  pub free-Goes : (n k : ℕ) → Goes P (n + 1) (λ _. n) k free
  free-Goes n k = record { at = λ s h. counts.given n s h }

  pub free_if-Goes : (n k : ℕ) (b : Bool) → Goes P (n + count b) (λ _. n) k (free_if b)
  free_if-Goes n k true = record { at = λ s h. counts.given n s h }
  free_if-Goes n k false =
      let same : n + 0 ≡ n = omega arith in record { at = λ s h. subst (λ (m : ℕ). P m s) same h }

  -- A block is asked for, and the code goes on with it or without it.
  pub malloc_if-Goes :
      {A : Type 0} (n k len : ℕ) {Q : A → St E → Type 0} {with_block without : Action E A}
      → SafeOr (Unit {0}) (P (n + 1)) Q (P k) with_block
      → SafeOr (Unit {0}) (P n) Q (P k) without
      → SafeOr
          (Unit {0})
          (P n)
          Q
          (P k)
          (malloc len >>= λ found. if found then with_block else without)
  malloc_if-Goes n k len there absent = Safe-bind (malloc-Goes n k len) λ found.
      Safe-if found (λ e. rw e there)
        (λ e. rw e (
          let same : n + 0 ≡ n = omega arith in
          Safe-pre (λ s h. subst (λ (m : ℕ). P m s) same h) absent))
