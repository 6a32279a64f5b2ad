-- ===== src/Client/Heap.antt =====
-- The heap blocks of a session: those that the library holds are those of the client, and those
-- that a function in progress will free.
pub mod Counting
pub mod Opening
pub mod Starting
pub mod Linking
pub mod Connecting
pub mod Decoding
pub mod Messages
pub mod Sessions
pub mod Calls
pub mod Reconnect
use libopenvnc.Base.{
  sym, ℕ, ◌+◌, ◌-◌, ◌≡◌, refl, ap, ◌∙◌, Bool, true, false, Option, none, some, List, [], ◌∷◌, ltb,
  ◌==◌, if◌then◌else◌, length, Bool-cases, inl, inr, arith, count,
}
use libopenvnc.Error.{Error}
use libopenvnc.State.{Client, Transport, Callbacks, Event}
use libopenvnc.Run.{
  called, Outcome, ok, fail, crash, St, System, Action, held, malloc, free, free_if, notify_if,
  call_alloc_framebuffer, returned,
}
use libopenvnc.Run.Safe.{called-EndsOr, EndsOr, SafeOr}
use libopenvnc.Socket.{Read, socket_recv_all}
use libopenvnc.Transport.{
  transport_recv_to, transport_recv, recv_block, recv_or_free, on_transport, delivered, freed,
}
use libopenvnc.Client.Lifecycle.Destroying.{blocks}
use Counting.{
  IsCount, recv_to-Goes, recv-Goes, recv_block-Goes, recv_or_free-Goes, malloc-Goes, free-Goes,
  free_if-Goes,
}

module _ {E : Type 0} where
  -- The blocks held are the client's and `n` others.
  abbrev pub Owns : ℕ → St E → Type 0
  Owns n s = s.live ≡ blocks s.client + n

-- From `m` others to `n`, and `k` where it returns an error code. A fault is left open.
abbrev pub Moves : (E : Type 0) {A : Type 0} → ℕ → (A → ℕ) → ℕ → Action E A → Type 0
Moves E m n k = SafeOr (Unit {0}) (Owns m) (λ a. Owns (n a)) (Owns k)

-- As many as before, however it ends.
abbrev pub Keeps : (E : Type 0) {A : Type 0} → ℕ → Action E A → Type 0
Keeps E n = Moves E n (λ _. n) n

-- The callbacks take and free no blocks of the library, on the whole; `alloc_framebuffer` is asked
-- where the framebuffer is the application's.
pub record IsFrugal (E : Type 0) ⦃sys : System E⦄ : Type 0 where
  pub notify : (n : ℕ) (ev : Event) (s : St E) → Owns n s → Owns n (sys.notify ev s).1
  pub alloc :
      (n : ℕ) (s : St E)
      → s.client.callbacks.alloc_framebuffer ≡ true
      → Owns n s
      → Owns n (sys.alloc_framebuffer s).1

module _ {E : Type 0} where
  pub Owns-IsCount : IsCount {E = E} Owns
  Owns-IsCount = record {
    elsewhere = λ n s w h. h;
    taken = λ n s w h. omega (arith, h);
    given = λ n s h. omega (arith, h);
  }

module _ {E : Type 0} ⦃sys : System E⦄ where
  pub recv_to-Keeps :
      (n : ℕ) (keep : List ℕ → Client → Client) (len : ℕ)
      → ((bs : List ℕ) (c : Client) → blocks (keep bs c) ≡ blocks c)
      → Keeps E n (transport_recv_to keep len)
  recv_to-Keeps n keep len same =
      recv_to-Goes Owns-IsCount n keep len
        (λ bs s h. h ∙ ap (λ (b : ℕ). b + n) (sym (same bs s.client)))

  pub recv-Keeps : (n len : ℕ) → Keeps E n (transport_recv len)
  recv-Keeps = recv-Goes Owns-IsCount

  pub recv_block-Keeps : (n cap len : ℕ) → Keeps E n (recv_block cap len)
  recv_block-Keeps = recv_block-Goes Owns-IsCount

  pub recv_or_free-Moves : (n cap len : ℕ) → Moves E (n + 1) (λ _. n + 1) n (recv_or_free cap len)
  recv_or_free-Moves = recv_or_free-Goes Owns-IsCount

  pub malloc-Moves : (n k len : ℕ) → Moves E n (λ b. n + count b) k (malloc len)
  malloc-Moves = malloc-Goes Owns-IsCount

  pub free-Moves : (n k : ℕ) → Moves E (n + 1) (λ _. n) k free
  free-Moves = free-Goes Owns-IsCount

  pub free_if-Moves : (n k : ℕ) (b : Bool) → Moves E (n + count b) (λ _. n) k (free_if b)
  free_if-Moves = free_if-Goes Owns-IsCount

  module _ (frugal : IsFrugal E) where
    pub notify_if-Moves :
        (n k : ℕ) (f : Callbacks → Bool) (ev : Event) → Moves E n (λ _. n) k (notify_if f ev)
    unfolding notify_if
    notify_if-Moves n k f ev = record {
      at = λ s h. elim (Bool-cases (f s.client.callbacks)) [
        | inl set ↦ rw set (called-EndsOr _ _ (sys.notify ev s) (frugal.notify n ev s h))
        | inr unset ↦ rw unset h
      ];
    }

    pub notify_if-Keeps : (n : ℕ) (f : Callbacks → Bool) (ev : Event) → Keeps E n (notify_if f ev)
    notify_if-Keeps n = notify_if-Moves n n

    returned-Owns :
        (n : ℕ) (r : Option Error × St E)
        → Owns n r.1
        → EndsOr (Unit {0}) (λ _. Owns n) (Owns n) (returned r)
    returned-Owns n (none, s) h = h
    returned-Owns n (some e, s) h = h

    pub call_alloc-Keeps :
        (n : ℕ)
        → SafeOr {E = E}
            (Unit {0})
            (λ s. Owns n s × (s.client.callbacks.alloc_framebuffer ≡ true))
            (λ _. Owns n)
            (Owns n)
            call_alloc_framebuffer
    unfolding call_alloc_framebuffer
    call_alloc-Keeps n = record {
      at = λ s h. returned-Owns n (sys.alloc_framebuffer s) (frugal.alloc n s h.1 h.0);
    }
