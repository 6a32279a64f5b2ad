-- ===== src/Session/Local.antt =====
-- Properties of a session that the steps of a handler keep.
use libopenvnc.Base.{ℕ, ◌≤◌, ◌≡◌, some, List, length, arith}
use libopenvnc.State.{Client, Transport, Event, ClientState}
use libopenvnc.Run.{St, System}
use libopenvnc.Session.{Quietly, IsLinked, IsReady, IsTame}

-- A property of a session that only looks at the client, and at the stream by a bound.
pub record IsLocal {E : Type 0} (input : E → List ℕ) (P : St E → Type 0) : Type 0 where
  pub moves :
      (s : St E) (w : E) (l : ℕ)
      → length (input w) ≤ length (input s.world)
      → P s
      → P (record s { world = w; live = l })

-- One that shows that there is a transport.
pub record IsHeld {E : Type 0} (input : E → List ℕ) (P : St E → Type 0) : Type 0 where
  pub linked : (s : St E) → P s → (t : Transport) × (s.client.transport ≡ some t)
  pub local : IsLocal input P

-- One that the callbacks keep, besides.
pub record IsStable {E : Type 0} ⦃sys : System E⦄ (input : E → List ℕ) (P : St E → Type 0)
    : Type 0 where
  pub held : IsHeld input P
  pub notified : (ev : Event) (s : St E) → P s → Quietly input P (sys.notify ev s)

module _ {E : Type 0} {input : E → List ℕ} where
  pub IsLinked-IsLocal : (st : ClientState) (k : ℕ) → IsLocal input (IsLinked input st k)
  IsLinked-IsLocal st k = record {
    moves =
        λ s w l le h. record { transport = h.transport; state = h.state; pending = omega arith };
  }

  pub IsReady-IsLocal : (st : ClientState) (k : ℕ) → IsLocal input (IsReady input st k)
  IsReady-IsLocal st k = record {
    moves = λ s w l le h. record {
      linked = record {
        transport = h.linked.transport;
        state = h.linked.state;
        pending = omega arith;
      };
      geometry = h.geometry;
      fits = h.fits;
    };
  }

  pub IsLinked-IsHeld : (st : ClientState) (k : ℕ) → IsHeld input (IsLinked input st k)
  IsLinked-IsHeld st k = record { linked = λ s h. h.transport; local = IsLinked-IsLocal st k }

  pub IsReady-IsHeld : (st : ClientState) (k : ℕ) → IsHeld input (IsReady input st k)
  IsReady-IsHeld st k = record { linked = λ s h. h.linked.transport; local = IsReady-IsLocal st k }

  -- A fact about the client is local too.
  pub IsLocal-and :
      {P : St E → Type 0} (F : Client → Type 0)
      → IsLocal input P
      → IsLocal input (λ s. P s × F s.client)
  IsLocal-and F h = record { moves = λ s w l le q. (h.moves s w l le q.0, q.1) }

  pub IsHeld-and :
      {P : St E → Type 0} (F : Client → Type 0)
      → IsHeld input P
      → IsHeld input (λ s. P s × F s.client)
  IsHeld-and F h = record { linked = λ s q. h.linked s q.0; local = IsLocal-and F h.local }

module _ {E : Type 0} ⦃sys : System E⦄ {input output : E → List ℕ}
    (laws : IsTame input output) where
  pub IsLinked-IsStable : (st : ClientState) (k : ℕ) → IsStable input (IsLinked input st k)
  IsLinked-IsStable st k = record {
    held = IsLinked-IsHeld st k;
    notified = laws.notify_linked st k;
  }

  pub IsReady-IsStable : (st : ClientState) (k : ℕ) → IsStable input (IsReady input st k)
  IsReady-IsStable st k = record { held = IsReady-IsHeld st k; notified = laws.notify_ready st k }
