-- ===== src/Example/Safety.antt =====
-- Faults, and the end, of examples/simple_client.c.
use libopenvnc.Base.{
  ℕ, suc, ◌≡◌, ◌⊎◌, inl, inr, refl, ap, false, true, is_some, Option, none, some, List, [], ◌∷◌, ℤ,
  pos, length, arith,
}
use libopenvnc.State.{Client, connected}
use libopenvnc.Run.{Outcome, ok, fail, crash, St, System, pure, ◌>>◌}
use libopenvnc.Run.Safe.{
  Ends, Ends-mono, Safe, Safe-bind, Safe-if, Safe-pure, Safe-raise, Safe-gets, Safe-pre, Safe-try,
  Safe-exists,
}
use libopenvnc.Session.{IsReady, IsTame}
use libopenvnc.Session.Local.{IsReady-IsHeld}
use libopenvnc.Client.Lifecycle.{is_created, destroy, get_connection_info}
use mathlib.Core.Option.{some-injective}
use libopenvnc.Handshake.Opening.{HasEncodings}
use libopenvnc.Client.Lifecycle.Connecting.{IsFresh}
use libopenvnc.Client.Lifecycle.Destroying.{destroy-Frees}
use libopenvnc.Run.Both.{Ends-both, Safe-both}
use libopenvnc.Client.Lifecycle.{connect}
use libopenvnc.Client.Heap.{Owns, IsFrugal}
use libopenvnc.Client.Heap.Connecting.{connect-Balanced}
use libopenvnc.Client.Heap.Sessions.{run-Keeps, request_update-Keeps}
use libopenvnc.Example.Events.{with_example-IsTame, with_example-IsFrugal}
use libopenvnc.Client.Process.{run}
use libopenvnc.Client.Process.Safety.{run-Ends}
use libopenvnc.Client.Create.{Heap, create}
use libopenvnc.Client.Create.Balance.{Makes, create-Makes, blocks-owned}
use libopenvnc.Client.Requests.{request_update}
use libopenvnc.Client.Requests.Safety.{request_update-Safe}
use libopenvnc.Example.{
  example_config, example_callbacks, with_example, watch, with_client, main, created_client,
  finished, port_of,
}

-- What `main` returns.
abbrev IsCode : ℕ → Type 0
IsCode code = (code ≡ 0) ⊎ (code ≡ 1)

-- `main` returns 0 or 1, with so many blocks held.
abbrev pub Returns : {E : Type 0} → ℕ → Outcome ℕ × Heap E → Type 0
Returns live (ok code, h) = IsCode code × (h.1 ≡ live)
Returns live (fail e, h) = ⊥
Returns live (crash f, h) = ⊥

module _ {E : Type 0} ⦃sys : System E⦄ {input output : E → List ℕ} (laws : IsTame input output)
    (no_empty : (w : E) → (sys.malloc 0 w).0 ≡ false)
    (kept : (s : St E) → HasEncodings s.client → HasEncodings (sys.alloc_framebuffer s).1.client)
    (frugal : IsFrugal E) (n : ℕ) where
  -- Enough messages: one more than there are bytes to come.
  abbrev enough : E → ℕ
  enough w = suc (length (input w))

  -- A session, on a heap with `n` blocks that are not the client's.
  abbrev Running : ℕ → St E → Type 0
  Running k s = IsReady input connected k s × Owns n s

  run_now :
      (fuel k : ℕ)
      → Safe (λ s. Running k s × (fuel ≡ enough s.world)) (λ _. Owns n) (Owns n) (run fuel)
  run_now fuel k = record {
    at = λ s q.
        Ends-mono (run fuel s) (λ _ s' x. x.1) (λ s' x. x.1)
          (Ends-both _ _ _ _ (run fuel s)
            (run-Ends laws no_empty fuel (length (input s.world)) s (omega (arith, q.1)) (record {
              linked = record {
                transport = q.0.0.linked.transport;
                state = q.0.0.linked.state;
                pending = omega arith;
              };
              geometry = q.0.0.geometry;
              fits = q.0.0.fits;
            }))
            ((run-Keeps frugal n fuel).at s q.0.1));
  }

  -- How `main` ends.
  abbrev Over : ℕ → St E → Type 0
  Over code s = IsCode code × (s.live ≡ n)

  destroy_then : (code : ℕ) → IsCode code → Safe (Owns n) Over (λ _. ⊥) (destroy >> pure code)
  destroy_then code is =
      Safe-bind {Q = λ _ s. s.live ≡ n}
        (record {
          at = λ s h.
              Ends-mono (destroy s) (λ _ s' x. omega (arith, x, h)) (λ s' x. x) (destroy-Frees s);
        })
        λ _. Safe-pure code (λ s h. (is, h))

  ask : (k : ℕ) → Safe (Running k) (λ _. Running k) (Running k) (request_update none (pos 0))
  ask k =
      Safe-both (request_update-Safe laws (IsReady-IsHeld connected k) none (pos 0))
        (request_update-Keeps n none (pos 0))

  watch-Safe : (k : ℕ) → Safe (Running k) Over (λ _. ⊥) (watch enough)
  unfolding watch get_connection_info
  watch-Safe k =
      let P = Running k in
      Safe-bind {Q = λ _. P}
        (Safe-try {Q = P} {Y = P} _
          (Safe-bind (Safe-gets (λ s. s.client)) λ c.
            Safe-pre {P = P} (λ s q. q.0)
              (Safe-if (is_created c.state) (λ _. Safe-raise _ (λ s h. h))
                (λ _. Safe-pure _ (λ s h. h))))
          (Safe-pure tt (λ s h. h)) (λ e. Safe-pure tt (λ s h. h)))
        λ _.
          Safe-bind {Q = λ _. P}
            (Safe-try {Q = P} {Y = P} _ (ask k) (Safe-pure tt (λ s h. h))
              (λ e. Safe-pure tt (λ s h. h)))
            λ _. Safe-bind (Safe-gets (λ s. enough s.world)) λ fuel.
              Safe-bind {Q = λ _. Owns n}
                (Safe-try {Q = Owns n} {Y = Owns n} _ (run_now fuel k) (Safe-pure tt (λ s h. h))
                  (λ e. Safe-pure tt (λ s h. h)))
                λ _. destroy_then 0 (inl refl)

  -- The client that `main` has created.
  abbrev New : St E → Type 0
  New s = IsFresh s.client × (is_some s.client.framebuffer.pixels ≡ false) × Owns n s

  with_client-Safe : Safe New Over (λ _. ⊥) (with_client enough)
  unfolding with_client
  with_client-Safe =
      Safe-try {Q = λ s. (k : ℕ) × Running k s} {Y = Owns n} _
        (record {
          at = λ s q.
              Ends-mono (connect s) (λ _ s' x. (x.0.0, (x.0.1, x.1))) (λ s' x. x.1)
                (connect-Balanced laws kept frugal n s q.0 q.1 q.2);
        })
        (Safe-exists λ k. watch-Safe k) (λ e. destroy_then 1 (inr refl))

  finished-Returns : (r : Outcome ℕ × St E) → Ends Over (λ _. ⊥) r → Returns n (finished r)
  finished-Returns (ok c, s) h = h
  finished-Returns (fail e, s) h = h
  finished-Returns (crash f, s) h = h

  created-Returns : (r : Option Client × Heap E) → Makes n r → Returns n (created_client enough r)
  created-Returns (none, h) made = (inr refl, made)
  created-Returns (some c, (w, l)) made =
      finished-Returns
        (with_client enough (record { client = c; world = w; live = l; init_count = 0 }))
        (with_client-Safe.at _
          ((made.1, made.2), made.3, omega (arith, made.0, blocks-owned c made.1 made.3)))

  main-Returns :
      (atoi : List ℕ → ℤ) (args : List (List ℕ)) (w : E) → Returns n (main atoi enough args (w, n))
  unfolding main example_config
  main-Returns atoi [] w = (inr refl, refl)
  main-Returns atoi (host ∷ args) w =
      created-Returns
        (create (some (example_config host (port_of atoi args))) (some example_callbacks) (w, n))
        (create-Makes _ (some example_callbacks) w n (record {
          enough = λ es e. omega (arith, ap length (some-injective _ es e));
          bound = omega arith;
        }))

module _ {E : Type 0} (sys : System E) {input output : E → List ℕ}
    (laws : IsTame input ⦃sys = sys⦄ output) where
  -- examples/simple_client.c, with the callbacks of the example (which call
  -- ovnc_client_request_update after each update), in an environment that meets `Session.IsTame`, where
  -- `malloc(0)` returns NULL, where an application's `alloc_framebuffer` (the example has none) leaves the
  -- list of encodings and the count of blocks alone, and where ovnc_client_run may handle one message more
  -- than there are bytes to come from the server: `main` ends, without a fault, returns 0 or 1, and
  -- holds as many heap blocks as before, whatever the arguments are, whatever the server sends, and
  -- wherever memory or the connection fails.
  pub simple_client-Returns :
      ((w : E) → (sys.malloc 0 w).0 ≡ false)
      → ((s : St E) → HasEncodings s.client → HasEncodings (sys.alloc_framebuffer s).1.client)
      → ((n : ℕ) (s : St E)
          → s.client.callbacks.alloc_framebuffer ≡ true
          → Owns n s
          → Owns n (sys.alloc_framebuffer s).1)
      → (atoi : List ℕ → ℤ) (args : List (List ℕ)) (w : E) (live : ℕ)
      → Returns live
          (main ⦃sys = with_example sys⦄ atoi (λ v. suc (length (input v))) args (w, live))
  simple_client-Returns no_empty kept alloc atoi args w live =
      main-Returns ⦃sys = with_example sys⦄ (with_example-IsTame sys laws) no_empty kept
        (with_example-IsFrugal sys alloc) live atoi args w
