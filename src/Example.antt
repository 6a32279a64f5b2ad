-- ===== src/Example.antt =====
-- examples/simple_client.c: a program on top of the library, less what it prints.
pub mod Events
pub mod Safety
use libopenvnc.Base.{
  ℕ, zero, suc, ◌%◌, ◌^◌, Bool, true, false, Option, none, some, List, [], ◌∷◌, ℤ, pos, size_of_int,
}
use libopenvnc.Error.{Error}
use libopenvnc.State.{Client, Callbacks, Event, framebuffer_update_finished}
use libopenvnc.Run.{
  Fault, Outcome, ok, fail, crash, St, Action, System, pure, gets, try, ◌>>=◌, ◌>>◌,
}
use libopenvnc.Encoding.{encoding_raw, encoding_desktop_size, encoding_cursor}
use libopenvnc.Client.Create.{Config, Heap, create}
use libopenvnc.Client.Lifecycle.{connect, destroy, get_connection_info}
use libopenvnc.Client.Process.{run}
use libopenvnc.Client.Requests.{request_update}

-- The configuration of `main`; what the initializer leaves out is zero.
unfoldable pub example_config : List ℕ → ℕ → Config
example_config host port = record {
  host = some host;
  port = port;
  shared = 1;
  pixel_format = none;
  encodings = some (encoding_raw ∷ encoding_desktop_size ∷ encoding_cursor ∷ []);
  num_encodings = 3;
  connect_timeout_ms = 0;
  user_data = 0;
}

-- The callbacks of `main`.
abbrev pub example_callbacks : Callbacks
example_callbacks = record {
  alloc_framebuffer = false;
  framebuffer_update = true;
  framebuffer_update_finished = true;
  cursor_update = false;
  desktop_resize = false;
  bell = true;
  server_cut_text = true;
  color_map_update = false;
  disconnected = true;
  get_password = false;
}

module _ {E : Type 0} ⦃sys : System E⦄ where
  -- `f(…);`: an error code is thrown away, a fault is not.
  abbrev pub ignored : Outcome Unit × St E → Option Fault × St E
  ignored (ok _, s) = (none, s)
  ignored (fail _, s) = (none, s)
  ignored (crash f, s) = (some f, s)

  -- on_update_finished, which asks for the next update, and the callbacks that only print
  unfoldable pub on_event : Event → St E → Option Fault × St E
  on_event framebuffer_update_finished s = ignored (request_update none (pos 1) s)
  on_event _ s = (none, s)

-- The kernel of `sys`, with the callbacks of the example.
abbrev pub with_example : {E : Type 0} → System E → System E
with_example {E} sys = record sys { notify = on_event ⦃sys = sys⦄ }

-- `(uint16_t)atoi(argv[2])`, if it is there
abbrev pub port_of : (List ℕ → ℤ) → List (List ℕ) → ℕ
port_of atoi [] = 5900
port_of atoi (text ∷ _) = size_of_int (atoi text) % 2 ^ 16

module _ {E : Type 0} ⦃sys : System E⦄ where
  -- `main` once the client is connected. `patience` says how many messages ovnc_client_run may handle.
  unfoldable pub watch : (E → ℕ) → Action E ℕ
  watch patience = do
    try get_connection_info (λ _. pure tt)
    try (request_update none (pos 0)) (λ _. pure tt)
    fuel ← gets (λ s. patience s.world)
    try (run fuel) (λ _. pure tt)
    destroy
    pure 0

  -- `main` with a client; the number is what it returns.
  unfoldable pub with_client : (E → ℕ) → Action E ℕ
  unfolding watch
  with_client patience =
      try connect (λ err. elim err [ none ↦ watch patience | some e ↦ destroy >> pure 1 ])

  abbrev pub finished : Outcome ℕ × St E → Outcome ℕ × Heap E
  finished (r, s) = (r, (s.world, s.live))

  abbrev pub created_client : (E → ℕ) → Option Client × Heap E → Outcome ℕ × Heap E
  created_client patience (none, h) = (ok 1, h)
  created_client patience (some c, (w, live)) =
      finished
        (with_client patience (record { client = c; world = w; live = live; init_count = 0 }))

  -- `main`, for the arguments behind the program's name; `atoi` is the one of the C library.
  unfoldable pub main : (List ℕ → ℤ) → (E → ℕ) → List (List ℕ) → Heap E → Outcome ℕ × Heap E
  unfolding with_client example_config
  main atoi patience [] h = (ok 1, h)
  main atoi patience (host ∷ args) h =
      created_client patience
        (create (some (example_config host (port_of atoi args))) (some example_callbacks) h)
