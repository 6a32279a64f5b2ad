-- ===== src/Example/Events.antt =====
-- The callbacks of examples/simple_client.c, which only call ovnc_client_request_update.
use libopenvnc.Base.{
  ℕ, ◌%◌, size_of_int, ◌≡◌, refl, inl, inr, true, Bool-cases, Option, none, some, List, ◌∷◌, ◌++◌,
  pos,
}
use libopenvnc.State.{
  Transport, Event, framebuffer_update, framebuffer_update_finished, cursor_update, desktop_resize,
  bell, server_cut_text, color_map_update, disconnected,
}
use libopenvnc.Run.{Fault, Outcome, ok, fail, crash, St, System, ◌>>=◌}
use libopenvnc.Run.Safe.{Ends}
use libopenvnc.Wire.{write_u16}
use libopenvnc.Socket.{socket_send_all}
use libopenvnc.Transport.{on_transport, sent, transport_send}
use libopenvnc.Client.Lifecycle.{is_connected_state}
use libopenvnc.Client.Heap.{Owns, IsFrugal}
use libopenvnc.Messages.{send_fb_update_request}
use libopenvnc.Session.{IsTame, Quietly}
use libopenvnc.Session.Local.{IsHeld, IsLinked-IsHeld, IsReady-IsHeld}
use libopenvnc.Client.Requests.{request_update}
use libopenvnc.Client.Requests.Safety.{request_update-Safe}
use libopenvnc.Example.{ignored, on_event, with_example}

-- `Q` is what is shown of a callback.
module _ {E : Type 0} ⦃sys : System E⦄ {P : St E → Type 0} (Q : Option Fault × St E → Type 0)
    (prints : (s : St E) → P s → Q (none, s))
    (asks : (s : St E) → P s → Q (ignored (request_update none (pos 1) s))) where
  on_event-keeps : (ev : Event) (s : St E) → P s → Q (on_event ev s)
  unfolding on_event
  on_event-keeps framebuffer_update_finished s h = asks s h
  on_event-keeps (framebuffer_update _) s h = prints s h
  on_event-keeps (cursor_update _ _ _ _ _ _) s h = prints s h
  on_event-keeps (desktop_resize _ _) s h = prints s h
  on_event-keeps bell s h = prints s h
  on_event-keeps (server_cut_text _ _) s h = prints s h
  on_event-keeps (color_map_update _ _ _ _ _) s h = prints s h
  on_event-keeps (disconnected _) s h = prints s h

module _ {E : Type 0} ⦃sys : System E⦄ {input output : E → List ℕ} (laws : IsTame input output)
    {P : St E → Type 0} (held : IsHeld input P) where
  ignored-Quietly :
      (r : Outcome (Unit {0}) × St E) → Ends (λ _. P) P r → Quietly input P (ignored r)
  ignored-Quietly (ok _, s) h = (refl, h)
  ignored-Quietly (fail _, s) h = (refl, h)
  ignored-Quietly (crash _, s) h = absurd h

  -- The request of the callback has no fault.
  on_event-Quietly : (ev : Event) (s : St E) → P s → Quietly input P (on_event ev s)
  on_event-Quietly =
      on_event-keeps (Quietly input P) (λ s h. (refl, h))
        λ s h.
          ignored-Quietly (request_update none (pos 1) s)
            ((request_update-Safe laws held none (pos 1)).at s h)

module _ {E : Type 0} ⦃sys : System E⦄ (n : ℕ) where
  -- What is sent takes no block, also where there is no transport.
  send-Owns :
      (p : List ℕ) (s : St E) (o : Option Transport)
      → Owns n s
      → Owns n (on_transport o (λ t s'. sent s' (socket_send_all t.sock p s'.world)) s).1
  send-Owns p s none h = h
  send-Owns p s (some t) h = h

  request-Owns :
      (inc x y w h : ℕ) (s : St E) → Owns n s → Owns n (send_fb_update_request inc x y w h s).1
  unfolding send_fb_update_request transport_send
  request-Owns inc x y w h s owns =
      send-Owns (3 ∷ inc ∷ (write_u16 x ++ (write_u16 y ++ (write_u16 w ++ write_u16 h)))) s
        s.client.transport owns

  request_update-Owns : (s : St E) → Owns n s → Owns n (request_update none (pos 1) s).1
  unfolding request_update ◌>>=◌
  request_update-Owns s h = elim (Bool-cases (is_connected_state s.client.state)) [
    | inl on ↦
        let fb = s.client.framebuffer in
        rw on (request-Owns (size_of_int (pos 1) % 256) 0 0 fb.width fb.height s h)
    | inr off ↦ rw off h
  ]

  ignored-state : (r : Outcome (Unit {0}) × St E) → Owns n r.1 → Owns n (ignored r).1
  ignored-state (ok _, s) h = h
  ignored-state (fail _, s) h = h
  ignored-state (crash _, s) h = h

  on_event-Owns : (ev : Event) (s : St E) → Owns n s → Owns n (on_event ev s).1
  on_event-Owns =
      on_event-keeps (λ r. Owns n r.1) (λ s h. h)
        λ s h. ignored-state (request_update none (pos 1) s) (request_update-Owns s h)

module _ {E : Type 0} (sys : System E) {input output : E → List ℕ}
    (laws : IsTame input ⦃sys = sys⦄ output) where
  -- The callbacks of the example meet what is asked of callbacks.
  pub with_example-IsTame : IsTame input ⦃sys = with_example sys⦄ output
  with_example-IsTame = record {
    stream = record { receives = laws.stream.receives; sends = laws.stream.sends };
    sends_only = laws.sends_only;
    malloc_only = laws.malloc_only;
    notify_linked = λ st k ev s h. on_event-Quietly ⦃sys = sys⦄ laws (IsLinked-IsHeld st k) ev s h;
    notify_ready = λ st k ev s h. on_event-Quietly ⦃sys = sys⦄ laws (IsReady-IsHeld st k) ev s h;
    allocates = laws.allocates;
  }

module _ {E : Type 0} (sys : System E)
    (alloc : (n : ℕ) (s : St E)
      → s.client.callbacks.alloc_framebuffer ≡ true
      → Owns n s
      → Owns n (sys.alloc_framebuffer s).1) where
  -- And they keep the count of blocks.
  pub with_example-IsFrugal : IsFrugal E ⦃sys = with_example sys⦄
  with_example-IsFrugal = record { notify = on_event-Owns ⦃sys = sys⦄; alloc = alloc }
