-- ===== src/Client/Heap/Calls.antt =====
-- The heap blocks through any call of src/client/ovnc_client.c on a client that is past
-- ovnc_client_connect.
use libopenvnc.Base.{
  ℕ, ◌≡◌, ◌≢◌, ◌<◌, refl, ap, sym, ◌∙◌, Bool, true, false, not, ◌&&◌, Option, none, some, List, ltb,
  count, arith, length, ◌==ℤ◌, is_negative,
}
use libopenvnc.Pixel.{PixelFormat, bytes_per_pixel}
use libopenvnc.State.{Client}
use libopenvnc.Run.{St, System, Action}
use libopenvnc.Run.Both.{Ends-both}
use libopenvnc.Run.Safe.{
  Ends, SafeOr, Safe-bind, Safe-if, Safe-raise, Safe-pure, Safe-modify, Safe-gets, Safe-pre,
  Safe-err, Safe-assume,
}
use libopenvnc.Messages.{
  send_set_pixel_format, send_key_event, send_pointer_event, send_client_cut_text,
}
use libopenvnc.Client.Lifecycle.{is_connected_state, is_created, connect, set_user_data}
use libopenvnc.Client.Requests.{
  when_connected, client_send_key_event, client_send_pointer_event, client_send_cut_text,
  reallocate, change_pixel_format, set_pixel_format, set_encodings,
}
use libopenvnc.Session.{IsTame}
use libopenvnc.Handshake.Opening.{HasEncodings}
use libopenvnc.Client.Lifecycle.Connecting.{IsFresh}
use libopenvnc.Client.Calls.{
  Call, perform, Phase, idle, ready, unsettled, closed, next, IsAllowed, Reaches,
}
use libopenvnc.Client.Calls.Safety.{IsAt, perform-Ends}
use libopenvnc.Client.Heap.{Owns, Keeps, IsFrugal, Owns-IsCount, call_alloc-Keeps}
use libopenvnc.Client.Heap.Counting.{IsCount, send-Goes, malloc_if-Goes}
use libopenvnc.Client.Heap.Decoding.{free_old-Moves}
use libopenvnc.Client.Heap.Starting.{send_set_encodings-Keeps}
use libopenvnc.Client.Heap.Sessions.{
  disconnect-Moves, process_message-Keeps, run-Keeps, request_update-Keeps,
}

module _ {E : Type 0} ⦃sys : System E⦄ (frugal : IsFrugal E) (n : ℕ) where
  when_connected-Keeps : {m : Action E Unit} → Keeps E n m → Keeps E n (when_connected m)
  when_connected-Keeps h = Safe-bind (Safe-gets (λ s. s.client.state)) λ state.
      Safe-pre (λ s q. q.0)
        (Safe-if (is_connected_state state) (λ _. h) (λ _. Safe-raise _ (λ s x. x)))

  send_client_cut_text-Keeps : (text : List ℕ) (len : ℕ) → Keeps E n (send_client_cut_text text len)
  unfolding send_client_cut_text
  send_client_cut_text-Keeps text len = Safe-bind (send-Goes Owns-IsCount n _) λ _.
      Safe-if (ltb 0 len)
        (λ _.
          Safe-if (ltb (length text) len) (λ _. record { at = λ s h. tt })
            (λ _. send-Goes Owns-IsCount n _))
        (λ _. Safe-pure tt (λ s h. h))

  -- The library's framebuffer, whose block is `old`.
  abbrev Old : Option (List ℕ) → ℕ → St E → Type 0
  Old old m s =
      (Owns m s × (s.client.callbacks.alloc_framebuffer ≡ false))
      × (old ≡ s.client.framebuffer.pixels)

  Old-IsCount : (old : Option (List ℕ)) → IsCount {E = E} (Old old)
  Old-IsCount old = record {
    elsewhere = λ m s w h. h;
    taken = λ m s w h. ((omega (arith, h.0.0), h.0.1), h.1);
    given = λ m s h. ((omega (arith, h.0.0), h.0.1), h.1);
  }

  reallocate-Keeps : (size : ℕ) → Keeps E n (reallocate size)
  unfolding reallocate
  reallocate-Keeps size = Safe-bind {Q = λ _. Owns n} (Safe-modify _ (λ s h. h)) λ _.
      Safe-bind (Safe-gets (λ s. s.client)) λ c.
        Safe-if c.callbacks.alloc_framebuffer
          (λ e.
            Safe-pre
              (λ s q. (q.0, ap (λ (d : Client). d.callbacks.alloc_framebuffer) (sym q.1) ∙ e))
              (call_alloc-Keeps frugal n))
          (λ e.
            Safe-pre {P = Old c.framebuffer.pixels n}
              (λ s q. (
                (q.0, ap (λ (d : Client). d.callbacks.alloc_framebuffer) (sym q.1) ∙ e),
                ap (λ (d : Client). d.framebuffer.pixels) q.1,
              ))
              (Safe-err (λ s x. x.0.0)
                (malloc_if-Goes (Old-IsCount c.framebuffer.pixels) n n size
                  (Safe-bind (free_old-Moves frugal n c.framebuffer.pixels) λ _.
                    Safe-modify _
                      (λ s q. omega (arith, q.0, ap (λ (b : Bool). count (not b && true)) q.1)))
                  (Safe-raise _ (λ s h. h)))))

  change_pixel_format-Keeps : (fmt : PixelFormat) → Keeps E n (change_pixel_format fmt)
  unfolding change_pixel_format send_set_pixel_format
  change_pixel_format-Keeps fmt =
      Safe-if (is_negative (bytes_per_pixel fmt)) (λ _. Safe-raise _ (λ s h. h))
        (λ _. Safe-bind (send-Goes Owns-IsCount n _) λ _.
          Safe-bind (Safe-gets (λ s. s.client.framebuffer)) λ fb.
            Safe-bind {Q = λ _. Owns n} (Safe-modify _ (λ s q. q.0)) λ _.
              Safe-if (not (bytes_per_pixel fmt ==ℤ bytes_per_pixel fb.format))
                (λ _. reallocate-Keeps _) (λ _. Safe-pure tt (λ s h. h)))

  -- A call of a client that cannot be connected any more.
  past_connect :
      SafeOr {E = E}
        (Unit {0})
        (λ s. Owns n s × (is_created s.client.state ≡ false))
        (λ _. Owns n)
        (Owns n)
        connect
  unfolding connect
  past_connect = Safe-bind (Safe-gets (λ s. s.client)) λ c.
      Safe-pre {P = λ s. Owns n s × (is_created c.state ≡ false)}
        (λ s q. (q.0.0, ap (λ (d : Client). is_created d.state) q.1 ∙ q.0.1))
        (Safe-assume λ e. rw e (Safe-raise _ (λ s q. q)))

  perform-Moves :
      (patience : E → ℕ) (c : Call)
      → SafeOr {E = E}
          (Unit {0})
          (λ s. Owns n s × (is_created s.client.state ≡ false))
          (λ _. Owns n)
          (Owns n)
          (perform patience c)
  unfolding perform set_user_data set_pixel_format set_encodings client_send_cut_text
      client_send_key_event send_key_event client_send_pointer_event send_pointer_event
  perform-Moves patience Call.connect = past_connect
  perform-Moves patience Call.process_message =
      Safe-pre (λ s q. q.0) (process_message-Keeps frugal n)
  perform-Moves patience Call.run =
      Safe-pre (λ s q. q.0)
        (Safe-bind (Safe-gets (λ s. patience s.world))
          λ fuel. Safe-pre (λ s q. q.0) (run-Keeps frugal n fuel))
  perform-Moves patience (Call.request_update rect incremental) =
      Safe-pre (λ s q. q.0) (request_update-Keeps n rect incremental)
  perform-Moves patience (Call.send_key_event key down) =
      Safe-pre (λ s q. q.0) (when_connected-Keeps (send-Goes Owns-IsCount n _))
  perform-Moves patience (Call.send_pointer_event x y button_mask) =
      Safe-pre (λ s q. q.0) (when_connected-Keeps (send-Goes Owns-IsCount n _))
  perform-Moves patience (Call.send_cut_text none len) =
      Safe-pre (λ s q. q.0) (when_connected-Keeps (Safe-raise _ (λ s h. h)))
  perform-Moves patience (Call.send_cut_text (some text) len) =
      Safe-pre (λ s q. q.0) (when_connected-Keeps (send_client_cut_text-Keeps text len))
  perform-Moves patience (Call.set_pixel_format none) = Safe-raise _ (λ s q. q.0)
  perform-Moves patience (Call.set_pixel_format (some fmt)) =
      Safe-pre (λ s q. q.0) (when_connected-Keeps (change_pixel_format-Keeps fmt))
  perform-Moves patience (Call.set_encodings none len) = Safe-raise _ (λ s q. q.0)
  perform-Moves patience (Call.set_encodings (some es) len) =
      Safe-pre (λ s q. q.0) (when_connected-Keeps (send_set_encodings-Keeps frugal n es len))
  perform-Moves patience (Call.set_user_data p) = Safe-modify _ (λ s q. q.0)
  perform-Moves patience Call.disconnect = Safe-pre (λ s q. q.0) (disconnect-Moves n n)

module _ {E : Type 0} ⦃sys : System E⦄ {input output : E → List ℕ} (laws : IsTame input output)
    (no_empty : (w : E) → (sys.malloc 0 w).0 ≡ false)
    (kept : (s : St E) → HasEncodings s.client → HasEncodings (sys.alloc_framebuffer s).1.client)
    (patience : E → ℕ) (enough : (w : E) → length (input w) < patience w)
    (frugal : IsFrugal E) where
  past_idle :
      (p : Phase) (s : St E)
      → p ≢ idle
      → IsAt laws no_empty kept patience enough p s
      → is_created s.client.state ≡ false
  past_idle idle s ne h = absurd (ne refl)
  past_idle ready s ne h = ap is_created h.1.linked.state
  past_idle unsettled s ne h = ap is_created h.1.state
  past_idle closed s ne h = ap is_created h.state

  -- In the environment of `Calls.Safety.perform-Ends`, where besides the callbacks keep the count of
  -- blocks (`IsFrugal`): after any sequence of calls that has connected the client, the next call, too,
  -- has no fault and leads to the next phase, and where the heap held the client's blocks and `n` others
  -- before it, it holds the client's blocks and the same number of others after it, whether the call
  -- returns OVNC_OK or an error code. Blocks are counted here and not told apart.
  pub perform-Balanced :
      (n : ℕ) (start : St E) (p : Phase) (s : St E) (c : Call)
      → IsFresh start.client
      → Reaches patience start p s
      → p ≢ idle
      → IsAllowed p c
      → Owns n s
      → Ends
          (λ _ s'. IsAt laws no_empty kept patience enough (next p c true) s' × Owns n s')
          (λ s'. IsAt laws no_empty kept patience enough (next p c false) s' × Owns n s')
          (perform patience c s)
  perform-Balanced n start p s c fresh reached ne allowed owns =
      let (now, ends) =
        perform-Ends laws no_empty kept patience enough start p s c fresh reached allowed in
      Ends-both _ _ _ _ (perform patience c s) ends
        ((perform-Moves frugal n patience c).at s (owns, past_idle p s ne now))
