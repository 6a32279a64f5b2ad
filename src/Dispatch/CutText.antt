-- ===== src/Dispatch/CutText.antt =====
-- A ServerCutText message that announces 2 ^ 32 - 1 bytes of text.
use libopenvnc.Base.{
  ℕ, Option, none, lt→ltb, ◌-◌, ◌^◌, ◌<◌, ◌≡◌, ◌≢◌, refl, sym, true, some, List, [], ◌∷◌, length,
  drop, arith,
}
use mathlib.Core.Option.{some-injective}
use libopenvnc.Error.{Error}
use libopenvnc.Wire.{read_u32}
use libopenvnc.State.{Transport}
use libopenvnc.Run.{
  Outcome, ok, fail, crash, out_of_bounds, St, System, Action, and_then, ◌>>=◌, malloc,
}
use libopenvnc.Socket.{Read, socket_recv_all}
use libopenvnc.Socket.Stream.{IsStream, ReadsFrom, socket_recv_all-ReadsFrom}
use libopenvnc.Transport.{transport_recv, recv_block, recv_or_free, on_transport, stored, freed}
use libopenvnc.Dispatch.{handle_server_cut_text, deliver_text}

-- What an action without a value leads to, by the bytes that came first.
abbrev pub Overflows : {A : Type 0} → List ℕ → Outcome A → Type 0
Overflows came o = (came ≢ [] → o ≡ crash out_of_bounds) × (came ≡ [] → (e : Error) × (o ≡ fail e))

module _ {E A B : Type 0} (came : List ℕ) (k : A → Action E B) where
  -- What follows is not run.
  and_then-Overflows :
      (r : Outcome A × St E) → Overflows came r.0 → Overflows came (and_then r.0 k r.1).0
  and_then-Overflows (ok a, s) h =
      ((λ some_came. absurd (cc (h.0 some_came))), λ none_came. absurd (cc ((h.1 none_came).1)))
  and_then-Overflows (fail e, s) h =
      ((λ some_came. absurd (cc (h.0 some_came))), λ none_came. (e, refl))
  and_then-Overflows (crash f, s) h =
      ((λ some_came. cc (h.0 some_came)), λ none_came. absurd (cc ((h.1 none_came).1)))

module _ {E : Type 0} ⦃sys : System E⦄ (input output : E → List ℕ)
    (stream : IsStream input output) where
  freed-Overflows :
      (n : ℕ) (s : St E) (r : Read E)
      → 0 < n
      → ReadsFrom input n s.world r
      → Overflows r.0 (freed (stored 0 s r)).0
  freed-Overflows n s (b ∷ bs, o, w) more h =
      ((λ _. rw (lt→ltb 0 (length (b ∷ bs)) (omega arith)) refl), λ e. cc)
  freed-Overflows n s ([], ok _, w) more h = absurd (omega (arith, h.0))
  freed-Overflows n s ([], fail e, w) more h = ((λ ne. absurd (ne refl)), λ _. (e, refl))
  freed-Overflows n s ([], crash _, w) more h = absurd h

  linked-Overflows :
      (n : ℕ) (s : St E) (t : Transport) (o : Option Transport)
      → 0 < n
      → o ≡ some t
      → Overflows
          (socket_recv_all t.sock n s.world).0
          (freed (on_transport o (λ t s'. stored 0 s' (socket_recv_all t.sock n s'.world)) s)).0
  linked-Overflows n s t none more e = cc
  linked-Overflows n s t (some u) more e =
      let same : t ≡ u = sym (some-injective u t e) in
      rw same (
        freed-Overflows n s (socket_recv_all u.sock n s.world) more
          (socket_recv_all-ReadsFrom input output stream u.sock n s.world))

  deliver_text-Overflows :
      (n : ℕ) (s : St E) (t : Transport)
      → 0 < n
      → s.client.transport ≡ some t
      → Overflows (socket_recv_all t.sock n s.world).0 (deliver_text 0 n s).0
  unfolding deliver_text recv_or_free recv_block ◌>>=◌
  deliver_text-Overflows n s t more linked =
      and_then-Overflows _ _ (recv_or_free 0 n s)
        (linked-Overflows n s t s.client.transport more linked)

  -- With sockets that are byte streams (`Socket.Stream.IsStream`), where the header of a ServerCutText has
  -- been read that announces 2 ^ 32 - 1 bytes, the client has a transport and `malloc(0)` returns a
  -- pointer that is not NULL: `length + 1` wraps to 0, and handle_server_cut_text writes outside its block
  -- where at least one byte of the text comes. Where none comes it returns an error code. So it does not
  -- return OVNC_OK.
  pub handle_server_cut_text-overflows :
      (s s' : St E) (header : List ℕ) (t : Transport)
      → transport_recv 7 s ≡ (ok header, s')
      → read_u32 (drop 3 header) ≡ 2 ^ 32 - 1
      → s'.client.transport ≡ some t
      → (sys.malloc 0 s'.world).0 ≡ true
      → let came = (socket_recv_all t.sock (2 ^ 32 - 1) (sys.malloc 0 s'.world).1).0 in
        let o = (handle_server_cut_text s).0 in
        (came ≢ [] → o ≡ crash out_of_bounds) × (came ≡ [] → (e : Error) × (o ≡ fail e))
  unfolding handle_server_cut_text ◌>>=◌ malloc
  handle_server_cut_text-overflows s s' header t got long linked found =
      rw (got, long, found) (deliver_text-Overflows (2 ^ 32 - 1) _ t (omega arith) linked)
