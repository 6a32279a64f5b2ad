-- ===== src/Dispatch/Reading.antt =====
-- Reads of bytes that are known, and a callback that is told of them.
use libopenvnc.Base.{
  ℕ, ◌≡◌, refl, ap, sym, ◌∙◌, Bool, List, [], ◌∷◌, ◌++◌, length, get_or, drop, arith, if◌then◌else◌,
  Bool-cases, inl, inr,
}
use libopenvnc.State.{Client, Callbacks, Event}
use libopenvnc.Run.{Outcome, ok, fail, crash, St, System, malloc, free, notify_if}
use libopenvnc.Run.Safe.{called-EndsOr, EndsOr-mono}
use libopenvnc.Transport.Blocks.{recv_block-EndsOr}
use libopenvnc.Transport.{transport_recv, recv_block, recv_or_free, freed}
use libopenvnc.Session.{IsTame}
use libopenvnc.Session.Gives.{Yields, Gives, recv-Yields}

-- Two ways to cut a list at the same place.
cut_same : (a b x y : List ℕ) → length a ≡ length b → a ++ x ≡ b ++ y → (a ≡ b) × (x ≡ y)
cut_same [] [] x y e same = (refl, same)
cut_same [] (_ ∷ b) x y e same = absurd (omega (arith, e))
cut_same (_ ∷ a) [] x y e same = absurd (omega (arith, e))
cut_same (p ∷ a) (q ∷ b) x y e same =
    let rest = cut_same a b x y (omega (arith, e)) (ap (λ l. drop 1 l) same) in
    let first : p ≡ q = ap (λ l. get_or l 0 0) same in (rw (first, rest.0) refl, rest.1)

module _ {E : Type 0} ⦃sys : System E⦄ {input output : E → List ℕ} (laws : IsTame input output)
    (c : Client) where
  -- The client is `c`, and these bytes are to come.
  abbrev pub At : List ℕ → St E → Type 0
  At rest s = (s.client ≡ c) × (input s.world ≡ rest)

  pub recv-At :
      (bs rest : List ℕ) (n : ℕ)
      → length bs ≡ n
      → Gives (At (bs ++ rest)) (λ b s. At rest s × (b ≡ bs)) (transport_recv n)
  recv-At bs rest n size = record {
    at = λ s h.
        EndsOr-mono (Unit {0}) (transport_recv n s)
          (λ b s' r.
            let same = cut_same b bs (input s'.world) rest (r.0 ∙ sym size) (sym r.1 ∙ h.1) in
            ((r.2 ∙ h.0, same.1), same.0))
          (λ s' x. x) (recv-Yields input output laws.stream n s);
  }

  recv_block-At :
      (bs rest : List ℕ) (cap n : ℕ)
      → length bs ≡ n
      → Gives (At (bs ++ rest)) (λ b s. At rest s × (b ≡ bs)) (recv_block cap n)
  recv_block-At bs rest cap n size = record {
    at = λ s h. recv_block-EndsOr _ _ cap n s ((recv-At bs rest n size).at s h);
  }

  freed-At :
      (bs rest : List ℕ) (r : Outcome (List ℕ) × St E)
      → Yields (λ b s. At rest s × (b ≡ bs)) r
      → Yields (λ b s. At rest s × (b ≡ bs)) (freed r)
  freed-At bs rest (ok b, s) h = h
  freed-At bs rest (fail e, s) h = tt
  freed-At bs rest (crash f, s) h = tt

  pub recv_or_free-At :
      (bs rest : List ℕ) (cap n : ℕ)
      → length bs ≡ n
      → Gives (At (bs ++ rest)) (λ b s. At rest s × (b ≡ bs)) (recv_or_free cap n)
  unfolding recv_or_free
  recv_or_free-At bs rest cap n size = record {
    at = λ s h. freed-At bs rest (recv_block cap n s) ((recv_block-At bs rest cap n size).at s h);
  }

  pub malloc-At : (rest : List ℕ) (n : ℕ) → Gives (At rest) (λ _. At rest) (malloc n)
  unfolding malloc
  malloc-At rest n = record { at = λ s h. (h.0, laws.malloc_only n s.world ∙ h.1) }

  pub free-At : (rest : List ℕ) → Gives (At rest) (λ _. At rest) free
  free-At rest = record { at = λ s h. h }

  -- The callback, where it is set, was called with `ev` when the client was `c` and `rest` was to
  -- come, and only it has changed the client and the world since.
  abbrev pub Told : (Callbacks → Bool) → Event → List ℕ → St E → Type 0
  Told set ev rest s =
      (t : St E) × At rest t
      × (let u = if set c.callbacks then (sys.notify ev t).1 else t in
          (s.client ≡ u.client) × (s.world ≡ u.world))

  pub notify-Told :
      (set : Callbacks → Bool) (ev : Event) (rest : List ℕ)
      → Gives (At rest) (λ _. Told set ev rest) (notify_if set ev)
  unfolding notify_if
  notify-Told set ev rest = record {
    at = λ s h.
        let same = ap (λ (d : Client). set d.callbacks) h.0 in
        elim (Bool-cases (set c.callbacks)) [
          | inl on ↦ rw (same, on) (called-EndsOr _ _ (sys.notify ev s) (s, h, rw on (refl, refl)))
          | inr off ↦ rw (same, off) (s, h, rw off (refl, refl))
        ];
  }

  pub free-Told :
      (set : Callbacks → Bool) (ev : Event) (rest : List ℕ)
      → Gives (Told set ev rest) (λ _. Told set ev rest) free
  free-Told set ev rest = record { at = λ s h. h }
