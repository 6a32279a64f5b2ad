-- ===== src/Run/Safe.antt =====
-- Actions without faults: from where `P` holds, `m` ends with `Q` of its value, or fails with `X`.
use libopenvnc.Base.{◌≡◌, refl, Bool, true, false, Option, none, some, if◌then◌else◌}
use libopenvnc.Error.{Error}
use libopenvnc.State.{Client}
use libopenvnc.Run.{
  Fault, Outcome, ok, fail, crash, St, Action, called, pure, raise, gets, or_raise, ◌>>=◌, and_then,
  try, settle, modify_client,
}

module _ {E A : Type 0} where
  -- How an action ended: with a value, with an error code, or with a fault, for which `C` is claimed.
  abbrev pub EndsOr : Type 0 → (A → St E → Type 0) → (St E → Type 0) → Outcome A × St E → Type 0
  EndsOr C Q X (ok a, s) = Q a s
  EndsOr C Q X (fail e, s) = X s
  EndsOr C Q X (crash f, s) = C

  pub record SafeOr (C : Type 0) (P : St E → Type 0) (Q : A → St E → Type 0) (X : St E → Type 0)
      (m : Action E A) : Type 0 where
    pub at : (s : St E) → P s → EndsOr C Q X (m s)

  -- Without a fault.
  abbrev pub Ends : (A → St E → Type 0) → (St E → Type 0) → Outcome A × St E → Type 0
  Ends = EndsOr ⊥

  abbrev pub Safe : (St E → Type 0) → (A → St E → Type 0) → (St E → Type 0) → Action E A → Type 0
  Safe = SafeOr ⊥

module _ {E A : Type 0} where
  pub EndsOr-mono :
      (D : Type 0) {Q Q' : A → St E → Type 0} {X X' : St E → Type 0} (r : Outcome A × St E)
      → ((a : A) (s : St E) → Q a s → Q' a s)
      → ((s : St E) → X s → X' s)
      → EndsOr D Q X r
      → EndsOr D Q' X' r
  EndsOr-mono D (ok a, s) q x h = q a s h
  EndsOr-mono D (fail e, s) q x h = x s h
  EndsOr-mono D (crash f, s) q x h = h

  pub Ends-mono :
      {Q Q' : A → St E → Type 0} {X X' : St E → Type 0} (r : Outcome A × St E)
      → ((a : A) (s : St E) → Q a s → Q' a s)
      → ((s : St E) → X s → X' s)
      → Ends Q X r
      → Ends Q' X' r
  Ends-mono = EndsOr-mono ⊥

module _ {E : Type 0} (P X : St E → Type 0) where
  pub called-Ends : (r : Option Fault × St E) → r.0 ≡ none → P r.1 → Ends (λ _. P) X (called r)
  called-Ends (none, s) e h = h
  called-Ends (some f, s) e h = cc

  -- A fault of the callback is left open.
  pub called-EndsOr : (r : Option Fault × St E) → P r.1 → EndsOr (Unit {0}) (λ _. P) X (called r)
  called-EndsOr (none, s) h = h
  called-EndsOr (some f, s) h = tt

module _ {C E A : Type 0} where
  -- Less to start from, more to end in.
  pub Safe-mono :
      {P P' : St E → Type 0} {Q Q' : A → St E → Type 0} {X X' : St E → Type 0} {m : Action E A}
      → ((s : St E) → P' s → P s)
      → ((a : A) (s : St E) → Q a s → Q' a s)
      → ((s : St E) → X s → X' s)
      → SafeOr C P Q X m
      → SafeOr C P' Q' X' m
  Safe-mono {m} p q x h = record { at = λ s k. EndsOr-mono C (m s) q x (h.at s (p s k)) }

  pub Safe-pre :
      {P P' : St E → Type 0} {Q : A → St E → Type 0} {X : St E → Type 0} {m : Action E A}
      → ((s : St E) → P' s → P s)
      → SafeOr C P Q X m
      → SafeOr C P' Q X m
  Safe-pre p h = record { at = λ s k. h.at s (p s k) }

  pub Safe-post :
      {P : St E → Type 0} {Q Q' : A → St E → Type 0} {X : St E → Type 0} {m : Action E A}
      → ((a : A) (s : St E) → Q a s → Q' a s)
      → SafeOr C P Q X m
      → SafeOr C P Q' X m
  Safe-post {m} q h = record { at = λ s k. EndsOr-mono C (m s) q (λ s' x. x) (h.at s k) }

  pub Safe-err :
      {P : St E → Type 0} {Q : A → St E → Type 0} {X X' : St E → Type 0} {m : Action E A}
      → ((s : St E) → X s → X' s)
      → SafeOr C P Q X m
      → SafeOr C P Q X' m
  Safe-err {m} x h = record { at = λ s k. EndsOr-mono C (m s) (λ a s' q. q) x (h.at s k) }

  pub Safe-pure :
      {P : St E → Type 0} {Q : A → St E → Type 0} {X : St E → Type 0} (a : A)
      → ((s : St E) → P s → Q a s)
      → SafeOr C P Q X (pure a)
  Safe-pure a q = record { at = q }

  pub Safe-raise :
      {P : St E → Type 0} {Q : A → St E → Type 0} {X : St E → Type 0} (e : Error)
      → ((s : St E) → P s → X s)
      → SafeOr C P Q X (raise e)
  Safe-raise e x = record { at = x }

  -- From one of several properties, whichever it is.
  pub Safe-exists :
      {I : Type 0} {P : I → St E → Type 0} {Q : A → St E → Type 0} {X : St E → Type 0}
      {m : Action E A}
      → ((i : I) → SafeOr C (P i) Q X m)
      → SafeOr C (λ s. (i : I) × P i s) Q X m
  Safe-exists h = record { at = λ s k. (h k.0).at s k.1 }

  -- A fact that does not depend on the state.
  pub Safe-assume :
      {P : St E → Type 0} {F : Type 0} {Q : A → St E → Type 0} {X : St E → Type 0} {m : Action E A}
      → (F → SafeOr C P Q X m)
      → SafeOr C (λ s. P s × F) Q X m
  Safe-assume h = record { at = λ s k. (h k.1).at s k.0 }

  -- A read of the state: what is known of the value is that it was read.
  pub Safe-gets :
      {P : St E → Type 0} {X : St E → Type 0} (f : St E → A)
      → SafeOr C P (λ a s. P s × (a ≡ f s)) X (gets f)
  Safe-gets f = record { at = λ s h. (h, refl) }

  pub Safe-if :
      {P : St E → Type 0} {Q : A → St E → Type 0} {X : St E → Type 0} (b : Bool) {m n : Action E A}
      → (b ≡ true → SafeOr C P Q X m)
      → (b ≡ false → SafeOr C P Q X n)
      → SafeOr C P Q X (if b then m else n)
  Safe-if true km kn = km refl
  Safe-if false km kn = kn refl

  pub Safe-or_raise :
      {P : St E → Type 0} {Q : A → St E → Type 0} {X : St E → Type 0} (a : A) (o : Option Error)
      → ((s : St E) → P s → Q a s)
      → ((s : St E) → P s → X s)
      → SafeOr C P Q X (or_raise a o)
  Safe-or_raise a none q x = record { at = q }
  Safe-or_raise a (some e) q x = record { at = x }

module _ {C E : Type 0} where
  pub Safe-modify :
      {P : St E → Type 0} {Q : Unit {0} → St E → Type 0} {X : St E → Type 0} (f : Client → Client)
      → ((s : St E) → P s → Q tt (record s { client = f s.client }))
      → SafeOr C P Q X (modify_client f)
  Safe-modify f q = record { at = q }

module _ {E A B : Type 0} {R : B → St E → Type 0} {X : St E → Type 0} where
  and_then-Ends :
      (C : Type 0) (Q : A → St E → Type 0) (f : A → Action E B) (r : Outcome A × St E)
      → ((a : A) → SafeOr C (Q a) R X (f a))
      → EndsOr C Q X r
      → EndsOr C R X (and_then r.0 f r.1)
  and_then-Ends C Q f (ok a, s) k h = (k a).at s h
  and_then-Ends C Q f (fail e, s) k h = h
  and_then-Ends C Q f (crash c, s) k h = h

  pub Safe-bind :
      {C : Type 0} {P : St E → Type 0} {Q : A → St E → Type 0} {m : Action E A} {f : A → Action E B}
      → SafeOr C P Q X m
      → ((a : A) → SafeOr C (Q a) R X (f a))
      → SafeOr C P R X (m >>= f)
  unfolding ◌>>=◌
  Safe-bind {C} {Q} {m} {f} h k = record { at = λ s p. and_then-Ends C Q f (m s) k (h.at s p) }

  settle-Ends :
      (C : Type 0) (Q : St E → Type 0) (Y : St E → Type 0) (f : Option Error → Action E B)
      (r : Outcome A × St E)
      → SafeOr C Q R X (f none)
      → ((e : Error) → SafeOr C Y R X (f (some e)))
      → EndsOr C (λ _ s. Q s) Y r
      → EndsOr C R X (settle r.0 f r.1)
  settle-Ends C Q Y f (ok a, s) k l h = k.at s h
  settle-Ends C Q Y f (fail e, s) k l h = (l e).at s h
  settle-Ends C Q Y f (crash c, s) k l h = h

  pub Safe-try :
      {C : Type 0} {P : St E → Type 0} {Q : St E → Type 0} {Y : St E → Type 0} {m : Action E A}
      (f : Option Error → Action E B)
      → SafeOr C P (λ _ s. Q s) Y m
      → SafeOr C Q R X (f none)
      → ((e : Error) → SafeOr C Y R X (f (some e)))
      → SafeOr C P R X (try m f)
  unfolding try
  Safe-try {C} {Q} {Y} {m} f h k l = record { at = λ s p. settle-Ends C Q Y f (m s) k l (h.at s p) }
