-- ===== src/Run/Both.antt =====
-- What is shown without a fault, and what is shown where a fault is left open, hold together.
use libopenvnc.Run.{Outcome, ok, fail, crash, St, Action}
use libopenvnc.Run.Safe.{Ends, EndsOr, Safe, SafeOr}

module _ {E A : Type 0} where
  pub Ends-both :
      (Q R : A → St E → Type 0) (X Y : St E → Type 0) (r : Outcome A × St E)
      → Ends Q X r
      → EndsOr (Unit {0}) R Y r
      → Ends (λ a s. Q a s × R a s) (λ s. X s × Y s) r
  Ends-both Q R X Y (ok a, s) h g = (h, g)
  Ends-both Q R X Y (fail e, s) h g = (h, g)
  Ends-both Q R X Y (crash f, s) h g = h

  pub Safe-both :
      {P O : St E → Type 0} {Q R : A → St E → Type 0} {X Y : St E → Type 0} {m : Action E A}
      → Safe P Q X m
      → SafeOr (Unit {0}) O R Y m
      → Safe (λ s. P s × O s) (λ a s. Q a s × R a s) (λ s. X s × Y s) m
  Safe-both {Q} {R} {X} {Y} {m} h g = record {
    at = λ s q. Ends-both Q R X Y (m s) (h.at s q.0) (g.at s q.1);
  }
