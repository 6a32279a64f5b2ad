-- ===== src/Sample/WinsockTests.antt =====
-- The theorem on the platform counter of Windows, with a Winsock that only counts.
use libopenvnc.Base.{ℕ, ◌+◌, refl, pos}
use libopenvnc.Winsock.{Winsock, Platform}
use libopenvnc.Winsock.Balance.{Call, call, Reaches, IsCounted, IsBalanced, Reaches-IsBalanced}

instance abbrev counter : Winsock (ℕ × ℕ)
counter = record {
  wsa_startup = λ v n. (0, (n.0 + 1, n.1));
  wsa_cleanup = λ n. (n.0, n.1 + 1);
  closesocket = λ sock n. n;
}

counter-IsCounted : IsCounted (λ (n : ℕ × ℕ). n.0) (λ (n : ℕ × ℕ). n.1)
counter-IsCounted = record {
  starts = λ v w e. refl;
  refuses = λ v w e. cc;
  starting = λ v w. refl;
  cleans = λ w. refl;
  cleaning = λ w. refl;
  closes = λ sock w. (refl, refl);
}

abbrev before : Platform (ℕ × ℕ)
before = record { init_count = 0; world = (0, 0) }

-- Two clients are opened, both are closed, and there is one clean-up too many.
abbrev between : Platform (ℕ × ℕ)
between = call Call.cleanup (
    call Call.cleanup
      (call Call.cleanup (call (Call.close (pos 3)) (call Call.init (call Call.init before)))))

between-Reaches : Reaches before between
between-Reaches = Reaches.later Call.cleanup (
    Reaches.later Call.cleanup (
      Reaches.later Call.cleanup (
        Reaches.later (Call.close (pos 3))
          (Reaches.later Call.init (Reaches.later Call.init Reaches.nothing)))))

Reaches-IsBalanced_example : IsBalanced (λ n. n.0) (λ n. n.1) counter-IsCounted between
Reaches-IsBalanced_example =
    Reaches-IsBalanced (λ n. n.0) (λ n. n.1) counter-IsCounted before between between-Reaches refl
