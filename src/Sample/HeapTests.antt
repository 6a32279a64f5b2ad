-- ===== src/Sample/HeapTests.antt =====
-- The theorems on heap blocks at a concrete session.
use libopenvnc.Base.{◌+◌, ◌-◌, ◌≡◌, refl, ap, Bool, true, false, not, ◌&&◌, is_some, count, arith}
use libopenvnc.State.{connected}
use libopenvnc.Run.{St, try}
use libopenvnc.Run.Safe.{Ends}
use libopenvnc.Session.{IsReady}
use libopenvnc.Client.Lifecycle.{destroy}
use libopenvnc.Client.Lifecycle.Closing.{IsClosed}
use libopenvnc.Client.Process.{process_message, run}
use libopenvnc.Client.Heap.{Owns, IsFrugal}
use libopenvnc.Client.Heap.Sessions.{process_message-Balanced, run-destroy-Frees}
use libopenvnc.Handshake.Init.{allocate}
use libopenvnc.Client.Heap.Reconnect.{allocate-Loses}
use libopenvnc.Sample.{World, incoming, sample, sample-IsTame, sample-no_empty}
use libopenvnc.Sample.Tests.{start, start-IsReady}

pub sample-IsFrugal : IsFrugal World
sample-IsFrugal = record {
  notify = λ n ev s h. h;
  alloc = λ n s e h. omega (
    arith,
    h,
    ap (λ (b : Bool). count (not b && is_some s.client.framebuffer.pixels)) e,
    ap (λ (b : Bool). count (not b && true)) e,
  );
}

-- The client of `start`, with one more block that is the application's.
process_message-Balanced_example :
    Ends
      (λ _ s. IsReady incoming connected (21 - 1) s × Owns 1 s)
      (λ s. IsClosed s.client × Owns 1 s)
      (process_message start)
process_message-Balanced_example =
    process_message-Balanced sample-IsTame sample-no_empty sample-IsFrugal 1 21 start start-IsReady
      refl

-- The same client alone.
abbrev alone : St World
alone = record start { live = 4 }

alone-IsReady : IsReady incoming connected 21 alone
alone-IsReady = record {
  linked = record {
    transport = start-IsReady.linked.transport;
    state = start-IsReady.linked.state;
    pending = start-IsReady.linked.pending;
  };
  geometry = start-IsReady.geometry;
  fits = start-IsReady.fits;
}

run-destroy-Frees_example : Ends (λ _ s. s.live ≡ 0) (λ _. ⊥) (try (run 22) (λ _. destroy) alone)
run-destroy-Frees_example =
    run-destroy-Frees sample-IsTame sample-no_empty sample-IsFrugal 22 21 alone (omega arith)
      alone-IsReady refl

-- A client that has a framebuffer before it has the size of the screen.
allocate-Loses_example : Ends (λ _. Owns (1 + 1)) (Owns (1 + 1)) (allocate false 8 start)
allocate-Loses_example = allocate-Loses 1 8 start refl refl refl
