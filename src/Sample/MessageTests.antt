-- ===== src/Sample/MessageTests.antt =====
-- The theorem on the messages of a server at a concrete message.
use libopenvnc.Base.{ℕ, ◌-◌, refl, List, [], ◌∷◌, ◌++◌, arith}
use libopenvnc.Wire.{write_u32}
use libopenvnc.State.{Callbacks, Event, connected}
use libopenvnc.Run.{St}
use libopenvnc.Run.Safe.{Ends}
use libopenvnc.Session.{IsLinked, IsReady}
use libopenvnc.Dispatch.{recv_server_message}
use libopenvnc.Dispatch.Protocol.{cut_text, on_wire}
use libopenvnc.Dispatch.Reading.{Told}
use libopenvnc.Dispatch.Delivered.{recv_server_message-Delivers}
use libopenvnc.Sample.{World, incoming, sample, sample-IsTame, sample-no_empty}
use libopenvnc.Sample.Tests.{start, start-IsReady}

-- The text "hi", and a bell behind it.
abbrev hi : List ℕ
hi = b'h' ∷ b'i' ∷ []

abbrev texted : St World
texted = record start {
  world = record { incoming = on_wire 1 2 3 (cut_text hi) ++ (2 ∷ []); outgoing = []; events = [] };
}

texted-IsReady : IsReady incoming connected 11 texted
unfolding write_u32
texted-IsReady = record {
  linked = record {
    transport = start-IsReady.linked.transport;
    state = refl;
    pending = omega arith;
  };
  geometry = start-IsReady.geometry;
  fits = start-IsReady.fits;
}

recv_server_message-Delivers_example :
    Ends
      (λ _ s.
        IsReady incoming connected (11 - 1) s
        × Told sample-IsTame texted.client
            (λ (c : Callbacks). c.server_cut_text)
            (Event.server_cut_text hi 2)
            (2 ∷ [])
            s)
      (IsLinked incoming connected 11)
      (recv_server_message texted)
recv_server_message-Delivers_example =
    recv_server_message-Delivers sample-IsTame sample-no_empty connected 11 1 2 3 (cut_text hi)
      (2 ∷ []) texted (omega arith) refl texted-IsReady
