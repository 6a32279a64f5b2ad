-- ===== src/Sample/SessionTests.antt =====
-- The theorems on what is sent and shown in a session, at concrete inputs.
use libopenvnc.Base.{
  ℕ, ◌<◌, ◌≡◌, refl, some, List, [], ◌∷◌, ◌++◌, length, take, replicate, arith, pos, negsuc,
}
use libopenvnc.Wire.{write_u16}
use libopenvnc.Pixel.{bytes_per_pixel, init_default, to_wire}
use libopenvnc.State.{Rect, connected, created}
use libopenvnc.Run.Safe.{Ends}
use libopenvnc.Session.{IsLinked, IsReady}
use libopenvnc.Encoding.{decode_raw, fb_bpp, recv_pixels}
use libopenvnc.Encoding.Drawn.{Draws, decode_raw-Draws}
use libopenvnc.Messages.Server.{parse, set_encodings}
use libopenvnc.Messages.Carried.{send_message, send_message-Carries}
use libopenvnc.Handshake.{handshake}
use libopenvnc.Handshake.Init.{read_name}
use libopenvnc.Handshake.NameField.{IsNamed, Took, read_name-Names}
use libopenvnc.Handshake.Script.{HasShortList, settings_of, Opened}
use libopenvnc.Handshake.Transcript.{handshake-Opens}
use libopenvnc.Run.{ok, St, ◌>>=◌, notify_if}
use libopenvnc.Encoding.Spilling.{Spills, decode_raw-Spills}
use libopenvnc.Sample.ConnectTests.{fresh, fresh-HasEncodings}
use libopenvnc.Sample.{
  sample-IsMute, World, incoming, outgoing, sample, sample-IsStream, sample-IsTame,
}
use libopenvnc.Sample.Tests.{start, rect, rect-InRange, start-IsReady, small}

decode_raw-Draws_example :
    Ends
      (λ _ s.
        IsReady incoming connected 21 s
        × Draws sample-IsTame rect small 4 (replicate 16 0) start.world.incoming s)
      (IsLinked incoming connected 21)
      (decode_raw rect start)
unfolding bytes_per_pixel init_default
decode_raw-Draws_example =
    decode_raw-Draws sample-IsTame connected 21 rect 4 (replicate 16 0) start rect-InRange
      (λ s. (refl, refl)) start-IsReady refl refl (omega arith) (omega arith)

send_message-Carries_example :
    (bs : List ℕ) × ((rest : List ℕ)
      → parse (bs ++ rest) ≡ some (set_encodings (pos 0 ∷ negsuc 222 ∷ []), rest))
    × Ends
        (λ _ s. outgoing s.world ≡ [] ++ bs)
        (λ s. (k : ℕ) × (k < length bs) × (outgoing s.world ≡ [] ++ take k bs))
        (send_message (set_encodings (pos 0 ∷ negsuc 222 ∷ [])) start)
send_message-Carries_example =
    send_message-Carries incoming outgoing sample-IsStream (λ n w. refl) start
      (set_encodings (pos 0 ∷ negsuc 222 ∷ [])) (omega arith) (record { sock = pos 3 }, refl)

-- The client of `fresh` once its socket is connected.
abbrev linked : St World
linked = record fresh {
  client = record fresh.client { transport = some (record { sock = pos 3 }) };
}

linked-IsLinked : IsLinked incoming created 100 linked
unfolding init_default to_wire write_u16
linked-IsLinked = record {
  transport = (record { sock = pos 3 }, refl);
  state = refl;
  pending = omega arith;
}

linked-HasShortList : HasShortList (settings_of linked.client)
linked-HasShortList = record { enough = fresh-HasEncodings.enough; bound = omega arith }

handshake-Opens_example :
    Ends
      (λ _ s.
        IsReady incoming created 100 s
        × Opened outgoing (settings_of linked.client) linked.world.incoming [] s)
      (IsLinked incoming created 100)
      (handshake linked)
handshake-Opens_example =
    handshake-Opens sample-IsTame sample-IsMute (λ s. refl) 100 linked linked-IsLinked
      linked-HasShortList

-- The four bytes of a name, and nothing else to come.
abbrev naming : St World
naming = record linked {
  world = record { incoming = 86 ∷ 78 ∷ 67 ∷ 33 ∷ []; outgoing = []; events = [] };
}

read_name-Names_example :
    Ends
      (λ _ s.
        IsLinked incoming created 4 s
        × (IsNamed 4 naming.world.incoming s.client.conn_info
            × Took incoming outgoing sample-IsStream naming.world.incoming 4 s.world))
      (IsLinked incoming created 4)
      (read_name 4 naming)
read_name-Names_example =
    read_name-Names sample-IsTame 4 4 naming
      (record { transport = (record { sock = pos 3 }, refl); state = refl; pending = omega arith })
      refl

-- A row of two pixels that starts at the last one of a row of the picture.
abbrev wide : Rect
wide = record { x = 1; y = 0; width = 2; height = 1 }

-- It is accepted.
accepted : (decode_raw wide start).0 ≡ ok tt
unfolding decode_raw ◌>>=◌ fb_bpp init_default recv_pixels notify_if
accepted = refl

decode_raw-Spills_example :
    Ends
      (λ _ s.
        IsReady incoming connected 21 s × Spills sample-IsTame wide small 4 start.world.incoming s)
      (IsLinked incoming connected 21)
      (decode_raw wide start)
unfolding bytes_per_pixel init_default
decode_raw-Spills_example =
    decode_raw-Spills sample-IsTame connected 21 wide 4 (replicate 16 0) start
      (record { x = omega arith; y = omega arith; width = omega arith; height = omega arith })
      (λ s. (refl, refl)) start-IsReady refl refl refl (omega arith) (omega arith) (omega arith)
