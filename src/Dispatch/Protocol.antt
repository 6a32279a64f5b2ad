-- ===== src/Dispatch/Protocol.antt =====
-- The messages of a server that have no rectangles, from RFC 6143, section 7.6: what they are on the
-- wire, and what they tell an application.
use libopenvnc.Base.{ℕ, ◌-◌, ◌^◌, ◌<◌, Bool, List, [], ◌∷◌, ◌++◌, length, All}
use libopenvnc.Wire.{write_u16, write_u32}
use libopenvnc.State.{Callbacks, Event}
use libopenvnc.Dispatch.Colors.{Color, IsColor, color_bytes, channel}

-- SetColorMapEntries (with the first color), Bell and ServerCutText.
pub data ServerMessage : Type 0 where
  color_map : ℕ → List Color → ServerMessage
  bell : ServerMessage
  cut_text : List ℕ → ServerMessage

-- The fields fit; the longest text of all is left out.
abbrev pub IsMessage : ServerMessage → Type 0
IsMessage (color_map first colors) =
    (first < 2 ^ 16) × (length colors < 2 ^ 16) × All IsColor colors
IsMessage bell = Unit {0}
IsMessage (cut_text text) = length text < 2 ^ 32 - 1

-- The bytes of a message, with any bytes as its padding.
abbrev pub on_wire : ℕ → ℕ → ℕ → ServerMessage → List ℕ
on_wire pad pad2 pad3 (color_map first colors) =
    1 ∷ pad ∷ (write_u16 first ++ (write_u16 (length colors) ++ color_bytes colors))
on_wire pad pad2 pad3 bell = 2 ∷ []
on_wire pad pad2 pad3 (cut_text text) = 3 ∷ pad ∷ pad2 ∷ pad3 ∷ (write_u32 (length text) ++ text)

-- The callback for it, and its arguments.
abbrev pub callback_for : ServerMessage → Callbacks → Bool
callback_for (color_map first colors) c = c.color_map_update
callback_for bell c = c.bell
callback_for (cut_text text) c = c.server_cut_text

abbrev pub event_of : ServerMessage → Event
event_of (color_map first colors) =
    Event.color_map_update first (length colors) (channel (λ c. c.red) colors)
      (channel (λ c. c.green) colors) (channel (λ c. c.blue) colors)
event_of bell = Event.bell
event_of (cut_text text) = Event.server_cut_text text (length text)
