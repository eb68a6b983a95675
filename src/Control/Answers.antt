-- ===== src/Control/Answers.antt =====
-- The answers of the daemon that are no messages of the queue: `GetMessageStream`,
-- `GetMessageGeometry` and `GetMessageSerialPort`, with `ReadablePacket`.
use tablet_magic.Base.{
  ℕ, Bool, ◌||◌, ◌==◌, if◌then◌else◌, List, [], ◌∷◌, ◌++◌, take, Option, none, some,
}
use tablet_magic.Int.{ℤ, pos, ◌-ℤ◌}
use tablet_magic.Format.{codes, c_string, print_hex}
use tablet_magic.Protocol.Sensing.{Rect, max_x, max_y}
use tablet_magic.Stylus.{stylus_tip, stylus_button1, stylus_button2, stylus_eraser}
use tablet_magic.Daemon.State.{
  StreamEvent, eraser_disengaged, pen_disengaged, eraser_engaged, pen_engaged, eraser_down,
  pen_down, button_click, eraser_up, pen_up, button_release, Tablet,
}
use tablet_magic.Daemon.Queue.{spaced}

-- `%02X` of each byte, with spaces between them.
unfoldable pub hex_bytes : List ℕ → List ℕ
hex_bytes [] = []
hex_bytes (b ∷ []) = print_hex 2 b
hex_bytes (b ∷ c ∷ rest) = print_hex 2 b ++ (b' ' ∷ hex_bytes (c ∷ rest))

-- A packet of seven or nine bytes; anything else is text.
unfoldable pub readable_packet : ℕ → List ℕ → List ℕ
unfolding hex_bytes c_string
readable_packet size pk = if size == 7 || size == 9 then hex_bytes (take size pk) else c_string pk

unfoldable pub event_text : Option StreamEvent → List ℕ
event_text none = codes "---"
event_text (some eraser_disengaged) = codes "Eraser Disengaged"
event_text (some pen_disengaged) = codes "Pen Disengaged"
event_text (some eraser_engaged) = codes "Eraser Engaged"
event_text (some pen_engaged) = codes "Pen Engaged"
event_text (some eraser_down) = codes "Eraser Down"
event_text (some pen_down) = codes "Pen Down"
event_text (some button_click) = codes "Button Click"
event_text (some eraser_up) = codes "Eraser Up"
event_text (some pen_up) = codes "Pen Up"
event_text (some button_release) = codes "Button Release"

-- Numbers, each behind a space.
abbrev pub numbers : List ℤ → List ℕ
numbers [] = []
numbers (v ∷ l) = spaced v ++ numbers l

-- Groups of numbers, each behind " :".
abbrev pub groups : List (List ℤ) → List ℕ
groups [] = []
groups (g ∷ l) = codes " :" ++ (numbers g ++ groups l)

abbrev pub flag : Bool → ℤ
flag b = if b then pos 1 else pos 0

-- The two rates are those of the last second. The size of the packet is taken to 0.
unfoldable pub message_stream : ℕ → ℕ → Tablet → List ℕ × Tablet
unfolding readable_packet event_text
message_stream bytes_per_second packets_per_second t =
    let s = t.output.stylus in
    let l = t.log in
    let text =
      codes "[raw] "
      ++ (readable_packet l.stream_size l.stream_packet
          ++ (b':' ∷ event_text l.stream_event
              ++ (b':' ∷ numbers (pos t.active.command_set ∷ pos t.active.output_format ∷ [])
                  ++ groups (
                      (s.point.x ∷ s.point.y ∷ [])
                      ∷ (s.tilt.x ∷ s.tilt.y ∷ [])
                      ∷ (pos 0 ∷ [])
                      ∷ (flag (s.button stylus_tip)
                          ∷ flag (s.button stylus_button1)
                          ∷ flag (s.button stylus_button2)
                          ∷ flag (s.button stylus_eraser)
                          ∷ [])
                      ∷ (pos s.pressure ∷ [])
                      ∷ (pos bytes_per_second ∷ pos packets_per_second ∷ [])
                      ∷ [])))) in
    if l.stream_size == 0
    then (codes "[noraw]", t)
    else (text, record t { log = record l { stream_size = 0 } })

abbrev pub corners : Rect → List ℤ
corners r = r.x ∷ r.y ∷ (max_x r -ℤ pos 1) ∷ (max_y r -ℤ pos 1) ∷ []

-- `scaling` is the text of the mouse scaling, `%.4f`.
unfoldable pub message_geometry : List ℕ → Tablet → List ℕ
unfolding max_x max_y
message_geometry scaling t =
    let m = t.output.button_mapping in
    codes "[geom]"
    ++ (numbers (corners t.mapping)
        ++ (groups (
              corners t.screen
              ∷ (pos (m stylus_tip)
                  ∷ pos (m stylus_button1)
                  ∷ pos (m stylus_button2)
                  ∷ pos (m stylus_eraser)
                  ∷ [])
              ∷ (flag t.mouse_mode ∷ [])
              ∷ [])
            ++ (b' ' ∷ scaling)))

unfoldable pub message_serial_port : Option (List ℕ) → List ℕ
message_serial_port none = codes "[port]"
message_serial_port (some name) = codes "[port] " ++ name
