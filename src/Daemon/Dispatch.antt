-- ===== src/Daemon/Dispatch.antt =====
-- `ProcessPacket`: the interpreter for the tablet, the rule that pressure needs the tip or the
-- eraser, the stream for the preference pane, and `PostChangeEvents`.
use tablet_magic.Base.{
  ℕ, ◌+◌, Bool, false, not, ◌&&◌, ◌||◌, ltb, leb, ◌==◌, differ, if◌then◌else◌, List, ◌++◌, length,
  Option, none, some,
}
use Prim.Native.Nat.{bit_xor}
use tablet_magic.Bits.{has}
use tablet_magic.Floats.{Floats}
use tablet_magic.Series.{Series, intuos2, intuos, graphire3, graphire2, graphire, fujitsu_p}
use tablet_magic.Settings.Constants.{
  command_set_wacom_iis, command_set_wacom_iv, command_set_tablet_pc, output_format_ascii,
  output_format_binary,
}
use tablet_magic.Stylus.{Point, Stylus}
use tablet_magic.Protocol.Sensing.{byte}
use tablet_magic.Protocol.WacomIis.{process_wacom_iis_binary}
use tablet_magic.Protocol.IisAscii.{process_wacom_iis_ascii}
use tablet_magic.Protocol.WacomIv.{process_wacom_iv_13, process_wacom_iv_14}
use tablet_magic.Protocol.WacomV.{process_wacom_v}
use tablet_magic.Protocol.Graphire.{process_graphire}
use tablet_magic.Protocol.TabletPc.{process_tablet_pc}
use tablet_magic.Protocol.Fujitsu.{process_fujitsu}
use tablet_magic.Post.Change.{post_change_events}
use tablet_magic.Daemon.State.{
  StreamEvent, eraser_disengaged, pen_disengaged, eraser_engaged, pen_engaged, eraser_down,
  pen_down, button_click, eraser_up, pen_up, button_release, StreamLog, Tablet, set_stylus, sensing,
}

pub data Interpreter : Type 0 where
  for_graphire for_v for_fujitsu for_settings : Interpreter

-- `switch (series_index)`.
abbrev pub interpreter : Series → Interpreter
interpreter graphire = for_graphire
interpreter graphire2 = for_graphire
interpreter graphire3 = for_graphire
interpreter intuos = for_v
interpreter intuos2 = for_v
interpreter fujitsu_p = for_fujitsu
interpreter _ = for_settings

abbrev pub is_binary_packet : List ℕ → Bool
is_binary_packet pk = leb 128 (byte pk 0)

-- The format of the packets is noted where it changes.
unfoldable pub note_format : List ℕ → Tablet → Tablet
note_format pk t =
    let bin = is_binary_packet pk in
    let s = t.active in
    let noted = record t {
      active = record s {
        output_format = if bin then output_format_binary else output_format_ascii;
      };
      prev_bin = some bin;
    } in
    let same : Bool = elim t.prev_bin [ none ↦ false | some b ↦ not (differ b bin) ] in
    if same then t else noted

-- `switch (settings[0].command_set)`.
unfoldable pub interpret_by_settings : List ℕ → Tablet → Stylus
interpret_by_settings pk t =
    let s = t.output.stylus in
    let set = t.active.command_set in
    let size = length pk in
    if set == command_set_wacom_iis
    then (if is_binary_packet pk
        then process_wacom_iis_binary (sensing t) pk size s
        else process_wacom_iis_ascii (sensing t) pk s)
    else if set == command_set_wacom_iv
    then (if ltb t.version_tenths 14
        then process_wacom_iv_13 (sensing t) pk size s
        else process_wacom_iv_14 (sensing t) pk size s)
    else if set == command_set_tablet_pc && is_binary_packet pk
    then process_tablet_pc pk size s
    else s

-- No pressure without the tip or the eraser.
abbrev pub lift : Stylus → Stylus
lift s = record s { pressure = if has s.button_mask 9 then s.pressure else 0 }

-- `stream_event`, where the flags or the mask have changed.
unfoldable pub stream_event_of : StreamLog → Stylus → Option StreamEvent
stream_event_of l s =
    let touched = has (bit_xor s.button_mask l.mask) 9 in
    if differ l.off s.off_tablet
    then some (
        if s.off_tablet
        then (if l.eraser then eraser_disengaged else pen_disengaged)
        else if s.eraser_flag
        then eraser_engaged
        else pen_engaged)
    else if not (l.mask == s.button_mask)
    then some (
        if ltb l.mask s.button_mask
        then (if touched then (if s.eraser_flag then eraser_down else pen_down) else button_click)
        else if touched
        then (if l.eraser then eraser_up else pen_up)
        else button_release)
    else if differ l.near s.pen_near
    then some (
        if s.pen_near
        then (if s.eraser_flag then eraser_engaged else pen_engaged)
        else if s.eraser_flag
        then eraser_disengaged
        else pen_disengaged)
    else l.stream_event

unfoldable pub log_packet : List ℕ → Stylus → StreamLog → StreamLog
unfolding stream_event_of
log_packet pk s l =
    let kept = record l {
      packet_counter = l.packet_counter + 1;
      stream_size = length pk;
      stream_packet = pk;
    } in
    let changed =
      not (s.button_mask == l.mask)
      || differ l.click s.button_click
      || differ l.off s.off_tablet
      || differ l.near s.pen_near in
    let told = record kept {
      stream_event = stream_event_of l s;
      click = s.button_click;
      off = s.off_tablet;
      near = s.pen_near;
      eraser = s.eraser_flag;
      mask = s.button_mask;
    } in
    if l.send_stream && ltb l.stream_pause 1 then (if changed then told else kept) else l

module _ (fl : Floats) where
  -- The tablet with the packet interpreted.
  unfoldable pub interpret_as : Interpreter → List ℕ → Tablet → Tablet
  unfolding note_format interpret_by_settings
  interpret_as for_graphire pk t =
      set_stylus (process_graphire (sensing t) pk (length pk) t.output.stylus) t
  interpret_as for_v pk t = set_stylus (process_wacom_v pk (length pk) t.output.stylus) t
  interpret_as for_fujitsu pk t = set_stylus (process_fujitsu fl pk t.output.stylus) t
  interpret_as for_settings pk t =
      let t' = note_format pk t in set_stylus (interpret_by_settings pk t') t'

  abbrev pub interpret : List ℕ → Tablet → Tablet
  interpret pk t = interpret_as (interpreter t.series) pk t

-- `PostChangeEvents` in the tablet. The place of the stylus on the screen is given.
unfoldable pub post_changes : (Tablet → Point) → Tablet → Tablet
post_changes place t =
    let (o, events) = post_change_events (place t) t.output in
    record t { output = o; sent = t.sent ++ events }

module _ (fl : Floats) (place : Tablet → Point) where
  -- What `PostChangeEvents` finds.
  unfoldable pub prepare : List ℕ → Tablet → Tablet
  unfolding interpret_as log_packet
  prepare pk t =
      let t1 = interpret fl pk t in
      let s = lift t1.output.stylus in record (set_stylus s t1) { log = log_packet pk s t1.log }

  unfoldable pub process_packet : List ℕ → Tablet → Tablet
  unfolding prepare post_changes
  process_packet pk t = post_changes place (prepare pk t)
