-- ===== src/Daemon/Reset.antt =====
-- `InitStylus`, `ResetStylus`, `SetMouseMode`, `SetStreamLogging` and `SetProcessing`.
use tablet_magic.Base.{ℕ, Bool, true, false, differ, if◌then◌else◌, none}
use tablet_magic.Stylus.{Point, origin_point, pen, Stylus, reset_buttons}
use tablet_magic.Post.Cg.{short_min}
use tablet_magic.Daemon.State.{Tablet, set_stylus}
use tablet_magic.Daemon.Dispatch.{post_changes}

-- `kToolPen1`.
abbrev pub tool_pen1 : ℕ
tool_pen1 = 0x822

-- The stylus as it starts, at the place where the system's cursor is.
unfoldable pub fresh_stylus : Point → Stylus → Stylus
fresh_stylus cursor s0 =
    let s = reset_buttons s0 in
    let near = s.proximity in
    record s {
      toolid = tool_pen1;
      tool = pen;
      serialno = 0;
      off_tablet = true;
      pen_near = false;
      eraser_flag = false;
      menu_button = 0;
      raw_pressure = 0;
      pressure = 0;
      tilt = origin_point;
      point = origin_point;
      scr_pos = cursor;
      old_pos = record { x = short_min; y = short_min };
      proximity = record near { unique_id = 0 };
    }

unfoldable pub init_stylus : Point → Tablet → Tablet
unfolding fresh_stylus
init_stylus cursor t =
    let o = t.output in
    let s = fresh_stylus cursor o.stylus in
    record t { output = record o { stylus = s; old_stylus = s; old_button_state = λ q. false } }

-- As if the pen were taken off the tablet.
unfoldable pub released_stylus : Stylus → Stylus
released_stylus s0 =
    let s = reset_buttons s0 in
    record s {
      off_tablet = true;
      pen_near = false;
      eraser_flag = false;
      menu_button = 0;
      pressure = 0;
      tilt = origin_point;
    }

unfoldable pub reset_stylus : (Tablet → Point) → Tablet → Tablet
unfolding released_stylus post_changes
reset_stylus place t = post_changes place (set_stylus (released_stylus t.output.stylus) t)

abbrev pub set_processing : Bool → Tablet → Tablet
set_processing on t = let o = t.output in record t { output = record o { tablet_on = on } }

abbrev pub set_mouse_mode : Bool → Tablet → Tablet
set_mouse_mode on t =
    let s = t.output.stylus in
    record (set_stylus (record s { old_pos = s.scr_pos }) t) { mouse_mode = on }

-- The size and the event of the stream start anew where it is switched on.
unfoldable pub set_stream_logging : Bool → Tablet → Tablet
set_stream_logging on t =
    let l = t.log in
    let changed = record l {
      send_stream = on;
      stream_pause = 0;
      packet_counter = 0;
      stream_size = if on then 0 else l.stream_size;
      stream_event = if on then none else l.stream_event;
    } in
    if differ on l.send_stream then record t { log = changed } else t
