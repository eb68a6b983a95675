-- ===== src/Daemon/State.antt =====
-- The fields of `WacomTablet` that its handlers read and write, with the static variables of
-- `ProcessPacket`. `output` holds those of `PostChangeEvents`, and `sent` the events posted so far.
use tablet_magic.Base.{ℕ, Bool, List, Option}
use tablet_magic.Int.{ℤ}
use tablet_magic.Series.{Series}
use tablet_magic.Settings.{TabletSettings}
use tablet_magic.Protocol.Sensing.{Rect, Sensing}
use tablet_magic.Post.Cg.{CgEvent}
use tablet_magic.Post.Change.{Output}
use tablet_magic.Stylus.{Stylus}

-- The texts that `stream_event` points to.
pub data StreamEvent : Type 0 where
  eraser_disengaged pen_disengaged eraser_engaged pen_engaged : StreamEvent
  eraser_down pen_down button_click eraser_up pen_up button_release : StreamEvent

-- The stream for the preference pane. The last five are the statics bc, ot, pn, ef and bm1.
pub record StreamLog : Type 0 where
  pub send_stream : Bool
  pub stream_packet : List ℕ
  pub stream_event : Option StreamEvent
  pub stream_size : ℕ
  pub stream_pause : ℕ
  pub packet_counter : ℕ
  pub click : Bool
  pub off : Bool
  pub near : Bool
  pub eraser : Bool
  pub mask : ℕ

-- `settings[0]` is active, `settings[1]` and `settings[2]` are the memory banks. `prev_bin` is none
-- for -1. The command line's `args.command` and the path of the device are kept here too.
pub record Tablet : Type 0 where
  pub output : Output
  pub active : TabletSettings
  pub bank1 : TabletSettings
  pub bank2 : TabletSettings
  pub bank_last_requested : ℤ
  pub series : Series
  pub can_parse_ud_setup : Bool
  pub rom_version : List ℕ
  pub version_tenths : ℕ
  pub mouse_mode : Bool
  pub mapping : Rect
  pub screen : Rect
  pub screen_bounds : Rect
  pub log : StreamLog
  pub prev_bin : Option Bool
  pub queue : List (List ℕ)
  pub queue_enabled : Bool
  pub command : Bool
  pub test_mode : Bool
  pub quit_processor : Bool
  pub device_path : List ℕ
  pub sent : List CgEvent

abbrev pub set_stylus : Stylus → Tablet → Tablet
set_stylus s t = let o = t.output in record t { output = record o { stylus = s } }

-- What the interpreters read.
abbrev pub sensing : Tablet → Sensing
sensing t = record {
  settings = t.active;
  series = t.series;
  version_tenths = t.version_tenths;
  mouse_mode = t.mouse_mode;
  mapping = t.mapping;
  old_raw_pressure = t.output.old_stylus.raw_pressure;
}
