-- ===== src/Daemon/Samples.antt =====
-- A tablet of the ArtZ series, a Tablet PC, and the numbers of their tests.
use tablet_magic.Base.{ℕ, zero, suc, ◌*◌, ◌/◌, ◌^◌, true, false, [], none}
use tablet_magic.Int.{ℤ, pos, pos_part, ◌+ℤ◌, ◌-ℤ◌}
use tablet_magic.Bits.{has, ◌<<◌}
use tablet_magic.Floats.{Floats}
use tablet_magic.Series.{art_z}
use tablet_magic.Settings.Presets.{new_settings}
use tablet_magic.Stylus.{Point, origin_point, pen, Stylus}
use tablet_magic.Protocol.Sensing.{Rect}
use tablet_magic.Post.Change.{Output, system_button1, system_button2, system_eraser}
use tablet_magic.Daemon.State.{Tablet}

-- Numbers without a fraction.
abbrev pub whole : Floats
whole = record {
  Float = ℤ;
  of_int = λ v. v;
  literal = λ n k. pos (n / 10 ^ k);
  add = λ a b. a +ℤ b;
  sub = λ a b. a -ℤ b;
  mul = λ a b. pos (pos_part a * pos_part b);
  div = λ a b. pos (pos_part a / pos_part b);
  floor = λ a. a;
  to_int = λ a. a;
  scan = λ s. none;
}

abbrev pub stylus : Stylus
stylus = record {
  scr_pos = origin_point;
  old_pos = origin_point;
  point = origin_point;
  old = origin_point;
  motion = origin_point;
  tilt = origin_point;
  raw_pressure = 0;
  pressure = 0;
  button_click = false;
  button_mask = 0;
  button = λ q. has 0 (1 << q);
  off_tablet = true;
  pen_near = false;
  eraser_flag = false;
  menu_button = 0;
  tool = pen;
  toolid = 0;
  serialno = 0;
  rotation = pos 0;
  wheel = pos 0;
  throttle = pos 0;
  proximity = record { unique_id = 0; pointer_type = 0; enter_proximity = false };
}

abbrev button_mapping : ℕ → ℕ
button_mapping zero = system_button1
button_mapping (suc zero) = 3
button_mapping (suc (suc zero)) = system_button2
button_mapping _ = system_eraser

abbrev output : Output
output = record {
  tablet_on = true;
  stylus = stylus;
  old_stylus = stylus;
  old_button_state = λ q. false;
  drag_state = false;
  button_mapping = button_mapping;
}

abbrev area : Rect
area = record { x = pos 0; y = pos 0; width = pos 5040; height = pos 3779 }

abbrev screen : Rect
screen = record { x = pos 0; y = pos 0; width = pos 1920; height = pos 1080 }

abbrev pub tablet : Tablet
tablet = record {
  output = output;
  active = new_settings 0 7;
  bank1 = new_settings 1 7;
  bank2 = new_settings 2 7;
  bank_last_requested = pos 0;
  series = art_z;
  can_parse_ud_setup = true;
  rom_version = [];
  version_tenths = 13;
  mouse_mode = false;
  mapping = area;
  screen = screen;
  screen_bounds = screen;
  log = record {
    send_stream = false;
    stream_packet = [];
    stream_event = none;
    stream_size = 0;
    stream_pause = 0;
    packet_counter = 0;
    click = false;
    off = false;
    near = false;
    eraser = false;
    mask = 0;
  };
  prev_bin = none;
  queue = [];
  queue_enabled = false;
  command = true;
  test_mode = false;
  quit_processor = false;
  device_path = [];
  sent = [];
}

abbrev pub place : Tablet → Point
place t = origin_point
