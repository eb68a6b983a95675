-- ===== src/Control/Tests.antt =====
-- The commands and messages with a concrete device.
use tablet_magic.Base.{
  ℕ, zero, suc, ◌<◌, ◌≡◌, refl, arith, true, false, List, [], ◌∷◌, ◌++◌, drop, length, none, some,
}
use tablet_magic.Int.{pos, ◌+ℤ◌}
use tablet_magic.Format.{
  codes, c_string, print_hex, print_int, scan_hex, scan_digits, skip_prefix, hex_run, scan_int,
  scan_decimal, dec_run,
}
use tablet_magic.Stream.Packets.{idle}
use tablet_magic.Series.{tablet_pc}
use tablet_magic.Daemon.State.{Tablet}
use tablet_magic.Daemon.Identify.{begins_with}
use tablet_magic.Daemon.Reply.{
  log_reply, set_bank, import_bank, import_at, reply_bank, reply_settings, reply_kind,
  process_command_reply,
}
use tablet_magic.Settings.{import_state, setup_text, settings_string}
use tablet_magic.Daemon.Queue.{message_info}
use tablet_magic.Port.{read_line}
use tablet_magic.Daemon.Samples.{whole, tablet}
use tablet_magic.Control.World.{Device, World, port_read_line}
use tablet_magic.Control.Send.{
  read_setting, note_bank, get_ud_settings_or_fail, send_request, send_command,
}
use tablet_magic.Control.Tries.{
  Missed, none_yet, missed, get_ud_settings_or_fail-answered, get_ud_settings_or_fail-silent,
}
use tablet_magic.Control.Initialize.{initialize_tablet}
use tablet_magic.Control.Forced.{IsForced, initialize_tablet-IsForced}
use tablet_magic.Control.Parse.{set_memory, token, argument, parse_command}
use tablet_magic.Control.Parsed.{parse_command-token, parse_command-Names}
use tablet_magic.Control.Answers.{message_geometry}
use tablet_magic.Control.Handle.{scan_numbers, geometry_format, set_geometry}
use tablet_magic.Control.Areas.{IsArea}
use tablet_magic.Control.Geometry.{IsTold, change_geometry-message_geometry}

parse_command-token_example :
    parse_command (token set_memory ++ codes " 1 E202") ≡ some (set_memory, codes "1 E202")
unfolding argument c_string
parse_command-token_example = parse_command-token set_memory (codes " 1 E202") (codes "1 E202") refl

parse_command-Names_example :
    let m = codes "setmem 1 E202" in
    (c_string m ≡ token set_memory ++ drop (length (token set_memory)) (c_string m))
    × (argument (drop (length (token set_memory)) (c_string m)) ≡ some (codes "1 E202"))
unfolding parse_command argument c_string token
parse_command-Names_example =
    parse_command-Names (codes "setmem 1 E202") set_memory (codes "1 E202") refl

tablet-mapping-IsArea : IsArea 2147483648 tablet.mapping
unfolding ◌+ℤ◌
tablet-mapping-IsArea = record {
  x_least = omega arith;
  y_least = omega arith;
  wide = omega arith;
  high = omega arith;
  x_ends = omega arith;
  y_ends = omega arith;
}

tablet-screen-IsArea : IsArea 32768 tablet.screen
unfolding ◌+ℤ◌
tablet-screen-IsArea = record {
  x_least = omega arith;
  y_least = omega arith;
  wide = omega arith;
  high = omega arith;
  x_ends = omega arith;
  y_ends = omega arith;
}

buttons_small : (q : ℕ) → tablet.output.button_mapping q < 2147483648
buttons_small q = ground arith

abbrev other : Tablet
other = record tablet { mouse_mode = true; mapping = tablet.screen }

change_geometry-message_geometry_example :
    IsTold
      (set_geometry
        (λ i. pos 0)
        (scan_numbers geometry_format (drop 6 (message_geometry (codes "1.0000") tablet))).0
        other)
      tablet
change_geometry-message_geometry_example =
    change_geometry-message_geometry (λ i. pos 0) (codes "1.0000") tablet other
      tablet-mapping-IsArea tablet-screen-IsArea buttons_small

-- The state lists what the device will say; each read takes the next.
abbrev next : List (List ℕ) → List ℕ
next [] = []
next (text ∷ later) = text

abbrev later : List (List ℕ) → List (List ℕ)
later [] = []
later (text ∷ l) = l

abbrev device : Device
device = record {
  State = List (List ℕ);
  write = λ b s. (pos (length b), s);
  arriving = next;
  leave = λ rest s. later s;
  flush = λ s. s;
  wait = λ s. s;
  matching = λ name s. [];
  close = λ s. s;
  set_speed = λ v s. s;
  speed = λ s. 9600;
  is_active = λ s. true;
  reinit = λ t s. s;
}

abbrev world : List (List ℕ) → World device
world said = record {
  tablet = tablet;
  args = record {
    forcepc = false;
    hackintosh = false;
    baud38400 = false;
    init = none;
    port = none;
  };
  framer = idle;
  scaling = codes "1.0000";
  port = said;
}

abbrev mute : List ℕ
mute = 0xe0 ∷ 1 ∷ 2 ∷ []

missed_one :
    (said : List (List ℕ))
    → send_request device (read_setting 0) (world (mute ∷ said)) ≡ some ([], world said)
unfolding send_request send_command port_read_line read_line note_bank c_string begins_with
missed_one said = refl

abbrev reply : List ℕ
reply = codes "~RE203C900,002,02,1270,1270"

answered :
    send_request device (read_setting 0) (world ((reply ++ b'\r' ∷ []) ∷ []))
    ≡ some (reply, world [])
unfolding send_request send_command port_read_line read_line note_bank c_string begins_with
answered = refl

abbrev imported : Tablet
imported = record (set_bank 0 (import_state 0 reply tablet.active) tablet) {
  queue = codes "[info] 0 E203C900,002,02,1270,1270 active" ∷ [];
}

taken : process_command_reply whole 0 reply tablet ≡ some imported
unfolding process_command_reply reply_kind reply_settings import_at import_bank reply_bank log_reply
    c_string message_info settings_string setup_text print_hex print_int import_state scan_hex
    scan_digits skip_prefix hex_run scan_int scan_decimal dec_run
taken = refl

-- The first request brings no reply, the second one does.
get_ud_settings_or_fail-answered_example :
    get_ud_settings_or_fail device whole 0 0 (world (mute ∷ (reply ++ b'\r' ∷ []) ∷ []))
    ≡ some (true, record (world []) { tablet = imported })
get_ud_settings_or_fail-answered_example =
    get_ud_settings_or_fail-answered device whole 0 0 1 (world (mute ∷ (reply ++ b'\r' ∷ []) ∷ []))
      (world ((reply ++ b'\r' ∷ []) ∷ [])) (world []) imported reply (omega arith)
      (missed [] (missed_one _) refl none_yet) answered refl taken

-- A device that is silent.
quiet : send_request device (read_setting 0) (world []) ≡ some ([], world [])
unfolding send_request send_command port_read_line read_line note_bank c_string begins_with
quiet = refl

silence : (n : ℕ) → Missed device whole 0 0 n (world []) (world [])
silence zero = none_yet
silence (suc n) = missed [] quiet refl (silence n)

get_ud_settings_or_fail-silent_example :
    get_ud_settings_or_fail device whole 0 0 (world []) ≡ some (false, world [])
get_ud_settings_or_fail-silent_example =
    get_ud_settings_or_fail-silent device whole 0 0 (world []) (world []) (silence 15)

-- A machine that is a TabletPC by the word of the command line.
abbrev forced : World device
forced = record (world []) {
  args = record { forcepc = true; hackintosh = false; baud38400 = false; init = none; port = none };
}

initialize_tablet-IsForced_example :
    IsForced device forced (initialize_tablet device whole 0 tablet_pc forced)
initialize_tablet-IsForced_example = initialize_tablet-IsForced device whole 0 forced refl
