-- ===== src/Settings.antt =====
-- daemon/TabletSettings.h and daemon/TabletSettings.cpp: the settings of a tablet, their import from
-- a tablet's reply, the setup string, and the presets of the tablets that report no settings.
-- A `UInt8` is a number below 256. The fields `bankname`, `screen_width` and `screen_height`, which
-- nothing reads, are left out.
pub mod Constants
pub mod Presets
pub mod Mask
pub mod Range
pub mod RoundTrip
pub mod Synthetic
pub mod Description
pub mod Described
pub mod Tests
use tablet_magic.Base.{
  ℕ, zero, suc, ◌+◌, ◌*◌, ◌/◌, ◌%◌, ◌^◌, bit_and, Bool, true, false, ◌&&◌, ltb, ◌==◌, if◌then◌else◌,
  List, [], ◌∷◌, ◌++◌, length, drop, get_or, Option, none, some,
}
use tablet_magic.Int.{ℤ, pos}
use tablet_magic.Bits.{◌<<◌, ◌>>◌}
use tablet_magic.Format.{codes, expect, scan_int, scan_hex, print_hex, print_int}
use Constants.{command_set_wacom_iis, command_set_wacom_iv, output_format_binary, tilt_enabled}

pub record TabletSettings : Type 0 where
  pub mem_slot : ℕ
  pub command_set : ℕ
  pub baud_rate : ℕ
  pub parity : ℕ
  pub data_bits : ℕ
  pub stop_bits : ℕ
  pub cts : ℕ
  pub dsr : ℕ
  pub transfer_mode : ℕ
  pub output_format : ℕ
  pub coordsys : ℕ
  pub transfer_rate : ℕ
  pub resolution : ℕ
  pub origin : ℕ
  pub oor_data : ℕ
  pub terminator : ℕ
  pub pnp : ℕ
  pub sensitivity : ℕ
  pub read_height : ℕ
  pub mdm : ℕ
  pub tilt : ℕ
  pub mm_comm : ℕ
  pub orientation : ℕ
  pub cursor_data : ℕ
  pub remote_mode : ℕ
  pub increment : ℤ
  pub interval : ℤ
  pub xrez : ℤ
  pub yrez : ℤ
  pub xscale : ℤ
  pub yscale : ℤ
  pub packet_size : ℕ

-- `onebitval` and `twobitval`, with the mask given.
abbrev pub onebitval : ℕ → ℕ → ℕ
onebitval mask x = bit_and (mask >> x) 1

abbrev pub twobitval : ℕ → ℕ → ℕ
twobitval mask x = bit_and (mask >> x) 3

-- `onebit` and `twobit`.
abbrev pub onebit : ℕ → ℕ → ℕ
onebit x y = bit_and y 1 << x

abbrev pub twobit : ℕ → ℕ → ℕ
twobit x y = bit_and y 3 << x

-- The size that `Import` derives.
abbrev pub derived_packet_size : ℕ → ℕ → ℕ → ℕ
derived_packet_size command_set output_format tilt =
    if command_set == command_set_wacom_iis && output_format == output_format_binary
    then 7
    else if command_set == command_set_wacom_iv && tilt == tilt_enabled
    then 9
    else 7

-- Up to k further numbers, each behind a comma; the conversions stop where the text does not fit.
unfoldable pub scan_fields : ℕ → List ℕ → List ℤ
unfolding expect
scan_fields zero s = []
scan_fields (suc k) s = elim (expect b',' s) [
  | none ↦ []
  | some t ↦ elim (scan_int t) [ none ↦ [] | some (v, rest) ↦ v ∷ scan_fields k rest ]
]

-- What `sscanf(…, "%X,%d,%d,%d,%d", …)` stores: the mask, which stays what the stack held if there
-- is no number, and the leading ones of the four further numbers.
unfoldable pub scan_state : ℕ → List ℕ → ℕ × List ℤ
unfolding scan_fields
scan_state stack s = elim (scan_hex s) [
  | none ↦ (stack, [])
  | some (mask, rest) ↦ (mask, scan_fields 4 rest)
]

-- The text behind `~R`, `~*` or `~W1`.
unfoldable pub skip_header : List ℕ → List ℕ
skip_header state =
    if get_or state 0 0 == b'~'
    then (if get_or state 1 0 == b'W' then drop 3 state else drop 2 state)
    else state

-- The assignments of `Import` behind its `sscanf`.
unfoldable pub import_mask : ℕ → List ℤ → TabletSettings → TabletSettings
import_mask mask numbers s = record {
  mem_slot = s.mem_slot;
  command_set = twobitval mask 30;
  baud_rate = twobitval mask 28;
  parity = twobitval mask 26;
  data_bits = onebitval mask 25;
  stop_bits = onebitval mask 24;
  cts = onebitval mask 23;
  dsr = onebitval mask 22;
  transfer_mode = twobitval mask 20;
  output_format = onebitval mask 19;
  coordsys = onebitval mask 18;
  transfer_rate = twobitval mask 16;
  resolution = twobitval mask 14;
  origin = onebitval mask 13;
  oor_data = onebitval mask 12;
  terminator = twobitval mask 10;
  pnp = onebitval mask 8;
  sensitivity = onebitval mask 7;
  read_height = onebitval mask 6;
  mdm = onebitval mask 5;
  tilt = onebitval mask 4;
  mm_comm = onebitval mask 3;
  orientation = onebitval mask 2;
  cursor_data = onebitval mask 1;
  remote_mode = onebitval mask 0;
  increment = get_or numbers 0 s.increment;
  interval = get_or numbers 1 s.interval;
  xrez = get_or numbers 2 s.xrez;
  yrez = get_or numbers 3 s.yrez;
  xscale = s.xscale;
  yscale = s.yscale;
  packet_size = derived_packet_size (twobitval mask 30) (onebitval mask 19) (onebitval mask 4);
}

-- `Import`. The first argument is what the uninitialised `mask` holds.
unfoldable pub import_state : ℕ → List ℕ → TabletSettings → TabletSettings
unfolding scan_state skip_header import_mask
import_state stack state s =
    let (mask, numbers) = scan_state stack (skip_header state) in import_mask mask numbers s

-- The sum of `SettingsString`, an `int` whose pattern `%08X` prints.
unfoldable pub setup_body : TabletSettings → ℕ
setup_body s =
    (twobit 30 s.command_set
      + twobit 28 s.baud_rate
      + twobit 26 s.parity
      + onebit 25 s.data_bits
      + onebit 24 s.stop_bits
      + onebit 23 s.cts
      + onebit 22 s.dsr
      + twobit 20 s.transfer_mode
      + onebit 19 s.output_format
      + onebit 18 s.coordsys
      + twobit 16 s.transfer_rate
      + twobit 14 s.resolution
      + onebit 13 s.origin
      + onebit 12 s.oor_data
      + twobit 10 s.terminator
      + onebit 9 0
      + onebit 8 s.pnp
      + onebit 7 s.sensitivity
      + onebit 6 s.read_height
      + onebit 5 s.mdm
      + onebit 4 s.tilt
      + onebit 3 s.mm_comm
      + onebit 2 s.orientation
      + onebit 1 s.cursor_data
      + onebit 0 s.remote_mode)
    % 2 ^ 32

-- Numbers with their widths, each behind a comma.
unfoldable pub print_fields : List (ℕ × ℤ) → List ℕ
print_fields [] = []
print_fields ((width, v) ∷ l) = b',' ∷ print_int width v ++ print_fields l

abbrev pub tail_fields : TabletSettings → List (ℕ × ℤ)
tail_fields s = (3, s.increment) ∷ (2, s.interval) ∷ (4, s.xrez) ∷ (4, s.yrez) ∷ []

-- The text that `sprintf` makes of the settings; the argument is `notail`.
unfoldable pub setup_text : Bool → TabletSettings → List ℕ
unfolding setup_body print_fields
setup_text true s = print_hex 8 (setup_body s)
setup_text false s = print_hex 8 (setup_body s) ++ print_fields (tail_fields s)

-- `SettingsString`: the array `setstr` has 32 bytes, with the NUL behind the text.
unfoldable pub settings_string : Bool → TabletSettings → Option (List ℕ)
unfolding setup_text
settings_string notail s =
    let text = setup_text notail s in if ltb (length text) 32 then some text else none
