-- ===== src/Settings/Range.antt =====
-- What every import leaves behind, whatever text it was given.
use tablet_magic.Base.{ℕ, ◌/◌, ◌%◌, ◌^◌, ◌<◌, ◌≡◌, ◌≢◌, ◌⊎◌, arith, bit_and, List}
use tablet_magic.Settings.Constants.{command_set_wacom_iv, tilt_enabled}
use tablet_magic.Int.{ℤ}
use tablet_magic.Bits.{and_ones}
use tablet_magic.Settings.{TabletSettings, import_mask, scan_state, skip_header, import_state}

-- The fields are the digits of the mask in base two, at their places: the protocol of a tablet.
pub record IsRead (mask : ℕ) (s : TabletSettings) : Type 0 where
  pub command_set : s.command_set ≡ mask / 2 ^ 30 % 4
  pub baud_rate : s.baud_rate ≡ mask / 2 ^ 28 % 4
  pub parity : s.parity ≡ mask / 2 ^ 26 % 4
  pub data_bits : s.data_bits ≡ mask / 2 ^ 25 % 2
  pub stop_bits : s.stop_bits ≡ mask / 2 ^ 24 % 2
  pub cts : s.cts ≡ mask / 2 ^ 23 % 2
  pub dsr : s.dsr ≡ mask / 2 ^ 22 % 2
  pub transfer_mode : s.transfer_mode ≡ mask / 2 ^ 20 % 4
  pub output_format : s.output_format ≡ mask / 2 ^ 19 % 2
  pub coordsys : s.coordsys ≡ mask / 2 ^ 18 % 2
  pub transfer_rate : s.transfer_rate ≡ mask / 2 ^ 16 % 4
  pub resolution : s.resolution ≡ mask / 2 ^ 14 % 4
  pub origin : s.origin ≡ mask / 2 ^ 13 % 2
  pub oor_data : s.oor_data ≡ mask / 2 ^ 12 % 2
  pub terminator : s.terminator ≡ mask / 2 ^ 10 % 4
  pub pnp : s.pnp ≡ mask / 2 ^ 8 % 2
  pub sensitivity : s.sensitivity ≡ mask / 2 ^ 7 % 2
  pub read_height : s.read_height ≡ mask / 2 ^ 6 % 2
  pub mdm : s.mdm ≡ mask / 2 ^ 5 % 2
  pub tilt : s.tilt ≡ mask / 2 ^ 4 % 2
  pub mm_comm : s.mm_comm ≡ mask / 2 ^ 3 % 2
  pub orientation : s.orientation ≡ mask / 2 ^ 2 % 2
  pub cursor_data : s.cursor_data ≡ mask / 2 ^ 1 % 2
  pub remote_mode : s.remote_mode ≡ mask / 2 ^ 0 % 2

-- Each field fits in its bits of the mask, and a packet has nine bytes in mode Wacom IV with tilt, and
-- seven in every other one.
pub record IsReported (s : TabletSettings) : Type 0 where
  pub command_set : s.command_set < 4
  pub baud_rate : s.baud_rate < 4
  pub parity : s.parity < 4
  pub data_bits : s.data_bits < 2
  pub stop_bits : s.stop_bits < 2
  pub cts : s.cts < 2
  pub dsr : s.dsr < 2
  pub transfer_mode : s.transfer_mode < 4
  pub output_format : s.output_format < 2
  pub coordsys : s.coordsys < 2
  pub transfer_rate : s.transfer_rate < 4
  pub resolution : s.resolution < 4
  pub origin : s.origin < 2
  pub oor_data : s.oor_data < 2
  pub terminator : s.terminator < 4
  pub pnp : s.pnp < 2
  pub sensitivity : s.sensitivity < 2
  pub read_height : s.read_height < 2
  pub mdm : s.mdm < 2
  pub tilt : s.tilt < 2
  pub mm_comm : s.mm_comm < 2
  pub orientation : s.orientation < 2
  pub cursor_data : s.cursor_data < 2
  pub remote_mode : s.remote_mode < 2
  pub nine : s.command_set ≡ command_set_wacom_iv → s.tilt ≡ tilt_enabled → s.packet_size ≡ 9
  pub seven : (s.command_set ≢ command_set_wacom_iv) ⊎ (s.tilt ≢ tilt_enabled) → s.packet_size ≡ 7

one-lt : (x : ℕ) → bit_and x 1 < 2
one-lt x = omega (arith, and_ones 1 x)

three-lt : (x : ℕ) → bit_and x 3 < 4
three-lt x = omega (arith, and_ones 2 x)

import_mask-IsReported :
    (mask : ℕ) (numbers : List ℤ) (s : TabletSettings) → IsReported (import_mask mask numbers s)
unfolding import_mask
import_mask-IsReported mask numbers s = record {
  command_set = three-lt _;
  baud_rate = three-lt _;
  parity = three-lt _;
  data_bits = one-lt _;
  stop_bits = one-lt _;
  cts = one-lt _;
  dsr = one-lt _;
  transfer_mode = three-lt _;
  output_format = one-lt _;
  coordsys = one-lt _;
  transfer_rate = three-lt _;
  resolution = three-lt _;
  origin = one-lt _;
  oor_data = one-lt _;
  terminator = three-lt _;
  pnp = one-lt _;
  sensitivity = one-lt _;
  read_height = one-lt _;
  mdm = one-lt _;
  tilt = one-lt _;
  mm_comm = one-lt _;
  orientation = one-lt _;
  cursor_data = one-lt _;
  remote_mode = one-lt _;
  nine = λ set tilt. ground arith;
  seven = λ other. ground arith;
}

import_mask-IsRead :
    (mask : ℕ) (numbers : List ℤ) (s : TabletSettings) → IsRead mask (import_mask mask numbers s)
unfolding import_mask
import_mask-IsRead mask numbers s = record {
  command_set = and_ones 2 _;
  baud_rate = and_ones 2 _;
  parity = and_ones 2 _;
  data_bits = and_ones 1 _;
  stop_bits = and_ones 1 _;
  cts = and_ones 1 _;
  dsr = and_ones 1 _;
  transfer_mode = and_ones 2 _;
  output_format = and_ones 1 _;
  coordsys = and_ones 1 _;
  transfer_rate = and_ones 2 _;
  resolution = and_ones 2 _;
  origin = and_ones 1 _;
  oor_data = and_ones 1 _;
  terminator = and_ones 2 _;
  pnp = and_ones 1 _;
  sensitivity = and_ones 1 _;
  read_height = and_ones 1 _;
  mdm = and_ones 1 _;
  tilt = and_ones 1 _;
  mm_comm = and_ones 1 _;
  orientation = and_ones 1 _;
  cursor_data = and_ones 1 _;
  remote_mode = and_ones 1 _;
}

-- After an import of any text every field has the value of its bits in the mask that was read, or in
-- what the variable held where no conversion fits, and is in its range; and packets have nine bytes
-- exactly in mode Wacom IV with tilt, and otherwise seven.
pub import_state-IsReported :
    (stack : ℕ) (state : List ℕ) (s : TabletSettings)
    → let s' = import_state stack state s in
      IsRead (scan_state stack (skip_header state)).0 s' × IsReported s'
unfolding import_state
import_state-IsReported stack state s =
    let (mask, numbers) = scan_state stack (skip_header state) in
    (import_mask-IsRead mask numbers s, import_mask-IsReported mask numbers s)
