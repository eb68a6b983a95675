-- ===== src/Settings/Mask.antt =====
-- What a round trip through the 32-bit mask keeps of the settings: the low one or two bits of each
-- field.
use tablet_magic.Base.{ℕ, ◌+◌, ◌*◌, ◌%◌, ◌^◌, ◌<◌, ◌≡◌, ◌∙◌, arith, bit_and, List, get_or}
use tablet_magic.Int.{ℤ}
use tablet_magic.Bits.{and_ones}
use tablet_magic.Settings.{
  TabletSettings, setup_body, onebitval, twobitval, import_mask, derived_packet_size,
}

-- The low bits that the setup string has room for.
abbrev pub reported : TabletSettings → TabletSettings
reported s = record s {
  command_set = s.command_set % 4;
  baud_rate = s.baud_rate % 4;
  parity = s.parity % 4;
  data_bits = s.data_bits % 2;
  stop_bits = s.stop_bits % 2;
  cts = s.cts % 2;
  dsr = s.dsr % 2;
  transfer_mode = s.transfer_mode % 4;
  output_format = s.output_format % 2;
  coordsys = s.coordsys % 2;
  transfer_rate = s.transfer_rate % 4;
  resolution = s.resolution % 4;
  origin = s.origin % 2;
  oor_data = s.oor_data % 2;
  terminator = s.terminator % 4;
  pnp = s.pnp % 2;
  sensitivity = s.sensitivity % 2;
  read_height = s.read_height % 2;
  mdm = s.mdm % 2;
  tilt = s.tilt % 2;
  mm_comm = s.mm_comm % 2;
  orientation = s.orientation % 2;
  cursor_data = s.cursor_data % 2;
  remote_mode = s.remote_mode % 2;
}

-- The mask as a sum of fields that do not overlap.
abbrev fields_sum : TabletSettings → ℕ
fields_sum s =
    s.command_set % 4 * 2 ^ 30
    + s.baud_rate % 4 * 2 ^ 28
    + s.parity % 4 * 2 ^ 26
    + s.data_bits % 2 * 2 ^ 25
    + s.stop_bits % 2 * 2 ^ 24
    + s.cts % 2 * 2 ^ 23
    + s.dsr % 2 * 2 ^ 22
    + s.transfer_mode % 4 * 2 ^ 20
    + s.output_format % 2 * 2 ^ 19
    + s.coordsys % 2 * 2 ^ 18
    + s.transfer_rate % 4 * 2 ^ 16
    + s.resolution % 4 * 2 ^ 14
    + s.origin % 2 * 2 ^ 13
    + s.oor_data % 2 * 2 ^ 12
    + s.terminator % 4 * 2 ^ 10
    + s.pnp % 2 * 2 ^ 8
    + s.sensitivity % 2 * 2 ^ 7
    + s.read_height % 2 * 2 ^ 6
    + s.mdm % 2 * 2 ^ 5
    + s.tilt % 2 * 2 ^ 4
    + s.mm_comm % 2 * 2 ^ 3
    + s.orientation % 2 * 2 ^ 2
    + s.cursor_data % 2 * 2 ^ 1
    + s.remote_mode % 2 * 2 ^ 0

bit_and-one : (x : ℕ) → bit_and x 1 ≡ x % 2
bit_and-one x = and_ones 1 x

bit_and-three : (x : ℕ) → bit_and x 3 ≡ x % 4
bit_and-three x = and_ones 2 x

setup_body-eq-fields_sum : (s : TabletSettings) → setup_body s ≡ fields_sum s
unfolding setup_body
setup_body-eq-fields_sum s = omega (arith, bit_and-three, bit_and-one)

pub setup_body-lt : (s : TabletSettings) → setup_body s < 2 ^ 32
setup_body-lt s = omega (arith, setup_body-eq-fields_sum s)

-- Each field of the mask, as the import takes it out.
record HasFields (mask : ℕ) (s : TabletSettings) : Type 0 where
  command_set : twobitval mask 30 ≡ s.command_set % 4
  baud_rate : twobitval mask 28 ≡ s.baud_rate % 4
  parity : twobitval mask 26 ≡ s.parity % 4
  data_bits : onebitval mask 25 ≡ s.data_bits % 2
  stop_bits : onebitval mask 24 ≡ s.stop_bits % 2
  cts : onebitval mask 23 ≡ s.cts % 2
  dsr : onebitval mask 22 ≡ s.dsr % 2
  transfer_mode : twobitval mask 20 ≡ s.transfer_mode % 4
  output_format : onebitval mask 19 ≡ s.output_format % 2
  coordsys : onebitval mask 18 ≡ s.coordsys % 2
  transfer_rate : twobitval mask 16 ≡ s.transfer_rate % 4
  resolution : twobitval mask 14 ≡ s.resolution % 4
  origin : onebitval mask 13 ≡ s.origin % 2
  oor_data : onebitval mask 12 ≡ s.oor_data % 2
  terminator : twobitval mask 10 ≡ s.terminator % 4
  pnp : onebitval mask 8 ≡ s.pnp % 2
  sensitivity : onebitval mask 7 ≡ s.sensitivity % 2
  read_height : onebitval mask 6 ≡ s.read_height % 2
  mdm : onebitval mask 5 ≡ s.mdm % 2
  tilt : onebitval mask 4 ≡ s.tilt % 2
  mm_comm : onebitval mask 3 ≡ s.mm_comm % 2
  orientation : onebitval mask 2 ≡ s.orientation % 2
  cursor_data : onebitval mask 1 ≡ s.cursor_data % 2
  remote_mode : onebitval mask 0 ≡ s.remote_mode % 2

setup_body-HasFields : (s : TabletSettings) → HasFields (setup_body s) s
setup_body-HasFields s = record {
  command_set = bit_and-three _ ∙ omega (arith, setup_body-eq-fields_sum s);
  baud_rate = bit_and-three _ ∙ omega (arith, setup_body-eq-fields_sum s);
  parity = bit_and-three _ ∙ omega (arith, setup_body-eq-fields_sum s);
  data_bits = bit_and-one _ ∙ omega (arith, setup_body-eq-fields_sum s);
  stop_bits = bit_and-one _ ∙ omega (arith, setup_body-eq-fields_sum s);
  cts = bit_and-one _ ∙ omega (arith, setup_body-eq-fields_sum s);
  dsr = bit_and-one _ ∙ omega (arith, setup_body-eq-fields_sum s);
  transfer_mode = bit_and-three _ ∙ omega (arith, setup_body-eq-fields_sum s);
  output_format = bit_and-one _ ∙ omega (arith, setup_body-eq-fields_sum s);
  coordsys = bit_and-one _ ∙ omega (arith, setup_body-eq-fields_sum s);
  transfer_rate = bit_and-three _ ∙ omega (arith, setup_body-eq-fields_sum s);
  resolution = bit_and-three _ ∙ omega (arith, setup_body-eq-fields_sum s);
  origin = bit_and-one _ ∙ omega (arith, setup_body-eq-fields_sum s);
  oor_data = bit_and-one _ ∙ omega (arith, setup_body-eq-fields_sum s);
  terminator = bit_and-three _ ∙ omega (arith, setup_body-eq-fields_sum s);
  pnp = bit_and-one _ ∙ omega (arith, setup_body-eq-fields_sum s);
  sensitivity = bit_and-one _ ∙ omega (arith, setup_body-eq-fields_sum s);
  read_height = bit_and-one _ ∙ omega (arith, setup_body-eq-fields_sum s);
  mdm = bit_and-one _ ∙ omega (arith, setup_body-eq-fields_sum s);
  tilt = bit_and-one _ ∙ omega (arith, setup_body-eq-fields_sum s);
  mm_comm = bit_and-one _ ∙ omega (arith, setup_body-eq-fields_sum s);
  orientation = bit_and-one _ ∙ omega (arith, setup_body-eq-fields_sum s);
  cursor_data = bit_and-one _ ∙ omega (arith, setup_body-eq-fields_sum s);
  remote_mode = bit_and-one _ ∙ omega (arith, setup_body-eq-fields_sum s);
}

-- Importing the mask of s into t gives the fields of s, cut to their bits; the numbers, the scale
-- and the slot come from elsewhere.
pub import_mask-setup_body :
    (s t : TabletSettings) (numbers : List ℤ)
    → import_mask (setup_body s) numbers t ≡ (
        let r = reported s in
        record r {
          mem_slot = t.mem_slot;
          increment = get_or numbers 0 t.increment;
          interval = get_or numbers 1 t.interval;
          xrez = get_or numbers 2 t.xrez;
          yrez = get_or numbers 3 t.yrez;
          xscale = t.xscale;
          yscale = t.yscale;
          packet_size = derived_packet_size r.command_set r.output_format r.tilt;
        })
unfolding import_mask
import_mask-setup_body s t numbers =
    let h = setup_body-HasFields s in
    λ i. record {
      mem_slot = t.mem_slot;
      command_set = h.command_set i;
      baud_rate = h.baud_rate i;
      parity = h.parity i;
      data_bits = h.data_bits i;
      stop_bits = h.stop_bits i;
      cts = h.cts i;
      dsr = h.dsr i;
      transfer_mode = h.transfer_mode i;
      output_format = h.output_format i;
      coordsys = h.coordsys i;
      transfer_rate = h.transfer_rate i;
      resolution = h.resolution i;
      origin = h.origin i;
      oor_data = h.oor_data i;
      terminator = h.terminator i;
      pnp = h.pnp i;
      sensitivity = h.sensitivity i;
      read_height = h.read_height i;
      mdm = h.mdm i;
      tilt = h.tilt i;
      mm_comm = h.mm_comm i;
      orientation = h.orientation i;
      cursor_data = h.cursor_data i;
      remote_mode = h.remote_mode i;
      increment = get_or numbers 0 t.increment;
      interval = get_or numbers 1 t.interval;
      xrez = get_or numbers 2 t.xrez;
      yrez = get_or numbers 3 t.yrez;
      xscale = t.xscale;
      yscale = t.yscale;
      packet_size = derived_packet_size (h.command_set i) (h.output_format i) (h.tilt i);
    }
