-- ===== src/Settings/Presets.antt =====
-- daemon/TabletSettings.cpp: the constructor and the `InitFor…` presets.
use tablet_magic.Base.{ℕ, Bool, if◌then◌else◌}
use tablet_magic.Int.{pos}
use tablet_magic.Format.{codes}
use tablet_magic.Settings.{TabletSettings, import_state}
use tablet_magic.Settings.Constants.{
  command_set_wacom_iis, command_set_wacom_iv, command_set_wacom_v, command_set_tablet_pc,
  baud_rate_9600, baud_rate_19200, baud_rate_38400, parity_none, data_bits_8, stop_bits_1,
  cts_disabled, dsr_disabled, transfer_mode_suppressed, output_format_binary, coord_sys_absolute,
  transfer_rate_100pps, transfer_rate_200pps, resolution_1000lpi, resolution_1270lpi,
  resolution_2540lpi, origin_ul, oor_disabled, terminator_cr, terminator_crlf, pnp_enabled,
  sensitivity_firm, read_height_8mm, mdm_disabled, mdm_enabled, tilt_disabled, tilt_enabled,
  mm_command_set_1201, orientation_landscape, cursor_data_1234, remote_mode_disabled,
  twelve_inches_1270ppi,
}

-- The constructor. The memory slot is the class's running `index`; the packet size, which it does
-- not set, is what the memory held.
unfoldable pub new_settings : ℕ → ℕ → TabletSettings
new_settings index memory = record {
  mem_slot = index;
  command_set = command_set_wacom_iv;
  baud_rate = baud_rate_9600;
  parity = parity_none;
  data_bits = data_bits_8;
  stop_bits = stop_bits_1;
  cts = cts_disabled;
  dsr = dsr_disabled;
  transfer_mode = transfer_mode_suppressed;
  output_format = output_format_binary;
  coordsys = coord_sys_absolute;
  transfer_rate = transfer_rate_100pps;
  resolution = resolution_1270lpi;
  origin = origin_ul;
  oor_data = oor_disabled;
  terminator = terminator_crlf;
  pnp = pnp_enabled;
  sensitivity = sensitivity_firm;
  read_height = read_height_8mm;
  mdm = mdm_disabled;
  tilt = tilt_enabled;
  mm_comm = mm_command_set_1201;
  orientation = orientation_landscape;
  cursor_data = cursor_data_1234;
  remote_mode = remote_mode_disabled;
  increment = pos 2;
  interval = pos 2;
  xrez = pos 1270;
  yrez = pos 1270;
  xscale = twelve_inches_1270ppi;
  yscale = twelve_inches_1270ppi;
  packet_size = memory;
}

unfoldable pub init_for_sd : ℕ → TabletSettings → TabletSettings
init_for_sd stack s = import_state stack (codes "~RA203C800,000,00,1270,1270") s

unfoldable pub init_for_pl : ℕ → TabletSettings → TabletSettings
init_for_pl stack s = import_state stack (codes "~RE202C000,001,01,1260,1260") s

unfoldable pub init_for_pen_partner : ℕ → TabletSettings → TabletSettings
init_for_pen_partner stack s = import_state stack (codes "~RE202C000,001,01,1260,1260") s

unfoldable pub init_for_intuos : TabletSettings → TabletSettings
init_for_intuos s = record {
  mem_slot = s.mem_slot;
  command_set = command_set_wacom_v;
  baud_rate = baud_rate_9600;
  parity = parity_none;
  data_bits = data_bits_8;
  stop_bits = stop_bits_1;
  cts = cts_disabled;
  dsr = dsr_disabled;
  transfer_mode = transfer_mode_suppressed;
  output_format = output_format_binary;
  coordsys = coord_sys_absolute;
  transfer_rate = transfer_rate_200pps;
  resolution = resolution_2540lpi;
  origin = origin_ul;
  oor_data = oor_disabled;
  terminator = terminator_crlf;
  pnp = pnp_enabled;
  sensitivity = sensitivity_firm;
  read_height = read_height_8mm;
  mdm = mdm_enabled;
  tilt = tilt_enabled;
  mm_comm = mm_command_set_1201;
  orientation = orientation_landscape;
  cursor_data = cursor_data_1234;
  remote_mode = remote_mode_disabled;
  increment = pos 2;
  interval = pos 2;
  xrez = pos 2540;
  yrez = pos 2540;
  xscale = pos 30480;
  yscale = pos 30480;
  packet_size = 9;
}

unfoldable pub init_for_tablet_pc : Bool → TabletSettings → TabletSettings
init_for_tablet_pc use38400 s = record {
  mem_slot = s.mem_slot;
  command_set = command_set_tablet_pc;
  baud_rate = if use38400 then baud_rate_38400 else baud_rate_19200;
  parity = parity_none;
  data_bits = data_bits_8;
  stop_bits = stop_bits_1;
  cts = cts_disabled;
  dsr = dsr_disabled;
  transfer_mode = transfer_mode_suppressed;
  output_format = output_format_binary;
  coordsys = coord_sys_absolute;
  transfer_rate = transfer_rate_200pps;
  resolution = resolution_1270lpi;
  origin = origin_ul;
  oor_data = oor_disabled;
  terminator = terminator_crlf;
  pnp = pnp_enabled;
  sensitivity = sensitivity_firm;
  read_height = read_height_8mm;
  mdm = mdm_disabled;
  tilt = tilt_enabled;
  mm_comm = mm_command_set_1201;
  orientation = orientation_landscape;
  cursor_data = cursor_data_1234;
  remote_mode = remote_mode_disabled;
  increment = pos 2;
  interval = pos 2;
  xrez = pos 1270;
  yrez = pos 1270;
  xscale = pos 24570;
  yscale = pos 18430;
  packet_size = 9;
}

unfoldable pub init_for_cal_comp : TabletSettings → TabletSettings
init_for_cal_comp s = record {
  mem_slot = s.mem_slot;
  command_set = command_set_wacom_iis;
  baud_rate = baud_rate_9600;
  parity = parity_none;
  data_bits = data_bits_8;
  stop_bits = stop_bits_1;
  cts = cts_disabled;
  dsr = dsr_disabled;
  transfer_mode = transfer_mode_suppressed;
  output_format = output_format_binary;
  coordsys = coord_sys_absolute;
  transfer_rate = transfer_rate_200pps;
  resolution = resolution_1000lpi;
  origin = origin_ul;
  oor_data = oor_disabled;
  terminator = terminator_cr;
  pnp = pnp_enabled;
  sensitivity = sensitivity_firm;
  read_height = read_height_8mm;
  mdm = mdm_disabled;
  tilt = tilt_disabled;
  mm_comm = mm_command_set_1201;
  orientation = orientation_landscape;
  cursor_data = cursor_data_1234;
  remote_mode = remote_mode_disabled;
  increment = pos 1;
  interval = pos 1;
  xrez = pos 1000;
  yrez = pos 1000;
  xscale = pos 36000;
  yscale = pos 24000;
  packet_size = 7;
}
