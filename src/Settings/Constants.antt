-- ===== src/Settings/Constants.antt =====
-- common/Constants.h: the values that the fields of the settings take.
use tablet_magic.Base.{ℕ}
use tablet_magic.Int.{ℤ, pos}

abbrev pub command_set_bitpad_ii : ℕ
command_set_bitpad_ii = 0

abbrev pub command_set_mm1201 : ℕ
command_set_mm1201 = 1

abbrev pub command_set_wacom_iis : ℕ
command_set_wacom_iis = 2

abbrev pub command_set_wacom_iv : ℕ
command_set_wacom_iv = 3

abbrev pub command_set_wacom_v : ℕ
command_set_wacom_v = 4

abbrev pub command_set_tablet_pc : ℕ
command_set_tablet_pc = 5

abbrev pub baud_rate_9600 : ℕ
baud_rate_9600 = 2

abbrev pub baud_rate_19200 : ℕ
baud_rate_19200 = 3

abbrev pub baud_rate_38400 : ℕ
baud_rate_38400 = 4

abbrev pub parity_none : ℕ
parity_none = 0

abbrev pub data_bits_8 : ℕ
data_bits_8 = 1

abbrev pub stop_bits_1 : ℕ
stop_bits_1 = 0

abbrev pub cts_disabled : ℕ
cts_disabled = 0

abbrev pub dsr_disabled : ℕ
dsr_disabled = 0

abbrev pub transfer_mode_suppressed : ℕ
transfer_mode_suppressed = 0

abbrev pub output_format_binary : ℕ
output_format_binary = 0

abbrev pub output_format_ascii : ℕ
output_format_ascii = 1

abbrev pub coord_sys_absolute : ℕ
coord_sys_absolute = 0

abbrev pub coord_sys_relative : ℕ
coord_sys_relative = 1

abbrev pub transfer_rate_100pps : ℕ
transfer_rate_100pps = 2

abbrev pub transfer_rate_200pps : ℕ
transfer_rate_200pps = 4

abbrev pub resolution_1000lpi : ℕ
resolution_1000lpi = 2

abbrev pub resolution_1270lpi : ℕ
resolution_1270lpi = 3

abbrev pub resolution_2540lpi : ℕ
resolution_2540lpi = 4

abbrev pub origin_ul : ℕ
origin_ul = 0

abbrev pub origin_ll : ℕ
origin_ll = 1

abbrev pub oor_disabled : ℕ
oor_disabled = 0

abbrev pub terminator_cr : ℕ
terminator_cr = 0

abbrev pub terminator_crlf : ℕ
terminator_crlf = 2

abbrev pub pnp_enabled : ℕ
pnp_enabled = 1

abbrev pub sensitivity_firm : ℕ
sensitivity_firm = 0

abbrev pub read_height_8mm : ℕ
read_height_8mm = 0

abbrev pub mdm_disabled : ℕ
mdm_disabled = 0

abbrev pub mdm_enabled : ℕ
mdm_enabled = 1

abbrev pub tilt_disabled : ℕ
tilt_disabled = 0

abbrev pub tilt_enabled : ℕ
tilt_enabled = 1

abbrev pub mm_command_set_1201 : ℕ
mm_command_set_1201 = 0

abbrev pub orientation_landscape : ℕ
orientation_landscape = 0

abbrev pub cursor_data_1234 : ℕ
cursor_data_1234 = 0

abbrev pub remote_mode_disabled : ℕ
remote_mode_disabled = 0

abbrev pub twelve_inches_1270ppi : ℤ
twelve_inches_1270ppi = pos 15240
