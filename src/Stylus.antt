-- ===== src/Stylus.antt =====
-- daemon/SerialDaemon.h, `StylusState`, and the macros `SetButtons` and `ResetButtons` of
-- daemon/SerialDaemon.cpp. Screen positions are whole numbers. Of the proximity record the fields
-- that change are kept; the others are the constants that `InitStylus` writes.
use tablet_magic.Base.{ℕ, ◌+◌, ◌*◌, ◌/◌, ◌%◌, ◌^◌, Bool, not, ltb, ◌==◌, if◌then◌else◌}
use tablet_magic.Int.{ℤ, pos, ◌-ℤ◌}
use tablet_magic.Bits.{◌<<◌, has}

pub record Point : Type 0 where
  pub x : ℤ
  pub y : ℤ

abbrev pub origin_point : Point
origin_point = record { x = pos 0; y = pos 0 }

unfoldable pub point_sub : Point → Point → Point
point_sub a b = record { x = a.x -ℤ b.x; y = a.y -ℤ b.y }

-- `kToolType…`.
pub data ToolType : Type 0 where
  no_tool pen pencil brush eraser airbrush mouse lens : ToolType

pub record Proximity : Type 0 where
  pub unique_id : ℕ
  pub pointer_type : ℕ
  pub enter_proximity : Bool

pub record Stylus : Type 0 where
  pub scr_pos : Point
  pub old_pos : Point
  pub point : Point
  pub old : Point
  pub motion : Point
  pub tilt : Point
  pub raw_pressure : ℕ
  pub pressure : ℕ
  pub button_click : Bool
  pub button_mask : ℕ
  pub button : ℕ → Bool
  pub off_tablet : Bool
  pub pen_near : Bool
  pub eraser_flag : Bool
  pub menu_button : ℕ
  pub tool : ToolType
  pub toolid : ℕ
  pub serialno : ℕ
  pub rotation : ℤ
  pub wheel : ℤ
  pub throttle : ℤ
  pub proximity : Proximity

-- The places of the array `button`, of kButtonMax = 10 entries.
abbrev pub stylus_tip : ℕ
stylus_tip = 0

abbrev pub stylus_button1 : ℕ
stylus_button1 = 1

abbrev pub stylus_button2 : ℕ
stylus_button2 = 2

abbrev pub stylus_eraser : ℕ
stylus_eraser = 3

abbrev pub button_left : ℕ
button_left = 5

abbrev pub button_middle : ℕ
button_middle = 6

abbrev pub button_right : ℕ
button_right = 7

abbrev pub button_extra : ℕ
button_extra = 8

abbrev pub button_side : ℕ
button_side = 9

-- `kBitStylus…`.
abbrev pub bit_stylus_tip : ℕ
bit_stylus_tip = 1

abbrev pub bit_stylus_button1 : ℕ
bit_stylus_button1 = 2

abbrev pub bit_stylus_button2 : ℕ
bit_stylus_button2 = 4

abbrev pub bit_stylus_eraser : ℕ
bit_stylus_eraser = 8

-- `SetButtons`: the mask, the flag and every place of the array.
unfoldable pub set_buttons : ℕ → Stylus → Stylus
set_buttons x s = record s {
  button_click = not (x == 0);
  button_mask = x;
  button = λ q. has x (1 << q);
}

abbrev pub reset_buttons : Stylus → Stylus
reset_buttons s = set_buttons 0 s

-- A `char` that is widened: its 16-bit and its 32-bit pattern.
abbrev pub char_u16 : ℕ → ℕ
char_u16 b = if ltb b 128 then b else b + 0xff00

abbrev pub char_u32 : ℕ → ℕ
char_u32 b = if ltb b 128 then b else b + 0xffffff00

-- `(short)b << k`, as the pattern of an `int`.
abbrev pub char_shift : ℕ → ℕ → ℕ
char_shift b k = char_u32 b << k % 2 ^ 32

-- `PRESSURE_SCALE` and `TILT_SCALE`.
abbrev pub pressure_scale : ℕ
pressure_scale = 65535

abbrev pub tilt_scale : ℕ
tilt_scale = 32767

-- `(UInt16)(n * PRESSURE_SCALE / d)`. The product is exact in a `double`, and a quotient of such
-- numbers is never rounded up to a whole number. A result of 17 bits is cut, as the conversion
-- through an `int` does.
abbrev pub scaled_pressure : ℕ → ℕ → ℕ
scaled_pressure n d = n * pressure_scale / d % 2 ^ 16
