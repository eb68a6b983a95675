-- ===== src/Protocol/WacomV.antt =====
-- `ProcessWacomV`, the packets of the Intuos tablets.
use tablet_magic.Base.{
  ℕ, ◌-◌, bit_and, bit_or, Bool, true, false, not, ◌||◌, ltb, ◌==◌, if◌then◌else◌, List, update,
}
use tablet_magic.Int.{ℤ, pos, ◌-ℤ◌, neg_ℤ}
use tablet_magic.Bits.{◌<<◌, ◌>>◌, has}
use tablet_magic.Stylus.{
  Point, point_sub, ToolType, pen, pencil, brush, eraser, airbrush, mouse, lens, Stylus,
  bit_stylus_tip, bit_stylus_button1, bit_stylus_button2, button_left, button_middle, button_right,
  button_extra, button_side, set_buttons, scaled_pressure,
}
use tablet_magic.Protocol.Sensing.{byte}

-- The `switch` over `kTool…`; a tool that it does not name is a pen.
unfoldable pub tool_type : ℕ → ToolType
tool_type id =
    if id == 0x0812 || id == 0x0012
    then pencil
    else if id == 0x0822 || id == 0x0022 || id == 0x0842 || id == 0x0852
    then pen
    else if id == 0x0832 || id == 0x0032
    then brush
    else if id == 0x0007 || id == 0x009c || id == 0x0094
    then mouse
    else if id == 0x0096
    then lens
    else if id == 0x082a || id == 0x085a || id == 0x091a || id == 0x00fa
    then eraser
    else if id == 0x0112
    then airbrush
    else pen

abbrev pub is_eraser : ToolType → Bool
is_eraser eraser = true
is_eraser _ = false

abbrev pub tool_mouse_4d : ℕ
tool_mouse_4d = 0x0094

abbrev pub tool_lens : ℕ
tool_lens = 0x0096

-- The tool and serial number of a device packet.
unfoldable pub v_toolid : List ℕ → ℕ
v_toolid pk = bit_or (bit_and (byte pk 1) 0x7f << 5) (bit_and (byte pk 2) 0x7c >> 2)

unfoldable pub v_serialno : List ℕ → ℕ
v_serialno pk =
    let a = bit_or (bit_and (byte pk 2) 0x03 << 30) (bit_and (byte pk 3) 0x7f << 23) in
    let b = bit_or (bit_or a (bit_and (byte pk 4) 0x7f << 16)) (bit_and (byte pk 5) 0x7f << 9) in
    bit_or (bit_or b (bit_and (byte pk 6) 0x7f << 2)) (bit_and (byte pk 7) 0x60 >> 5)

-- Sixteen bits of x and of y from bytes 1 to 5.
unfoldable pub v_x : List ℕ → ℕ
v_x pk =
    bit_or (bit_or (bit_and (byte pk 1) 0x7f << 9) (bit_and (byte pk 2) 0x7f << 2))
      (bit_and (byte pk 3) 0x60 >> 5)

unfoldable pub v_y : List ℕ → ℕ
v_y pk =
    bit_or (bit_or (bit_and (byte pk 3) 0x1f << 11) (bit_and (byte pk 4) 0x7f << 4))
      (bit_and (byte pk 5) 0x78 >> 3)

unfoldable pub v_point : List ℕ → Point
unfolding v_x v_y
v_point pk = record { x = pos (v_x pk); y = pos (v_y pk) }

-- Ten bits of bytes 5 and 6: the pressure, the airbrush's wheel, or the mouse's throttle.
unfoldable pub v_ten : List ℕ → ℕ
v_ten pk = bit_or (bit_and (byte pk 5) 0x07 << 7) (bit_and (byte pk 6) 0x7f)

-- A tilt byte: six bits, less 64 if the next bit is set.
abbrev pub v_tilt : ℕ → ℤ
v_tilt b = let t = pos (bit_and b 0x3f) in if has b 0x40 then t -ℤ pos 0x40 else t

unfoldable pub v_pressure : List ℕ → ℕ
unfolding v_ten
v_pressure pk =
    let press = v_ten pk in if ltb press 100 then 0 else scaled_pressure (press - 99) 924

-- The kinds of packets, by the first byte, in the order of the tests.
pub data Kind : Type 0 where
  device leaving stylus_data airbrush_data mouse_data rotation_data other : Kind

unfoldable pub kind : ℕ → Kind
kind b =
    if bit_and b 0xfc == 0xc0
    then device
    else if bit_and b 0xfe == 0x80
    then leaving
    else if bit_and b 0xb8 == 0xa0
    then stylus_data
    else if bit_and b 0xbe == 0xb4
    then airbrush_data
    else if bit_and b 0xbe == 0xa8 || bit_and b 0xbe == 0xb0
    then mouse_data
    else if bit_and b 0xbe == 0xaa
    then rotation_data
    else other

unfoldable pub v_stylus_buttons : List ℕ → ℕ
unfolding v_pressure
v_stylus_buttons pk =
    bit_or
      (bit_or (if v_pressure pk == 0 then 0 else bit_stylus_tip)
        (if has (byte pk 0) 0x02 then bit_stylus_button1 else 0))
      (if has (byte pk 0) 0x04 then bit_stylus_button2 else 0)

unfoldable pub v_mouse_buttons : ℕ → List ℕ → ℕ
v_mouse_buttons toolid pk =
    let b = byte pk 8 in
    if toolid == tool_mouse_4d
    then bit_or (bit_and b 0x70 >> 1) (bit_and b 0x07)
    else if toolid == tool_lens
    then bit_and b 0x1f
    else bit_and b 0x1c >> 2

unfoldable pub v_mouse_wheel : ℕ → List ℕ → ℤ
v_mouse_wheel toolid pk =
    let b = byte pk 8 in
    if toolid == tool_mouse_4d || toolid == tool_lens
    then pos 0
    else pos (bit_and b 0x02 >> 1) -ℤ pos (bit_and b 0x01)

unfoldable pub v_rotation : List ℕ → ℤ
v_rotation pk =
    let rot = bit_or (bit_and (byte pk 6) 0x0f << 7) (bit_and (byte pk 7) 0x7f) in
    if ltb rot 900 then neg_ℤ (pos rot) else pos 1799 -ℤ pos rot

-- The mouse's buttons in their own places of the array.
abbrev pub map_mouse_buttons : ℕ → (ℕ → Bool) → ℕ → Bool
map_mouse_buttons bm button =
    let left = update button button_left (has bm 0x01) in
    let middle = update left button_middle (has bm 0x02) in
    let right = update middle button_right (has bm 0x04) in
    update (update right button_extra (has bm 0x08)) button_side (has bm 0x10)

-- What a packet of each kind does: the stylus and the new `bm`.
unfoldable pub v_dispatch : Kind → List ℕ → Stylus → Stylus × ℕ
unfolding tool_type v_toolid v_serialno v_point v_ten v_pressure v_stylus_buttons v_mouse_buttons
    v_mouse_wheel v_rotation
v_dispatch device pk s =
    let tool = tool_type (v_toolid pk) in
    (
      record s {
        toolid = v_toolid pk;
        serialno = v_serialno pk;
        off_tablet = false;
        pen_near = true;
        tool = tool;
        eraser_flag = is_eraser tool;
      },
      s.button_mask,
    )
v_dispatch leaving pk s = (
  record s {
    off_tablet = true;
    pen_near = false;
    eraser_flag = false;
    pressure = 0;
    wheel = pos 0;
    rotation = pos 0;
    throttle = pos 0;
    button = map_mouse_buttons 0 s.button;
  },
  0,
)
v_dispatch stylus_data pk s = (
  record s {
    point = v_point pk;
    tilt = record { x = v_tilt (byte pk 7); y = v_tilt (byte pk 8) };
    pressure = v_pressure pk;
  },
  v_stylus_buttons pk,
)
v_dispatch airbrush_data pk s = (
  record s {
    point = v_point pk;
    tilt = record { x = v_tilt (byte pk 7); y = v_tilt (byte pk 8) };
    pressure = 0;
    wheel = pos (v_ten pk);
  },
  0,
)
v_dispatch mouse_data pk s =
    let bm = v_mouse_buttons s.toolid pk in
    let throttle = pos (v_ten pk) in
    (
      record s {
        point = v_point pk;
        throttle = if has (byte pk 8) 0x08 then neg_ℤ throttle else throttle;
        wheel = v_mouse_wheel s.toolid pk;
        button = map_mouse_buttons bm s.button;
      },
      bm,
    )
v_dispatch rotation_data pk s =
    (record s { point = v_point pk; rotation = v_rotation pk }, s.button_mask)
v_dispatch other pk s = (record s { rotation = pos 0 }, s.button_mask)

unfoldable pub process_wacom_v : List ℕ → ℕ → Stylus → Stylus
unfolding v_dispatch kind
process_wacom_v pk size s0 =
    let (s, bm) = v_dispatch (kind (byte pk 0)) pk (record s0 { old = s0.point }) in
    let moved = record s { motion = point_sub s.point s.old } in
    if not (size == 9) then s0 else if s0.button_mask == bm then moved else set_buttons bm moved
