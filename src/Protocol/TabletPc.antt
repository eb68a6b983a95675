-- ===== src/Protocol/TabletPc.antt =====
-- `ProcessTabletPC`.
use tablet_magic.Base.{
  ℕ, ◌-◌, bit_and, bit_or, Bool, true, false, not, ltb, ◌==◌, differ, if◌then◌else◌, List,
}
use tablet_magic.Int.{signed32}
use tablet_magic.Bits.{◌<<◌, ◌>>◌, has}
use tablet_magic.Stylus.{
  Point, origin_point, point_sub, pen, Stylus, bit_stylus_tip, bit_stylus_button1,
  bit_stylus_button2, set_buttons, reset_buttons, char_shift, scaled_pressure,
}
use tablet_magic.Protocol.Sensing.{byte}

unfoldable pub tpc_position : List ℕ → Point
tpc_position pk = record {
  x = signed32 (
      bit_or (bit_or (bit_and (byte pk 6) 0x60 >> 5) (char_shift (byte pk 2) 2))
        (char_shift (byte pk 1) 9));
  y = signed32 (
      bit_or (bit_or (bit_and (byte pk 6) 0x18 >> 3) (char_shift (byte pk 4) 2))
        (char_shift (byte pk 3) 9));
}

unfoldable pub tpc_pressure : List ℕ → ℕ
tpc_pressure pk =
    let press = bit_or (bit_and (byte pk 6) 0x01 << 7) (bit_and (byte pk 5) 0x7f) in
    if ltb press 25 then 0 else scaled_pressure (press - 24) 231

-- The buttons, where the eraser flag and the pressure are known.
unfoldable pub tpc_buttons : List ℕ → Bool → ℕ → ℕ
tpc_buttons pk erasing press =
    let b = byte pk 0 in
    let tip = if not (press == 0) then (if has b 0x01 then bit_stylus_tip else 0) else 0 in
    let one = if has b 0x02 then bit_stylus_button1 else 0 in
    let two = if has b 0x04 then bit_stylus_button2 else 0 in
    if erasing then tip else bit_or tip (bit_or one two)

-- The stylus moved on and off the tablet; the motion restarts when it comes or goes.
unfoldable pub move : Bool → Stylus → Stylus
move ot s =
    if differ s.off_tablet ot
    then record s { off_tablet = ot; motion = origin_point }
    else record s { motion = point_sub s.point s.old }

unfoldable pub process_tablet_pc : List ℕ → ℕ → Stylus → Stylus
unfolding tpc_position tpc_pressure tpc_buttons move
process_tablet_pc pk size s0 =
    let s = record (reset_buttons s0) { tool = pen; old = s0.point; point = tpc_position pk } in
    let near = has (byte pk 0) 0x20 in
    let erasing = has (byte pk 0) 0x04 in
    let press = tpc_pressure pk in
    let away = record s { pen_near = false; pressure = 0; eraser_flag = false } in
    let here = record s { pen_near = true; pressure = press; eraser_flag = erasing } in
    if not (size == 9)
    then s0
    else if near
    then set_buttons (tpc_buttons pk erasing press) (move false here)
    else set_buttons 0 (move true away)
