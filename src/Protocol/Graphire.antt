-- ===== src/Protocol/Graphire.antt =====
-- `ProcessGraphire`. It reads byte 7 of a packet of seven bytes: the NUL behind it.
use tablet_magic.Base.{
  ℕ, ◌+◌, ◌%◌, ◌^◌, bit_and, bit_or, Bool, true, false, not, ◌==◌, if◌then◌else◌, List,
}
use tablet_magic.Int.{pos, signed32, neg_ℤ}
use tablet_magic.Bits.{◌<<◌, ◌>>◌, has}
use tablet_magic.Stylus.{
  point_sub, ToolType, pen, mouse, Stylus, bit_stylus_tip, bit_stylus_button1, bit_stylus_button2,
  button_left, button_middle, button_right, set_buttons, char_u32, char_shift,
}
use tablet_magic.Protocol.Sensing.{Sensing, byte}
use tablet_magic.Protocol.WacomIv.{process_wacom_iv_base}

-- `packet[i] | (packet[i + 1] << 8)`, as the pattern of an `int`.
abbrev pub little_endian : List ℕ → ℕ → ℕ
little_endian pk i = bit_or (char_u32 (byte pk i)) (char_shift (byte pk (i + 1)) 8)

abbrev pub is_mouse : ToolType → Bool
is_mouse mouse = true
is_mouse _ = false

-- The pressure before `ProcessWacomIV_Base` writes it again.
unfoldable pub graphire_pressure : List ℕ → ℕ
graphire_pressure pk =
    let a = bit_or (bit_and (byte pk 6) 0x3f << 2) (bit_and (byte pk 3) 0x04 >> 1) in
    bit_or (bit_or a (bit_and (byte pk 3) 0x40 >> 6)) (bit_and (byte pk 6) 0x40 << 2)

abbrev pub flag_bit : ℕ → ℕ → ℕ → ℕ
flag_bit b mask value = if has b mask then value else 0

-- The last part: the tool of bits 5 and 6 of byte 1, its pressure, mask and wheel.
unfoldable pub graphire_tool : List ℕ → Stylus → Stylus
graphire_tool pk s =
    let b = byte pk 1 in
    let tool = bit_and (b >> 5) 0x03 in
    let pressed = record s { pressure = little_endian pk 6 % 2 ^ 16 } in
    let pen_bits =
      bit_or (bit_or (flag_bit b 0x01 bit_stylus_tip) (flag_bit b 0x02 bit_stylus_button1))
        (flag_bit b 0x04 bit_stylus_button2) in
    let mouse_bits =
      bit_or (bit_or (flag_bit b 0x01 (1 << button_left)) (flag_bit b 0x02 (1 << button_right)))
        (flag_bit b 0x04 (1 << button_middle)) in
    if tool == 0
    then set_buttons pen_bits (record pressed { tool = pen; eraser_flag = false; wheel = pos 0 })
    else if tool == 1
    then set_buttons pen_bits (record pressed { tool = pen; eraser_flag = true; wheel = pos 0 })
    else if tool == 2
    then set_buttons mouse_bits
        (record s { tool = mouse; eraser_flag = false; wheel = signed32 (char_u32 (byte pk 6)) })
    else set_buttons (bit_and (byte pk 3) 0x38 >> 3) (record s { wheel = pos 0 })

-- The wheel of a mouse, read while the tool is one.
unfoldable pub graphire_wheel : List ℕ → Stylus → Stylus
graphire_wheel pk s =
    let turns = pos (bit_and (byte pk 6) 0x30 >> 4) in
    let wheel = if has (byte pk 6) 0x40 then neg_ℤ turns else turns in
    if is_mouse s.tool then record s { wheel = wheel } else s

-- The part before the tool's: the pressure, `ProcessWacomIV_Base`, the wheel and the position.
unfoldable pub graphire_base : Sensing → List ℕ → Stylus → Stylus
unfolding graphire_pressure graphire_wheel process_wacom_iv_base
graphire_base t pk s0 =
    let s = record s0 { old = s0.point; pressure = graphire_pressure pk } in
    let s1 = graphire_wheel pk (process_wacom_iv_base t pk s) in
    let x = signed32 (little_endian pk 2) in
    let y = signed32 (little_endian pk 4) in
    let point = if has (byte pk 1) 0x80 then record { x = x; y = y } else s1.point in
    record s1 {
      pen_near = true;
      off_tablet = false;
      old = s1.point;
      point = point;
      motion = point_sub point s1.point;
    }

unfoldable pub process_graphire : Sensing → List ℕ → ℕ → Stylus → Stylus
unfolding graphire_base graphire_tool
process_graphire t pk size s =
    if not (size == 7) then s else graphire_tool pk (graphire_base t pk s)
