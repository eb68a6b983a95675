-- ===== src/Protocol/WacomIv.antt =====
-- `ProcessWacomIV_Base`, `ProcessWacomIV_13` and `ProcessWacomIV_14`.
use tablet_magic.Base.{
  ℕ, ◌+◌, ◌-◌, bit_and, bit_or, Bool, true, false, not, ◌&&◌, ◌||◌, ltb, ◌==◌, differ,
  if◌then◌else◌, List,
}
use tablet_magic.Int.{ℤ, pos, ◌-ℤ◌, scale_toward_zero}
use tablet_magic.Bits.{◌<<◌, ◌>>◌, has}
use tablet_magic.Stylus.{
  Point, origin_point, point_sub, pen, Stylus, bit_stylus_tip, bit_stylus_button1,
  bit_stylus_button2, bit_stylus_eraser, set_buttons, char_u16, scaled_pressure, tilt_scale,
}
use tablet_magic.Settings.Constants.{transfer_mode_suppressed, origin_ll}
use tablet_magic.Protocol.Sensing.{Sensing, outside, byte}

-- The coordinates in bytes i to i + 2, of 2, 7 and 7 bits.
abbrev pub coordinate : List ℕ → ℕ → ℕ
coordinate pk i =
    bit_or (bit_or (bit_and (byte pk i) 0x03 << 14) (bit_and (byte pk (i + 1)) 0x7f << 7))
      (bit_and (byte pk (i + 2)) 0x7f)

unfoldable pub position : Sensing → List ℕ → Point
position t pk =
    let y = pos (coordinate pk 3) in
    record {
      x = pos (coordinate pk 0);
      y = if t.settings.origin == origin_ll then t.settings.yscale -ℤ y else y;
    }

-- The raw pressure: seven bits of byte 6, the highest inverted, and from version 1.2 on one of
-- byte 3.
unfoldable pub raw_press : ℕ → List ℕ → ℕ
raw_press version pk =
    let lo = bit_and (byte pk 6) 0x3f in
    let hi = bit_and (255 - byte pk 6) 0x40 in
    let old = bit_or lo hi << 1 in
    let new = bit_or (bit_or (bit_and (byte pk 3) 0x04 >> 2) (lo << 1)) (hi << 1) in
    if ltb version 12 then old else new

unfoldable pub press_of : ℕ → List ℕ → ℕ
unfolding raw_press
press_of version pk = let press = raw_press version pk in if ltb 0 press then press - 1 else press

-- `(packet[0] & IV_Mask0_Engagement) == IV_DisengagedOrMenu`.
abbrev pub is_disengaged : List ℕ → Bool
is_disengaged pk = bit_and (byte pk 0) 0x60 == 0x20

-- The first half of `ProcessWacomIV_Base`: the stylus, `press` and `ot`.
unfoldable pub engage : Sensing → List ℕ → Stylus → Stylus × ℕ × Bool
unfolding position press_of
engage t pk s0 =
    let s = record s0 { tool = pen; old = s0.point; pen_near = true } in
    let away = record s {
      pen_near = false;
      eraser_flag = false;
      tilt = origin_point;
      menu_button = char_u16 (byte pk 6);
    } in
    if is_disengaged pk
    then (if t.settings.transfer_mode == transfer_mode_suppressed
        then (away, 0, true)
        else (record s { menu_button = char_u16 (byte pk 6) }, 0, false))
    else (record s { point = position t pk }, press_of t.version_tenths pk, false)

-- The second half: mouse mode, the pressure and the motion.
unfoldable pub settle : Sensing → Stylus × ℕ × Bool → Stylus
unfolding point_sub
settle t (s, press, ot) =
    let outbound = t.mouse_mode && outside t.mapping s.point in
    let ot' = ot || outbound in
    let turned = outbound || differ s.off_tablet ot' in
    let old = if turned then s.point else s.old in
    record s {
      pen_near = if outbound then false else s.pen_near;
      pressure = scaled_pressure (if outbound then 0 else press) 254;
      old = old;
      motion = point_sub s.point old;
      off_tablet = ot';
    }

unfoldable pub process_wacom_iv_base : Sensing → List ℕ → Stylus → Stylus
unfolding engage settle
process_wacom_iv_base t pk s = settle t (engage t pk s)

-- The stylus buttons of byte 3: the stylus with its eraser flag, and the mask. The third button is
-- the eraser if it was down when the stylus came near.
unfoldable pub iv_buttons : List ℕ → Stylus → Stylus × ℕ
iv_buttons pk s =
    let b = bit_and (byte pk 3) 0x78 >> 3 in
    let bm = bit_and b (bit_or bit_stylus_tip bit_stylus_button1) in
    let flag = s.off_tablet || s.eraser_flag in
    let erasing =
      if has b bit_stylus_tip then bit_and (bit_or bm bit_stylus_eraser) 0xfffe else bm in
    if not (has (byte pk 0) 0x08)
    then (s, 0)
    else if not (has b bit_stylus_button2)
    then (s, bm)
    else (record s { eraser_flag = flag }, if flag then erasing else bit_or bm bit_stylus_button2)

unfoldable pub process_wacom_iv_13 : Sensing → List ℕ → ℕ → Stylus → Stylus
unfolding iv_buttons process_wacom_iv_base
process_wacom_iv_13 t pk size s =
    let (s1, bm) = iv_buttons pk s in
    let s2 = process_wacom_iv_base t pk s1 in
    if not (size == 7) then s else set_buttons (if s2.off_tablet then 0 else bm) s2

-- A tilt byte: six bits and a sign of weight 64, scaled to 16 bits.
abbrev pub tilt_of : ℕ → ℤ
tilt_of b = scale_toward_zero (pos (bit_and b 0x3f) -ℤ pos (bit_and b 0x40)) tilt_scale 63

unfoldable pub process_wacom_iv_14 : Sensing → List ℕ → ℕ → Stylus → Stylus
unfolding process_wacom_iv_13
process_wacom_iv_14 t pk size s =
    let s1 = process_wacom_iv_13 t pk 7 s in
    let tilt : Point = record { x = tilt_of (byte pk 7); y = tilt_of (byte pk 8) } in
    if not (size == 7 || size == 9)
    then s
    else record s1 { tilt = if size == 9 then tilt else origin_point }
