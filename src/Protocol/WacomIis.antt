-- ===== src/Protocol/WacomIis.antt =====
-- `ProcessWacomIIS_Binary`.
use tablet_magic.Base.{
  ℕ, ◌+◌, ◌-◌, ◌*◌, ◌/◌, bit_and, bit_or, Bool, true, false, not, ◌&&◌, ◌||◌, ltb, leb, ◌==◌,
  if◌then◌else◌, List,
}
use tablet_magic.Int.{ℤ, pos, ◌+ℤ◌, ◌-ℤ◌, ltb_ℤ, leb_ℤ, neg_ℤ}
use tablet_magic.Bits.{has}
use tablet_magic.Series.{Series, sd_series}
use tablet_magic.Stylus.{
  Point, origin_point, pen, Stylus, bit_stylus_tip, bit_stylus_button1, bit_stylus_button2,
  bit_stylus_eraser, set_buttons, reset_buttons, char_u16, pressure_scale, scaled_pressure,
}
use tablet_magic.Settings.Constants.{coord_sys_absolute, coord_sys_relative, origin_ll}
use tablet_magic.Protocol.Sensing.{Sensing, outside, byte}
use tablet_magic.Protocol.WacomIv.{coordinate}
use tablet_magic.Protocol.TabletPc.{move}

abbrev pub is_sd : Series → Bool
is_sd sd_series = true
is_sd _ = false

-- Below zero or at the scale and beyond, a coordinate is put back to the nearest end.
unfoldable pub clamp : ℤ → ℤ → ℤ
clamp scale v =
    let low = if ltb_ℤ v (pos 0) then pos 0 else v in
    if leb_ℤ scale low then scale -ℤ pos 1 else low

-- The new point, from where the stylus was.
unfoldable pub iis_point : Sensing → List ℕ → Point → Point
unfolding clamp
iis_point t pk old =
    let h = pos (coordinate pk 0) in
    let v = pos (coordinate pk 3) in
    let flipped = t.settings.origin == origin_ll in
    if t.settings.coordsys == coord_sys_relative
    then record {
      x = clamp t.settings.xscale (h +ℤ old.x);
      y = clamp t.settings.yscale ((if flipped then neg_ℤ v else v) +ℤ old.y);
    }
    else record { x = h; y = if flipped then t.settings.yscale -ℤ v else v }

-- Seven bits of byte 6, the highest inverted.
abbrev pub iis_raw : List ℕ → ℕ
iis_raw pk = let lo = bit_and (byte pk 6) 0x3f in if has (byte pk 6) 0x40 then lo else lo + 64

-- What the pressure branches leave: the stylus, the mask and `ot`.
abbrev pub Pressed : Type 0
Pressed = Stylus × ℕ × Bool

abbrev pub sd_press : ℕ → ℕ
sd_press raw =
    let press = if ltb 109 raw then 109 else raw in
    if leb raw 41 then 0 else scaled_pressure (press - 41) 68

-- The SD packet without a pressure flag names a level; the highest comes as 0 behind 0x22.
unfoldable pub sd_level : Sensing → ℕ → Stylus → Stylus × ℕ
sd_level t c s =
    if c == 0x00
    then (if t.old_raw_pressure == 0x22
        then (record s { raw_pressure = 0x22 }, pressure_scale)
        else (record s { raw_pressure = 0 }, pressure_scale / 4))
    else (
      record s { raw_pressure = char_u16 c },
      if c == 0x23 then pressure_scale / 2 else if c == 0x22 then pressure_scale * 3 / 4 else 0,
    )

unfoldable pub sd_branch : Sensing → List ℕ → Stylus → Pressed
unfolding sd_level
sd_branch t pk s =
    let (s', press) =
      if has (byte pk 0) 0x10
      then (s, if s.pen_near then sd_press (iis_raw pk) else 0)
      else sd_level t (byte pk 6) s in
    (record s' { pressure = press }, if press == 0 then 0 else bit_stylus_tip, press == 0)

unfoldable pub pressure_branch : List ℕ → Stylus → Pressed
pressure_branch pk s =
    let ot = not (has (byte pk 0) 0x40) in
    let raw = iis_raw pk in
    let scaled = if ltb raw 35 then 0 else scaled_pressure (raw - 34) 60 in
    let press = if ot then 0 else scaled in
    (record s { pressure = press }, if ltb 0 press then bit_stylus_tip else 0, ot)

unfoldable pub button_branch : List ℕ → Stylus → Pressed
button_branch pk s =
    let b = byte pk 6 in
    let one = if has b 0x02 then bit_stylus_button1 else 0 in
    let flag = s.off_tablet || s.eraser_flag in
    let far = if has b 0x01 then bit_or one bit_stylus_eraser else one in
    let near = if has b 0x01 then bit_or one bit_stylus_tip else one in
    let bm = if has b 0x04 then (if flag then far else bit_or one bit_stylus_button2) else near in
    let s' = if has b 0x04 then record s { eraser_flag = flag } else s in
    (record s' { pressure = if bm == 0 then 0 else pressure_scale }, bm, false)

unfoldable pub press_branch : Sensing → List ℕ → Stylus → Pressed
unfolding sd_branch pressure_branch button_branch
press_branch t pk s =
    if is_sd t.series
    then sd_branch t pk s
    else if has (byte pk 0) 0x10
    then pressure_branch pk s
    else if has (byte pk 6) 0x20
    then button_branch pk s
    else (record s { pressure = 0 }, 0, false)

-- The disengaged stylus.
unfoldable pub leave : List ℕ → Pressed → Pressed
leave pk (s, bm, ot) =
    if bit_and (byte pk 0) 0x60 == 0x20
    then (
      record s { pen_near = false; eraser_flag = false; pressure = 0; tilt = origin_point },
      bm,
      true,
    )
    else (s, bm, ot)

-- Mouse mode ends at the active area.
unfoldable pub confine : Sensing → Pressed → Pressed
confine t (s, bm, ot) =
    if t.settings.coordsys == coord_sys_absolute && t.mouse_mode && outside t.mapping s.point
    then (record s { point = s.old; pen_near = false; pressure = 0 }, 0, true)
    else (s, bm, ot)

-- The position and the engagement, before the pressure.
unfoldable pub iis_start : Sensing → List ℕ → Stylus → Stylus
unfolding iis_point
iis_start t pk s = record (reset_buttons s) {
  tool = pen;
  old = s.point;
  point = iis_point t pk s.point;
  pen_near = has (byte pk 0) 0x40;
}

-- The pressure, the end of the engagement and of the active area.
unfoldable pub iis_pressed : Sensing → List ℕ → Stylus → Pressed
unfolding iis_start press_branch leave confine
iis_pressed t pk s = confine t (leave pk (press_branch t pk (iis_start t pk s)))

unfoldable pub process_wacom_iis_binary : Sensing → List ℕ → ℕ → Stylus → Stylus
unfolding iis_pressed move
process_wacom_iis_binary t pk size s =
    let p = iis_pressed t pk s in if not (size == 7) then s else set_buttons p.1 (move p.2 p.0)
