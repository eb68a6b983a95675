-- ===== src/Protocol/IisAscii.antt =====
-- `ProcessWacomIIS_ASCII`.
use tablet_magic.Base.{
  ℕ, ◌*◌, ◌/◌, Bool, true, false, not, ◌&&◌, ◌||◌, ltb, ◌==◌, if◌then◌else◌, List, drop, Option,
  none, some,
}
use tablet_magic.Int.{ℤ, pos, negsuc, ◌+ℤ◌, ◌-ℤ◌, ltb_ℤ, eqb_ℤ, neg_ℤ, scale_toward_zero}
use tablet_magic.Bits.{has}
use tablet_magic.Format.{expect, scan_int, scan_long, to_sint32, to_uint16}
use tablet_magic.Stylus.{
  Point, pen, Stylus, bit_stylus_tip, bit_stylus_button2, bit_stylus_eraser, set_buttons,
  reset_buttons, pressure_scale,
}
use tablet_magic.Settings.Constants.{coord_sys_absolute, coord_sys_relative, origin_ll}
use tablet_magic.Protocol.Sensing.{Sensing, outside, byte}
use tablet_magic.Protocol.WacomIis.{is_sd, clamp}
use tablet_magic.Protocol.TabletPc.{move}

-- The three numbers of `"%ld,%ld,%d"`.
pub record Report : Type 0 where
  pub xx : ℤ
  pub yy : ℤ
  pub b : ℤ

unfoldable pub scan_last : ℤ → ℤ → List ℕ → Option Report
scan_last xx yy s = elim (expect b',' s) [
  | none ↦ none
  | some t ↦ elim (scan_int t) [
    | none ↦ none
    | some (b, rest) ↦ some (record { xx = xx; yy = yy; b = b })
  ]
]

unfoldable pub scan_second : ℤ → List ℕ → Option Report
unfolding scan_last
scan_second xx s = elim (expect b',' s) [
  | none ↦ none
  | some t ↦ elim (scan_long t) [ none ↦ none | some (yy, rest) ↦ scan_last xx yy rest ]
]

unfoldable pub scan_report : List ℕ → Option Report
unfolding scan_second expect
scan_report s = elim (scan_long s) [ none ↦ none | some (xx, rest) ↦ scan_second xx rest ]

-- `xx` and `yy` behind the choice of the coordinate system. In relative mode the code confines `xx`
-- by both scales, and `yy` by none.
unfoldable pub ascii_point : Sensing → Report → Point → Point
unfolding clamp
ascii_point t r old =
    let flipped = t.settings.origin == origin_ll in
    if t.settings.coordsys == coord_sys_relative
    then record {
      x = clamp t.settings.yscale (clamp t.settings.xscale (r.xx +ℤ old.x));
      y = (if flipped then neg_ℤ r.yy else r.yy) +ℤ old.y;
    }
    else record { x = r.xx; y = if flipped then t.settings.yscale -ℤ r.yy else r.yy }

-- An SD tablet in button mode: four levels, of which the highest comes as 0 behind 2.
unfoldable pub sd_ascii_level : ℕ → ℤ → Stylus → Stylus × ℕ
sd_ascii_level old b s =
    if eqb_ℤ b (pos 0)
    then (if old == 2
        then (record s { raw_pressure = 2 }, pressure_scale)
        else (s, pressure_scale / 4))
    else (
      s,
      if eqb_ℤ b (pos 3)
          then pressure_scale / 2
          else if eqb_ℤ b (pos 2)
          then pressure_scale * 3 / 4
          else 0,
    )

-- What the three branches leave: the stylus, `press`, `bm` and `ot`.
abbrev pub Read : Type 0
Read = Stylus × ℕ × ℕ × Bool

unfoldable pub sd_ascii_buttons : Sensing → ℤ → Stylus → Read
unfolding sd_ascii_level
sd_ascii_buttons t b s =
    let ot = eqb_ℤ b (pos 99) || eqb_ℤ b (pos 1) in
    let s1 = record s { raw_pressure = to_uint16 b; pen_near = not ot; eraser_flag = false } in
    let (s2, press) = sd_ascii_level t.old_raw_pressure b s1 in
    if ot then (s1, 0, 0, true) else (s2, press, bit_stylus_tip, false)

-- Any other tablet: button 2 is the eraser if it was down when the stylus came near.
unfoldable pub ascii_buttons : ℤ → Stylus → Read
ascii_buttons b s =
    let ot = eqb_ℤ b (pos 99) in
    let bm = if ot then 0 else to_uint16 b in
    let flag = s.off_tablet || s.eraser_flag in
    let erasing = if has bm bit_stylus_tip then bit_stylus_eraser else 0 in
    let bm' = if has bm bit_stylus_button2 && flag then erasing else bm in
    let s' =
      if has bm bit_stylus_button2
      then record s { pen_near = true; eraser_flag = flag }
      else record s { pen_near = not ot; eraser_flag = false } in
    (s', if has bm' 9 then pressure_scale else 0, bm', ot)

-- `(UInt16)((b + n) * PRESSURE_SCALE / d)`, through an `int` as elsewhere.
abbrev pub ascii_scaled : ℤ → ℕ → ℕ → ℕ
ascii_scaled b n d = to_uint16 (scale_toward_zero (b +ℤ pos n) pressure_scale d)

unfoldable pub ascii_pressure : Sensing → ℤ → Stylus → Read
ascii_pressure t b s =
    let gone = eqb_ℤ b (negsuc 998) in
    let press =
      if is_sd t.series
      then (if ltb_ℤ b (negsuc 20) then 0 else ascii_scaled b 22 67)
      else ascii_scaled b 30 60 in
    let ot = gone || (is_sd t.series && press == 0) in
    let s' = record s { eraser_flag = false; pen_near = not ot } in
    if gone then (s', 0, 0, true) else (s', press, if ltb 0 press then bit_stylus_tip else 0, ot)

-- `switch (packet[0])`.
unfoldable pub ascii_read : Sensing → ℕ → ℤ → Stylus → Read
unfolding sd_ascii_buttons ascii_buttons ascii_pressure
ascii_read t kind b s =
    if kind == b'#'
    then (if is_sd t.series then sd_ascii_buttons t b s else ascii_buttons b s)
    else if kind == b'!'
    then ascii_pressure t b s
    else (s, 0, 0, false)

-- The point, or the end of the active area in mouse mode, and the branches.
unfoldable pub ascii_engage : Sensing → List ℕ → Report → Stylus → Read
unfolding ascii_point ascii_read outside
ascii_engage t pk r s =
    let p = ascii_point t r s.point in
    let placed = record s { point = record { x = to_sint32 p.x; y = to_sint32 p.y } } in
    if t.settings.coordsys == coord_sys_absolute && t.mouse_mode && outside t.mapping p
    then (record s { pen_near = false }, 0, 0, true)
    else ascii_read t (byte pk 0) r.b placed

-- What is done with the numbers of the packet, if it has them.
unfoldable pub ascii_apply : Sensing → List ℕ → Stylus → Option Report → Stylus
unfolding ascii_engage move
ascii_apply t pk s0 none = s0
ascii_apply t pk s0 (some r) =
    let s = record (reset_buttons s0) { tool = pen; old = s0.point } in
    let (s1, press, bm, ot) = ascii_engage t pk r s in
    set_buttons bm (record (move ot s1) { pressure = press })

unfoldable pub process_wacom_iis_ascii : Sensing → List ℕ → Stylus → Stylus
unfolding scan_report ascii_apply
process_wacom_iis_ascii t pk s =
    ascii_apply t pk s (if byte pk 1 == b',' then scan_report (drop 2 pk) else none)
