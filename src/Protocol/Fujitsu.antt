-- ===== src/Protocol/Fujitsu.antt =====
-- `ProcessFujitsuPSeries`, over the floating-point operations.
use tablet_magic.Base.{ℕ, ◌-◌, true, false, ltb, ◌==◌, if◌then◌else◌, List}
use tablet_magic.Int.{ℤ, pos, negsuc, ltb_ℤ, leb_ℤ}
use tablet_magic.Floats.{Floats}
use tablet_magic.Stylus.{
  Point, pen, Stylus, bit_stylus_tip, set_buttons, reset_buttons, pressure_scale,
}
use tablet_magic.Protocol.Sensing.{byte}
use tablet_magic.Protocol.TabletPc.{move}

-- A `char` as an integer.
abbrev pub char_int : ℕ → ℤ
char_int b = if ltb b 128 then pos b else negsuc (255 - b)

-- Below zero or at the end and beyond, a coordinate is put back to the nearest end.
abbrev pub limit : ℕ → ℤ → ℤ
limit size v =
    let low = if ltb_ℤ v (pos 0) then pos 0 else v in
    if leb_ℤ (pos size) low then pos (size - 1) else low

-- `switch (packet[0])`, and the motion.
unfoldable pub fujitsu_switch : List ℕ → Stylus → Stylus
unfolding move
fujitsu_switch pk s =
    if byte pk 0 == 1
    then move false (record (set_buttons bit_stylus_tip s) { pressure = pressure_scale })
    else if byte pk 0 == 2
    then move true (record (reset_buttons s) { pressure = 0 })
    else move false s

module _ (fl : Floats) where
  open fl use {of_int, literal, add, sub, mul, div, to_int}

  -- `(SInt32)(size * (hi + lo / 128 - offset) / span)`, whose literals have two decimals.
  unfoldable pub fujitsu_coordinate : ℕ → ℕ → ℕ → ℕ → ℕ → ℤ
  fujitsu_coordinate size offset span hi lo =
      let dec = add (of_int (char_int hi)) (div (of_int (char_int lo)) (of_int (pos 128))) in
      to_int (div (mul (of_int (pos size)) (sub dec (literal offset 2))) (literal span 2))

  unfoldable pub fujitsu_point : List ℕ → Point
  unfolding fujitsu_coordinate
  fujitsu_point pk = record {
    x = limit 1024 (fujitsu_coordinate 1024 73 3078 (byte pk 1) (byte pk 0));
    y = limit 768 (fujitsu_coordinate 768 119 3006 (byte pk 3) (byte pk 2));
  }

  unfoldable pub process_fujitsu : List ℕ → Stylus → Stylus
  unfolding fujitsu_point fujitsu_switch
  process_fujitsu pk s =
      fujitsu_switch pk
        (record s { tool = pen; old = s.point; point = fujitsu_point pk; pen_near = true })
