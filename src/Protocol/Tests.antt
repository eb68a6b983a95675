-- ===== src/Protocol/Tests.antt =====
-- The interpreters on concrete packets.
use tablet_magic.Base.{
  ℕ, ◌+◌, ◌-◌, ◌*◌, ◌/◌, ◌%◌, ◌≤◌, ◌≡◌, refl, arith, true, false, ◌==◌, ltb, if◌then◌else◌, List,
  [], ◌∷◌,
}
use tablet_magic.Int.{pos, ◌-ℤ◌, ◌≤ℤ◌, ◌<ℤ◌}
use tablet_magic.Bits.{has, ◌<<◌}
use tablet_magic.Series.{art_z}
use tablet_magic.Settings.Constants.{coord_sys_relative, origin_ll}
use tablet_magic.Settings.Presets.{new_settings}
use tablet_magic.Stylus.{
  Point, origin_point, point_sub, no_tool, Stylus, set_buttons, bit_stylus_tip, bit_stylus_eraser,
  button_left, button_middle, button_right, button_extra, button_side,
}
use tablet_magic.Protocol.Sensing.{Sensing, byte}
use tablet_magic.Protocol.WacomIv.{iv_buttons, process_wacom_iv_13, process_wacom_iv_14}
use tablet_magic.Protocol.WacomIis.{iis_raw, process_wacom_iis_binary}
use tablet_magic.Protocol.TabletPc.{process_tablet_pc}
use tablet_magic.Protocol.Graphire.{process_graphire}
use tablet_magic.Protocol.WacomV.{tool_type, is_eraser, kind, v_mouse_buttons, process_wacom_v}
use tablet_magic.Protocol.Decode.{
  iv_packet, v_packet, process_wacom_v-stylus, process_wacom_iv_13-engaged,
}
use tablet_magic.Protocol.Device.{device_packet, process_wacom_v-device}
use tablet_magic.Protocol.Buttons.{
  AgreesWithMask, interpreters-AgreesWithMask, process_wacom_v-mouse_lost,
}
use tablet_magic.Protocol.Pressure.{
  offset_seven, process_wacom_iv_13-pressure, process_wacom_iis_binary-wraps,
}
use tablet_magic.Protocol.Confine.{process_wacom_iis_binary-relative}

-- The stylus as `InitStylus` leaves it, as far as the interpreters see it.
abbrev fresh : Stylus
fresh = record {
  scr_pos = origin_point;
  old_pos = origin_point;
  point = origin_point;
  old = origin_point;
  motion = origin_point;
  tilt = origin_point;
  raw_pressure = 0;
  pressure = 0;
  button_click = false;
  button_mask = 0;
  button = λ q. has 0 (1 << q);
  off_tablet = true;
  pen_near = false;
  eraser_flag = false;
  menu_button = 0;
  tool = no_tool;
  toolid = 0;
  serialno = 0;
  rotation = pos 0;
  wheel = pos 0;
  throttle = pos 0;
  proximity = record { unique_id = 0; pointer_type = 0; enter_proximity = false };
}

fresh-AgreesWithMask : AgreesWithMask fresh
fresh-AgreesWithMask = record { click = refl; each = λ q. refl }

abbrev sensing : Sensing
sensing = record {
  settings = new_settings 0 7;
  series = art_z;
  version_tenths = 13;
  mouse_mode = false;
  mapping = record { x = pos 0; y = pos 0; width = pos 15240; height = pos 15240 };
  old_raw_pressure = 0;
}

-- The engaged packet at (4660, 22136) with the tip down.
abbrev engaged : List ℕ
engaged = iv_packet 58 4660 2 22136 32

process_wacom_iv_13-engaged_example :
    let s' = process_wacom_iv_13 sensing engaged 7 fresh in
    let down =
      if sensing.settings.origin == origin_ll
      then sensing.settings.yscale -ℤ pos 22136
      else pos 22136 in
    let p : Point = record { x = pos 4660; y = down } in
    (s'.point ≡ p)
    × (s'.motion ≡ point_sub p (if fresh.off_tablet then p else fresh.point))
    × (s'.off_tablet ≡ false)
    × (s'.pen_near ≡ true)
process_wacom_iv_13-engaged_example =
    process_wacom_iv_13-engaged 58 4660 2 22136 32 sensing fresh (omega arith) (omega arith) refl
      refl

engaged_mask : (process_wacom_iv_13 sensing engaged 7 fresh).button_mask ≡ bit_stylus_tip
unfolding process_wacom_iv_13 set_buttons new_settings
engaged_mask = refl

process_wacom_v-stylus_example :
    let s' = process_wacom_v (v_packet 0xe0 40000 30000 600 3 0x43) 9 fresh in
    (s'.point ≡ record { x = pos 40000; y = pos 30000 })
    × (s'.pressure ≡ (if ltb 600 100 then 0 else (600 - 99) * 65535 / 924))
    × (s'.motion ≡ point_sub (record { x = pos 40000; y = pos 30000 }) fresh.point)
    × (s'.off_tablet ≡ fresh.off_tablet)
process_wacom_v-stylus_example =
    process_wacom_v-stylus 0xe0 40000 30000 600 3 0x43 (omega arith) (omega arith) (omega arith)
      fresh (unfold kind in refl)

-- The eraser of an Intuos pen comes near.
process_wacom_v-device_example :
    let s' = process_wacom_v (device_packet 0xc2 0x82a 0x92345678) 9 fresh in
    (s'.toolid ≡ 0x82a)
    × (s'.serialno ≡ 0x92345678)
    × (s'.tool ≡ tool_type 0x82a)
    × (s'.eraser_flag ≡ is_eraser (tool_type 0x82a))
    × (s'.off_tablet ≡ false)
    × (s'.pen_near ≡ true)
    × (s'.button_mask ≡ fresh.button_mask)
process_wacom_v-device_example =
    process_wacom_v-device 0xc2 0x82a 0x92345678 fresh (omega arith) (omega arith)
      (unfold kind in refl)

interpreters-AgreesWithMask_example :
    AgreesWithMask (process_wacom_iis_binary sensing engaged 7 fresh)
    × AgreesWithMask (process_wacom_iv_13 sensing engaged 7 fresh)
    × AgreesWithMask (process_wacom_iv_14 sensing engaged 7 fresh)
    × AgreesWithMask (process_tablet_pc engaged 7 fresh)
    × AgreesWithMask (process_graphire sensing engaged 7 fresh)
interpreters-AgreesWithMask_example =
    interpreters-AgreesWithMask sensing engaged 7 fresh fresh-AgreesWithMask

eraser_down : (iv_buttons (iv_packet 58 0 10 0 0) fresh).1 ≡ bit_stylus_eraser
unfolding iv_buttons
eraser_down = refl

-- A mouse of the first Intuos with its left button down.
abbrev mouse_packet : List ℕ
mouse_packet = 0xb0 ∷ 1 ∷ 2 ∷ 3 ∷ 4 ∷ 5 ∷ 6 ∷ 7 ∷ 0x04 ∷ []

process_wacom_v-mouse_lost_example :
    let s' = process_wacom_v mouse_packet 9 fresh in
    (s'.button button_left ≡ false)
    × (s'.button button_middle ≡ false)
    × (s'.button button_right ≡ false)
    × (s'.button button_extra ≡ false)
    × (s'.button button_side ≡ false)
unfolding kind v_mouse_buttons
process_wacom_v-mouse_lost_example =
    process_wacom_v-mouse_lost mouse_packet fresh (omega arith) refl refl refl

process_wacom_iv_13-pressure_example :
    let raw =
      offset_seven (byte engaged 6) * 2
      + (if ltb sensing.version_tenths 12 then 0 else byte engaged 3 / 4 % 2) in
    let s' = process_wacom_iv_13 sensing engaged 7 fresh in
    (s'.pressure ≡ (raw - 1) * 65535 / 254) × (s'.pressure ≤ 65535)
process_wacom_iv_13-pressure_example =
    process_wacom_iv_13-pressure sensing engaged fresh (omega arith) (omega arith) refl refl

abbrev tpc_packet : List ℕ
tpc_packet = 0xa1 ∷ 1 ∷ 2 ∷ 3 ∷ 4 ∷ 100 ∷ 1 ∷ 0 ∷ 0 ∷ []

-- A raw pressure of 64 + 31 = 95.
abbrev hard : List ℕ
hard = 0xf0 ∷ 1 ∷ 2 ∷ 3 ∷ 4 ∷ 5 ∷ 31 ∷ []

process_wacom_iis_binary-wraps_example :
    (process_wacom_iis_binary sensing hard 7 fresh).pressure
    ≡ (iis_raw hard - 34) * 65535 / 60 - 65536
process_wacom_iis_binary-wraps_example =
    process_wacom_iis_binary-wraps sensing hard fresh refl refl refl refl (omega arith)
      (omega arith) (omega arith)

-- A tablet in relative mode.
abbrev relative : Sensing
relative = record sensing { settings = record (new_settings 0 7) { coordsys = coord_sys_relative } }

process_wacom_iis_binary-relative_example :
    let p = (process_wacom_iis_binary relative hard 7 fresh).point in
    (pos 0 ≤ℤ p.x)
    × (p.x <ℤ relative.settings.xscale)
    × (pos 0 ≤ℤ p.y)
    × (p.y <ℤ relative.settings.yscale)
unfolding new_settings
process_wacom_iis_binary-relative_example =
    process_wacom_iis_binary-relative relative hard fresh refl (omega arith) (omega arith)
