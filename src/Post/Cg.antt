-- ===== src/Post/Cg.antt =====
-- `PostCGEvent` (which `POST_EVENT` names): the events that it hands to the system.
use tablet_magic.Base.{ℕ, Bool, true, false, if◌then◌else◌, List, [], ◌∷◌, Option, none, some}
use tablet_magic.Int.{ℤ, negsuc, eqb_ℤ}
use tablet_magic.Stylus.{Point, origin_point, point_sub, Proximity, Stylus}

pub data EventType : Type 0 where
  lmouse_down lmouse_up rmouse_down rmouse_up omouse_down omouse_up : EventType
  mouse_moved lmouse_dragged rmouse_dragged tablet_proximity : EventType

pub data SubType : Type 0 where
  default tablet_point proximity : SubType

-- What an event tells of the tablet: nothing for the other buttons, the point and the tilt, or the
-- proximity record.
pub data TabletData : Type 0 where
  no_data : TabletData
  point_data : Point → Point → TabletData
  proximity_data : Proximity → TabletData

-- The pressure is in units of 1 / PRESSURE_SCALE; the delta is that of a motion event.
pub record CgEvent : Type 0 where
  pub event_type : EventType
  pub sub_type : SubType
  pub location : Point
  pub button_number : ℕ
  pub click_count : ℕ
  pub delta : Option Point
  pub pressure : ℕ
  pub tablet : TabletData

abbrev pub is_motion : EventType → Bool
is_motion mouse_moved = true
is_motion lmouse_dragged = true
is_motion rmouse_dragged = true
is_motion _ = false

abbrev pub is_other : EventType → Bool
is_other omouse_down = true
is_other omouse_up = true
is_other _ = false

abbrev pub is_proximity : SubType → Bool
is_proximity proximity = true
is_proximity _ = false

-- `stylus.oldPos.x == SHRT_MIN`: nothing was posted yet.
abbrev pub short_min : ℤ
short_min = negsuc 32767

unfoldable pub motion_delta : Stylus → Point
motion_delta s = if eqb_ℤ s.old_pos.x short_min then origin_point else point_sub s.scr_pos s.old_pos

unfoldable pub tablet_data : EventType → SubType → Stylus → TabletData
tablet_data type sub s = if is_other type then no_data else elim sub [
  | default ↦ no_data
  | tablet_point ↦ point_data s.point s.tilt
  | proximity ↦ proximity_data s.proximity
]

-- The stylus behind the call, and the events posted: none while the tablet is off, and a second one,
-- a pure tablet event, where the first is about proximity.
unfoldable pub post_cg_event : Bool → EventType → SubType → ℕ → ℕ → Stylus → Stylus × List CgEvent
unfolding motion_delta tablet_data
post_cg_event tablet_on type sub button clicks s =
    let motion = is_motion type in
    let event : CgEvent = record {
      event_type = type;
      sub_type = sub;
      location = s.scr_pos;
      button_number = button;
      click_count = clicks;
      delta = if motion then some (motion_delta s) else none;
      pressure = s.pressure;
      tablet = tablet_data type sub s;
    } in
    let pure =
      if is_proximity sub then record event { event_type = tablet_proximity } ∷ [] else [] in
    let moved = if motion then record s { old_pos = s.scr_pos } else s in
    if tablet_on then (moved, event ∷ pure) else (s, [])
