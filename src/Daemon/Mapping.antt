-- ===== src/Daemon/Mapping.antt =====
-- The active area of the tablet: `InitTabletBounds` and `UpdateTabletScale`, and
-- the area of the screen: `SetScreenMapping` and `ScreenChanged`. The areas have whole
-- coordinates, so a rescaled one is cut off to a whole number.
use tablet_magic.Base.{Bool, ◌&&◌, not, if◌then◌else◌}
use tablet_magic.Int.{ℤ, pos, negsuc, ◌+ℤ◌, ◌-ℤ◌, eqb_ℤ}
use tablet_magic.Floats.{Floats}
use tablet_magic.Protocol.Sensing.{Rect}
use tablet_magic.Daemon.State.{Tablet}
use tablet_magic.Daemon.Queue.{send_message, message_scale}

-- An argument of -1 stands for the default.
abbrev pub or_default : ℤ → ℤ → ℤ
or_default d v = if eqb_ℤ v (negsuc 0) then d else v

unfoldable pub init_tablet_bounds : ℤ → ℤ → ℤ → ℤ → Tablet → Tablet
init_tablet_bounds x1 y1 x2 y2 t =
    let x = or_default (pos 0) x1 in
    let y = or_default (pos 0) y1 in
    let area : Rect = record {
      x = x;
      y = y;
      width = if eqb_ℤ x2 (negsuc 0) then t.active.xscale else x2 -ℤ x +ℤ pos 1;
      height = if eqb_ℤ y2 (negsuc 0) then t.active.yscale else y2 -ℤ y +ℤ pos 1;
    } in
    record t { mapping = area }

-- The part of the screen that the area stands for: `SetScreenMapping`, whose arguments are of 16
-- bits.
unfoldable pub set_screen_mapping : ℤ → ℤ → ℤ → ℤ → Tablet → Tablet
set_screen_mapping x1 y1 x2 y2 t =
    let x = or_default (pos 0) x1 in
    let y = or_default (pos 0) y1 in
    let area : Rect = record {
      x = x;
      y = y;
      width = if eqb_ℤ x2 (negsuc 0) then t.screen_bounds.width -ℤ x else x2 -ℤ x +ℤ pos 1;
      height = if eqb_ℤ y2 (negsuc 0) then t.screen_bounds.height -ℤ y else y2 -ℤ y +ℤ pos 1;
    } in
    record t { screen = area }

module _ (fl : Floats) where
  open fl use {of_int, mul, div, to_int}

  -- `v *= new / old`.
  unfoldable pub rescale : ℤ → ℤ → ℤ → ℤ
  rescale new old v = to_int (mul (of_int v) (div (of_int new) (of_int old)))

  unfoldable pub update_tablet_scale : ℤ → ℤ → Bool → Tablet → Tablet
  unfolding message_scale
  update_tablet_scale h v tell t =
      let s = t.active in
      let r = t.mapping in
      let same_x = eqb_ℤ s.xscale h in
      let same_y = eqb_ℤ s.yscale v in
      let t' = record t {
        active = record s { xscale = h; yscale = v };
        mapping = record {
          x = if same_x then r.x else rescale h s.xscale r.x;
          y = if same_y then r.y else rescale v s.yscale r.y;
          width = if same_x then r.width else rescale h s.xscale r.width;
          height = if same_y then r.height else rescale v s.yscale r.height;
        };
      } in
      if tell && not (same_x && same_y) then send_message (message_scale t') t' else t'

  -- `ScreenChanged`, with the bounds that `UpdateDisplaysBounds` finds.
  unfoldable pub screen_changed : Rect → Tablet → Tablet
  screen_changed bounds t =
      let old = t.screen_bounds in
      let r = t.screen in
      let same_x = eqb_ℤ bounds.width old.width in
      let same_y = eqb_ℤ bounds.height old.height in
      record t {
        screen_bounds = bounds;
        screen = record {
          x = if same_x then r.x else rescale bounds.width old.width r.x;
          y = if same_y then r.y else rescale bounds.height old.height r.y;
          width = if same_x then r.width else rescale bounds.width old.width r.width;
          height = if same_y then r.height else rescale bounds.height old.height r.height;
        };
      }
