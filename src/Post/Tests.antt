-- ===== src/Post/Tests.antt =====
-- The events of concrete calls.
use tablet_magic.Base.{ℕ, zero, suc, ◌≡◌, refl, true, false, List, [], ◌∷◌, map}
use tablet_magic.Int.{pos}
use tablet_magic.Stylus.{Point, origin_point, pen, Stylus, set_buttons}
use tablet_magic.Post.Cg.{rmouse_down, rmouse_dragged, rmouse_up, CgEvent}
use tablet_magic.Post.Change.{Output, system_button1, system_button2, system_eraser}
use tablet_magic.Post.Run.{Sample, post_samples}

abbrev near : Stylus
near = record {
  scr_pos = origin_point;
  old_pos = origin_point;
  point = origin_point;
  old = origin_point;
  motion = origin_point;
  tilt = origin_point;
  raw_pressure = 0;
  pressure = 0;
  button_click = false;
  button_mask = 0;
  button = λ q. false;
  off_tablet = false;
  pen_near = true;
  eraser_flag = false;
  menu_button = 0;
  tool = pen;
  toolid = 0;
  serialno = 0;
  rotation = pos 0;
  wheel = pos 0;
  throttle = pos 0;
  proximity = record { unique_id = 0; pointer_type = 0; enter_proximity = false };
}

-- The tip is the left button, the second button of the stylus the right one.
abbrev mapping : ℕ → ℕ
mapping zero = system_button1
mapping (suc zero) = 3
mapping (suc (suc zero)) = system_button2
mapping _ = system_eraser

abbrev output : Output
output = record {
  tablet_on = true;
  stylus = near;
  old_stylus = near;
  old_button_state = λ q. false;
  drag_state = false;
  button_mapping = mapping;
}

abbrev spot : Point
spot = record { x = pos 3; y = pos 4 }

-- Button 2 goes down, is held while the stylus moves, and goes up.
abbrev samples : List Sample
samples =
    (set_buttons 4 near, spot)
    ∷ (record (set_buttons 4 near) { point = spot }, spot)
    ∷ (record near { point = spot }, spot)
    ∷ []

samples_sent :
    map (λ (e : CgEvent). e.event_type) (post_samples samples output).1
    ≡ rmouse_down ∷ rmouse_dragged ∷ rmouse_up ∷ []
unfolding post_samples set_buttons
samples_sent = refl

-- The tip goes down.
abbrev pressing : Output
pressing = record output { stylus = set_buttons 1 near }
