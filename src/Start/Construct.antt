-- ===== src/Start/Construct.antt =====
-- The constructor of `WacomTablet`, from the arguments to the search for a tablet. The notices of the
-- system and the service of its events are outside the model, and succeed.
use tablet_magic.Base.{ℕ, if◌then◌else◌, Bool, true, false, not, []}
use tablet_magic.Floats.{Floats}
use tablet_magic.Format.{codes}
use tablet_magic.Stylus.{Point}
use tablet_magic.Daemon.State.{Tablet}
use tablet_magic.Daemon.Queue.{send_message}
use tablet_magic.Daemon.Mapping.{init_tablet_bounds, set_screen_mapping}
use tablet_magic.Daemon.Reset.{set_processing, set_mouse_mode}
use tablet_magic.Control.World.{Device, Act, ◌>>◌, return}
use tablet_magic.Control.Send.{change}
use tablet_magic.Control.Ports.{initialize_for_port}
use tablet_magic.Control.Handle.{to_sint16}
use tablet_magic.Start.Options.{Arguments}

-- The fields that the constructor sets itself; `mouse_scaling` is text beside the tablet.
unfoldable pub first_state : Arguments → Tablet → Tablet
first_state a t0 =
    let t = set_processing (not a.startoff) t0 in
    let l = t.log in
    let o = t.output in
    record t {
      queue = [];
      queue_enabled = true;
      mouse_mode = false;
      test_mode = a.quit;
      command = a.command;
      output = record o { button_mapping = a.button_mapping };
      log = record l { send_stream = false; stream_size = 0 };
    }

unfoldable pub apply_arguments : Arguments → Tablet → Tablet
unfolding first_state
apply_arguments a t0 =
    let t = set_mouse_mode a.mouse (first_state a t0) in
    set_screen_mapping (to_sint16 a.scr_left) (to_sint16 a.scr_top) (to_sint16 a.scr_right)
      (to_sint16 a.scr_bottom) (init_tablet_bounds a.tab_left a.tab_top a.tab_right a.tab_bottom t)

abbrev pub say_hello : Tablet → Tablet
say_hello t = if t.command then send_message (codes "[hello]") t else t

module _ (d : Device) (fl : Floats) (stack : ℕ) (cursor : Point) where
  abbrev pub first_scaling : Act d (Unit {0})
  first_scaling w = return tt (record w { scaling = codes "1.0000" })

  -- False stands for the exception of `InitializeForPort`.
  unfoldable pub construct : Arguments → Act d Bool
  construct a =
      change d (apply_arguments a)
      >> first_scaling
      >> change d say_hello
      >> initialize_for_port d fl stack cursor a.port
