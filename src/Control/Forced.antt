-- ===== src/Control/Forced.antt =====
-- `InitializeTablet` with a TabletPC that the command line forces.
use tablet_magic.Base.{ℕ, ◌≡◌, refl, Bool, true, false, Option, none, some}
use tablet_magic.Int.{pos}
use tablet_magic.Floats.{Floats}
use tablet_magic.Series.{tablet_pc}
use tablet_magic.Settings.Constants.{command_set_tablet_pc}
use tablet_magic.Settings.Presets.{init_for_tablet_pc}
use tablet_magic.Format.{c_string}
use tablet_magic.Daemon.Mapping.{update_tablet_scale}
use tablet_magic.Daemon.Identify.{begins_with, take_word, rom_of, find_series, identify}
use tablet_magic.Daemon.Queue.{series_code}
use tablet_magic.Daemon.Reply.{reply_kind, process_command_reply}
use tablet_magic.Control.World.{Device, World}
use tablet_magic.Control.Initialize.{
  find_id, apply_settings, apply_size, start_sending, set_up, initialize_tablet,
}

module _ (d : Device) where
  -- The call succeeds without a word to the device, and the tablet is set up as a TabletPC of the
  -- size that is built in.
  abbrev pub IsForced : World d → Option (Bool × World d) → Type 0
  IsForced w none = ⊥
  IsForced w (some (ok, u)) =
      (ok ≡ true)
      × (u.port ≡ w.port)
      × (u.tablet.series ≡ tablet_pc)
      × (u.tablet.can_parse_ud_setup ≡ false)
      × (u.tablet.active.command_set ≡ command_set_tablet_pc)
      × (u.tablet.active.packet_size ≡ 9)
      × (u.tablet.active.xscale ≡ pos 24570)
      × (u.tablet.active.yscale ≡ pos 18430)

  module _ (fl : Floats) (stack : ℕ) where
    -- With a TabletPC that is forced, whatever the device, the floating-point numbers and the state,
    -- `InitializeTablet` succeeds and sends nothing to the device: the tablet is a TabletPC with the
    -- settings of one, packets of nine bytes, and the scale 24570 by 18430.
    pub initialize_tablet-IsForced :
        (w : World d)
        → w.args.forcepc ≡ true
        → IsForced w (initialize_tablet d fl stack tablet_pc w)
    unfolding initialize_tablet find_id set_up process_command_reply reply_kind identify rom_of
        take_word find_series begins_with series_code apply_settings apply_size start_sending
        c_string update_tablet_scale init_for_tablet_pc
    initialize_tablet-IsForced w forced = rw forced (refl, refl, refl, refl, refl, refl, refl, refl)
