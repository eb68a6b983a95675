-- ===== src/Daemon/Handle.antt =====
-- The handlers put in place of the parameter of `Stream`: what one read of the port does to the
-- tablet. `none` stands behind an access outside an array.
use tablet_magic.Base.{ℕ, true, List, Option, none, some}
use tablet_magic.Series.{unknown}
use tablet_magic.Floats.{Floats}
use tablet_magic.Stylus.{Point}
use tablet_magic.Settings.Constants.{command_set_wacom_iv}
use tablet_magic.Stream.Step.{Config, Framer, Event, packet, command_reply, tablet_pc_reply}
use tablet_magic.Stream.Loop.{process_reads}
use tablet_magic.Daemon.State.{Tablet}
use tablet_magic.Daemon.Reply.{process_command_reply, process_tablet_pc_reply}
use tablet_magic.Daemon.Dispatch.{process_packet}

abbrev pub config_of : Tablet → Config
config_of t = record {
  series = t.series;
  packet_size = t.active.packet_size;
  command_set = t.active.command_set;
  can_parse_ud_setup = t.can_parse_ud_setup;
}

-- Behind a fault nothing is said of the tablet; any configuration serves.
abbrev pub config : Option Tablet → Config
config none = record {
  series = unknown;
  packet_size = 7;
  command_set = command_set_wacom_iv;
  can_parse_ud_setup = true;
}
config (some t) = config_of t

module _ (fl : Floats) (stack : ℕ) (place : Tablet → Point) where
  abbrev pub handle : Option Tablet → Event → Option Tablet
  handle none e = none
  handle (some t) (packet pk) = some (process_packet fl place pk t)
  handle (some t) (command_reply r) = process_command_reply fl stack r t
  handle (some t) (tablet_pc_reply r) = some (process_tablet_pc_reply r t)

  -- `ProcessSerialStream`: the reads that the port holds.
  unfoldable pub process_serial_stream :
      Tablet → Framer → List (List ℕ) → Option (Option Tablet × Framer)
  process_serial_stream t f chunks = process_reads config handle (some t) f chunks
