-- ===== src/Run/Tests.antt =====
-- A daemon that runs on a machine with one port.
use tablet_magic.Base.{
  ◌≡◌, refl, arith, Bool, true, false, List, [], ◌∷◌, length, none, some, Option,
}
use tablet_magic.Int.{pos}
use tablet_magic.Format.{codes}
use tablet_magic.Stylus.{origin_point}
use tablet_magic.Stream.Packets.{idle}
use tablet_magic.Daemon.Samples.{whole, tablet, place}
use tablet_magic.Control.World.{Device, World}
use tablet_magic.Control.Handle.{Environment}
use tablet_magic.Start.Options.{default_arguments}
use tablet_magic.Start.Construct.{first_state, apply_arguments, construct}
use tablet_magic.Run.Loop.{
  RunLoop, Call, timer, stream_timer, signal, call, tablet_timer, count_second, run_calls,
  run_event_loop,
}
use tablet_magic.Format.{c_string}
use tablet_magic.Control.Ports.{
  initialize_for_port, find_tablet_on_port, try_ports, try_models, models_to_try,
}
use tablet_magic.Control.Initialize.{
  initialize_tablet, find_id, set_up, apply_settings, apply_size, start_sending,
}
use tablet_magic.Daemon.Reply.{process_command_reply, reply_kind, log_reply}
use tablet_magic.Daemon.Reset.{init_stylus}
use tablet_magic.Daemon.Identify.{identify, rom_of, find_series, begins_with, take_word}
use tablet_magic.Daemon.Queue.{series_code}
use tablet_magic.Daemon.Mapping.{set_screen_mapping, init_tablet_bounds, update_tablet_scale}
use tablet_magic.Stream.Step.{step}
use tablet_magic.Stream.Loop.{process_reads, consume}
use tablet_magic.Daemon.Handle.{process_serial_stream}
use tablet_magic.Run.Sound.{core, IsSound, AsksOthers}
use tablet_magic.Run.Reached.{reach-IsSound}
use tablet_magic.Run.Runner.{run_calls-Reach}
use tablet_magic.Run.Quit.{IsStopped, run_calls-signal}

-- The port says nothing, and its state tells whether it is open.
abbrev device : Device
device = record {
  State = Bool;
  write = λ b s. (pos (length b), s);
  arriving = λ s. [];
  leave = λ rest s. s;
  flush = λ s. s;
  wait = λ s. s;
  matching = λ name s. (λ u. (true, true)) ∷ [];
  close = λ s. false;
  set_speed = λ v s. s;
  speed = λ s. 9600;
  is_active = λ s. s;
  reinit = λ t s. s;
}

abbrev environment : Environment
environment = record {
  device = device;
  floats = whole;
  stack = 0;
  garbage = λ i. pos 0;
  garbage_text = [];
  place = place;
  cursor = origin_point;
  rates = (0, 0);
  print_scaling = λ s. s;
}

abbrev world : World device
world = record {
  tablet = tablet;
  args = record { forcepc = true; hackintosh = true; baud38400 = false; init = none; port = none };
  framer = idle;
  scaling = codes "1.0000";
  port = false;
}

abbrev calls : List (Call environment)
calls = stream_timer ∷ signal ∷ []

run_calls-signal_example : IsStopped environment world (
    run_calls environment
      (signal ∷ stream_timer ∷ signal ∷ timer ((0xe0 ∷ []) ∷ []) false ∷ [])
      world)
run_calls-signal_example = run_calls-signal environment calls ((0xe0 ∷ []) ∷ []) false world refl

abbrev world_of : Option (Bool × World device) → World device
world_of none = world
world_of (some (found, w)) = w

abbrev started : World device
started = world_of (construct device whole 0 origin_point default_arguments world)

built : construct device whole 0 origin_point default_arguments world ≡ some (true, started)
unfolding construct default_arguments initialize_for_port find_tablet_on_port try_ports try_models
    models_to_try initialize_tablet find_id set_up process_command_reply c_string reply_kind
    identify rom_of find_series begins_with series_code take_word apply_settings apply_size
    start_sending update_tablet_scale
built = refl

-- A second of the stream, three bytes of a packet, and a signal.
abbrev evening : List (Call environment)
evening = stream_timer ∷ timer ((0xe0 ∷ 1 ∷ 2 ∷ []) ∷ []) true ∷ signal ∷ timer [] true ∷ []

abbrev loop_of : Option (RunLoop environment) → RunLoop environment
loop_of none = run_event_loop environment world
loop_of (some l) = l

abbrev ended : RunLoop environment
ended = loop_of (run_calls environment evening (run_event_loop environment started).world)

ran : run_calls environment evening (run_event_loop environment started).world ≡ some ended
unfolding construct default_arguments initialize_for_port find_tablet_on_port try_ports try_models
    models_to_try initialize_tablet find_id set_up process_command_reply c_string reply_kind
    identify rom_of find_series begins_with series_code take_word apply_settings apply_size
    start_sending update_tablet_scale log_reply init_stylus apply_arguments set_screen_mapping
    init_tablet_bounds first_state run_calls call tablet_timer count_second process_serial_stream
    process_reads consume step
ran = refl

reach-IsSound_example : IsSound (core ended.world.tablet) × AsksOthers (core ended.world.tablet)
reach-IsSound_example =
    reach-IsSound environment default_arguments world started true ended
      (record { lifted = λ up. refl; paused = omega arith }) built
      (run_calls-Reach environment evening (run_event_loop environment started).world ended ran)
