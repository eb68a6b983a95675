-- ===== src/Run/Loop.antt =====
-- The callbacks of the run loop: `TabletTimerCallback`, `StreamTimerCallback`, `DisplayCallback`,
-- `PowerCallBack`, `message_callback` and `signal_handler`, and `RunEventLoop`. A request waits for its
-- reply within one callback, so `doing_modal` is never set when another one starts.
use tablet_magic.Base.{
  ℕ, ◌-◌, ◌≡◌, Bool, true, false, if◌then◌else◌, List, [], ◌∷◌, Option, none, some,
}
use tablet_magic.Protocol.Sensing.{Rect}
use tablet_magic.Stream.Step.{Framer}
use tablet_magic.Daemon.State.{Tablet}
use tablet_magic.Daemon.Mapping.{screen_changed}
use tablet_magic.Daemon.Handle.{process_serial_stream}
use tablet_magic.Control.World.{World}
use tablet_magic.Control.Ports.{initialize_for_port}
use tablet_magic.Control.Handle.{Environment, handle_message}

abbrev pub ask_to_quit : Tablet → Tablet
ask_to_quit t = record t { quit_processor = true }

-- One second of the stream: the packets are counted anew, and a pause runs out.
unfoldable pub count_second : Tablet → Tablet
count_second t =
    let l = t.log in
    let counted = record t {
      log = record l { packet_counter = 0; stream_pause = l.stream_pause - 1 };
    } in
    if l.send_stream then counted else t

module _ (e : Environment) where
  open e use {device, floats, stack, place, cursor}
  open device use {State, is_active}

  -- What the run loop runs on, and whether it still runs.
  pub record RunLoop : Type 0 where
    pub world : World device
    pub running : Bool

  -- A callback, with what it finds: the chunks that are read from the port and what is left of the
  -- port, the bounds of the screens, or the bytes of a message.
  pub data Call : Type 0 where
    timer : List (List ℕ) → State → Call
    stream_timer : Call
    display : Rect → Call
    powered_on : Call
    message : List ℕ → Call
    signal : Call

  -- What a stream leaves, in the world.
  abbrev pub after_stream : World device → State → Option (Option Tablet × Framer) → Option RunLoop
  after_stream w left none = none
  after_stream w left (some (none, f)) = none
  after_stream w left (some (some t, f)) =
      some record { world = record w { tablet = t; framer = f; port = left }; running = true }

  abbrev pub go_on : World device → RunLoop
  go_on w = record { world = w; running = true }

  abbrev pub stop : World device → RunLoop
  stop w = record { world = w; running = false }

  unfoldable pub tablet_timer : List (List ℕ) → State → World device → Option RunLoop
  unfolding process_serial_stream
  tablet_timer chunks left w =
      let read =
        after_stream w left (process_serial_stream floats stack place w.tablet w.framer chunks) in
      if w.tablet.quit_processor
      then some (stop w)
      else if is_active w.port
      then read
      else some (go_on w)

  -- The exception of `InitializeForPort` ends the run loop.
  abbrev pub after_search : Option (Bool × World device) → Option RunLoop
  after_search none = none
  after_search (some (found, w)) = some record { world = w; running = found }

  -- The tablet is searched for anew after sleep, if there was one.
  unfoldable pub power_callback : World device → Option RunLoop
  unfolding initialize_for_port
  power_callback w =
      let searched = after_search (initialize_for_port device floats stack cursor w.args.port w) in
      if is_active w.port then searched else some (go_on w)

  abbrev pub after_message : Option (List ℕ × World device) → Option RunLoop
  after_message none = none
  after_message (some (reply, w)) = some (go_on w)

  abbrev pub change_tablet : (Tablet → Tablet) → World device → World device
  change_tablet f w = record w { tablet = f w.tablet }

  unfoldable pub call : Call → World device → Option RunLoop
  unfolding tablet_timer power_callback count_second screen_changed
  call (timer chunks left) w = tablet_timer chunks left w
  call stream_timer w = some (go_on (change_tablet count_second w))
  call (display bounds) w = some (go_on (change_tablet (screen_changed floats bounds) w))
  call powered_on w = power_callback w
  call (message bytes) w = after_message (handle_message e bytes w)
  call signal w = some (go_on (change_tablet ask_to_quit w))

  -- `RunEventLoop` forgets that it was asked to quit.
  abbrev pub run_event_loop : World device → RunLoop
  run_event_loop w =
      let t = w.tablet in go_on (record w { tablet = record t { quit_processor = false } })

  -- The states that callbacks reach, in any order.
  pub data Reach : RunLoop → RunLoop → Type 0 where
    here : {l : RunLoop} → Reach l l
    next :
        {l m n : RunLoop} (c : Call)
        → Reach l m
        → m.running ≡ true
        → call c m.world ≡ some n
        → Reach l n

  -- A list of callbacks, until the loop is stopped.
  unfoldable pub run_calls : List Call → World device → Option RunLoop
  unfolding call
  run_calls [] w = some (go_on w)
  run_calls (c ∷ cs) w = elim (call c w) [
    | none ↦ none
    | some l ↦ let rest = run_calls cs l.world in if l.running then rest else some l
  ]
