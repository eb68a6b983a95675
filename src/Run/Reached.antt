-- ===== src/Run/Reached.antt =====
-- The invariant and the callbacks of the run loop, interleaved.
use tablet_magic.Base.{
  ℕ, ◌≡◌, arith, Bool, true, false, if◌then◌else◌, List, Option, none, some, Bool-cases, inl, inr,
}
use tablet_magic.Format.{codes}
use tablet_magic.Stream.Step.{Framer, Event, packet, command_reply, tablet_pc_reply}
use tablet_magic.Stream.Keeps.{Holds, process_reads-keeps}
use tablet_magic.Daemon.State.{Tablet}
use tablet_magic.Daemon.Mapping.{init_tablet_bounds, set_screen_mapping, screen_changed}
use tablet_magic.Daemon.Handle.{config, handle, process_serial_stream}
use tablet_magic.Control.World.{World}
use tablet_magic.Control.Ports.{initialize_for_port}
use tablet_magic.Control.Handle.{Environment, handle_message}
use tablet_magic.Start.Options.{Arguments}
use tablet_magic.Start.Construct.{first_state, apply_arguments, say_hello, construct}
use tablet_magic.Run.Loop.{
  count_second, RunLoop, Call, timer, stream_timer, display, powered_on, message, signal,
  after_stream, tablet_timer, after_search, go_on, stop, power_callback, after_message, call,
  run_event_loop, Reach, here, next,
}
use tablet_magic.Run.Sound.{
  core, IsSound, AsksOthers, IsSound-AsksOthers, Sound, process_packet-Sound,
}
use tablet_magic.Run.Replies.{
  SoundAfter, process_command_reply-Sound, process_tablet_pc_reply-Sound,
}
use tablet_magic.Run.Keeps.{SoundWorld}
use tablet_magic.Run.Found.{IsFresh, initialize_for_port-Sound, initialize_for_port-Keeps}
use tablet_magic.Run.Messages.{handle_message-Keeps}

count_second-Sound : (t : Tablet) → Sound t → Sound (count_second t)
unfolding core count_second
count_second-Sound t h = elim (Bool-cases t.log.send_stream) [
  | inl on ↦ rw on (record {
    lifted = h.lifted;
    parsed = h.parsed;
    reached = h.reached;
    paused = let p = h.paused in omega arith;
  })
  | inr off ↦ rw off h
]

apply_arguments-IsFresh :
    (a : Arguments) (t : Tablet) → IsFresh t → IsFresh (say_hello (apply_arguments a t))
unfolding apply_arguments first_state init_tablet_bounds set_screen_mapping
apply_arguments-IsFresh a t h = elim (Bool-cases a.command) [
  | inl on ↦ rw on (record { lifted = h.lifted; paused = h.paused })
  | inr off ↦ rw off (record { lifted = h.lifted; paused = h.paused })
]

module _ (e : Environment) where
  abbrev SoundLoop : Option (RunLoop e) → Type 0
  SoundLoop none = Unit {0}
  SoundLoop (some l) = Sound l.world.tablet

  SoundLoop-if :
      (b : Bool) (x y : Option (RunLoop e))
      → SoundLoop x
      → SoundLoop y
      → SoundLoop (if b then x else y)
  SoundLoop-if true x y h k = h
  SoundLoop-if false x y h k = k

  handle-Sound :
      (t : Option Tablet) (ev : Event)
      → SoundAfter t
      → SoundAfter (handle e.floats e.stack e.place t ev)
  handle-Sound none ev h = tt
  handle-Sound (some t) (packet pk) h = process_packet-Sound e.floats e.place pk t h
  handle-Sound (some t) (command_reply r) h = process_command_reply-Sound e.floats e.stack r t h
  handle-Sound (some t) (tablet_pc_reply r) h = process_tablet_pc_reply-Sound r t h

  streamed :
      (w : World e.device) (left : e.device.State) (o : Option (Option Tablet × Framer))
      → Holds config (handle e.floats e.stack e.place) SoundAfter handle-Sound o
      → SoundLoop (after_stream e w left o)
  streamed w left none h = tt
  streamed w left (some (none, f)) h = tt
  streamed w left (some (some t, f)) h = h

  searched :
      (o : Option (Bool × World e.device)) → SoundWorld e.device o → SoundLoop (after_search e o)
  searched none h = tt
  searched (some (found, w)) h = h

  replied :
      (o : Option (List ℕ × World e.device)) → SoundWorld e.device o → SoundLoop (after_message e o)
  replied none h = tt
  replied (some (text, w)) h = h

  tablet_timer-Sound :
      (chunks : List (List ℕ)) (left : e.device.State) (w : World e.device)
      → Sound w.tablet
      → SoundLoop (tablet_timer e chunks left w)
  unfolding tablet_timer
  tablet_timer-Sound chunks left w h =
      let o = process_serial_stream e.floats e.stack e.place w.tablet w.framer chunks in
      let kept = streamed w left o (
        unfold process_serial_stream in
        process_reads-keeps config (handle e.floats e.stack e.place) SoundAfter handle-Sound chunks
          (some w.tablet) w.framer h) in
      SoundLoop-if w.tablet.quit_processor (some (stop e w))
        (if e.device.is_active w.port then after_stream e w left o else some (go_on e w)) h
        (SoundLoop-if (e.device.is_active w.port) (after_stream e w left o) (some (go_on e w)) kept
          h)

  power_callback-Sound : (w : World e.device) → Sound w.tablet → SoundLoop (power_callback e w)
  unfolding power_callback
  power_callback-Sound w h =
      let o = initialize_for_port e.device e.floats e.stack e.cursor w.args.port w in
      SoundLoop-if (e.device.is_active w.port) (after_search e o) (some (go_on e w))
        (searched o (initialize_for_port-Keeps e.device e.floats e.stack e.cursor w.args.port w h))
        h

  call-Sound : (c : Call e) (w : World e.device) → Sound w.tablet → SoundLoop (call e c w)
  unfolding call
  call-Sound (timer chunks left) w h = tablet_timer-Sound chunks left w h
  call-Sound stream_timer w h = count_second-Sound w.tablet h
  call-Sound (display bounds) w h = unfold core screen_changed in h
  call-Sound powered_on w h = power_callback-Sound w h
  call-Sound (message bytes) w h =
      replied (handle_message e bytes w) (handle_message-Keeps e bytes w h)
  call-Sound signal w h = unfold core in h

  reach-Sound : {l m : RunLoop e} → Reach e l m → Sound l.world.tablet → Sound m.world.tablet
  reach-Sound here h = h
  reach-Sound (next {l = l} {m = m} c r on made) h =
      rw made at (call-Sound c m.world (reach-Sound r h))

  construct-Sound :
      (a : Arguments) (w : World e.device)
      → IsFresh w.tablet
      → SoundWorld e.device (construct e.device e.floats e.stack e.cursor a w)
  unfolding construct
  construct-Sound a w h =
      let t = say_hello (apply_arguments a w.tablet) in
      initialize_for_port-Sound e.device e.floats e.stack e.cursor a.port
        (record w { tablet = t; scaling = codes "1.0000" }) (apply_arguments-IsFresh a w.tablet h)

  -- However the callbacks of the run loop are interleaved, once the constructor has started from memory
  -- in which there is no pressure without the tip or the eraser, and a pause of at most two seconds:
  -- without the tip or the eraser there is no pressure; the flag can_parse_ud_setup is off for the SD
  -- Series, the TabletPC and CalComp and on for every other series; the series is never the one that no
  -- reply can choose; and the stream is paused for two seconds at most.
  pub reach-IsSound :
      (a : Arguments) (w u : World e.device) (found : Bool) (l : RunLoop e)
      → IsFresh w.tablet
      → construct e.device e.floats e.stack e.cursor a w ≡ some (found, u)
      → Reach e (run_event_loop e u) l
      → IsSound (core l.world.tablet) × AsksOthers (core l.world.tablet)
  reach-IsSound a w u found l h made r =
      let sound = reach-Sound r (unfold core in rw made at (construct-Sound a w h)) in
      (sound, IsSound-AsksOthers (core l.world.tablet) sound)
