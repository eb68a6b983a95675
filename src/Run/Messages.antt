-- ===== src/Run/Messages.antt =====
-- The invariant and `HandleMessage`.
use tablet_magic.Base.{
  ℕ, ◌==◌, refl, arith, differ, Bool, true, false, leb, ltb, ◌+◌, if◌then◌else◌, List, [], ◌∷◌,
  length, Option, none, some, Bool-cases, inl, inr,
}
use tablet_magic.Int.{ℤ, pos}
use tablet_magic.Format.{codes}
use tablet_magic.Stylus.{Point}
use tablet_magic.Daemon.State.{Tablet, set_stylus}
use tablet_magic.Daemon.Queue.{pop_message, message_info, message_model, message_scale}
use tablet_magic.Daemon.Mapping.{init_tablet_bounds, set_screen_mapping, update_tablet_scale}
use tablet_magic.Daemon.Dispatch.{post_changes}
use tablet_magic.Daemon.Kept.{body-post_change_events}
use tablet_magic.Daemon.Agrees.{lifted_of_body}
use tablet_magic.Daemon.Reset.{released_stylus, reset_stylus, set_stream_logging}
use tablet_magic.Control.World.{World, Act, ◌>>◌, return}
use tablet_magic.Control.Send.{
  send_command, send_request, send_scale, pause, change, request_ud_settings, send_ud_setup_string,
  get_ud_settings_or_fail,
}
use tablet_magic.Control.Ports.{on_port, initialize_for_port}
use tablet_magic.Control.Answers.{message_stream, message_geometry, message_serial_port}
use tablet_magic.Control.Parse as Parse
use tablet_magic.Control.Parse.{Command, parse_command}
use tablet_magic.Control.Handle.{
  answer_info, scan_numbers, takes_scale, set_geometry, Environment, answer, then_ok, next_message,
  stream_answer, reinit_port, scan_memory, set_memory, bank_argument, scale_to, set_scale,
  mouse_mode, change_geometry, perform, handle_message,
}
use tablet_magic.Run.Sound.{core, Sound}
use tablet_magic.Run.Keeps.{
  SoundWorld, Keeps, Keeps->>, Keeps-return, Keeps-change, SoundWorld-if, SoundWorld-elim,
}
use tablet_magic.Run.Acts.{
  send_command-Keeps, send_request-Keeps, send_scale-Keeps, pause-Keeps, try_settings-Keeps,
  request_ud_settings-Keeps, send_ud_setup_string-Keeps,
}
use tablet_magic.Run.Search.{scale-Keeps}
use tablet_magic.Run.Found.{initialize_for_port-Keeps}

reset_stylus-Sound : (place : Tablet → Point) (t : Tablet) → Sound t → Sound (reset_stylus place t)
unfolding core reset_stylus post_changes
reset_stylus-Sound place t h =
    let t' = set_stylus (released_stylus t.output.stylus) t in
    record {
      lifted =
          lifted_of_body (reset_stylus place t).output.stylus (released_stylus t.output.stylus)
            (body-post_change_events (place t') t'.output) (λ up. unfold released_stylus in refl);
      parsed = h.parsed;
      reached = h.reached;
      paused = h.paused;
    }

set_stream_logging-Sound : (on : Bool) (t : Tablet) → Sound t → Sound (set_stream_logging on t)
unfolding core set_stream_logging
set_stream_logging-Sound on t h = elim (Bool-cases (differ on t.log.send_stream)) [
  | inl changed ↦
      rw changed
        (record { lifted = h.lifted; parsed = h.parsed; reached = h.reached; paused = omega arith })
  | inr same ↦ rw same h
]

-- What a popped message leaves.
abbrev SoundPopped : Option (List ℕ × Tablet) → Type 0
SoundPopped none = Unit {0}
SoundPopped (some (m, t)) = Sound t

pop_message-Sound : (t : Tablet) → Sound t → SoundPopped (pop_message t)
unfolding pop_message core
pop_message-Sound t h = go t.queue
  where
    go :
        (q : List (List ℕ))
        → SoundPopped (elim q [
          | [] ↦ some ([], t)
          | m ∷ rest ↦ if ltb (length m + 1) 100 then some (m, record t { queue = rest }) else none
        ])
    go [] = h
    go (m ∷ rest) = elim (Bool-cases (ltb (length m + 1) 100)) [
      | inl fits ↦ rw fits h
      | inr long ↦ rw long tt
    ]

message_stream-Sound : (b p : ℕ) (t : Tablet) → Sound t → Sound (message_stream b p t).1
unfolding message_stream core
message_stream-Sound b p t h = elim (Bool-cases (t.log.stream_size == 0)) [
  | inl dry ↦ rw dry h
  | inr raw ↦ rw raw h
]

module _ (e : Environment) where
  change_geometry-Sound : (arg : List ℕ) (t : Tablet) → Sound t → Sound (change_geometry e arg t)
  unfolding core set_geometry init_tablet_bounds set_screen_mapping
  change_geometry-Sound arg t h = h

  kept-Keeps :
      (f : Tablet → Tablet)
      → ((t : Tablet) → Sound t → Sound (f t))
      → Keeps e.device (then_ok e (change e.device f))
  kept-Keeps f k =
      Keeps->> e.device (change e.device f) (return (codes "[ok]")) (Keeps-change e.device f k)
        (Keeps-return e.device (codes "[ok]"))

  then_ok-Keeps :
      {A : Type 0} (m : Act e.device A) → Keeps e.device m → Keeps e.device (then_ok e m)
  then_ok-Keeps m k =
      Keeps->> e.device m (return (codes "[ok]")) k (Keeps-return e.device (codes "[ok]"))

  answer-Keeps : (text : List ℕ) → Keeps e.device (answer e text)
  unfolding answer
  answer-Keeps text w h = SoundWorld-if e.device (leb 100 (length text)) none (some (text, w)) tt h

  answer_info-Keeps : (o : Option (List ℕ)) → Keeps e.device (answer_info e o)
  answer_info-Keeps none w h = tt
  answer_info-Keeps (some text) w h = answer-Keeps text w h

  queued :
      (o : Option (List ℕ × Tablet)) (w : World e.device)
      → SoundPopped o
      → SoundWorld e.device {A = List ℕ}
          (elim o [ none ↦ none | some (m, t) ↦ answer e m (record w { tablet = t }) ])
  queued none w h = tt
  queued (some (m, t)) w h = answer-Keeps m (record w { tablet = t }) h

  next_message-Keeps : Keeps e.device (next_message e)
  unfolding next_message
  next_message-Keeps w h = queued (pop_message w.tablet) w (pop_message-Sound w.tablet h)

  stream_answer-Keeps : Keeps e.device (stream_answer e)
  unfolding stream_answer
  stream_answer-Keeps w h =
      let told = message_stream e.rates.0 e.rates.1 w.tablet in
      answer-Keeps told.0 (record w { tablet = told.1 })
        (message_stream-Sound e.rates.0 e.rates.1 w.tablet h)

  reinit_port-Keeps : (arg : List ℕ) → Keeps e.device (reinit_port e arg)
  unfolding reinit_port
  reinit_port-Keeps arg =
      Keeps->> e.device (send_ud_setup_string e.device e.floats e.stack arg (pos 0) false) _
        (send_ud_setup_string-Keeps e.device e.floats e.stack arg (pos 0) false)
        (Keeps->> e.device
          (λ w. on_port e.device e.floats e.stack (e.device.reinit w.tablet.active) w) _ (λ w h. h)
          (Keeps->> e.device (pause e.device) _ (pause-Keeps e.device) (λ w h.
            SoundWorld-elim e.device w.tablet.can_parse_ud_setup
              ((get_ud_settings_or_fail e.device e.floats e.stack 0 >> return (codes "[ok]")) w)
              (some (codes "[ok]", w))
              (then_ok-Keeps (get_ud_settings_or_fail e.device e.floats e.stack 0)
                (try_settings-Keeps e.device e.floats e.stack 0 15) w h)
              h)))

  set_memory-Keeps : (arg : List ℕ) → Keeps e.device (set_memory e arg)
  unfolding set_memory
  set_memory-Keeps arg w h =
      let (bank, setup) = scan_memory e arg in
      SoundWorld-if e.device (leb 50 (length setup)) none
        (then_ok e (send_ud_setup_string e.device e.floats e.stack setup bank true) w) tt
        (then_ok-Keeps (send_ud_setup_string e.device e.floats e.stack setup bank true)
          (send_ud_setup_string-Keeps e.device e.floats e.stack setup bank true) w h)

  set_scale-Keeps : (l : List ℤ) → Keeps e.device (set_scale e l)
  unfolding set_scale
  set_scale-Keeps [] w h = h
  set_scale-Keeps (_ ∷ []) w h = h
  set_scale-Keeps (_ ∷ _ ∷ _ ∷ _) w h = h
  set_scale-Keeps (x ∷ y ∷ []) w h =
      let scaled =
        then_ok-Keeps (change e.device (update_tablet_scale e.floats x y false))
          (scale-Keeps e.device e.floats e.stack x y false) in
      SoundWorld-if e.device (takes_scale w.tablet.series)
        ((send_scale e.device x y >> scale_to e x y) w) (scale_to e x y w)
        (Keeps->> e.device (send_scale e.device x y) (scale_to e x y)
          (send_scale-Keeps e.device x y) scaled w h)
        (scaled w h)

  mouse_mode-Keeps : (arg : List ℕ) → Keeps e.device (mouse_mode e arg)
  unfolding mouse_mode core
  mouse_mode-Keeps arg w h = h

  perform-Keeps : (c : Command) (arg : List ℕ) → Keeps e.device (perform e c arg)
  unfolding perform
  perform-Keeps Parse.select_port arg = λ w h.
      then_ok-Keeps (initialize_for_port e.device e.floats e.stack e.cursor (some arg))
        (initialize_for_port-Keeps e.device e.floats e.stack e.cursor (some arg)) _ h
  perform-Keeps Parse.reinit_port arg = reinit_port-Keeps arg
  perform-Keeps Parse.start arg = unfold core in λ w h. h
  perform-Keeps Parse.stop arg = unfold core in λ w h. h
  perform-Keeps Parse.next_message arg = next_message-Keeps
  perform-Keeps Parse.prefs_hello arg = unfold core in λ w h. h
  perform-Keeps Parse.prefs_bye arg = unfold core in λ w h. h
  perform-Keeps Parse.get_info arg =
      λ w. answer_info-Keeps (message_info 0 w.tablet.active w.tablet.output.tablet_on) w
  perform-Keeps Parse.get_model arg = λ w. answer-Keeps (message_model w.tablet) w
  perform-Keeps Parse.get_scale arg = λ w. answer-Keeps (message_scale w.tablet) w
  perform-Keeps Parse.quit arg = unfold core in λ w h. h
  perform-Keeps Parse.get_memory_bank arg =
      then_ok-Keeps (request_ud_settings e.device (bank_argument e arg))
        (request_ud_settings-Keeps e.device (bank_argument e arg))
  perform-Keeps Parse.get_serialport arg = λ w. answer-Keeps (message_serial_port w.args.port) w
  perform-Keeps Parse.stream arg = stream_answer-Keeps
  perform-Keeps Parse.datastream_start arg =
      kept-Keeps (set_stream_logging true) (set_stream_logging-Sound true)
  perform-Keeps Parse.datastream_stop arg =
      kept-Keeps (set_stream_logging false) (set_stream_logging-Sound false)
  perform-Keeps Parse.send_command arg =
      then_ok-Keeps (send_command e.device arg) (send_command-Keeps e.device arg)
  perform-Keeps Parse.send_request arg =
      then_ok-Keeps (send_request e.device arg) (send_request-Keeps e.device arg)
  perform-Keeps Parse.set_setup arg =
      then_ok-Keeps (send_ud_setup_string e.device e.floats e.stack arg (pos 0) true)
        (send_ud_setup_string-Keeps e.device e.floats e.stack arg (pos 0) true)
  perform-Keeps Parse.set_memory arg = set_memory-Keeps arg
  perform-Keeps Parse.set_scale arg = set_scale-Keeps (scan_numbers (false ∷ false ∷ []) arg).0
  perform-Keeps Parse.get_geometry arg = λ w. answer-Keeps (message_geometry w.scaling w.tablet) w
  perform-Keeps Parse.set_geometry arg =
      kept-Keeps (change_geometry e arg) (change_geometry-Sound arg)
  perform-Keeps Parse.set_mouse_mode arg = mouse_mode-Keeps arg
  perform-Keeps Parse.panic arg = kept-Keeps (reset_stylus e.place) (reset_stylus-Sound e.place)
  perform-Keeps Parse.tabletpc arg = λ w h.
      then_ok-Keeps (initialize_for_port e.device e.floats e.stack e.cursor w.args.port)
        (initialize_for_port-Keeps e.device e.floats e.stack e.cursor w.args.port) _ h

  done :
      (o : Option (Command × List ℕ))
      → Keeps e.device
          (elim o [ none ↦ return (codes "[error]") | some (c, arg) ↦ perform e c arg ])
  done none = Keeps-return e.device (codes "[error]")
  done (some (c, arg)) = perform-Keeps c arg

  pub handle_message-Keeps : (bytes : List ℕ) → Keeps e.device (handle_message e bytes)
  unfolding handle_message
  handle_message-Keeps bytes = done (parse_command bytes)
