-- ===== src/Control/Handle.antt =====
-- `HandleMessage`: what the daemon does for each command of the preference pane, and its answer.
use tablet_magic.Base.{
  ℕ, ◌+◌, ◌-◌, ◌%◌, ◌^◌, Bool, true, false, not, leb, ◌==◌, if◌then◌else◌, List, [], ◌∷◌, length,
  get_or, Option, none, some, update,
}
use tablet_magic.Int.{ℤ, pos, pos_part, neg_part, eqb_ℤ, signed16}
use tablet_magic.Floats.{Floats}
use tablet_magic.Format.{codes, expect, skip_space, scan_int, to_uint16}
use tablet_magic.Series.{Series, cintiq, art_z, art_pad, sd_series}
use tablet_magic.Stylus.{Point, stylus_tip, stylus_button1, stylus_button2, stylus_eraser}
use tablet_magic.Protocol.Sensing.{byte}
use tablet_magic.Daemon.State.{Tablet}
use tablet_magic.Daemon.Queue.{
  pop_message, enable_queue, disable_queue, message_info, message_model, message_scale,
}
use tablet_magic.Daemon.Mapping.{init_tablet_bounds, set_screen_mapping, update_tablet_scale}
use tablet_magic.Daemon.Identify.{take_word}
use tablet_magic.Daemon.Reset.{reset_stylus, set_processing, set_mouse_mode, set_stream_logging}
use tablet_magic.Control.World.{Device, Act, ◌>>◌, return}
use tablet_magic.Control.Send.{
  send_command, send_request, send_scale, pause, change, request_ud_settings, send_ud_setup_string,
  get_ud_settings_or_fail,
}
use tablet_magic.Control.Ports.{on_port, initialize_for_port}
use tablet_magic.Control.Answers.{message_stream, message_geometry, message_serial_port}
use tablet_magic.Control.Parse as Parse
use tablet_magic.Control.Parse.{Command, parse_command}

-- The leading ones of n numbers, as `"%d %d …"` reads them; in the list of formats true stands for
-- a colon before the number.
unfoldable pub scan_numbers : List Bool → List ℕ → List ℤ × List ℕ
scan_numbers [] s = ([], s)
scan_numbers (colon ∷ rest) s =
    let start : Option (List ℕ) = if colon then expect b':' (skip_space s) else some s in
    elim start [
      | none ↦ ([], s)
      | some t ↦ elim (scan_int t) [
        | none ↦ ([], t)
        | some (v, u) ↦ let (vs, end) = scan_numbers rest u in (v ∷ vs, end)
      ]
    ]

abbrev pub geometry_format : List Bool
geometry_format =
    false ∷ false ∷ false ∷ false ∷ true ∷ false ∷ false ∷ false ∷ true ∷ false ∷ false ∷ false
    ∷ true ∷ []

-- An `int` stored as an index, and one cut to 16 bits.
abbrev pub to_index : ℤ → ℕ
to_index v = (pos_part v + (2 ^ 32 - neg_part v % 2 ^ 32)) % 2 ^ 32

abbrev pub to_sint16 : ℤ → ℤ
to_sint16 v = signed16 (to_uint16 v)

-- The tablets that are told their scale.
abbrev pub takes_scale : Series → Bool
takes_scale cintiq = true
takes_scale art_z = true
takes_scale art_pad = true
takes_scale sd_series = true
takes_scale _ = false

-- Thirteen numbers of a geometry. A variable that is not read keeps what the stack held.
unfoldable pub set_geometry : (ℕ → ℤ) → List ℤ → Tablet → Tablet
set_geometry garbage vs t0 =
    let v = λ (i : ℕ). get_or vs i (garbage i) in
    let t1 = set_mouse_mode (not (eqb_ℤ (v 12) (pos 0))) t0 in
    let t2 = init_tablet_bounds (v 0) (v 1) (v 2) (v 3) t1 in
    let t =
      set_screen_mapping (to_sint16 (v 4)) (to_sint16 (v 5)) (to_sint16 (v 6)) (to_sint16 (v 7))
        t2 in
    let o = t.output in
    let m1 = update o.button_mapping stylus_tip (to_index (v 8)) in
    let m2 = update m1 stylus_button1 (to_index (v 9)) in
    let m3 = update m2 stylus_button2 (to_index (v 10)) in
    record t { output = record o { button_mapping = update m3 stylus_eraser (to_index (v 11)) } }

-- What comes from outside: the device, the floating-point numbers, what uninitialised variables hold,
-- the place of the stylus and of the cursor on the screen, the rates of the last second, and the
-- text of the scaling that `%f` reads.
pub record Environment : Type 1 where
  pub device : Device
  pub floats : Floats
  pub stack : ℕ
  pub garbage : ℕ → ℤ
  pub garbage_text : List ℕ
  pub place : Tablet → Point
  pub cursor : Point
  pub rates : ℕ × ℕ
  pub print_scaling : List ℕ → List ℕ

module _ (e : Environment) where
  open e use {device, floats, stack, garbage, garbage_text, place, cursor, rates, print_scaling}

  abbrev pub Answer : Type 0
  Answer = Act device (List ℕ)

  abbrev pub ok : List ℕ
  ok = codes "[ok]"

  -- `message_reply` has 100 bytes.
  unfoldable pub answer : List ℕ → Answer
  answer text w = if leb 100 (length text) then none else some (text, w)

  -- The text of the settings may not fit in its array.
  abbrev pub answer_info : Option (List ℕ) → Answer
  answer_info none w = none
  answer_info (some text) w = answer text w

  abbrev pub then_ok : {A : Type 0} → Act device A → Answer
  then_ok act = act >> return ok

  unfoldable pub next_message : Answer
  unfolding answer
  next_message w = elim (pop_message w.tablet) [
    | none ↦ none
    | some (m, t) ↦ answer m (record w { tablet = t })
  ]

  unfoldable pub stream_answer : Answer
  unfolding answer
  stream_answer w =
      let (text, t) = message_stream rates.0 rates.1 w.tablet in
      answer text (record w { tablet = t })

  abbrev pub set_port : List ℕ → Act device (Unit {0})
  set_port name w = let a = w.args in return tt (record w { args = record a { port = some name } })

  abbrev pub set_forcepc : Bool → Act device (Unit {0})
  set_forcepc on w = let a = w.args in return tt (record w { args = record a { forcepc = on } })

  -- The port is opened anew by the settings that the message names.
  unfoldable pub reinit_port : List ℕ → Answer
  reinit_port arg = do
    send_ud_setup_string device floats stack arg (pos 0) false
    λ w. on_port device floats stack (device.reinit w.tablet.active) w
    pause device
    λ w. elim w.tablet.can_parse_ud_setup [
      | true ↦ (get_ud_settings_or_fail device floats stack 0 >> return ok) w
      | false ↦ return ok w
    ]

  -- The bank and the text that `"%d %s"` reads, with what the variables held before.
  unfoldable pub scan_memory : List ℕ → ℤ × List ℕ
  scan_memory arg = elim (scan_int arg) [
    | none ↦ (pos 0, garbage_text)
    | some (bank, rest) ↦
        let word = (take_word (skip_space rest)).0 in
        (bank, if length word == 0 then garbage_text else word)
  ]

  -- The array `setup` has 50 bytes.
  unfoldable pub set_memory : List ℕ → Answer
  unfolding scan_memory
  set_memory arg w =
      let (bank, setup) = scan_memory arg in
      let sent = then_ok (send_ud_setup_string device floats stack setup bank true) in
      if leb 50 (length setup) then none else sent w

  abbrev pub bank_argument : List ℕ → ℤ
  bank_argument arg = elim (scan_int arg) [ none ↦ pos 0 | some (bank, rest) ↦ bank ]

  abbrev pub scale_to : ℤ → ℤ → Answer
  scale_to h v = then_ok (change device (update_tablet_scale floats h v false))

  unfoldable pub set_scale : List ℤ → Answer
  set_scale (h ∷ v ∷ []) w =
      let told = send_scale device h v >> scale_to h v in
      if takes_scale w.tablet.series then told w else scale_to h v w
  set_scale _ w = return ok w

  abbrev pub set_scaling : List ℕ → Act device (Unit {0})
  set_scaling text w = return tt (record w { scaling = print_scaling text })

  unfoldable pub mouse_mode : List ℕ → Answer
  unfolding scan_numbers
  mouse_mode arg =
      let (vs, rest) = scan_numbers (false ∷ []) arg in
      change device (set_mouse_mode (not (eqb_ℤ (get_or vs 0 (garbage 0)) (pos 0))))
      >> then_ok (set_scaling rest)

  abbrev pub change_geometry : List ℕ → Tablet → Tablet
  change_geometry arg t = set_geometry garbage (scan_numbers geometry_format arg).0 t

  abbrev pub quit_processor : Tablet → Tablet
  quit_processor t = record t { quit_processor = true }

  -- `switch (TMParseData[i].code_number)`. Messages arrive only with `args.command`, where
  -- `InitializeForPort` tells the preference pane that there is no tablet and throws nothing.
  unfoldable pub perform : Command → List ℕ → Answer
  perform Parse.select_port arg =
      set_port arg >> then_ok (initialize_for_port device floats stack cursor (some arg))
  perform Parse.reinit_port arg = reinit_port arg
  perform Parse.start arg = then_ok (change device (set_processing true))
  perform Parse.stop arg = then_ok (change device (set_processing false))
  perform Parse.next_message arg = next_message
  perform Parse.prefs_hello arg = then_ok (change device enable_queue)
  perform Parse.prefs_bye arg = then_ok (change device disable_queue)
  perform Parse.get_info arg =
      λ w. answer_info (message_info 0 w.tablet.active w.tablet.output.tablet_on) w
  perform Parse.get_model arg = λ w. answer (message_model w.tablet) w
  perform Parse.get_scale arg = λ w. answer (message_scale w.tablet) w
  perform Parse.quit arg = then_ok (change device quit_processor)
  perform Parse.get_memory_bank arg = then_ok (request_ud_settings device (bank_argument arg))
  perform Parse.get_serialport arg = λ w. answer (message_serial_port w.args.port) w
  perform Parse.stream arg = stream_answer
  perform Parse.datastream_start arg = then_ok (change device (set_stream_logging true))
  perform Parse.datastream_stop arg = then_ok (change device (set_stream_logging false))
  perform Parse.send_command arg = then_ok (send_command device arg)
  perform Parse.send_request arg = then_ok (send_request device arg)
  perform Parse.set_setup arg = then_ok (send_ud_setup_string device floats stack arg (pos 0) true)
  perform Parse.set_memory arg = set_memory arg
  perform Parse.set_scale arg = set_scale (scan_numbers (false ∷ false ∷ []) arg).0
  perform Parse.get_geometry arg = λ w. answer (message_geometry w.scaling w.tablet) w
  perform Parse.set_geometry arg = then_ok (change device (change_geometry arg))
  perform Parse.set_mouse_mode arg = mouse_mode arg
  perform Parse.panic arg = then_ok (change device (reset_stylus place))
  perform Parse.tabletpc arg = set_forcepc (byte arg 0 == b'1') >> λ w.
      then_ok (initialize_for_port device floats stack cursor w.args.port) w

  unfoldable pub handle_message : List ℕ → Answer
  handle_message bytes = elim (parse_command bytes) [
    | none ↦ return (codes "[error]")
    | some (c, arg) ↦ perform c arg
  ]
