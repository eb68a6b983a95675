-- ===== src/Control/Initialize.antt =====
-- `InitializeTablet`: the tablet is asked who it is, and set up accordingly.
use tablet_magic.Base.{
  ℕ, zero, suc, Bool, true, false, not, ◌&&◌, leb, ◌==◌, if◌then◌else◌, List, [], ◌++◌, length,
  Option, none, some,
}
use tablet_magic.Int.{pos}
use tablet_magic.Floats.{Floats}
use tablet_magic.Format.{codes}
use tablet_magic.Series.{Series, intuos2, intuos, cintiq, pen_partner, sd_series, tablet_pc}
use tablet_magic.Settings.{TabletSettings}
use tablet_magic.Settings.Presets.{
  init_for_sd, init_for_pl, init_for_pen_partner, init_for_intuos, init_for_tablet_pc,
}
use tablet_magic.Protocol.Sensing.{byte}
use tablet_magic.Daemon.State.{Tablet}
use tablet_magic.Daemon.Mapping.{update_tablet_scale}
use tablet_magic.Daemon.Reply.{process_tablet_pc_reply}
use tablet_magic.Control.World.{Device, Act, ◌>>=◌, ◌>>◌, return}
use tablet_magic.Control.Send.{
  line, stop_tablet, start_tablet, is_answer, send_command, send_request, send_scale, pause, change,
  handle_reply, get_ud_settings_or_fail,
}

abbrev pub query_reply_size : ℕ
query_reply_size = 11

abbrev pub sd_fallback_id : List ℕ
sd_fallback_id = codes "~#SD-Fallback V1.2"

abbrev pub tablet_pc_id : List ℕ
tablet_pc_id = codes "~#ISD V4"

-- The best state of an SD tablet: II-S binary, pressure, no increment, normal data.
abbrev pub sd_setup : List ℕ
sd_setup =
    line (codes "AS1")
    ++ (line (codes "PH1") ++ (line (codes "SU2") ++ (line (codes "IN0") ++ line (codes "AL0"))))

abbrev pub update_active : (TabletSettings → TabletSettings) → Tablet → Tablet
update_active f t = record t { active = f t.active }

-- `switch (series_index)` on the settings of the tablet.
pub data Setting : Type 0 where
  as_pl as_sd as_tablet_pc as_pen_partner as_intuos asked : Setting

abbrev pub setting : Series → Setting
setting cintiq = as_pl
setting sd_series = as_sd
setting tablet_pc = as_tablet_pc
setting pen_partner = as_pen_partner
setting intuos = as_intuos
setting intuos2 = as_intuos
setting _ = asked

module _ (d : Device) where
  open d use {flush, wait}

  abbrev pub flush_port : Act d (Unit {0})
  flush_port w = some (tt, record w { port = flush w.port })

  -- `for (int x=3; x--;)`, with n rounds left and the last reply.
  unfoldable pub ask_id : ℕ → List ℕ → Act d (List ℕ)
  ask_id zero last = return last
  ask_id (suc n) last = do
    text ← send_request d (line (codes "~#"))
    let again = ask_id n text
    elim (is_answer text) [ true ↦ return text | false ↦ again ]

  -- A TabletPC's answer counts only if it has its eleven bytes; it is processed before, and the bytes
  -- of the buffer behind a shorter one are taken to be 0.
  unfoldable pub query_tablet_pc : Act d (Option (List ℕ))
  query_tablet_pc = do
    stopped ← send_command d (codes "0")
    elim stopped [
      | false ↦ return none
      | true ↦ do
        pause d
        flush_port
        text ← send_request d (codes "*")
        change d (process_tablet_pc_reply text)
        return (if length text == query_reply_size then some tablet_pc_id else none)
    ]

  unfoldable pub query_wacom : Act d (Option (List ℕ))
  query_wacom = do
    stopped ← send_command d stop_tablet
    elim stopped [
      | false ↦ return none
      | true ↦ do flush_port; id ← ask_id 3 []; return (if length id == 0 then none else some id)
    ]

  -- What `try_tablet_model` makes of the first step: the reply to go on with, or none for `break`.
  unfoldable pub find_id : Series → Act d (Option (List ℕ))
  find_id sd_series w = return (some sd_fallback_id) w
  find_id tablet_pc w = elim w.args.forcepc [
    | true ↦ return (some tablet_pc_id) w
    | false ↦ query_tablet_pc w
  ]
  find_id _ w = query_wacom w

  module _ (fl : Floats) (stack : ℕ) where
    -- The string of the command line is sent once. `setstr` has 32 bytes.
    abbrev pub init_command : List ℕ → List ℕ
    init_command init = (if byte init 0 == b'~' then [] else codes "~*") ++ line init

    abbrev pub fits_setstr : List ℕ → Act d (Unit {0})
    fits_setstr command w = if leb 32 (length command) then none else some (tt, w)

    abbrev pub forget_init : Act d (Unit {0})
    forget_init w = let a = w.args in some (tt, record w { args = record a { init = none } })

    unfoldable pub send_init : Option (List ℕ) → Act d (Unit {0})
    send_init none = return tt
    send_init (some init) = do
      fits_setstr (init_command init)
      sent ← send_command d (init_command init)
      pause d
      forget_init

    -- A tablet that the preference pane runs is switched off if it does not tell its settings.
    abbrev pub switch_off : Bool → Tablet → Tablet
    switch_off answered t =
        let o = t.output in
        if not answered && t.command
        then record t { output = record o { tablet_on = false } }
        else t

    unfoldable pub ask_settings : Act d (Unit {0})
    ask_settings w =
        (do
          send_init w.args.init
          answered ← get_ud_settings_or_fail d fl stack 0
          change d (switch_off answered))
          w

    unfoldable pub apply_settings : Setting → Act d (Unit {0})
    apply_settings as_pl w = change d (update_active (init_for_pl stack)) w
    apply_settings as_sd w =
        (send_command d sd_setup >> change d (update_active (init_for_sd stack))) w
    apply_settings as_tablet_pc w = change d (update_active (init_for_tablet_pc w.args.baud38400)) w
    apply_settings as_pen_partner w = change d (update_active (init_for_pen_partner stack)) w
    apply_settings as_intuos w = change d (update_active init_for_intuos) w
    apply_settings asked w = ask_settings w

    -- The size of the tablet; false for `break`.
    unfoldable pub apply_size : Series → Act d Bool
    apply_size tablet_pc =
        change d (update_tablet_scale fl (pos 24570) (pos 18430) false) >> return true
    apply_size sd_series = do
      sent ← send_scale d (pos 15240) (pos 15240)
      change d (update_tablet_scale fl (pos 15240) (pos 15240) false)
      return true
    apply_size _ = do
      text ← send_request d (line (codes "~C"))
      elim (length text == 0) [
        | true ↦ return false
        | false ↦ handle_reply d fl stack text >> return true
      ]

    abbrev pub is_tablet_pc_series : Series → Bool
    is_tablet_pc_series tablet_pc = true
    is_tablet_pc_series _ = false

    -- The tablet starts to send.
    unfoldable pub start_sending : Act d (Unit {0})
    start_sending w = elim (is_tablet_pc_series w.tablet.series) [
      | false ↦ (send_command d start_tablet >> return tt) w
      | true ↦ elim w.args.forcepc [
        | true ↦ return tt w
        | false ↦ (send_command d (codes "1") >> return tt) w
      ]
    ]

    unfoldable pub set_up : List ℕ → Act d Bool
    set_up id = do
      handle_reply d fl stack id
      λ w. apply_settings (setting w.tablet.series) w
      sized ← λ w. apply_size w.tablet.series w
      elim sized [ false ↦ return false | true ↦ start_sending >> return true ]

    unfoldable pub initialize_tablet : Series → Act d Bool
    initialize_tablet model = do
      id ← find_id model
      elim id [ none ↦ return false | some text ↦ set_up text ]
