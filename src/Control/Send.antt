-- ===== src/Control/Send.antt =====
-- `SendCommandToTablet`, `SendRequestToTablet`, `SendScaleToTablet`, `GetUDSettings`,
-- `GetUDSettingsOrFail`, `RequestUDSettings` and `SendUDSetupString`.
use tablet_magic.Base.{
  ℕ, zero, suc, Bool, true, false, ◌&&◌, ltb, leb, ◌==◌, if◌then◌else◌, List, [], ◌∷◌, ◌++◌, length,
  Option, none, some,
}
use tablet_magic.Int.{ℤ, pos, negsuc, ◌-ℤ◌, leb_ℤ}
use tablet_magic.Floats.{Floats}
use tablet_magic.Format.{codes, c_string, print_int}
use tablet_magic.Settings.{import_state}
use tablet_magic.Protocol.Sensing.{byte}
use tablet_magic.Protocol.Fujitsu.{char_int}
use tablet_magic.Daemon.State.{Tablet}
use tablet_magic.Daemon.Identify.{begins_with}
use tablet_magic.Daemon.Reply.{bank_settings, set_bank, process_command_reply}
use tablet_magic.Control.World.{Device, World, Act, port_read_line, ◌>>=◌, ◌>>◌, return}

-- A command that ends in CR.
abbrev pub line : List ℕ → List ℕ
line s = s ++ b'\r' ∷ []

abbrev pub stop_tablet : List ℕ
stop_tablet = line (codes "SP")

abbrev pub start_tablet : List ℕ
start_tablet = line (codes "ST")

-- `getcoms[bank]`.
abbrev pub read_setting : ℕ → List ℕ
read_setting zero = line (codes "~R")
read_setting (suc zero) = line (codes "~R1")
read_setting (suc (suc n)) = line (codes "~R2")

-- An index of `getcoms` and of `settings`.
abbrev pub bank_of : ℤ → Option ℕ
bank_of (pos n) = if ltb n 3 then some n else none
bank_of (negsuc n) = none

-- The bank that a command asks for.
unfoldable pub note_bank : List ℕ → Tablet → Tablet
unfolding begins_with
note_bank command t =
    let bank = if byte command 2 == b'\r' then pos 0 else char_int (byte command 2) -ℤ pos b'0' in
    if begins_with (codes "~R") command then record t { bank_last_requested = bank } else t

-- A reply is taken if it begins with `~`.
abbrev pub is_answer : List ℕ → Bool
is_answer text = ltb 0 (length text) && byte text 0 == b'~'

module _ (d : Device) where
  open d use {write, wait}

  -- `com` has 100 bytes. The result is whether all of the command was written.
  unfoldable pub send_command : List ℕ → Act d Bool
  unfolding note_bank
  send_command command w =
      let (n, port) = write command w.port in
      let w' = record w { tablet = note_bank command w.tablet; port = port } in
      if leb 100 (length command) then none else some (leb_ℤ (pos (length command)) n, w')

  -- The reply, as a string; empty if the command could not be written.
  unfoldable pub send_request : List ℕ → Act d (List ℕ)
  send_request command = do
    sent ← send_command command
    elim sent [ true ↦ do text ← port_read_line d; return (c_string text) | false ↦ return [] ]

  unfoldable pub send_scale : ℤ → ℤ → Act d Bool
  unfolding send_command
  send_scale h v =
      send_command (codes "SC" ++ (print_int 0 h ++ (b',' ∷ print_int 0 v ++ b'\r' ∷ [])))

  abbrev pub pause : Act d (Unit {0})
  pause w = some (tt, record w { port = wait w.port })

  abbrev pub change : (Tablet → Tablet) → Act d (Unit {0})
  change f w = some (tt, record w { tablet = f w.tablet })

  unfoldable pub request_ud_settings : ℤ → Act d (Unit {0})
  unfolding send_command
  request_ud_settings bank w =
      let asked : Option (Unit × World d) = elim (bank_of bank) [
        | none ↦ none
        | some b ↦ (send_command (read_setting b) >> return tt) w
      ] in
      if w.tablet.can_parse_ud_setup then asked else some (tt, w)

  module _ (fl : Floats) (stack : ℕ) where
    abbrev pub handle_reply : List ℕ → Act d (Unit {0})
    handle_reply r w = elim (process_command_reply fl stack r w.tablet) [
      | none ↦ none
      | some t ↦ some (tt, record w { tablet = t })
    ]

    -- `while (tries--)`: with n tries left, and whether tries are left behind the loop. It ends
    -- with `tries` at -1 where no try succeeds.
    unfoldable pub try_settings : ℕ → ℕ → Act d Bool
    try_settings bank zero = return false
    try_settings bank (suc n) = do
      text ← send_request (read_setting bank)
      let again = pause >> try_settings bank n
      elim (is_answer text) [ true ↦ handle_reply text >> return (ltb 0 n) | false ↦ again ]

    abbrev pub get_ud_settings_or_fail : ℕ → Act d Bool
    get_ud_settings_or_fail bank = try_settings bank 15

    -- The text that sets the active settings, or those of a bank.
    abbrev pub setup_command : ℕ → List ℕ → List ℕ
    setup_command zero setup = codes "~*" ++ line setup
    setup_command (suc n) setup = codes "~W" ++ (print_int 0 (pos (suc n)) ++ line setup)

    abbrev pub insist_on : Bool → ℕ → Act d (Unit {0})
    insist_on true bank = get_ud_settings_or_fail bank >> return tt
    insist_on false bank = return tt

    unfoldable pub send_setup : ℕ → List ℕ → Bool → Act d (Unit {0})
    send_setup bank command insist = do
      stopped ← send_command stop_tablet
      written ← send_command command
      pause
      insist_on insist bank
      started ← send_command start_tablet
      return tt

    -- The settings are imported before the tablet is asked for them.
    unfoldable pub send_ud_setup_string : List ℕ → ℤ → Bool → Act d (Unit {0})
    send_ud_setup_string setup bank insist w = elim (bank_of bank) [
      | none ↦ none
      | some b ↦
          let command = setup_command b setup in
          let s = import_state stack command (bank_settings b w.tablet) in
          let w' = record w { tablet = set_bank b s w.tablet } in
          elim w.tablet.can_parse_ud_setup [
            | true ↦ send_setup b command insist w'
            | false ↦ some (tt, w')
          ]
    ]
