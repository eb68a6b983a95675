-- ===== src/Settings/Tests.antt =====
-- The import and the export of settings on the texts of the daemon.
use tablet_magic.Base.{◌≡◌, false, arith, refl, ◌++◌, some}
use tablet_magic.Int.{pos}
use tablet_magic.Format.{
  codes, scan_hex, scan_digits, skip_prefix, hex_run, print_hex, print_int, scan_int, scan_decimal,
  dec_run, IsInt,
}
use tablet_magic.Settings.{
  TabletSettings, scan_state, skip_header, import_state, setup_text, settings_string,
}
use tablet_magic.Settings.Presets.{new_settings, init_for_sd}
use tablet_magic.Settings.Range.{IsRead, IsReported, import_state-IsReported}
use tablet_magic.Settings.RoundTrip.{
  transferred, HasInts, reply, header_text, import_state-settings_string,
}

-- The settings of a new slot, and their text: the setup string that a tablet reports in a reply.
abbrev factory : TabletSettings
factory = new_settings 0 7

factory_text : settings_string false factory ≡ some (codes "E202C910,002,02,1270,1270")
unfolding settings_string setup_text new_settings print_hex print_int
factory_text = refl

-- What a reply of an SD tablet holds.
sd_numbers : (import_state 0 (codes "~RA203C800,000,00,1270,1270") factory).xrez ≡ pos 1270
unfolding import_state scan_hex scan_digits skip_prefix hex_run scan_int scan_decimal dec_run
sd_numbers = refl

factory-HasInts : HasInts factory
unfolding new_settings
factory-HasInts =
    let two : IsInt (pos 2) = (omega arith, omega arith) in
    let lines : IsInt (pos 1270) = (omega arith, omega arith) in (two, (two, (lines, (lines, tt))))

import_state-settings_string_example :
    import_state 0
      (header_text reply ++ (codes "E202C910,002,02,1270,1270" ++ codes "!"))
      (init_for_sd 0 factory)
    ≡ transferred factory (init_for_sd 0 factory)
unfolding new_settings
import_state-settings_string_example =
    import_state-settings_string 0 reply factory (init_for_sd 0 factory)
      (codes "E202C910,002,02,1270,1270") (codes "!") factory-HasInts factory_text refl

import_state-IsReported_example :
    let text = codes "~RE202C910,002,02,1270,1270" in
    let s' = import_state 0 text factory in
    IsRead (scan_state 0 (skip_header text)).0 s' × IsReported s'
import_state-IsReported_example =
    import_state-IsReported 0 (codes "~RE202C910,002,02,1270,1270") factory
