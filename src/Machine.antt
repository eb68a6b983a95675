-- ===== src/Machine.antt =====
-- helper/Digitizers.c: which machines are known, and the code of the digitizer. The daemon takes a machine
-- for a PC by them (`main` in daemon/SerialDaemon.cpp). What a tool of the shell prints is given.
pub mod Known
use tablet_magic.Base.{
  ℕ, Bool, true, false, not, ◌&&◌, ◌||◌, ltb, ◌==◌, if◌then◌else◌, List, [], ◌∷◌, length, Option,
  none, some,
}
use tablet_magic.Format.{codes}
use tablet_magic.Daemon.Identify.{begins_with}

-- `KNOWN_MACHINES`.
abbrev pub known_machines : List (List ℕ)
known_machines =
    codes "AAPL"
    ∷ codes "iMac"
    ∷ codes "PowerBook"
    ∷ codes "PowerMac"
    ∷ codes "RackMac"
    ∷ codes "Macmini"
    ∷ codes "MacPro"
    ∷ codes "MacBookPro"
    ∷ codes "MacBook"
    ∷ []

unfoldable pub any_begins : List (List ℕ) → List ℕ → Bool
unfolding begins_with
any_begins [] s = false
any_begins (m ∷ l) s = let later = any_begins l s in if begins_with m s then true else later

-- `is_known_machine`, by the value of `hw.model` if there is one.
unfoldable pub is_known_machine : Option (List ℕ) → Bool
unfolding any_begins
is_known_machine none = false
is_known_machine (some model) = any_begins known_machines model

-- `hackintosh`: there is a code of a digitizer, or the machine is not known.
abbrev pub has_digitizer_entry : Option (List ℕ) → Bool
has_digitizer_entry none = false
has_digitizer_entry (some digi) = not (length digi == 0)

unfoldable pub is_hackintosh : Option (List ℕ) → Option (List ℕ) → Bool
unfolding is_known_machine
is_hackintosh digi model = has_digitizer_entry digi || not (is_known_machine model)

-- Line endings at the end of a text are taken off.
abbrev pub keep_unless_ending : ℕ → List ℕ → List ℕ
keep_unless_ending c [] = if c == b'\n' || c == b'\r' then [] else c ∷ []
keep_unless_ending c (d ∷ s) = c ∷ d ∷ s

unfoldable pub clean_string : List ℕ → List ℕ
clean_string [] = []
clean_string (c ∷ s) = keep_unless_ending c (clean_string s)

-- The three commands of the shell.
pub data Tool : Type 0 where
  find_digitizer : Tool
  find_name : Tool
  from_hex : List ℕ → Tool

-- The first text, or the second if it is empty.
abbrev pub first_or : Option (List ℕ) → Option (List ℕ) → Option (List ℕ)
first_or none second = none
first_or (some s) second = if length s == 0 then second else some s

-- None within is a tool that could not be run; none outside is `strlen` of its missing text.
abbrev pub from_long : (Tool → Option (List ℕ)) → List ℕ → Option (Option (List ℕ))
from_long run s = elim (run (from_hex s)) [ none ↦ none | some u ↦ some (some (clean_string u)) ]

abbrev pub from_found : (Tool → Option (List ℕ)) → Option (List ℕ) → Option (Option (List ℕ))
from_found run none = some none
from_found run (some s) =
    let t = clean_string s in if ltb 12 (length t) then from_long run t else some (some t)

-- `get_digitizer_string`.
unfoldable pub get_digitizer_string : (Tool → Option (List ℕ)) → Option (Option (List ℕ))
unfolding clean_string
get_digitizer_string run = from_found run (first_or (run find_digitizer) (run find_name))
