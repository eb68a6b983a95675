-- ===== src/Settings/Description.antt =====
-- `Description`: the settings as text for the log. A line is built in 32 bytes and the text in 1024: a
-- label has 18 characters and a value 11 at most, and there are 31 lines.
use tablet_magic.Base.{
  ℕ, zero, suc, ◌*◌, ◌^◌, ◌==◌, if◌then◌else◌, List, [], ◌∷◌, ◌++◌, Option, none, some,
}
use tablet_magic.Int.{ℤ, pos}
use tablet_magic.Format.{codes, print_int}
use tablet_magic.Settings.{TabletSettings}

-- An entry of a table, if it has one there.
unfoldable pub pick : List (List ℕ) → ℕ → Option (List ℕ)
pick [] n = none
pick (x ∷ l) zero = some x
pick (x ∷ l) (suc n) = pick l n

abbrev sets : List (List ℕ)
sets =
    codes "BitPad"
    ∷ codes "MM 1201"
    ∷ codes "WACOM II-S"
    ∷ codes "WACOM IV"
    ∷ codes "WACOM V"
    ∷ codes "Tablet PC"
    ∷ []

abbrev terms : List (List ℕ)
terms = codes "CR" ∷ codes "LF" ∷ codes "CRLF" ∷ codes "CRLF" ∷ []

abbrev parities : List (List ℕ)
parities = codes "N" ∷ codes "N" ∷ codes "O" ∷ codes "E" ∷ []

abbrev modes : List (List ℕ)
modes = codes "suppressed" ∷ codes "point" ∷ codes "sw stream" ∷ codes "stream" ∷ []

abbrev rates : List (List ℕ)
rates = codes "50" ∷ codes "67" ∷ codes "100" ∷ codes "MAX" ∷ codes "200" ∷ []

abbrev resolutions : List (List ℕ)
resolutions =
    codes "500 lpi" ∷ codes "508 lpi" ∷ codes "1000 lpi" ∷ codes "1270 lpi" ∷ codes "2540 lpi" ∷ []

-- `straddf`: a label, a value and a line feed. None is an access behind the end of a table.
abbrev straddf : List ℕ → List ℕ → Option (List ℕ)
straddf label value = some (label ++ (value ++ (10 ∷ [])))

unfoldable pub entry : List ℕ → List (List ℕ) → ℕ → Option (List ℕ)
unfolding pick
entry label table n = elim (pick table n) [ none ↦ none | some value ↦ straddf label value ]

abbrev choice : ℕ → List ℕ → List ℕ → List ℕ
choice n one other = if n == 0 then other else one

abbrev number : ℤ → List ℕ
number v = print_int 0 v

abbrev switched : ℕ → List ℕ
switched n = choice n (codes "ON") (codes "OFF")

abbrev pub description_lines : TabletSettings → List (Option (List ℕ))
description_lines s =
    entry (codes "command set ..... ") sets s.command_set
    ∷ straddf (codes "output format ... ") (choice s.output_format (codes "ASCII") (codes "BINARY"))
    ∷ entry (codes "terminator ...... ") terms s.terminator
    ∷ straddf (codes "packet size ..... ") (number (pos s.packet_size))
    ∷ straddf (codes "baud rate ....... ") (number (pos (2400 * 2 ^ s.baud_rate)))
    ∷ straddf (codes "data bits ....... ") (choice s.data_bits (codes "8") (codes "7"))
    ∷ entry (codes "parity .......... ") parities s.parity
    ∷ straddf (codes "stop bits ....... ") (choice s.stop_bits (codes "2") (codes "1"))
    ∷ straddf (codes "cts ............. ") (switched s.cts)
    ∷ straddf (codes "dsr ............. ") (switched s.dsr)
    ∷ entry (codes "transfer mode ... ") modes s.transfer_mode
    ∷ straddf (codes "coord sys ....... ") (choice s.coordsys (codes "REL") (codes "ABS"))
    ∷ entry (codes "transfer rate ... ") rates s.transfer_rate
    ∷ entry (codes "resolution ...... ") resolutions s.resolution
    ∷ straddf (codes "origin .......... ") (choice s.origin (codes "LL") (codes "UL"))
    ∷ straddf (codes "oor data ........ ") (switched s.oor_data)
    ∷ straddf (codes "pnp ............. ") (switched s.pnp)
    ∷ straddf (codes "sensitivity ..... ") (choice s.sensitivity (codes "soft") (codes "firm"))
    ∷ straddf (codes "read height ..... ") (choice s.read_height (codes "2mm") (codes "8mm+"))
    ∷ straddf (codes "mdm ............. ") (switched s.mdm)
    ∷ straddf (codes "tilt ............ ") (switched s.tilt)
    ∷ straddf (codes "mm command set .. ") (choice s.mm_comm (codes "MM961") (codes "MM1201"))
    ∷ straddf (codes "orientation ..... ")
        (choice s.orientation (codes "portrait") (codes "landscape"))
    ∷ straddf (codes "cursor data ..... ") (choice s.cursor_data (codes "1248") (codes "1234"))
    ∷ straddf (codes "remote mode ..... ") (switched s.remote_mode)
    ∷ straddf (codes "increment ....... ") (number s.increment)
    ∷ straddf (codes "interval ........ ") (number s.interval)
    ∷ straddf (codes "xrez ............ ") (number s.xrez)
    ∷ straddf (codes "yrez ............ ") (number s.yrez)
    ∷ straddf (codes "tablet width .... ") (number s.xscale)
    ∷ straddf (codes "tablet height ... ") (number s.yscale)
    ∷ []

abbrev pub gather : List (Option (List ℕ)) → Option (List ℕ)
gather [] = some []
gather (none ∷ l) = none
gather (some x ∷ l) = elim (gather l) [ none ↦ none | some rest ↦ some (x ++ rest) ]

unfoldable pub description : TabletSettings → Option (List ℕ)
unfolding entry
description s = gather (description_lines s)
