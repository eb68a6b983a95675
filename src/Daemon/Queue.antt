-- ===== src/Daemon/Queue.antt =====
-- The queue of messages for the preference pane, and the texts that are put on it: `SendMessage`,
-- `AddMessageToQueue`, `PopMessageQueue`, `FlushMessageQueue`, `EnableMessageQueue`,
-- `DisableMessageQueue`, `GetMessageScale`, `GetMessageInfo`, `GetMessageModel` and
-- `GetMessageProtocol`. A message is its text without the NUL that ends it.
use tablet_magic.Base.{
  ℕ, ◌+◌, ◌/◌, ◌%◌, Bool, true, false, ltb, if◌then◌else◌, List, [], ◌∷◌, ◌++◌, length, Option,
  none, some,
}
use tablet_magic.Int.{ℤ, pos}
use tablet_magic.Format.{codes, print_int}
use tablet_magic.Series.{
  Series, unknown, intuos2, intuos, graphire3, graphire2, graphire, cintiq, cintiq_partner, art_z,
  art_pad, pen_partner, sd_series, tablet_pc, fujitsu_p, cal_comp, pl_series, ud_series,
}
use tablet_magic.Settings.{TabletSettings, settings_string}
use tablet_magic.Daemon.State.{Tablet}

-- The flag `queue_enabled` is not asked.
abbrev pub send_message : List ℕ → Tablet → Tablet
send_message m t = record t { queue = t.queue ++ m ∷ [] }

-- The static `out` has 100 bytes, for the text, its NUL and the NUL that is written behind them.
unfoldable pub pop_message : Tablet → Option (List ℕ × Tablet)
pop_message t = elim t.queue [
  | [] ↦ some ([], t)
  | m ∷ rest ↦ if ltb (length m + 1) 100 then some (m, record t { queue = rest }) else none
]

abbrev pub flush_messages : Tablet → Tablet
flush_messages t = record t { queue = [] }

abbrev pub enable_queue : Tablet → Tablet
enable_queue t = record (flush_messages t) { queue_enabled = true }

abbrev pub disable_queue : Tablet → Tablet
disable_queue t = flush_messages (record t { queue_enabled = false })

-- The columns of `series_list`, whose order is that of the enumeration.
unfoldable pub series_code : Series → List ℕ
series_code unknown = codes "Unknown"
series_code intuos2 = codes "XD"
series_code intuos = codes "GD"
series_code graphire3 = codes "CTE"
series_code graphire2 = codes "ETA"
series_code graphire = codes "ET"
series_code cintiq = codes "PL"
series_code cintiq_partner = codes "PTU"
series_code art_z = codes "UD"
series_code art_pad = codes "KT"
series_code pen_partner = codes "CT"
series_code sd_series = codes "SD"
series_code tablet_pc = codes "ISD"
series_code fujitsu_p = codes "ISD"
series_code cal_comp = codes "Cal"
series_code pl_series = codes "PL"
series_code ud_series = codes "UD"

unfoldable pub series_name : Series → List ℕ
series_name unknown = codes "Unknown"
series_name intuos2 = codes "Intuos 2"
series_name intuos = codes "Intuos"
series_name graphire3 = codes "Graphire 3"
series_name graphire2 = codes "Graphire 2"
series_name graphire = codes "Graphire"
series_name cintiq = codes "Cintiq"
series_name cintiq_partner = codes "Cintiq Partner"
series_name art_z = codes "ArtZ / ArtZ-II"
series_name art_pad = codes "ArtPad"
series_name pen_partner = codes "PenPartner"
series_name sd_series = codes "SD Series"
series_name tablet_pc = codes "TabletPC"
series_name fujitsu_p = codes "Fujitsu P Series"
series_name cal_comp = codes "CalComp"
series_name pl_series = codes "PL Series"
series_name ud_series = codes "UD Series"

-- A number in decimal, behind a space.
abbrev pub spaced : ℤ → List ℕ
spaced v = b' ' ∷ print_int 0 v

unfoldable pub message_scale : Tablet → List ℕ
message_scale t = codes "[scale]" ++ (spaced t.active.xscale ++ spaced t.active.yscale)

unfoldable pub message_info : ℕ → TabletSettings → Bool → Option (List ℕ)
unfolding settings_string
message_info bank s on =
    let state = if on then codes " active" else codes " inactive" in
    elim (settings_string false s) [
      | none ↦ none
      | some text ↦ some (codes "[info]" ++ (spaced (pos bank) ++ (b' ' ∷ text ++ state)))
    ]

unfoldable pub message_model : Tablet → List ℕ
unfolding series_name
message_model t =
    let version =
      print_int 0 (pos (t.version_tenths / 10))
      ++ (b'.' ∷ print_int 0 (pos (t.version_tenths % 10))) in
    let text =
      codes "[model] "
      ++ (t.rom_version
          ++ (codes " V" ++ (version ++ (codes " (" ++ (series_name t.series ++ codes ")"))))) in
    elim t.rom_version [ [] ↦ codes "[none]" | _ ∷ _ ↦ text ]

unfoldable pub message_protocol : Tablet → List ℕ
message_protocol t =
    codes "[prot]" ++ (spaced (pos t.active.command_set) ++ spaced (pos t.active.output_format))
