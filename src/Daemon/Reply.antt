-- ===== src/Daemon/Reply.antt =====
-- `ProcessCommandReply` and `ProcessTabletPCCommandReply`. `none` is an access outside an array:
-- a reply of 100 bytes or more, which `replyString[100]` holds without a NUL, a ROM version of 64 or
-- more, a bank that `settings[3]` does not have, or a setup string that does not fit in its array.
use tablet_magic.Base.{
  ℕ, zero, suc, ◌*◌, bit_and, bit_or, Bool, true, false, not, ◌&&◌, leb, ◌==◌, if◌then◌else◌, List,
  length, take, drop, get_or, Option, none, some,
}
use tablet_magic.Int.{ℤ, pos, negsuc, ◌-ℤ◌}
use tablet_magic.Bits.{◌<<◌, ◌>>◌}
use tablet_magic.Floats.{Floats}
use tablet_magic.Format.{c_string, atol, to_sint32}
use tablet_magic.Series.{Series, tablet_pc, pen_partner}
use tablet_magic.Settings.{TabletSettings, import_state}
use tablet_magic.Protocol.Sensing.{byte}
use tablet_magic.Protocol.Fujitsu.{char_int}
use tablet_magic.Daemon.State.{Tablet, set_stylus}
use tablet_magic.Daemon.Queue.{send_message, message_info}
use tablet_magic.Daemon.Mapping.{init_tablet_bounds, update_tablet_scale}
use tablet_magic.Daemon.Identify.{identify}

-- The reply for the preference pane.
unfoldable pub log_reply : List ℕ → Tablet → Tablet
log_reply reply t =
    let l = t.log in
    if l.send_stream
    then record t { log = record l { stream_size = 1; stream_pause = 2; stream_packet = reply } }
    else t

-- `settings[bank]`.
abbrev pub bank_settings : ℕ → Tablet → TabletSettings
bank_settings zero t = t.active
bank_settings (suc zero) t = t.bank1
bank_settings (suc (suc n)) t = t.bank2

abbrev pub set_bank : ℕ → TabletSettings → Tablet → Tablet
set_bank zero s t = record t { active = s }
set_bank (suc zero) s t = record t { bank1 = s }
set_bank (suc (suc n)) s t = record t { bank2 = s }

-- The bank that the reply names, if its first field has eight digits behind it, and otherwise the
-- one that was asked for last.
unfoldable pub reply_bank : List ℕ → ℤ → ℤ
reply_bank reply last =
    if get_or reply 11 0 == b',' then char_int (byte reply 2) -ℤ pos b'0' else last

-- `SendMessageInfo`, if the text of the settings fits in its array.
abbrev pub send_info : Option (List ℕ) → Tablet → Option Tablet
send_info none t = none
send_info (some text) t = some (send_message text t)

abbrev pub set_quit : Bool → Option Tablet → Option Tablet
set_quit quit none = none
set_quit quit (some t) = some (record t { quit_processor = quit })

unfoldable pub import_bank : ℕ → List ℕ → ℕ → Tablet → Option Tablet
unfolding message_info
import_bank stack reply bank t =
    let s = import_state stack reply (bank_settings bank t) in
    let t1 = set_bank bank s t in
    let told = send_info (message_info bank s t.output.tablet_on) t1 in
    set_quit t.test_mode (if t.command then told else some t1)

unfoldable pub import_at : ℕ → List ℕ → ℤ → Tablet → Option Tablet
unfolding import_bank
import_at stack reply (pos bank) t = if leb bank 2 then import_bank stack reply bank t else none
import_at stack reply (negsuc n) t = none

unfoldable pub reply_settings : ℕ → List ℕ → Tablet → Option Tablet
unfolding import_at reply_bank
reply_settings stack reply t = import_at stack reply (reply_bank reply t.bank_last_requested) t

-- The numbers in columns 2 to 6 and 8 to 12.
abbrev pub reply_h : List ℕ → ℤ
reply_h reply = to_sint32 (atol (take 5 (drop 2 reply)))

abbrev pub reply_v : List ℕ → ℤ
reply_v reply = to_sint32 (atol (take 5 (drop 8 reply)))

unfoldable pub set_scale : ℤ → ℤ → Tablet → Tablet
unfolding init_tablet_bounds
set_scale h v t =
    let s = t.active in
    init_tablet_bounds (pos 0) (pos 0) (h -ℤ pos 1) (v -ℤ pos 1)
      (record t { active = record s { xscale = h; yscale = v } })

abbrev pub is_pen_partner : Series → Bool
is_pen_partner pen_partner = true
is_pen_partner _ = false

-- A reply that no other branch takes may be the size of a PenPartner.
unfoldable pub reply_other : List ℕ → Tablet → Tablet
unfolding set_scale atol
reply_other reply t =
    if is_pen_partner t.series && leb 11 (length reply) && byte reply 5 == b','
    then set_scale (reply_h reply) (reply_v reply) t
    else t

module _ (fl : Floats) where
  -- The size of the tablet, unless the stream is shown.
  unfoldable pub reply_size : List ℕ → Tablet → Tablet
  reply_size reply t =
      if t.log.send_stream then t else update_tablet_scale fl (reply_h reply) (reply_v reply) true t

  -- `switch (replyString[1])`. The first argument is what the uninitialised mask of `Import` holds.
  unfoldable pub reply_kind : ℕ → List ℕ → Tablet → Option Tablet
  reply_kind stack reply t =
      let kind = byte reply 1 in
      if not (byte reply 0 == b'~')
      then some t
      else if kind == b'R'
      then reply_settings stack reply t
      else if kind == b'#'
      then identify fl reply t
      else if kind == b'C'
      then some (reply_size reply t)
      else some (reply_other reply t)

  unfoldable pub process_command_reply : ℕ → List ℕ → Tablet → Option Tablet
  process_command_reply stack response t =
      let reply = c_string response in
      if leb 100 (length reply) then none else reply_kind stack reply (log_reply reply t)

-- The size in a TabletPC's answer: seven, seven and two bits.
unfoldable pub query_x : List ℕ → ℕ
query_x pk =
    bit_or (bit_or (bit_and (byte pk 1) 0x7f << 9) (bit_and (byte pk 2) 0x7f << 2))
      (bit_and (byte pk 6) 0x60 >> 5)

unfoldable pub query_y : List ℕ → ℕ
query_y pk =
    bit_or (bit_or (bit_and (byte pk 3) 0x7f << 9) (bit_and (byte pk 4) 0x7f << 2))
      (bit_and (byte pk 6) 0x18 >> 3)

-- The firmware's minor number is divided down as an `int` until it is 0, so the version is the major
-- number alone.
unfoldable pub identify_tablet_pc : List ℕ → Tablet → Tablet
identify_tablet_pc pk t =
    let s = t.output.stylus in
    let near = s.proximity in
    record (set_stylus (record s { proximity = record near { unique_id = 0xdeadbeef } }) t) {
      series = tablet_pc;
      can_parse_ud_setup = false;
      version_tenths = bit_and (byte pk 9) 0x7f * 10;
    }

unfoldable pub process_tablet_pc_reply : List ℕ → Tablet → Tablet
unfolding query_x query_y set_scale identify_tablet_pc
process_tablet_pc_reply pk t =
    let t' = identify_tablet_pc pk t in
    if t.log.send_stream then t' else set_scale (pos (query_x pk)) (pos (query_y pk)) t'
