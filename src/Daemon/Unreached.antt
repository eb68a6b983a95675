-- ===== src/Daemon/Unreached.antt =====
-- The series that no stream of bytes reaches.
use tablet_magic.Base.{
  ℕ, zero, suc, Bool, true, false, if◌then◌else◌, ◌==◌, ◌≡◌, ◌≢◌, refl, sym, ap, ◌∙◌, arith, List,
  length, drop, leb, Option, none, some, Bool-cases, inl, inr,
}
use tablet_magic.Settings.{TabletSettings, import_state}
use tablet_magic.Daemon.Queue.{message_info}
use tablet_magic.Int.{ℤ, pos, negsuc}
use tablet_magic.Floats.{Floats}
use tablet_magic.Series.{tablet_pc, fujitsu_p}
use tablet_magic.Daemon.State.{Tablet}
use tablet_magic.Format.{c_string}
use tablet_magic.Stylus.{Point}
use tablet_magic.Protocol.Sensing.{byte}
use tablet_magic.Stream.Step.{Framer, Event, packet, command_reply, tablet_pc_reply}
use tablet_magic.Stream.Keeps.{process_reads-result}
use tablet_magic.Daemon.Handle.{config, handle, process_serial_stream}
use tablet_magic.Daemon.Whole.{config-process_packet}
use tablet_magic.Daemon.Mapping.{init_tablet_bounds, update_tablet_scale}
use tablet_magic.Daemon.Reply.{
  set_bank, import_bank, send_info, set_quit, bank_settings, reply_settings, reply_bank, import_at,
  reply_size, reply_other, set_scale, log_reply, reply_kind, process_command_reply,
  process_tablet_pc_reply,
}
use tablet_magic.Daemon.Identify.{rom_of, commas_to_spaces, identify}
use tablet_magic.Daemon.Models.{find_series-IsNew}

tablet_pc-series : (pk : List ℕ) (t : Tablet) → (process_tablet_pc_reply pk t).series ≡ tablet_pc
unfolding process_tablet_pc_reply set_scale init_tablet_bounds
tablet_pc-series pk t = ground arith

-- No step makes the tablet a Fujitsu P-Series.
abbrev pub Fresh : Tablet → Option Tablet → Type 0
Fresh t none = Unit {0}
Fresh t (some u) = u.series ≡ fujitsu_p → t.series ≡ fujitsu_p

module _ (fl : Floats) where
  identify-Fresh : (reply : List ℕ) (t : Tablet) → Fresh t (identify fl reply t)
  unfolding identify
  identify-Fresh reply t =
      let rom = rom_of (drop 2 (commas_to_spaces reply)) t.rom_version in
      elim (Bool-cases (leb 64 (length rom))) [
        | inl long ↦ rw long tt
        | inr fits ↦ rw fits (find_series-IsNew rom t.series)
      ]

set_bank-series :
    (bank : ℕ) (s : TabletSettings) (t : Tablet) → (set_bank bank s t).series ≡ t.series
set_bank-series zero s t = refl
set_bank-series (suc zero) s t = refl
set_bank-series (suc (suc n)) s t = refl

told-Fresh :
    (tell : Bool) (m : Option (List ℕ)) (quit : Bool) (t u : Tablet)
    → u.series ≡ t.series
    → Fresh t (set_quit quit (if tell then send_info m u else some u))
told-Fresh false m quit t u h = λ e. sym h ∙ e
told-Fresh true none quit t u h = tt
told-Fresh true (some text) quit t u h = λ e. sym h ∙ e

import_bank-Fresh :
    (stack : ℕ) (reply : List ℕ) (bank : ℕ) (t : Tablet) → Fresh t (import_bank stack reply bank t)
unfolding import_bank
import_bank-Fresh stack reply bank t =
    let s = import_state stack reply (bank_settings bank t) in
    told-Fresh t.command (message_info bank s t.output.tablet_on) t.test_mode t (set_bank bank s t)
      (set_bank-series bank s t)

import_at-Fresh :
    (stack : ℕ) (reply : List ℕ) (bank : ℤ) (t : Tablet) → Fresh t (import_at stack reply bank t)
unfolding import_at
import_at-Fresh stack reply (pos bank) t = elim (Bool-cases (leb bank 2)) [
  | inl fits ↦ rw fits (import_bank-Fresh stack reply bank t)
  | inr wild ↦ rw wild tt
]
import_at-Fresh stack reply (negsuc n) t = tt

module _ (fl : Floats) where
  reply_size-series : (reply : List ℕ) (t : Tablet) → (reply_size fl reply t).series ≡ t.series
  unfolding reply_size update_tablet_scale
  reply_size-series reply t = ground arith

  reply_other-series : (reply : List ℕ) (t : Tablet) → (reply_other reply t).series ≡ t.series
  unfolding reply_other set_scale init_tablet_bounds
  reply_other-series reply t = ground arith

  log_reply-series : (reply : List ℕ) (t : Tablet) → (log_reply reply t).series ≡ t.series
  unfolding log_reply
  log_reply-series reply t = ground arith

  reply_kind-Fresh :
      (stack : ℕ) (reply : List ℕ) (t : Tablet) → Fresh t (reply_kind fl stack reply t)
  unfolding reply_kind
  reply_kind-Fresh stack reply t = elim (Bool-cases (byte reply 0 == b'~')) [
    | inr bare ↦ rw bare (λ e. e)
    | inl tilde ↦ elim (Bool-cases (byte reply 1 == b'R')) [
      | inl settings ↦
          rw (tilde, settings)
            (unfold reply_settings in
              import_at-Fresh stack reply (reply_bank reply t.bank_last_requested) t)
      | inr nR ↦ elim (Bool-cases (byte reply 1 == b'#')) [
        | inl model ↦ rw (tilde, nR, model) (identify-Fresh fl reply t)
        | inr nM ↦ elim (Bool-cases (byte reply 1 == b'C')) [
          | inl size ↦ rw (tilde, nR, nM, size) (λ e. sym (reply_size-series reply t) ∙ e)
          | inr nC ↦ rw (tilde, nR, nM, nC) (λ e. sym (reply_other-series reply t) ∙ e)
        ]
      ]
    ]
  ]

  Fresh-trans : (t u : Tablet) (o : Option Tablet) → u.series ≡ t.series → Fresh u o → Fresh t o
  Fresh-trans t u none same h = tt
  Fresh-trans t u (some v) same h = λ e. sym same ∙ h e

  reply-Fresh :
      (stack : ℕ) (response : List ℕ) (t : Tablet)
      → Fresh t (process_command_reply fl stack response t)
  unfolding process_command_reply
  reply-Fresh stack response t =
      let reply = c_string response in
      let u = log_reply reply t in
      elim (Bool-cases (leb 100 (length reply))) [
        | inl long ↦ rw long tt
        | inr fits ↦ rw fits (
            Fresh-trans t u (reply_kind fl stack reply u) (log_reply-series reply t)
              (reply_kind-Fresh stack reply u))
      ]

  -- The tablet is no Fujitsu P-Series.
  abbrev IsOther : Option Tablet → Type 0
  IsOther none = Unit {0}
  IsOther (some t) = t.series ≢ fujitsu_p

  Fresh-IsOther : (t : Tablet) (o : Option Tablet) → Fresh t o → t.series ≢ fujitsu_p → IsOther o
  Fresh-IsOther t none h other = tt
  Fresh-IsOther t (some u) h other = λ e. other (h e)

  module _ (stack : ℕ) (place : Tablet → Point) where
    handle-IsOther :
        (o : Option Tablet) (e : Event) → IsOther o → IsOther (handle fl stack place o e)
    handle-IsOther none e h = tt
    handle-IsOther (some t) (packet pk) h =
        let same = ap (λ c. c.series) (config-process_packet fl place pk t) in λ e. h (sym same ∙ e)
    handle-IsOther (some t) (command_reply r) h =
        Fresh-IsOther t (process_command_reply fl stack r t) (reply-Fresh stack r t) h
    handle-IsOther (some t) (tablet_pc_reply r) h = λ e. cc (sym (tablet_pc-series r t) ∙ e)

    -- No stream of bytes, however it is cut, turns a tablet of another series into a Fujitsu
    -- P-Series: its entry in the table of series stands behind one with the same code.
    pub process_serial_stream-fujitsu :
        (chunks : List (List ℕ)) (t u : Tablet) (f g : Framer)
        → process_serial_stream fl stack place t f chunks ≡ some (some u, g)
        → t.series ≢ fujitsu_p
        → u.series ≢ fujitsu_p
    unfolding process_serial_stream
    process_serial_stream-fujitsu chunks t u f g e other =
        process_reads-result config (handle fl stack place) IsOther handle-IsOther chunks (some t)
          (some u) f g other e
