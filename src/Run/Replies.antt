-- ===== src/Run/Replies.antt =====
-- The invariant and the replies: `ProcessCommandReply` and `ProcessTabletPCCommandReply`.
use tablet_magic.Base.{
  ℕ, zero, suc, ◌==◌, if◌then◌else◌, ◌≡◌, refl, arith, Bool, true, false, List, length, drop, leb,
  Option, none, some, Bool-cases, inl, inr,
}
use tablet_magic.Settings.{TabletSettings, import_state}
use tablet_magic.Int.{ℤ, pos, negsuc}
use tablet_magic.Floats.{Floats}
use tablet_magic.Format.{c_string}
use tablet_magic.Protocol.Sensing.{byte}
use tablet_magic.Daemon.State.{Tablet}
use tablet_magic.Daemon.Queue.{message_info}
use tablet_magic.Daemon.Mapping.{init_tablet_bounds, update_tablet_scale}
use tablet_magic.Daemon.Reply.{
  bank_settings, reply_h, reply_v, set_bank, send_info, set_quit, import_bank, reply_settings,
  reply_bank, import_at, reply_size, reply_other, set_scale, log_reply, reply_kind,
  process_command_reply, process_tablet_pc_reply, identify_tablet_pc, query_x, query_y,
}
use tablet_magic.Daemon.Identify.{rom_of, commas_to_spaces, identify}
use tablet_magic.Daemon.Models.{find_series-IsNew}
use tablet_magic.Run.Sound.{core, Sound, IsSound-core}

-- A reply leaves a sound tablet behind, if its handling ends.
abbrev pub SoundAfter : Option Tablet → Type 0
SoundAfter none = Unit {0}
SoundAfter (some t) = Sound t

pub core-set_bank : (bank : ℕ) (s : TabletSettings) (t : Tablet) → core (set_bank bank s t) ≡ core t
unfolding core
core-set_bank zero s t = refl
core-set_bank (suc zero) s t = refl
core-set_bank (suc (suc n)) s t = refl

told-Sound :
    (tell : Bool) (m : Option (List ℕ)) (quit : Bool) (u : Tablet)
    → Sound u
    → SoundAfter (set_quit quit (if tell then send_info m u else some u))
unfolding core
told-Sound false m quit u h = h
told-Sound true none quit u h = tt
told-Sound true (some text) quit u h = h

import_bank-Sound :
    (stack : ℕ) (reply : List ℕ) (bank : ℕ) (t : Tablet)
    → Sound t
    → SoundAfter (import_bank stack reply bank t)
unfolding import_bank
import_bank-Sound stack reply bank t h =
    let s = import_state stack reply (bank_settings bank t) in
    told-Sound t.command (message_info bank s t.output.tablet_on) t.test_mode (set_bank bank s t)
      (IsSound-core (set_bank bank s t) t (core-set_bank bank s t) h)

pub core-update_tablet_scale :
    (fl : Floats) (h v : ℤ) (tell : Bool) (t : Tablet)
    → core (update_tablet_scale fl h v tell t) ≡ core t
unfolding core update_tablet_scale
core-update_tablet_scale fl h v tell t = ground arith

core-set_scale : (h v : ℤ) (t : Tablet) → core (set_scale h v t) ≡ core t
unfolding core set_scale init_tablet_bounds
core-set_scale h v t = refl

core-reply_other : (reply : List ℕ) (t : Tablet) → core (reply_other reply t) ≡ core t
unfolding reply_other
core-reply_other reply t = ground (arith, core-set_scale (reply_h reply) (reply_v reply) t)

core-reply_size :
    (fl : Floats) (reply : List ℕ) (t : Tablet) → core (reply_size fl reply t) ≡ core t
unfolding reply_size
core-reply_size fl reply t =
    ground (arith, core-update_tablet_scale fl (reply_h reply) (reply_v reply) true t)

log_reply-Sound : (reply : List ℕ) (t : Tablet) → Sound t → Sound (log_reply reply t)
unfolding log_reply core
log_reply-Sound reply t h = elim (Bool-cases t.log.send_stream) [
  | inl on ↦
      rw on
        (record { lifted = h.lifted; parsed = h.parsed; reached = h.reached; paused = omega arith })
  | inr off ↦ rw off h
]

identify-Sound :
    (fl : Floats) (reply : List ℕ) (t : Tablet) → Sound t → SoundAfter (identify fl reply t)
unfolding identify core
identify-Sound fl reply t h =
    let rom = rom_of (drop 2 (commas_to_spaces reply)) t.rom_version in
    elim (Bool-cases (leb 64 (length rom))) [
      | inl long ↦ rw long tt
      | inr fits ↦ rw fits (record {
        lifted = h.lifted;
        parsed = refl;
        reached = λ e. h.reached (find_series-IsNew rom t.series e);
        paused = h.paused;
      })
    ]

import_at-Sound :
    (stack : ℕ) (reply : List ℕ) (bank : ℤ) (t : Tablet)
    → Sound t
    → SoundAfter (import_at stack reply bank t)
unfolding import_at
import_at-Sound stack reply (negsuc n) t h = tt
import_at-Sound stack reply (pos bank) t h = elim (Bool-cases (leb bank 2)) [
  | inl fits ↦ rw fits (import_bank-Sound stack reply bank t h)
  | inr wild ↦ rw wild tt
]

reply_kind-Sound :
    (fl : Floats) (stack : ℕ) (reply : List ℕ) (t : Tablet)
    → Sound t
    → SoundAfter (reply_kind fl stack reply t)
unfolding reply_kind
reply_kind-Sound fl stack reply t h = elim (Bool-cases (byte reply 0 == b'~')) [
  | inr bare ↦ rw bare h
  | inl tilde ↦ elim (Bool-cases (byte reply 1 == b'R')) [
    | inl settings ↦
        rw (tilde, settings)
          (unfold reply_settings in
            import_at-Sound stack reply (reply_bank reply t.bank_last_requested) t h)
    | inr nR ↦ elim (Bool-cases (byte reply 1 == b'#')) [
      | inl model ↦ rw (tilde, nR, model) (identify-Sound fl reply t h)
      | inr nM ↦ elim (Bool-cases (byte reply 1 == b'C')) [
        | inl size ↦
            rw (tilde, nR, nM, size)
              (IsSound-core (reply_size fl reply t) t (core-reply_size fl reply t) h)
        | inr nC ↦
            rw (tilde, nR, nM, nC)
              (IsSound-core (reply_other reply t) t (core-reply_other reply t) h)
      ]
    ]
  ]
]

pub process_command_reply-Sound :
    (fl : Floats) (stack : ℕ) (response : List ℕ) (t : Tablet)
    → Sound t
    → SoundAfter (process_command_reply fl stack response t)
unfolding process_command_reply
process_command_reply-Sound fl stack response t h =
    let reply = c_string response in
    elim (Bool-cases (leb 100 (length reply))) [
      | inl long ↦ rw long tt
      | inr fits ↦
          rw fits (reply_kind-Sound fl stack reply (log_reply reply t) (log_reply-Sound reply t h))
    ]

identify_tablet_pc-Sound : (pk : List ℕ) (t : Tablet) → Sound t → Sound (identify_tablet_pc pk t)
unfolding identify_tablet_pc core
identify_tablet_pc-Sound pk t h = record {
  lifted = h.lifted;
  parsed = refl;
  reached = λ e. cc;
  paused = h.paused;
}

pub process_tablet_pc_reply-Sound :
    (pk : List ℕ) (t : Tablet) → Sound t → Sound (process_tablet_pc_reply pk t)
unfolding process_tablet_pc_reply core
process_tablet_pc_reply-Sound pk t h =
    let h' = identify_tablet_pc-Sound pk t h in
    let u = identify_tablet_pc pk t in
    elim (Bool-cases t.log.send_stream) [
      | inl on ↦ rw on h'
      | inr off ↦ rw off (
          IsSound-core (set_scale (pos (query_x pk)) (pos (query_y pk)) u) u
            (core-set_scale (pos (query_x pk)) (pos (query_y pk)) u) h')
    ]
