-- ===== src/Run/Sound.antt =====
-- The invariant of the tablet between two callbacks, and `ProcessPacket`.
use tablet_magic.Base.{
  ℕ, ◌≡◌, ◌≢◌, ◌≤◌, refl, sym, ap, ◌∙◌, arith, Bool, false, ◌⊎◌, inl, inr, List,
}
use tablet_magic.Bits.{has}
use tablet_magic.Floats.{Floats}
use tablet_magic.Series.{Series, sd_series, tablet_pc, cal_comp, fujitsu_p}
use tablet_magic.Stylus.{Point, Stylus}
use tablet_magic.Daemon.State.{StreamLog, Tablet}
use tablet_magic.Daemon.Identify.{parses_ud_setup}
use tablet_magic.Daemon.Dispatch.{
  Interpreter, for_graphire, for_v, for_fujitsu, for_settings, interpreter, note_format,
  interpret_as, interpret, lift, prepare, log_packet, post_changes, process_packet,
}
use tablet_magic.Daemon.Whole.{config-process_packet}
use tablet_magic.Daemon.Agrees.{process_packet-lifted}

-- What the invariant reads.
pub record Core : Type 0 where
  pub mask : ℕ
  pub pressure : ℕ
  pub parses : Bool
  pub model : Series
  pub pause : ℕ

unfoldable pub core : Tablet → Core
core t = record {
  mask = t.output.stylus.button_mask;
  pressure = t.output.stylus.pressure;
  parses = t.can_parse_ud_setup;
  model = t.series;
  pause = t.log.stream_pause;
}

-- There is no pressure without the tip or the eraser; the flag can_parse_ud_setup is off for the SD
-- Series, the TabletPC and CalComp, and on for every other series, as the code sets it; the series is not the one that no
-- reply can choose; and the stream is held for two seconds at most.
pub record IsSound (c : Core) : Type 0 where
  pub lifted : has c.mask 9 ≡ false → c.pressure ≡ 0
  pub parsed : c.parses ≡ parses_ud_setup c.model
  pub reached : c.model ≢ fujitsu_p
  pub paused : c.pause ≤ 2

-- The series that are not asked for their settings.
abbrev pub IsSilent : Series → Type 0
IsSilent s = (s ≡ sd_series) ⊎ ((s ≡ tablet_pc) ⊎ (s ≡ cal_comp))

IsSilent-parses : (s : Series) → IsSilent s → parses_ud_setup s ≡ false
IsSilent-parses s (inl e) = rw e refl
IsSilent-parses s (inr (inl e)) = rw e refl
IsSilent-parses s (inr (inr e)) = rw e refl

parses-IsSilent : (s : Series) → parses_ud_setup s ≡ false → IsSilent s
parses-IsSilent s h = ground arith

-- The flag can_parse_ud_setup is off for these series, and for no other.
abbrev pub AsksOthers : Core → Type 0
AsksOthers c = (IsSilent c.model → c.parses ≡ false) × (c.parses ≡ false → IsSilent c.model)

pub IsSound-AsksOthers : (c : Core) → IsSound c → AsksOthers c
IsSound-AsksOthers c h = (
  λ silent. h.parsed ∙ IsSilent-parses c.model silent,
  λ off. parses-IsSilent c.model (sym h.parsed ∙ off),
)

abbrev pub Sound : Tablet → Type 0
Sound t = IsSound (core t)

-- What leaves the core alone keeps the invariant.
pub IsSound-core : (u t : Tablet) → core u ≡ core t → Sound t → Sound u
IsSound-core u t e h = rw e h

pause-log_packet :
    (pk : List ℕ) (st : Stylus) (l : StreamLog) → (log_packet pk st l).stream_pause ≡ l.stream_pause
unfolding log_packet
pause-log_packet pk st l = ground arith

log-note_format : (pk : List ℕ) (t : Tablet) → (note_format pk t).log ≡ t.log
unfolding note_format
log-note_format pk t = ground arith

log-interpret_as :
    (fl : Floats) (i : Interpreter) (pk : List ℕ) (t : Tablet)
    → (interpret_as fl i pk t).log ≡ t.log
unfolding interpret_as
log-interpret_as fl for_graphire pk t = refl
log-interpret_as fl for_v pk t = refl
log-interpret_as fl for_fujitsu pk t = refl
log-interpret_as fl for_settings pk t = log-note_format pk t

module _ (fl : Floats) (place : Tablet → Point) where
  pause-process_packet :
      (pk : List ℕ) (t : Tablet)
      → (process_packet fl place pk t).log.stream_pause ≡ t.log.stream_pause
  unfolding process_packet post_changes prepare
  pause-process_packet pk t =
      pause-log_packet pk (lift (interpret fl pk t).output.stylus) (interpret fl pk t).log
      ∙ ap (λ l. l.stream_pause) (log-interpret_as fl (interpreter t.series) pk t)

  pub process_packet-Sound :
      (pk : List ℕ) (t : Tablet) → Sound t → Sound (process_packet fl place pk t)
  unfolding core
  process_packet-Sound pk t h =
      let same = config-process_packet fl place pk t in
      let series = ap (λ c. c.series) same in
      record {
        lifted = process_packet-lifted fl place pk t;
        parsed = ap (λ c. c.can_parse_ud_setup) same ∙ h.parsed ∙ ap parses_ud_setup (sym series);
        reached = λ e. h.reached (sym series ∙ e);
        paused = rw (pause-process_packet pk t) h.paused;
      }
