-- ===== src/Control/Tries.antt =====
-- `GetUDSettingsOrFail` asks up to fifteen times.
use tablet_magic.Base.{
  ℕ, suc, ◌+◌, ◌-◌, ◌<◌, ◌≡◌, ap, ◌∙◌, arith, Bool, true, false, ltb, List, some,
}
use tablet_magic.Floats.{Floats}
use tablet_magic.Daemon.State.{Tablet}
use tablet_magic.Daemon.Reply.{process_command_reply}
use tablet_magic.Control.World.{Device, World, ◌>>=◌, bind-some}
use tablet_magic.Control.Send.{
  read_setting, send_request, is_answer, try_settings, get_ud_settings_or_fail,
}

module _ (d : Device) (fl : Floats) (stack bank : ℕ) where
  open d use {wait}

  abbrev pub waited : World d → World d
  waited w = record w { port = wait w.port }

  -- n requests that bring no answer, each with the wait behind it.
  pub data Missed : ℕ → World d → World d → Type 0 where
    none_yet : {w : World d} → Missed 0 w w
    missed :
        {n : ℕ} {w u v : World d} (text : List ℕ)
        → send_request d (read_setting bank) w ≡ some (text, u)
        → is_answer text ≡ false
        → Missed n (waited u) v
        → Missed (suc n) w v

  try_settings-Missed :
      {n : ℕ} {w v : World d} (k : ℕ)
      → Missed n w v
      → try_settings d fl stack bank (n + k) w ≡ try_settings d fl stack bank k v
  unfolding try_settings
  try_settings-Missed {w = w} k none_yet =
      ap (λ (n : ℕ). try_settings d fl stack bank n w) (omega arith)
  try_settings-Missed {w = w} k (missed {n} text sent bad rest) =
      let e : suc n + k ≡ suc (n + k) = omega arith in
      rw e (
        bind-some (send_request d (read_setting bank)) _ w _ text sent
        ∙ rw bad (try_settings-Missed k rest))

  try_settings-taken :
      (n : ℕ) (w u : World d) (t : Tablet) (text : List ℕ)
      → send_request d (read_setting bank) w ≡ some (text, u)
      → is_answer text ≡ true
      → process_command_reply fl stack text u.tablet ≡ some t
      → try_settings d fl stack bank (suc n) w ≡ some (ltb 0 n, record u { tablet = t })
  unfolding try_settings
  try_settings-taken n w u t text sent good done =
      bind-some (send_request d (read_setting bank)) _ w u text sent ∙ rw (good, done, ◌>>=◌)

  -- If the device answers for the first time behind n requests, fewer than fifteen, its answer is
  -- processed, and the call reports success unless it was the last one: the fifteenth is processed
  -- and reported as a failure.
  pub get_ud_settings_or_fail-answered :
      (n : ℕ) (w v u : World d) (t : Tablet) (text : List ℕ)
      → n < 15
      → Missed n w v
      → send_request d (read_setting bank) v ≡ some (text, u)
      → is_answer text ≡ true
      → process_command_reply fl stack text u.tablet ≡ some t
      → get_ud_settings_or_fail d fl stack bank w ≡ some (ltb n 14, record u { tablet = t })
  get_ud_settings_or_fail-answered n w v u t text h gone sent good done =
      let e : 15 ≡ n + suc (14 - n) = omega arith in
      ap (λ (k : ℕ). try_settings d fl stack bank k w) e
      ∙ try_settings-Missed (suc (14 - n)) gone
      ∙ try_settings-taken (14 - n) v u t text sent good done
      ∙ ap (λ (b : Bool). some (b, record u { tablet = t })) (ground arith)

  -- If the device does not answer fifteen requests, the call ends and reports the failure, and the
  -- tablet is as the requests leave it.
  pub get_ud_settings_or_fail-silent :
      (w v : World d) → Missed 15 w v → get_ud_settings_or_fail d fl stack bank w ≡ some (false, v)
  unfolding try_settings
  get_ud_settings_or_fail-silent w v gone = try_settings-Missed 0 gone
