-- ===== src/Settings/Synthetic.antt =====
-- The presets of the tablets that report no settings, read back from their own setup string: the
-- preferences see the values that common/Constants.h calls synthetic as others.
use mathlib.Core.List.{append-nil}
use tablet_magic.Base.{ℕ, ◌≡◌, refl, sym, ap, ◌∙◌, arith, Bool, false, true, List, []}
use tablet_magic.Settings.{TabletSettings, import_state, setup_text}
use tablet_magic.Settings.Constants.{command_set_bitpad_ii, command_set_mm1201, baud_rate_19200}
use tablet_magic.Settings.Presets.{init_for_intuos, init_for_tablet_pc}
use tablet_magic.Settings.RoundTrip.{transferred, HasInts, bare, import_state-setup_text}

intuos-HasInts : (s : TabletSettings) → HasInts (init_for_intuos s)
unfolding init_for_intuos
intuos-HasInts s = omega arith

tablet_pc-HasInts : (use38400 : Bool) (s : TabletSettings) → HasInts (init_for_tablet_pc use38400 s)
unfolding init_for_tablet_pc
tablet_pc-HasInts use38400 s = omega arith

-- Importing the text that is printed of the Intuos preset gives the command set BitPad II, the lowest transfer
-- rate and the lowest resolution for the synthetic values, and packets of seven bytes instead of
-- nine; importing that of the TabletPC preset gives the command set MM1201, packets of seven bytes,
-- and 2400 baud for 38400, while 19200 baud come back.
pub import_state-presets :
    (s t : TabletSettings)
    → let intuos = import_state 0 (setup_text false (init_for_intuos s)) t in
      let fast = import_state 0 (setup_text false (init_for_tablet_pc true s)) t in
      let slow = import_state 0 (setup_text false (init_for_tablet_pc false s)) t in
      (intuos.command_set ≡ command_set_bitpad_ii)
      × (intuos.transfer_rate ≡ 0)
      × (intuos.resolution ≡ 0)
      × (intuos.packet_size ≡ 7)
      × ((init_for_intuos s).packet_size ≡ 9)
      × (fast.command_set ≡ command_set_mm1201)
      × (fast.packet_size ≡ 7)
      × (fast.baud_rate ≡ 0)
      × (slow.baud_rate ≡ baud_rate_19200)
unfolding init_for_intuos init_for_tablet_pc
import_state-presets s t =
    let back : (p : TabletSettings)
        → HasInts p
        → import_state 0 (setup_text false p) t ≡ transferred p t =
      λ p ints.
        ap (λ (text : List ℕ). import_state 0 text t) (sym (append-nil (setup_text false p)))
        ∙ import_state-setup_text 0 bare p t [] ints tt in
    rw
      (
        back (init_for_intuos s) (intuos-HasInts s),
        back (init_for_tablet_pc true s) (tablet_pc-HasInts true s),
        back (init_for_tablet_pc false s) (tablet_pc-HasInts false s),
      )
      (refl, refl, refl, refl, refl, refl, refl, refl, refl)
