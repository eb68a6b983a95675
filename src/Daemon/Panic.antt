-- ===== src/Daemon/Panic.antt =====
-- What `ResetStylus` promises: no button stays down.
use tablet_magic.Base.{ℕ, ◌≡◌, refl, ◌++◌, ap, ◌∙◌, arith, true, false, some}
use tablet_magic.Stylus.{Point, Stylus, set_buttons}
use tablet_magic.Post.Levels.{right, levels}
use tablet_magic.Post.Run.{call-right}
use tablet_magic.Post.Change.{system_buttons, system_button2, post_change_events, call_of}
use tablet_magic.Daemon.State.{Tablet, set_stylus}
use tablet_magic.Daemon.Dispatch.{post_changes}
use tablet_magic.Daemon.Reset.{released_stylus, reset_stylus}

released-system_buttons :
    (mapping : ℕ → ℕ) (s : Stylus) (place : Point) (q : ℕ)
    → let r = released_stylus s in system_buttons mapping (record r { scr_pos = place }) q ≡ false
unfolding system_buttons released_stylus set_buttons
released-system_buttons mapping s place q = ground arith

module _ (place : Tablet → Point) (t : Tablet) where
  -- While the tablet is on, after the panic button every system button is up, whatever was down, and what
  -- it posts behind the events posted before releases the right button if it was down, and leaves it
  -- up.
  pub reset_stylus-released :
      t.output.tablet_on ≡ true
      → let t' = set_stylus (released_stylus t.output.stylus) t in
        let events = (post_change_events (place t') t'.output).1 in
        ((q : ℕ) → (reset_stylus place t).output.old_button_state q ≡ false)
        × ((reset_stylus place t).sent ≡ t.sent ++ events)
        × (levels right (t.output.old_button_state system_button2) events ≡ some false)
  unfolding reset_stylus post_changes post_change_events call_of
  reset_stylus-released on =
      let t' = set_stylus (released_stylus t.output.stylus) t in
      let up = released-system_buttons t.output.button_mapping t.output.stylus (place t') in
      (up, refl, call-right (place t') t'.output on ∙ ap some (up system_button2))
