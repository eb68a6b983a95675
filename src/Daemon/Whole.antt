-- ===== src/Daemon/Whole.antt =====
-- Whole reads: the stream, the interpreters and the posting of events together.
use tablet_magic.Base.{ℕ, ◌≡◌, refl, arith, List, [], ◌∷◌, ◌++◌}
use tablet_magic.Floats.{Floats}
use tablet_magic.Stylus.{Point}
use tablet_magic.Post.Cg.{CgEvent}
use tablet_magic.Post.Change.{post_change_events}
use tablet_magic.Daemon.State.{Tablet}
use tablet_magic.Daemon.Dispatch.{
  Interpreter, for_graphire, for_v, for_fujitsu, for_settings, interpreter, interpret_as,
  note_format, prepare, post_changes, process_packet,
}
use tablet_magic.Daemon.Handle.{config_of}

-- What a packet leaves alone before the events are posted, and how the stream is cut.
abbrev Kept : Tablet → Tablet → Type 0
Kept u t =
    (config_of u ≡ config_of t)
    × (u.sent ≡ t.sent)
    × (u.output.tablet_on ≡ t.output.tablet_on)
    × (u.output.old_button_state ≡ t.output.old_button_state)

note_format-Kept : (pk : List ℕ) (t : Tablet) → Kept (note_format pk t) t
unfolding note_format
note_format-Kept pk t = ground arith

module _ (fl : Floats) where
  interpret_as-Kept : (i : Interpreter) (pk : List ℕ) (t : Tablet) → Kept (interpret_as fl i pk t) t
  unfolding interpret_as
  interpret_as-Kept for_graphire pk t = (refl, refl, refl, refl)
  interpret_as-Kept for_v pk t = (refl, refl, refl, refl)
  interpret_as-Kept for_fujitsu pk t = (refl, refl, refl, refl)
  interpret_as-Kept for_settings pk t = note_format-Kept pk t

  module _ (place : Tablet → Point) where
    prepare-Kept : (pk : List ℕ) (t : Tablet) → Kept (prepare fl place pk t) t
    unfolding prepare
    prepare-Kept pk t = interpret_as-Kept (interpreter t.series) pk t

    abbrev pub events_of : List ℕ → Tablet → List CgEvent
    events_of pk t = let t' = prepare fl place pk t in (post_change_events (place t') t'.output).1

    pub config-process_packet :
        (pk : List ℕ) (t : Tablet) → config_of (process_packet fl place pk t) ≡ config_of t
    unfolding process_packet post_changes
    config-process_packet pk t = (prepare-Kept pk t).0

    -- The tablet behind a sequence of packets, and the events that they make.
    unfoldable pub after : List (List ℕ) → Tablet → Tablet
    after [] t = t
    after (pk ∷ pks) t = after pks (process_packet fl place pk t)

    unfoldable pub all_events : List (List ℕ) → Tablet → List CgEvent
    all_events [] t = []
    all_events (pk ∷ pks) t = events_of pk t ++ all_events pks (process_packet fl place pk t)
