-- ===== src/Daemon/Tests.antt =====
-- The daemon on concrete reads, replies and messages.
use tablet_magic.Base.{ℕ, ◌≡◌, refl, arith, true, false, List, [], ◌∷◌, ◌++◌, some}
use tablet_magic.Int.{pos}
use tablet_magic.Series.{unknown, graphire}
use tablet_magic.Format.{codes}
use tablet_magic.Post.Change.{post_change_events, system_button2}
use tablet_magic.Post.Levels.{right, levels}
use tablet_magic.Stylus.{set_buttons}
use tablet_magic.Daemon.State.{Tablet, set_stylus}
use tablet_magic.Daemon.Queue.{series_code}
use tablet_magic.Daemon.Mapping.{update_tablet_scale}
use tablet_magic.Daemon.Identify.{all_series, find_series}
use tablet_magic.Daemon.Reply.{process_command_reply, process_tablet_pc_reply}
use tablet_magic.Daemon.Reset.{released_stylus, reset_stylus}
use tablet_magic.Daemon.Panic.{reset_stylus-released}
use tablet_magic.Daemon.Whole.{after}
use tablet_magic.Daemon.Agrees.{IsConsistent, after-IsConsistent}
use tablet_magic.Daemon.Models.{find_series-series_code}
use tablet_magic.Daemon.Sizes.{query_reply, process_tablet_pc_reply-size}
use tablet_magic.Daemon.Columns.{size_reply, IsScaled, process_command_reply-size_reply}
use tablet_magic.Daemon.Messages.{send_all, pop_times, pop_times-send_all}
use tablet_magic.Daemon.Samples.{whole, stylus, tablet, place}

abbrev down : List ℕ
down = 0xe8 ∷ 1 ∷ 2 ∷ 0x20 ∷ 4 ∷ 5 ∷ 6 ∷ []

abbrev lifted : List ℕ
lifted = 0xa0 ∷ 6 ∷ 5 ∷ 4 ∷ 3 ∷ 2 ∷ 1 ∷ []

stylus-IsConsistent : IsConsistent stylus
stylus-IsConsistent = record {
  agrees = record { click = refl; each = λ q. refl };
  lifted = λ up. refl;
}

after-IsConsistent_example :
    IsConsistent (after whole place (down ∷ lifted ∷ []) tablet).output.stylus
after-IsConsistent_example =
    after-IsConsistent whole place (down ∷ lifted ∷ []) tablet (λ e. cc) stylus-IsConsistent

find_series-series_code_example :
    find_series (series_code graphire ++ b'-' ∷ b'0' ∷ []) unknown all_series ≡ graphire
find_series-series_code_example =
    find_series-series_code graphire unknown (b'-' ∷ b'0' ∷ []) (omega arith)

abbrev behind : Tablet
behind = after whole place (down ∷ lifted ∷ []) tablet

process_tablet_pc_reply-size_example :
    let t' = process_tablet_pc_reply (query_reply 24570 18430 255 0 (1 ∷ [])) tablet in
    (t'.active.xscale ≡ pos 24570)
    × (t'.active.yscale ≡ pos 18430)
    × (t'.mapping ≡ record { x = pos 0; y = pos 0; width = pos 24570; height = pos 18430 })
process_tablet_pc_reply-size_example =
    process_tablet_pc_reply-size 24570 18430 255 0 (1 ∷ []) tablet (omega arith) (omega arith)
      (omega arith) refl

process_command_reply-size_reply_example :
    let t' = update_tablet_scale whole (pos 5040) (pos 3779) true tablet in
    (process_command_reply whole 0 (size_reply 5040 3779) tablet ≡ some t')
    × IsScaled 5040 3779 tablet t'
process_command_reply-size_reply_example =
    process_command_reply-size_reply whole tablet refl 0 5040 3779 (omega arith) (omega arith)

abbrev told : List (List ℕ)
told = codes "[ready]" ∷ codes "[none]" ∷ []

pop_times-send_all_example : pop_times 2 (send_all told tablet) ≡ some (told, tablet)
pop_times-send_all_example = pop_times-send_all told tablet refl (omega arith)

-- Button 2 is held.
abbrev held : Tablet
held = set_stylus (set_buttons 4 stylus) tablet

reset_stylus-released_example :
    let t' = set_stylus (released_stylus held.output.stylus) held in
    let events = (post_change_events (place t') t'.output).1 in
    ((q : ℕ) → (reset_stylus place held).output.old_button_state q ≡ false)
    × ((reset_stylus place held).sent ≡ held.sent ++ events)
    × (levels right (held.output.old_button_state system_button2) events ≡ some false)
reset_stylus-released_example = reset_stylus-released place held refl
