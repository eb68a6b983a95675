-- ===== src/Post/Run.antt =====
-- Whole calls of `PostChangeEvents`, and sequences of them.
use tablet_magic.Base.{
  ◌≡◌, refl, sym, ◌∙◌, arith, Bool, true, List, [], ◌∷◌, ◌++◌, Option, none, some,
}
use tablet_magic.Stylus.{Point, Stylus}
use tablet_magic.Post.Cg.{CgEvent}
use tablet_magic.Post.Change.{Output, call_of, posting_of, post_change_events, system_button2}
use tablet_magic.Post.Levels.{Side, right, levels, levels-cons, level_after, go_on}
use tablet_magic.Post.Alternate.{post_all-right}

-- One packet: the stylus that its interpreter leaves, and its place on the screen.
abbrev pub Sample : Type 0
Sample = Stylus × Point

-- The calls that a sequence of packets makes, and all their events.
unfoldable pub post_samples : List Sample → Output → Output × List CgEvent
unfolding post_change_events
post_samples [] o = (o, [])
post_samples ((s, place) ∷ rest) o =
    let (o', first) = post_change_events place (record o { stylus = s }) in
    let (last, more) = post_samples rest o' in (last, first ++ more)

-- The events behind others that were taken.
pub levels-append_list :
    (side : Side) (xs ys : List CgEvent) (a b : Bool)
    → levels side a xs ≡ some b
    → levels side a (xs ++ ys) ≡ levels side b ys
unfolding levels
levels-append_list side [] ys a b h = ground arith
levels-append_list side (x ∷ xs) ys a b h =
    levels-cons side a x (xs ++ ys)
    ∙ go (level_after side x.event_type a) (sym (levels-cons side a x xs) ∙ h)
        (λ next taken. levels-append_list side xs ys next b taken)
  where
    go :
        (o : Option Bool)
        → go_on side xs o ≡ some b
        → ((next : Bool)
            → levels side next xs ≡ some b
            → levels side next (xs ++ ys) ≡ levels side b ys)
        → go_on side (xs ++ ys) o ≡ levels side b ys
    go none h again = ground arith
    go (some next) h again = again next h

pub call-right :
    (place : Point) (o : Output)
    → o.tablet_on ≡ true
    → levels right (o.old_button_state system_button2) (post_change_events place o).1
      ≡ some ((post_change_events place o).0.old_button_state system_button2)
unfolding post_change_events posting_of levels call_of
call-right place o on = post_all-right (call_of place o) on _ (posting_of place o) refl
