-- ===== src/Post/Levels.antt =====
-- The system sees a mouse button go down and up in turns.
use mathlib.Core.List.{append_assoc}
use tablet_magic.Base.{
  ℕ, ◌≡◌, refl, sym, ◌∙◌, ap, Bool, true, false, if◌then◌else◌, List, [], ◌∷◌, ◌++◌, Option, none,
  some,
}
use tablet_magic.Post.Cg.{
  EventType, lmouse_down, lmouse_up, rmouse_down, rmouse_up, SubType, default, tablet_point,
  proximity, CgEvent, tablet_proximity,
}
use tablet_magic.Post.Change.{Call, Posting, post}

-- What the system takes an event for: a press or a release of the left or of the right button.
pub data Side : Type 0 where
  left right : Side

-- The level of a button behind an event; a press of a pressed button and a release of a released one
-- are refused.
abbrev pub set_level : Bool → Bool → Option Bool
set_level true level = if level then none else some true
set_level false level = if level then some false else none

abbrev pub level_after : Side → EventType → Bool → Option Bool
level_after left lmouse_down level = set_level true level
level_after left lmouse_up level = set_level false level
level_after right rmouse_down level = set_level true level
level_after right rmouse_up level = set_level false level
level_after side _ level = some level

unfoldable pub levels : Side → Bool → List CgEvent → Option Bool
levels side level [] = some level
levels side level (e ∷ es) = elim (level_after side e.event_type level) [
  | none ↦ none
  | some next ↦ levels side next es
]

abbrev pub then_level : Side → EventType → Option Bool → Option Bool
then_level side type none = none
then_level side type (some level) = level_after side type level

-- The events behind one that was taken or refused.
abbrev pub go_on : Side → List CgEvent → Option Bool → Option Bool
go_on side es none = none
go_on side es (some next) = levels side next es

pub levels-cons :
    (side : Side) (level : Bool) (e : CgEvent) (es : List CgEvent)
    → levels side level (e ∷ es) ≡ go_on side es (level_after side e.event_type level)
unfolding levels
levels-cons side level e es = go (level_after side e.event_type level)
  where
    go :
        (o : Option Bool)
        → (elim o as (λ _. Option Bool) [ none ↦ none | some next ↦ levels side next es ])
          ≡ go_on side es o
    go none = refl
    go (some next) = refl

levels-nil : (side : Side) (o : Option Bool) → go_on side [] o ≡ o
unfolding levels
levels-nil side none = refl
levels-nil side (some b) = refl

levels-append :
    (side : Side) (xs : List CgEvent) (level : Bool) (e : CgEvent)
    → levels side level (xs ++ e ∷ []) ≡ then_level side e.event_type (levels side level xs)
levels-append side [] level e =
    levels-cons side level e []
    ∙ levels-nil side (level_after side e.event_type level)
    ∙ unfold levels in refl
levels-append side (x ∷ xs) level e =
    levels-cons side level x (xs ++ e ∷ [])
    ∙ go (level_after side x.event_type level) (levels-append side xs true e)
        (levels-append side xs false e)
    ∙ ap (then_level side e.event_type) (sym (levels-cons side level x xs))
  where
    go :
        (o : Option Bool)
        → levels side true (xs ++ e ∷ []) ≡ then_level side e.event_type (levels side true xs)
        → levels side false (xs ++ e ∷ []) ≡ then_level side e.event_type (levels side false xs)
        → go_on side (xs ++ e ∷ []) o ≡ then_level side e.event_type (go_on side xs o)
    go none up down = refl
    go (some true) up down = up
    go (some false) up down = down

-- A pure tablet event says nothing of the buttons.
levels-append_pure :
    (side : Side) (xs : List CgEvent) (level : Bool) (e f : CgEvent)
    → f.event_type ≡ tablet_proximity
    → levels side level (xs ++ e ∷ f ∷ []) ≡ then_level side e.event_type (levels side level xs)
levels-append_pure side xs level e f pure =
    ap (levels side level) (sym (append_assoc xs (e ∷ []) (f ∷ [])))
    ∙ levels-append side (xs ++ e ∷ []) level f
    ∙ ap (λ (t : EventType). then_level side t (levels side level (xs ++ e ∷ []))) pure
    ∙ keep side (levels side level (xs ++ e ∷ []))
    ∙ levels-append side xs level e
  where
    keep : (side : Side) (o : Option Bool) → then_level side tablet_proximity o ≡ o
    keep left none = refl
    keep left (some b) = refl
    keep right none = refl
    keep right (some b) = refl

abbrev pub level_of : Side → Bool → Posting → Option Bool
level_of side level p = levels side level p.sent

-- What one post does to the level: what its event does, whatever the subtype.
pub post_lem :
    (c : Call) (side : Side) (level : Bool) (type : EventType) (sub : SubType) (button clicks : ℕ)
    (p : Posting)
    → c.tablet_on ≡ true
    → level_of side level (post c type sub button clicks p)
      ≡ then_level side type (level_of side level p)
unfolding post
post_lem c side level type default button clicks p on = rw on (levels-append side p.sent level _)
post_lem c side level type tablet_point button clicks p on =
    rw on (levels-append side p.sent level _)
post_lem c side level type proximity button clicks p on =
    rw on (levels-append_pure side p.sent level _ _ refl)
