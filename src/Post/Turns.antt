-- ===== src/Post/Turns.antt =====
-- The stages of a call, and the level of each button behind them.
use tablet_magic.Base.{
  ℕ, ◌≡◌, refl, sym, ◌∙◌, ap, arith, Bool, true, false, not, ◌&&◌, ◌||◌, differ, Option, none, some,
  ◌⊎◌, inl, inr, Bool-cases,
}
use tablet_magic.Post.Cg.{
  EventType, lmouse_down, lmouse_up, rmouse_down, rmouse_up, is_motion, SubType, tablet_point,
}
use tablet_magic.Post.Change.{
  Call, Posting, post, post_proximity, post_double_click, post_single_click, post_grab,
  post_button1, post_button2, post_eraser, system_button1, system_button2, system_eraser,
  system_double_click, system_single_click, system_click_or_release,
}
use tablet_magic.Post.Levels.{Side, left, right, then_level, level_after, level_of, post_lem}

-- The left button as the system has it: pressed by a drag, by button 1 or by the eraser.
abbrev pub left_level : Bool → Bool → Bool → Bool
left_level drag button eraser = drag || button || eraser

-- A double or a single click begins in this call.
abbrev pub clicks : Call → Bool
clicks c =
    (c.now system_double_click && not (c.was system_double_click))
    || (c.now system_single_click && not (c.was system_single_click))

-- The click-or-release button is let go in this call.
abbrev pub grabs : Call → Bool
grabs c = not (c.now system_click_or_release) && c.was system_click_or_release

-- The buttons that stand for the left one do not meet in this call: a grab or drop comes while
-- button 1 and the eraser are up before and after; a click does not begin in a drag without
-- button 1, nor under the eraser; and the eraser is down neither before nor after a call together
-- with button 1 or a drag.
pub record IsUndisturbed (c : Call) (drag : Bool) : Type 0 where
  pub grab_alone :
      grabs c ≡ true
      → (c.was system_button1 ≡ false)
        × (c.now system_button1 ≡ false)
        × (c.was system_eraser ≡ false)
        × (c.now system_eraser ≡ false)
  pub click_alone :
      clicks c ≡ true
      → (c.was system_eraser ≡ false) × ((drag ≡ false) ⊎ (c.was system_button1 ≡ true))
  pub eraser_before :
      c.was system_eraser ≡ true
      → (drag ≡ false) × (c.was system_button1 ≡ false) × (c.now system_button1 ≡ false)
  pub eraser_after : c.now system_eraser ≡ true → (drag ≡ false) × (c.now system_button1 ≡ false)

-- Motions and proximity leave both levels.
pub then_level-motion :
    (side : Side) (type : EventType) (o : Option Bool)
    → is_motion type ≡ true
    → then_level side type o ≡ o
then_level-motion left type none h = refl
then_level-motion right type none h = refl
then_level-motion left type (some b) h = ground arith
then_level-motion right type (some b) h = ground arith

post-drag :
    (c : Call) (type : EventType) (sub : SubType) (button clicks : ℕ) (p : Posting)
    → (post c type sub button clicks p).drag ≡ p.drag
unfolding post
post-drag c type sub button clicks p = refl

module _ (c : Call) (on : c.tablet_on ≡ true) (side : Side) (level : Bool) where
  -- One post, where the level before it is known.
  send :
      (type : EventType) (sub : SubType) (button clicks : ℕ) (b b' : Bool) (p : Posting)
      → level_after side type b ≡ some b'
      → level_of side level p ≡ some b
      → level_of side level (post c type sub button clicks p) ≡ some b'
  send type sub button clicks b b' p taken before =
      post_lem c side level type sub button clicks p on ∙ ap (then_level side type) before ∙ taken

  pub post_proximity-level :
      (type : EventType) (p : Posting)
      → is_motion type ≡ true
      → level_of side level (post_proximity c type p) ≡ level_of side level p
  unfolding post_proximity
  post_proximity-level type p motion =
      elim (Bool-cases (differ c.before.off_tablet p.stylus.off_tablet)) [
        | inl turned ↦
            rw turned (post_lem c side level type _ 0 1 _ on ∙ then_level-motion side type _ motion)
        | inr same ↦ rw same
      ]

module _ (c : Call) (on : c.tablet_on ≡ true) (level : Bool) where
  abbrev Left : Posting → Bool → Type 0
  Left p b = level_of left level p ≡ some b

  down : (n : ℕ) (p : Posting) → Left p false → Left (post c lmouse_down tablet_point 0 n p) true
  down n p e = send c on left level lmouse_down tablet_point 0 n false true p refl e

  up : (n : ℕ) (p : Posting) → Left p true → Left (post c lmouse_up tablet_point 0 n p) false
  up n p e = send c on left level lmouse_up tablet_point 0 n true false p refl e

  -- The clicks return to the level of button 1.
  double_click_level :
      (p : Posting)
      → Left p (c.was system_button1)
      → Left (post_double_click c p) (c.was system_button1)
  unfolding post_double_click
  double_click_level p e =
      elim (Bool-cases (c.now system_double_click && not (c.was system_double_click))) [
        | inl starts ↦ elim (Bool-cases (c.was system_button1)) [
          | inl held ↦ rw (starts, held) (down 2 _ (up 1 _ (down 1 _ (up 1 p (rw held at e)))))
          | inr free ↦ rw (starts, free) (up 2 _ (down 2 _ (up 1 _ (down 1 p (rw free at e)))))
        ]
        | inr quiet ↦ rw quiet e
      ]

  pub post_double_click-left :
      (b : Bool) (p : Posting)
      → ((c.now system_double_click && not (c.was system_double_click)) ≡ true
          → b ≡ c.was system_button1)
      → Left p b
      → Left (post_double_click c p) b
  post_double_click-left b p same e =
      elim (Bool-cases (c.now system_double_click && not (c.was system_double_click))) [
        | inl starts ↦
            let at_button = ap (λ (t : Bool). some t) (same starts) in
            double_click_level p (e ∙ at_button) ∙ sym at_button
        | inr quiet ↦ unfold post_double_click in rw quiet e
      ]

  single_click_level :
      (p : Posting)
      → Left p (c.was system_button1)
      → Left (post_single_click c p) (c.was system_button1)
  unfolding post_single_click
  single_click_level p e =
      elim (Bool-cases (c.now system_single_click && not (c.was system_single_click))) [
        | inl starts ↦ elim (Bool-cases (c.was system_button1)) [
          | inl held ↦ rw (starts, held) (down 1 _ (up 1 _ (down 1 _ (up 1 p (rw held at e)))))
          | inr free ↦ rw (starts, free) (up 1 _ (down 1 p (rw free at e)))
        ]
        | inr quiet ↦ rw quiet e
      ]

  pub post_single_click-left :
      (b : Bool) (p : Posting)
      → ((c.now system_single_click && not (c.was system_single_click)) ≡ true
          → b ≡ c.was system_button1)
      → Left p b
      → Left (post_single_click c p) b
  post_single_click-left b p same e =
      elim (Bool-cases (c.now system_single_click && not (c.was system_single_click))) [
        | inl starts ↦
            let at_button = ap (λ (t : Bool). some t) (same starts) in
            single_click_level p (e ∙ at_button) ∙ sym at_button
        | inr quiet ↦ unfold post_single_click in rw quiet e
      ]

  -- A grab presses the button and a drop releases it, while nothing else holds it.
  pub post_grab-left :
      (b : Bool) (p : Posting)
      → (grabs c ≡ true → (c.now system_button1 ≡ false) × (b ≡ false))
      → Left p (p.drag || b)
      → Left (post_grab c p) ((post_grab c p).drag || b)
  unfolding post_grab
  post_grab-left b p alone e =
      let lift = record p { drag = not p.drag } in
      ground (
        arith,
        post_lem c left level lmouse_down tablet_point 0 1 lift on,
        post_lem c left level lmouse_up tablet_point 0 1 lift on,
        post-drag c lmouse_down tablet_point 0 1 lift,
        post-drag c lmouse_up tablet_point 0 1 lift,
      )

  -- Button 1 ends a drag, and is not seen to be pressed in one.
  pub post_button1-left :
      (b : Bool) (p : Posting)
      → (b ≡ true
          → (p.drag ≡ false) × (c.was system_button1 ≡ false) × (c.now system_button1 ≡ false))
      → Left p (left_level p.drag (c.was system_button1) b)
      → Left (post_button1 c p) (left_level (post_button1 c p).drag (c.now system_button1) b)
  unfolding post_button1
  post_button1-left b p alone e =
      let ended = record p { drag = false } in
      ground (
        arith,
        post_lem c left level lmouse_up tablet_point 0 1 p on,
        post_lem c left level lmouse_up tablet_point 0 1 ended on,
        post_lem c left level lmouse_down tablet_point 0 1 p on,
        post-drag c lmouse_down tablet_point 0 1 p,
        post-drag c lmouse_up tablet_point 0 1 p,
        post-drag c lmouse_up tablet_point 0 1 ended,
      )

  pub post_eraser-left :
      (b : Bool) (p : Posting)
      → (c.was system_eraser ≡ true → b ≡ false)
      → (c.now system_eraser ≡ true → b ≡ false)
      → Left p (b || c.was system_eraser)
      → Left (post_eraser c p) (b || c.now system_eraser)
  unfolding post_eraser
  post_eraser-left b p before after e = ground (
    arith,
    post_lem c left level lmouse_up tablet_point 0 1 p on,
    post_lem c left level lmouse_down tablet_point 0 1 p on,
  )

  -- The right button follows system button 2.
  pub post_button2-right :
      (p : Posting)
      → level_of right level p ≡ some (c.was system_button2)
      → level_of right level (post_button2 c p) ≡ some (c.now system_button2)
  unfolding post_button2
  post_button2-right p e = ground (
    arith,
    post_lem c right level rmouse_up tablet_point 1 1 p on,
    post_lem c right level rmouse_down tablet_point 1 1 p on,
  )
