-- ===== src/Post/Alternate.antt =====
-- One whole call, and the levels of both buttons.
use tablet_magic.Base.{
  ℕ, ◌≡◌, refl, ◌∙◌, ap, arith, Bool, true, false, not, ◌&&◌, ◌||◌, differ, if◌then◌else◌, Option,
  none, some, inl, inr, Bool-cases,
}
use tablet_magic.Post.Cg.{
  EventType, lmouse_down, lmouse_up, rmouse_down, rmouse_up, omouse_down, omouse_up, is_motion,
  default, tablet_point,
}
use tablet_magic.Post.Change.{
  Call, Posting, post, post_proximity, post_double_click, post_single_click, post_grab,
  post_button1, post_button2, post_eraser, post_other, post_position, button_event, post_all,
  system_button1, system_button2, system_button3, system_button4, system_button5, system_eraser,
  system_double_click, system_single_click,
}
use tablet_magic.Post.Levels.{Side, left, right, then_level, level_of, post_lem}
use tablet_magic.Post.Turns.{
  then_level-motion, post_proximity-level, left_level, grabs, IsUndisturbed, post_double_click-left,
  post_single_click-left, post_grab-left, post_button1-left, post_eraser-left, post_button2-right,
}

module _ (c : Call) (p : Posting) where
  proximity-drag : (type : EventType) → (post_proximity c type p).drag ≡ p.drag
  unfolding post_proximity post
  proximity-drag type = elim (Bool-cases (differ c.before.off_tablet p.stylus.off_tablet)) [
    | inl t ↦ rw t
    | inr f ↦ rw f
  ]

  double-drag : (post_double_click c p).drag ≡ p.drag
  unfolding post_double_click post
  double-drag = ground arith

  single-drag : (post_single_click c p).drag ≡ p.drag
  unfolding post_single_click post
  single-drag = ground arith

  button2-drag : (post_button2 c p).drag ≡ p.drag
  unfolding post_button2 post
  button2-drag = ground arith

  grab-drag : (post_grab c p).drag ≡ (if grabs c then not p.drag else p.drag)
  unfolding post_grab post
  grab-drag = ground arith

  button1-drag : (post_button1 c p).drag ≡ (
      if differ (c.was system_button1) (c.now system_button1) && not (c.now system_button1)
      then false
      else p.drag)
  unfolding post_button1 post
  button1-drag = ground arith

  eraser-drag : (post_eraser c p).drag ≡ p.drag
  unfolding post_eraser post
  eraser-drag = ground arith

  other-drag : (button number : ℕ) → (post_other button number c p).drag ≡ p.drag
  unfolding post_other post
  other-drag button number = ground arith

  position-drag : (type : EventType) → (post_position c type p).drag ≡ p.drag
  unfolding post_position post
  position-drag type = ground arith

then_level-neutral :
    (o : Option Bool)
    → (then_level right lmouse_down o ≡ o)
      × (then_level right lmouse_up o ≡ o)
      × (then_level left rmouse_down o ≡ o)
      × (then_level left rmouse_up o ≡ o)
then_level-neutral none = (refl, refl, refl, refl)
then_level-neutral (some b) = (refl, refl, refl, refl)

then_level-other :
    (side : Side) (o : Option Bool)
    → (then_level side omouse_down o ≡ o) × (then_level side omouse_up o ≡ o)
then_level-other left none = (refl, refl)
then_level-other left (some b) = (refl, refl)
then_level-other right none = (refl, refl)
then_level-other right (some b) = (refl, refl)

button_event-motion : (c : Call) (drag : Bool) → is_motion (button_event c drag) ≡ true
unfolding button_event
button_event-motion c drag = ground arith

module _ (c : Call) (on : c.tablet_on ≡ true) (level : Bool) where
  left_on_right :
      (n : ℕ) (p : Posting)
      → (level_of right level (post c lmouse_down tablet_point 0 n p) ≡ level_of right level p)
        × (level_of right level (post c lmouse_up tablet_point 0 n p) ≡ level_of right level p)
  left_on_right n p = (
    post_lem c right level lmouse_down tablet_point 0 n p on ∙ (then_level-neutral _).0,
    post_lem c right level lmouse_up tablet_point 0 n p on ∙ (then_level-neutral _).1,
  )

  down_r :
      (n : ℕ) (p : Posting)
      → level_of right level (post c lmouse_down tablet_point 0 n p) ≡ level_of right level p
  down_r n p = (left_on_right n p).0

  up_r :
      (n : ℕ) (p : Posting)
      → level_of right level (post c lmouse_up tablet_point 0 n p) ≡ level_of right level p
  up_r n p = (left_on_right n p).1

  double_r : (p : Posting) → level_of right level (post_double_click c p) ≡ level_of right level p
  unfolding post_double_click
  double_r p = elim (Bool-cases (c.now system_double_click && not (c.was system_double_click))) [
    | inl starts ↦ elim (Bool-cases (c.was system_button1)) [
      | inl held ↦ rw (starts, held) (down_r 2 _ ∙ up_r 1 _ ∙ down_r 1 _ ∙ up_r 1 p)
      | inr free ↦ rw (starts, free) (up_r 2 _ ∙ down_r 2 _ ∙ up_r 1 _ ∙ down_r 1 p)
    ]
    | inr quiet ↦ rw quiet
  ]

  single_r : (p : Posting) → level_of right level (post_single_click c p) ≡ level_of right level p
  unfolding post_single_click
  single_r p = elim (Bool-cases (c.now system_single_click && not (c.was system_single_click))) [
    | inl starts ↦ elim (Bool-cases (c.was system_button1)) [
      | inl held ↦ rw (starts, held) (down_r 1 _ ∙ up_r 1 _ ∙ down_r 1 _ ∙ up_r 1 p)
      | inr free ↦ rw (starts, free) (up_r 1 _ ∙ down_r 1 p)
    ]
    | inr quiet ↦ rw quiet
  ]

  grab_r : (p : Posting) → level_of right level (post_grab c p) ≡ level_of right level p
  unfolding post_grab
  grab_r p = let lift = record p { drag = not p.drag } in ground (arith, down_r 1 lift, up_r 1 lift)

  button1_r : (p : Posting) → level_of right level (post_button1 c p) ≡ level_of right level p
  unfolding post_button1
  button1_r p =
      let ended = record p { drag = false } in ground (arith, down_r 1 p, up_r 1 p, up_r 1 ended)

  eraser_r : (p : Posting) → level_of right level (post_eraser c p) ≡ level_of right level p
  unfolding post_eraser
  eraser_r p = ground (arith, down_r 1 p, up_r 1 p)

  button2_l : (p : Posting) → level_of left level (post_button2 c p) ≡ level_of left level p
  unfolding post_button2
  button2_l p = ground (
    arith,
    post_lem c left level rmouse_down tablet_point 1 1 p on,
    post_lem c left level rmouse_up tablet_point 1 1 p on,
    then_level-neutral (level_of left level p),
  )

  other_keeps :
      (side : Side) (button number : ℕ) (p : Posting)
      → level_of side level (post_other button number c p) ≡ level_of side level p
  unfolding post_other
  other_keeps side button number p = ground (
    arith,
    post_lem c side level omouse_down default number 1 p on,
    post_lem c side level omouse_up default number 1 p on,
    then_level-other side (level_of side level p),
  )

  position_keeps :
      (side : Side) (type : EventType) (p : Posting)
      → is_motion type ≡ true
      → level_of side level (post_position c type p) ≡ level_of side level p
  unfolding post_position
  position_keeps side type p motion = ground (
    arith,
    post_lem c side level type tablet_point 0 1 p on,
    then_level-motion side type (level_of side level p),
  )

  -- The posts of a call up to the grab, and up to the eraser.
  abbrev clicked : Posting → Posting
  clicked p = post_single_click c (post_double_click c (post_proximity c (button_event c p.drag) p))

  abbrev pressed : Posting → Posting
  pressed p = post_eraser c (post_button2 c (post_button1 c (post_grab c (clicked p))))

  -- Behind the eraser only motions and the other buttons follow.
  rest_keeps :
      (side : Side) (p : Posting)
      → level_of side level (post_all c p) ≡ level_of side level (pressed p)
  unfolding post_all
  rest_keeps side p =
      position_keeps side (button_event c p.drag) _ (button_event-motion c p.drag)
      ∙ other_keeps side system_button5 4 _
      ∙ other_keeps side system_button4 3 _
      ∙ other_keeps side system_button3 2 _

  rest-drag : (p : Posting) → (post_all c p).drag ≡ (pressed p).drag
  unfolding post_all
  rest-drag p =
      position-drag c _ (button_event c p.drag)
      ∙ other-drag c _ system_button5 4
      ∙ other-drag c _ system_button4 3
      ∙ other-drag c _ system_button3 2

  clicked-drag : (p : Posting) → (clicked p).drag ≡ p.drag
  clicked-drag p = single-drag c _ ∙ double-drag c _ ∙ proximity-drag c p (button_event c p.drag)

  -- While the tablet is on, the events of one call press and release the right button in turns, from
  -- the previous state of system button 2 to the new one.
  pub post_all-right :
      (p : Posting)
      → level_of right level p ≡ some (c.was system_button2)
      → level_of right level (post_all c p) ≡ some (c.now system_button2)
  post_all-right p before =
      rest_keeps right p
      ∙ eraser_r _
      ∙ post_button2-right c on level _ (
          button1_r _
          ∙ grab_r _
          ∙ single_r _
          ∙ double_r _
          ∙ post_proximity-level c on right level _ p (button_event-motion c p.drag)
          ∙ before)

  clicked_left :
      (p : Posting)
      → level_of left level p
        ≡ some (left_level p.drag (c.was system_button1) (c.was system_eraser))
      → IsUndisturbed c p.drag
      → level_of left level (clicked p)
        ≡ some (left_level p.drag (c.was system_button1) (c.was system_eraser))
  clicked_left p before calm =
      let b = left_level p.drag (c.was system_button1) (c.was system_eraser) in
      post_single_click-left c on level b _ (λ h. ground arith)
        (post_double_click-left c on level b _ (λ h. ground arith)
          (post_proximity-level c on left level _ p (button_event-motion c p.drag) ∙ before))

  -- While the tablet is on, the events of an undisturbed call press and release the left button in
  -- turns, from what the drag, button 1 and the eraser made of it before to what they make of it
  -- afterwards.
  pub post_all-left :
      (p : Posting)
      → level_of left level p
        ≡ some (left_level p.drag (c.was system_button1) (c.was system_eraser))
      → IsUndisturbed c p.drag
      → level_of left level (post_all c p)
        ≡ some (left_level (post_all c p).drag (c.now system_button1) (c.now system_eraser))
  post_all-left p before calm =
      let start = clicked p in
      let grabbed = post_grab c start in
      let one = post_button1 c grabbed in
      let same = clicked-drag p in
      let turned = grab-drag c start in
      let ended = button1-drag c grabbed in
      let e1 =
        post_grab-left c on level (c.was system_button1 || c.was system_eraser) start
          (λ h. ground (arith, calm.grab_alone h))
          (clicked_left p before calm ∙ ap (λ (t : Bool). some t) (ground arith)) in
      let e2 =
        post_button1-left c on level (c.was system_eraser) grabbed
          (λ h. ground (arith, calm.eraser_before h))
          (e1 ∙ ap (λ (t : Bool). some t) (ground arith)) in
      let last = (rest-drag p ∙ eraser-drag c _ ∙ button2-drag c one) in
      rest_keeps left p
      ∙ post_eraser-left c on level (one.drag || c.now system_button1) _
          (λ h. ground (arith, calm.eraser_before h)) (λ h. ground (arith, calm.eraser_after h))
          (button2_l _ ∙ e2 ∙ ap (λ (t : Bool). some t) (ground arith))
      ∙ ap (λ (t : Bool). some t) (ground arith)
