-- ===== src/Daemon/Kept.antt =====
-- `PostChangeEvents` leaves the buttons, the pressure and the nearness of the stylus as they are.
use tablet_magic.Base.{ℕ, ◌≡◌, ◌∙◌, arith, Bool}
use tablet_magic.Stylus.{Point, Stylus}
use tablet_magic.Post.Cg.{EventType, SubType, post_cg_event}
use tablet_magic.Post.Change.{
  Call, Posting, post, post_proximity, post_double_click, post_single_click, post_grab,
  post_button1, post_button2, post_eraser, post_other, post_position, post_all, Output, call_of,
  posting_of, post_change_events, button_event, system_button3, system_button4, system_button5,
}

-- What the posts do not write.
pub record Body : Type 0 where
  pub mask : ℕ
  pub click : Bool
  pub button : ℕ → Bool
  pub pressure : ℕ
  pub off : Bool
  pub near : Bool
  pub point : Point

unfoldable pub body : Stylus → Body
body s = record {
  mask = s.button_mask;
  click = s.button_click;
  button = s.button;
  pressure = s.pressure;
  off = s.off_tablet;
  near = s.pen_near;
  point = s.point;
}

module _ (c : Call) where
  body-post :
      (type : EventType) (sub : SubType) (button clicks : ℕ) (p : Posting)
      → body (post c type sub button clicks p).stylus ≡ body p.stylus
  unfolding body post post_cg_event
  body-post type sub button clicks p = ground arith

  body-post_proximity :
      (type : EventType) (p : Posting) → body (post_proximity c type p).stylus ≡ body p.stylus
  unfolding body post_proximity post post_cg_event
  body-post_proximity type p = ground arith

  body-post_double_click : (p : Posting) → body (post_double_click c p).stylus ≡ body p.stylus
  unfolding body post_double_click post post_cg_event
  body-post_double_click p = ground arith

  body-post_single_click : (p : Posting) → body (post_single_click c p).stylus ≡ body p.stylus
  unfolding body post_single_click post post_cg_event
  body-post_single_click p = ground arith

  body-post_grab : (p : Posting) → body (post_grab c p).stylus ≡ body p.stylus
  unfolding body post_grab post post_cg_event
  body-post_grab p = ground arith

  body-post_button1 : (p : Posting) → body (post_button1 c p).stylus ≡ body p.stylus
  unfolding body post_button1 post post_cg_event
  body-post_button1 p = ground arith

  body-post_button2 : (p : Posting) → body (post_button2 c p).stylus ≡ body p.stylus
  unfolding body post_button2 post post_cg_event
  body-post_button2 p = ground arith

  body-post_eraser : (p : Posting) → body (post_eraser c p).stylus ≡ body p.stylus
  unfolding body post_eraser post post_cg_event
  body-post_eraser p = ground arith

  body-post_other :
      (button number : ℕ) (p : Posting) → body (post_other button number c p).stylus ≡ body p.stylus
  unfolding body post_other post post_cg_event
  body-post_other button number p = ground arith

  body-post_position :
      (type : EventType) (p : Posting) → body (post_position c type p).stylus ≡ body p.stylus
  unfolding body post_position post post_cg_event
  body-post_position type p = ground arith

  body-post_all : (p : Posting) → body (post_all c p).stylus ≡ body p.stylus
  unfolding post_all
  body-post_all p =
      let type = button_event c p.drag in
      let p1 = post_proximity c type p in
      let p2 = post_double_click c p1 in
      let p3 = post_single_click c p2 in
      let p4 = post_grab c p3 in
      let p5 = post_button1 c p4 in
      let p6 = post_button2 c p5 in
      let p7 = post_eraser c p6 in
      let p8 = post_other system_button3 2 c p7 in
      let p9 = post_other system_button4 3 c p8 in
      let p10 = post_other system_button5 4 c p9 in
      body-post_position type p10
      ∙ body-post_other system_button5 4 p9
      ∙ body-post_other system_button4 3 p8
      ∙ body-post_other system_button3 2 p7
      ∙ body-post_eraser p6
      ∙ body-post_button2 p5
      ∙ body-post_button1 p4
      ∙ body-post_grab p3
      ∙ body-post_single_click p2
      ∙ body-post_double_click p1
      ∙ body-post_proximity type p

pub body-post_change_events :
    (place : Point) (o : Output) → body (post_change_events place o).0.stylus ≡ body o.stylus
unfolding post_change_events posting_of body
body-post_change_events place o = body-post_all (call_of place o) (posting_of place o)
