-- ===== src/Post/Change.antt =====
-- `PostChangeEvents` behind the placing of the stylus on the screen.
use tablet_magic.Base.{
  ℕ, Bool, true, false, not, ◌&&◌, ◌||◌, ◌==◌, differ, if◌then◌else◌, List, [], ◌++◌, update,
}
use tablet_magic.Int.{eqb_ℤ}
use tablet_magic.Stylus.{Point, Stylus, stylus_tip, stylus_button1, stylus_button2, stylus_eraser}
use tablet_magic.Post.Cg.{
  EventType, lmouse_down, lmouse_up, rmouse_down, rmouse_up, omouse_down, omouse_up, mouse_moved,
  lmouse_dragged, rmouse_dragged, SubType, default, tablet_point, proximity, CgEvent, post_cg_event,
}

-- `kSystem…`, the places of `buttonState`.
abbrev pub system_button1 : ℕ
system_button1 = 1

abbrev pub system_button2 : ℕ
system_button2 = 2

abbrev pub system_button3 : ℕ
system_button3 = 3

abbrev pub system_button4 : ℕ
system_button4 = 4

abbrev pub system_button5 : ℕ
system_button5 = 5

abbrev pub system_eraser : ℕ
system_eraser = 6

abbrev pub system_double_click : ℕ
system_double_click = 7

abbrev pub system_single_click : ℕ
system_single_click = 8

abbrev pub system_click_or_release : ℕ
system_click_or_release = 10

abbrev pub cg_button_left : ℕ
cg_button_left = 0

abbrev pub cg_button_right : ℕ
cg_button_right = 1

abbrev pub pointer_pen : ℕ
pointer_pen = 1

abbrev pub pointer_eraser : ℕ
pointer_eraser = 3

-- The `|=` of one stylus button into the state of the system button that it is mapped to.
abbrev pub map_button : (ℕ → ℕ) → Stylus → ℕ → (ℕ → Bool) → ℕ → Bool
map_button mapping s k state = let q = mapping k in update state q (state q || s.button k)

unfoldable pub system_buttons : (ℕ → ℕ) → Stylus → ℕ → Bool
system_buttons mapping s =
    let cleared = λ (q : ℕ). false in
    let tip = map_button mapping s stylus_tip cleared in
    let one = map_button mapping s stylus_button1 tip in
    map_button mapping s stylus_eraser (map_button mapping s stylus_button2 one)

-- What stays fixed during one call: the new and the previous state of the system buttons, the
-- previous stylus, and where the eraser is mapped.
pub record Call : Type 0 where
  pub tablet_on : Bool
  pub now : ℕ → Bool
  pub was : ℕ → Bool
  pub before : Stylus
  pub eraser_mapping : ℕ

-- What changes: the stylus, `dragState`, `postedPosition` and the events so far.
pub record Posting : Type 0 where
  pub stylus : Stylus
  pub drag : Bool
  pub posted : Bool
  pub sent : List CgEvent

-- `POST_EVENT`.
unfoldable pub post : Call → EventType → SubType → ℕ → ℕ → Posting → Posting
unfolding post_cg_event
post c type sub button clicks p =
    let (s, events) = post_cg_event c.tablet_on type sub button clicks p.stylus in
    record p { stylus = s; sent = p.sent ++ events }

-- With its default arguments.
abbrev pub post_point : Call → EventType → Posting → Posting
post_point c type p = post c type tablet_point cg_button_left 1 p

abbrev pub mark_posted : Posting → Posting
mark_posted p = record p { posted = true }

-- `buttonEvent`.
unfoldable pub button_event : Call → Bool → EventType
button_event c drag =
    if drag || c.now system_click_or_release || c.now system_button1 || c.now system_eraser
    then lmouse_dragged
    else if c.now system_button2
    then rmouse_dragged
    else mouse_moved

-- Has the stylus moved in or out of range?
unfoldable pub post_proximity : Call → EventType → Posting → Posting
post_proximity c type p =
    let s = p.stylus in
    let entering = not s.off_tablet in
    let pointer =
      if s.eraser_flag && c.eraser_mapping == system_eraser then pointer_eraser else pointer_pen in
    let old = s.proximity in
    let told = record old {
      pointer_type = if entering then pointer else old.pointer_type;
      enter_proximity = entering;
    } in
    if differ c.before.off_tablet s.off_tablet
    then post c type proximity cg_button_left 1
        (record p { stylus = record s { proximity = told } })
    else p

unfoldable pub post_double_click : Call → Posting → Posting
post_double_click c p =
    let held = c.was system_button1 in
    let released = if held then post_point c lmouse_up p else p in
    let once = post_point c lmouse_up (post_point c lmouse_down released) in
    let twice = post c lmouse_down tablet_point cg_button_left 2 once in
    let closed = if held then twice else post c lmouse_up tablet_point cg_button_left 2 twice in
    if c.now system_double_click && not (c.was system_double_click) then mark_posted closed else p

unfoldable pub post_single_click : Call → Posting → Posting
post_single_click c p =
    let held = c.was system_button1 in
    let released = if held then post_point c lmouse_up p else p in
    let once = post_point c lmouse_up (post_point c lmouse_down released) in
    let closed = if held then post_point c lmouse_down once else once in
    if c.now system_single_click && not (c.was system_single_click) then mark_posted closed else p

-- Is this a grab or a drop?
unfoldable pub post_grab : Call → Posting → Posting
post_grab c p =
    let drag' = not p.drag in
    let turned = record p { drag = drag' } in
    let type = if drag' then lmouse_down else lmouse_up in
    let told = mark_posted (post_point c type turned) in
    if not (c.now system_click_or_release) && c.was system_click_or_release
    then (if not drag' || not (c.now system_button1) then told else turned)
    else p

unfoldable pub post_button1 : Call → Posting → Posting
post_button1 c p =
    let pressed = c.now system_button1 in
    let ended = if p.drag && not pressed then record p { drag = false } else p in
    let type = if pressed then lmouse_down else lmouse_up in
    let told = mark_posted (post_point c type ended) in
    if differ (c.was system_button1) pressed then (if ended.drag then ended else told) else p

unfoldable pub post_button2 : Call → Posting → Posting
post_button2 c p =
    let type = if c.now system_button2 then rmouse_down else rmouse_up in
    if differ (c.was system_button2) (c.now system_button2)
    then mark_posted (post c type tablet_point cg_button_right 1 p)
    else p

unfoldable pub post_eraser : Call → Posting → Posting
post_eraser c p =
    let type = if c.now system_eraser then lmouse_down else lmouse_up in
    if differ (c.was system_eraser) (c.now system_eraser)
    then mark_posted (post_point c type p)
    else p

-- Buttons 3, 4 and 5, with the numbers kOtherButton3 and on.
unfoldable pub post_other : ℕ → ℕ → Call → Posting → Posting
post_other button number c p =
    let type = if c.now button then omouse_down else omouse_up in
    if differ (c.was button) (c.now button) then post c type default number 1 p else p

-- Has the stylus changed position?
unfoldable pub post_position : Call → EventType → Posting → Posting
post_position c type p =
    let s = p.stylus in
    let still = eqb_ℤ c.before.point.x s.point.x && eqb_ℤ c.before.point.y s.point.y in
    if not p.posted && not still then post_point c type p else p

-- The posts of one call, in order.
unfoldable pub post_all : Call → Posting → Posting
unfolding button_event
post_all c p0 =
    let type = button_event c p0.drag in
    let p1 = post_single_click c (post_double_click c (post_proximity c type p0)) in
    let p2 = post_eraser c (post_button2 c (post_button1 c (post_grab c p1))) in
    let p3 = post_other system_button4 3 c (post_other system_button3 2 c p2) in
    post_position c type (post_other system_button5 4 c p3)

-- The fields of the tablet that the call reads and writes.
pub record Output : Type 0 where
  pub tablet_on : Bool
  pub stylus : Stylus
  pub old_stylus : Stylus
  pub old_button_state : ℕ → Bool
  pub drag_state : Bool
  pub button_mapping : ℕ → ℕ

-- What one call starts from: the fixed part, and the stylus placed on the screen.
unfoldable pub call_of : Point → Output → Call
unfolding system_buttons
call_of place o =
    let s = o.stylus in
    record {
      tablet_on = o.tablet_on;
      now = system_buttons o.button_mapping (record s { scr_pos = place });
      was = o.old_button_state;
      before = o.old_stylus;
      eraser_mapping = o.button_mapping stylus_eraser;
    }

unfoldable pub posting_of : Point → Output → Posting
posting_of place o =
    let s = o.stylus in
    record { stylus = record s { scr_pos = place }; drag = o.drag_state; posted = false; sent = [] }

-- `PostChangeEvents`, with the new position of the stylus on the screen given.
unfoldable pub post_change_events : Point → Output → Output × List CgEvent
unfolding call_of posting_of post_all post_proximity post_double_click post_single_click post_grab
    post_button1 post_button2 post_eraser post_other post_position post
post_change_events place o =
    let c = call_of place o in
    let p = post_all c (posting_of place o) in
    (
      record o {
        stylus = p.stylus;
        old_stylus = p.stylus;
        old_button_state = c.now;
        drag_state = p.drag;
      },
      p.sent,
    )
