-- ===== src/Control/Geometry.antt =====
-- The geometry that the daemon tells is read back as it was.
use tablet_magic.Base.{ℕ, ◌^◌, ◌≤◌, ◌<◌, ◌≡◌, refl, arith, Bool, List, ◌∷◌, map, All, drop}
use tablet_magic.Int.{ℤ, pos, ◌-ℤ◌}
use tablet_magic.Format.{IsInt}
use tablet_magic.Protocol.Sensing.{Rect, max_x, max_y}
use tablet_magic.Stylus.{stylus_tip, stylus_button1, stylus_button2, stylus_eraser}
use tablet_magic.Daemon.State.{Tablet}
use tablet_magic.Daemon.Mapping.{init_tablet_bounds, set_screen_mapping}
use tablet_magic.Control.Answers.{flag, message_geometry}
use tablet_magic.Control.Handle.{scan_numbers, geometry_format, to_sint16, set_geometry}
use tablet_magic.Control.Written.{scan_numbers-written, geometry, message_geometry-written}
use tablet_magic.Control.Areas.{
  IsArea, span-origin, span-end, span-size, span-IsInt, span-sint16, index-kept, flag-kept,
}

mapping-told :
    (r : Rect) (u : Tablet)
    → IsArea (2 ^ 31) r
    → (init_tablet_bounds r.x r.y (max_x r -ℤ pos 1) (max_y r -ℤ pos 1) u).mapping ≡ r
unfolding init_tablet_bounds max_x max_y
mapping-told r u h =
    rw
      (
        span-end r.x r.width h.x_least h.wide,
        span-end r.y r.height h.y_least h.high,
        span-origin r.x h.x_least,
        span-origin r.y h.y_least,
        span-size r.x r.width h.wide,
        span-size r.y r.height h.high,
      )
      refl

screen-told :
    (r : Rect) (u : Tablet)
    → IsArea (2 ^ 15) r
    → (set_screen_mapping
        (to_sint16 r.x)
        (to_sint16 r.y)
        (to_sint16 (max_x r -ℤ pos 1))
        (to_sint16 (max_y r -ℤ pos 1))
        u).screen
      ≡ r
unfolding set_screen_mapping max_x max_y
screen-told r u h =
    let sx = span-sint16 r.x r.width h.x_least h.wide h.x_ends in
    let sy = span-sint16 r.y r.height h.y_least h.high h.y_ends in
    rw
      (
        sx.0,
        sx.1,
        sy.0,
        sy.1,
        span-end r.x r.width h.x_least h.wide,
        span-end r.y r.height h.y_least h.high,
        span-origin r.x h.x_least,
        span-origin r.y h.y_least,
        span-size r.x r.width h.wide,
        span-size r.y r.height h.high,
      )
      refl

-- What a told geometry says.
abbrev pub told : Tablet → List ℤ
told t = map (λ f. f.1) (geometry t)

-- The four buttons stand for what they did.
abbrev pub SameButtons : (ℕ → ℕ) → (ℕ → ℕ) → Type 0
SameButtons m m' =
    (m stylus_tip ≡ m' stylus_tip)
    × (m stylus_button1 ≡ m' stylus_button1)
    × (m stylus_button2 ≡ m' stylus_button2)
    × (m stylus_eraser ≡ m' stylus_eraser)

abbrev pub IsTold : Tablet → Tablet → Type 0
IsTold v t =
    (v.mapping ≡ t.mapping)
    × (v.screen ≡ t.screen)
    × (v.mouse_mode ≡ t.mouse_mode)
    × SameButtons v.output.button_mapping t.output.button_mapping

set_geometry-told :
    (garbage : ℕ → ℤ) (t u : Tablet)
    → IsArea (2 ^ 31) t.mapping
    → IsArea (2 ^ 15) t.screen
    → ((q : ℕ) → t.output.button_mapping q < 2 ^ 31)
    → IsTold (set_geometry garbage (told t) u) t
unfolding set_geometry init_tablet_bounds set_screen_mapping
set_geometry-told garbage t u mapped shown small = (
  mapping-told t.mapping u mapped,
  screen-told t.screen u shown,
  flag-kept t.mouse_mode,
  (
    index-kept (t.output.button_mapping stylus_tip) (small stylus_tip),
    index-kept (t.output.button_mapping stylus_button1) (small stylus_button1),
    index-kept (t.output.button_mapping stylus_button2) (small stylus_button2),
    index-kept (t.output.button_mapping stylus_eraser) (small stylus_eraser),
  ),
)

span-small :
    (limit : ℕ) (r : Rect)
    → limit ≤ 2 ^ 31
    → IsArea limit r
    → (IsInt r.x × IsInt (max_x r -ℤ pos 1)) × (IsInt r.y × IsInt (max_y r -ℤ pos 1))
unfolding max_x max_y
span-small limit r hl h =
    let ex = h.x_ends in
    let ey = h.y_ends in
    (
      span-IsInt r.x r.width h.x_least h.wide (omega arith),
      span-IsInt r.y r.height h.y_least h.high (omega arith),
    )

flag-IsInt : (b : Bool) → IsInt (flag b)
flag-IsInt b = ground arith

small-IsInt : (n : ℕ) → n < 2 ^ 31 → IsInt (pos n)
small-IsInt n h = omega arith

geometry-IsInt :
    (t : Tablet)
    → IsArea (2 ^ 31) t.mapping
    → IsArea (2 ^ 15) t.screen
    → ((q : ℕ) → t.output.button_mapping q < 2 ^ 31)
    → All (λ f. IsInt f.1) (geometry t)
geometry-IsInt t mapped shown small =
    let a = span-small (2 ^ 31) t.mapping (omega arith) mapped in
    let b = span-small (2 ^ 15) t.screen (omega arith) shown in
    let f = flag-IsInt t.mouse_mode in
    let m = λ (q : ℕ). small-IsInt (t.output.button_mapping q) (small q) in
    let m0 = m stylus_tip in
    let m1 = m stylus_button1 in
    let m2 = m stylus_button2 in let m3 = m stylus_eraser in omega (arith, a, b, f, m0, m1, m2, m3)

-- The geometry that the daemon tells, read back by any tablet, gives it the same areas of the tablet
-- and of the screen, the same mode and the same meaning of the four buttons. The areas must not be
-- empty, must begin at or above 0, and must end below 2^31 and, on the screen, below 2^15; the
-- meanings of the buttons are below 2^31. The mouse scaling, which is told too, is not part of this.
pub change_geometry-message_geometry :
    (garbage : ℕ → ℤ) (scaling : List ℕ) (t u : Tablet)
    → IsArea (2 ^ 31) t.mapping
    → IsArea (2 ^ 15) t.screen
    → ((q : ℕ) → t.output.button_mapping q < 2 ^ 31)
    → IsTold
        (set_geometry garbage
          (scan_numbers geometry_format (drop 6 (message_geometry scaling t))).0
          u)
        t
change_geometry-message_geometry garbage scaling t u mapped shown small =
    rw
      (
        message_geometry-written scaling t,
        scan_numbers-written (geometry t) (b' ' ∷ scaling) (geometry-IsInt t mapped shown small)
            refl,
      )
      (set_geometry-told garbage t u mapped shown small)
