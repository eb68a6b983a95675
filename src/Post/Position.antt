-- ===== src/Post/Position.antt =====
-- The first half of `PostChangeEvents`: where on the screen the stylus is. The areas have whole
-- coordinates, so the comparisons with their edges are exact; the ratios are floating-point numbers.
use tablet_magic.Base.{Bool, if◌then◌else◌}
use tablet_magic.Int.{ℤ, pos, ltb_ℤ, ◌+ℤ◌, ◌-ℤ◌, signed16}
use tablet_magic.Floats.{Floats}
use tablet_magic.Format.{to_uint16}
use tablet_magic.Stylus.{Point}
use tablet_magic.Protocol.Sensing.{Rect}
use tablet_magic.Daemon.State.{Tablet}

-- `if (v < low) v = low; if (v > high) v = high;`.
unfoldable pub constrain : ℤ → ℤ → ℤ → ℤ
constrain low high v0 = let v = if ltb_ℤ v0 low then low else v0 in if ltb_ℤ high v then high else v

-- The last coordinate of an area: its origin, and its size less one.
abbrev pub last : ℤ → ℤ → ℤ
last origin size = origin +ℤ size -ℤ pos 1

-- The point of the active area that is nearest to the stylus.
unfoldable pub nearest : Rect → Point → Point
unfolding constrain
nearest r p = record {
  x = constrain r.x (last r.x r.width) p.x;
  y = constrain r.y (last r.y r.height) p.y;
}

-- The floating-point numbers, `<` and `>=` on them, and the scaling of the mouse.
module _ (fl : Floats) (less at_least : fl.Float → fl.Float → Bool) (mouse_scaling : fl.Float) where
  open fl use {Float, of_int, add, sub, mul, div, to_int, literal}

  -- `(SInt16)`, for a number that fits an `int`.
  abbrev pub to_short : Float → ℤ
  to_short v = signed16 (to_uint16 (to_int v))

  -- One coordinate of an active area mapped to the area of the screen.
  unfoldable pub scale : ℤ → ℤ → ℤ → ℤ → ℤ → Float
  scale screen_origin screen_size origin size v =
      add (of_int screen_origin)
        (mul (of_int (v -ℤ origin)) (div (of_int screen_size) (of_int size)))

  -- `hratio`, `vratio` and `mouse_mult` of mouse mode.
  unfoldable pub mouse_mult : Tablet → Float
  mouse_mult t =
      let h = div (of_int t.screen_bounds.width) (of_int t.mapping.width) in
      let v = div (of_int t.screen_bounds.height) (of_int t.mapping.height) in
      mul mouse_scaling (mul (if less h v then h else v) (literal 20 1))

  -- `if (n < 0) n = 0; if (n >= size) n = size - 1;`.
  unfoldable pub keep_on_screen : ℤ → Float → Float
  keep_on_screen size n0 =
      let n = if less n0 (of_int (pos 0)) then of_int (pos 0) else n0 in
      if at_least n (of_int size) then of_int (size -ℤ pos 1) else n

  -- One coordinate in mouse mode: the old place, and the motion.
  unfoldable pub mouse_move : Tablet → ℤ → ℤ → ℤ → ℤ → Float
  unfolding mouse_mult keep_on_screen
  mouse_move t screen_origin screen_size old motion =
      keep_on_screen screen_size
        (add (of_int (old -ℤ screen_origin)) (mul (of_int motion) (mouse_mult t)))

  unfoldable pub new_place : Tablet → Float × Float
  unfolding scale mouse_move nearest
  new_place t =
      let s = t.output.stylus in
      let a = t.mapping in
      let b = t.screen in
      let p = nearest a s.point in
      if t.mouse_mode
      then (
        mouse_move t t.screen_bounds.x b.width s.old_pos.x s.motion.x,
        mouse_move t t.screen_bounds.y b.height s.old_pos.y s.motion.y,
      )
      else (scale b.x b.width a.x a.width p.x, scale b.y b.height a.y a.height p.y)

  -- `stylus.scrPos`.
  unfoldable pub screen_place : Tablet → Point
  unfolding new_place
  screen_place t =
      let (x, y) = new_place t in
      record { x = to_short x +ℤ t.screen_bounds.x; y = to_short y +ℤ t.screen_bounds.y }
