-- ===== src/Post/Edges.antt =====
-- Where a stylus outside the active area is shown.
use tablet_magic.Base.{
  ◌+◌, ◌<◌, ◌≡◌, ◌∙◌, sym, ap, arith, Bool, true, false, if◌then◌else◌, Bool-cases, inl, inr,
}
use tablet_magic.Int.{
  ℤ, pos, negsuc, pos_part, neg_part, ltb_ℤ, ◌+ℤ◌, ◌-ℤ◌, signed16, +ℤ_parts, -ℤ_parts, eq_of_parts,
}
use tablet_magic.Floats.{Floats}
use tablet_magic.Format.{to_uint16}
use tablet_magic.Stylus.{Point}
use tablet_magic.Daemon.State.{Tablet, set_stylus}
use tablet_magic.Post.Near.{IsNearest, nearest-IsNearest}
use tablet_magic.Post.Position.{
  constrain, last, nearest, scale, mouse_move, new_place, to_short, screen_place,
}

-- The point of the stylus put elsewhere.
abbrev pub point_at : Point → Tablet → Tablet
point_at p t = let s = t.output.stylus in set_stylus (record s { point = p }) t

constrain_twice :
    (low high v : ℤ)
    → ltb_ℤ high low ≡ false
    → constrain low high (constrain low high v) ≡ constrain low high v
unfolding constrain
constrain_twice low high v h = ground arith

same_ℤ : (a b : ℤ) → ltb_ℤ a b ≡ false → ltb_ℤ b a ≡ false → a ≡ b
same_ℤ (pos m) (pos n) h k = ground arith
same_ℤ (pos m) (negsuc n) h k = ground arith
same_ℤ (negsuc m) (pos n) h k = ground arith
same_ℤ (negsuc m) (negsuc n) h k = ground arith

constrain_edge : (low high : ℤ) → ltb_ℤ high low ≡ false → constrain low high low ≡ low
unfolding constrain
constrain_edge low high h = ground arith

constrain_low :
    (low high v : ℤ) → ltb_ℤ high low ≡ false → ltb_ℤ low v ≡ false → constrain low high v ≡ low
constrain_low low high v h k = elim (Bool-cases (ltb_ℤ v low)) [
  | inl less ↦ unfold constrain in ground arith
  | inr least ↦ ap (constrain low high) (sym (same_ℤ low v k least)) ∙ constrain_edge low high h
]

minus_self : (v : ℤ) → v -ℤ v ≡ pos 0
minus_self v = eq_of_parts (v -ℤ v) (pos 0) (omega (arith, -ℤ_parts v v))

-- What the documentation of `double` says: 0 times a ratio that is not negative is 0, adding 0 changes
-- nothing, and whole numbers of an `int` are exact.
pub record IsDouble (fl : Floats) : Type 0 where
  pub zero_mul :
      (h w : ℤ)
      → ltb_ℤ h (pos 0) ≡ false
      → ltb_ℤ (pos 0) w ≡ true
      → fl.mul (fl.of_int (pos 0)) (fl.div (fl.of_int h) (fl.of_int w)) ≡ fl.of_int (pos 0)
  pub add_zero : (v : ℤ) → fl.add (fl.of_int v) (fl.of_int (pos 0)) ≡ fl.of_int v
  pub whole : (v : ℤ) → pos_part v + neg_part v < 2147483648 → fl.to_int (fl.of_int v) ≡ v

-- An area with a point in it, and a part of the screen with whole coordinates of an `int`.
pub record IsMapped (t : Tablet) : Type 0 where
  pub absolute : t.mouse_mode ≡ false
  pub wide : ltb_ℤ (pos 0) t.mapping.width ≡ true
  pub high : ltb_ℤ (pos 0) t.mapping.height ≡ true
  pub screen_wide : ltb_ℤ t.screen.width (pos 0) ≡ false
  pub screen_high : ltb_ℤ t.screen.height (pos 0) ≡ false
  pub x_fits : pos_part t.screen.x + neg_part t.screen.x < 2147483648
  pub y_fits : pos_part t.screen.y + neg_part t.screen.y < 2147483648

not_before : (x w : ℤ) → ltb_ℤ (pos 0) w ≡ true → ltb_ℤ (last x w) x ≡ false
not_before x w h = ground (arith, +ℤ_parts x w, -ℤ_parts (x +ℤ w) (pos 1))

module _ (fl : Floats) (less at_least : fl.Float → fl.Float → Bool) (mouse_scaling : fl.Float) where
  scale-origin :
      (b w a v : ℤ)
      → IsDouble fl
      → ltb_ℤ w (pos 0) ≡ false
      → ltb_ℤ (pos 0) v ≡ true
      → pos_part b + neg_part b < 2147483648
      → fl.to_int (scale fl less at_least mouse_scaling b w a v a) ≡ b
  unfolding scale
  scale-origin b w a v d hw hv hb =
      ap
        (λ z.
          fl.to_int
            (fl.add (fl.of_int b) (fl.mul (fl.of_int z) (fl.div (fl.of_int w) (fl.of_int v)))))
        (minus_self a)
      ∙ ap (λ z. fl.to_int (fl.add (fl.of_int b) z)) (d.zero_mul w v hw hv)
      ∙ ap fl.to_int (d.add_zero b)
      ∙ d.whole b hb

  -- A point of the active area on the screen.
  abbrev shown_at : Tablet → Point → Point
  shown_at t q =
      let a = t.mapping in
      let b = t.screen in
      record {
        x =
            to_short fl less at_least mouse_scaling
              (scale fl less at_least mouse_scaling b.x b.width a.x a.width q.x)
            +ℤ t.screen_bounds.x;
        y =
            to_short fl less at_least mouse_scaling
              (scale fl less at_least mouse_scaling b.y b.height a.y a.height q.y)
            +ℤ t.screen_bounds.y;
      }

  if-false : {A : Type 0} {b : Bool} (x y : A) → b ≡ false → (if b then x else y) ≡ y
  if-false x y e = ap (λ b. if b then x else y) e

  screen_place-absolute :
      (t : Tablet)
      → t.mouse_mode ≡ false
      → screen_place fl less at_least mouse_scaling t
        ≡ shown_at t (nearest t.mapping t.output.stylus.point)
  unfolding screen_place new_place
  screen_place-absolute t m =
      let s = t.output.stylus in
      let a = t.mapping in
      let b = t.screen in
      let q = nearest a s.point in
      ap {A = fl.Float × fl.Float} {B = Point}
        (λ n. record {
          x = to_short fl less at_least mouse_scaling n.0 +ℤ t.screen_bounds.x;
          y = to_short fl less at_least mouse_scaling n.1 +ℤ t.screen_bounds.y;
        })
        (if-false
          (
            mouse_move fl less at_least mouse_scaling t t.screen_bounds.x b.width s.old_pos.x
                s.motion.x,
            mouse_move fl less at_least mouse_scaling t t.screen_bounds.y b.height s.old_pos.y
                s.motion.y,
          )
          (
            scale fl less at_least mouse_scaling b.x b.width a.x a.width q.x,
            scale fl less at_least mouse_scaling b.y b.height a.y a.height q.y,
          )
          m)

  nearest_twice :
      (t : Tablet) (p : Point)
      → IsMapped t
      → nearest t.mapping (nearest t.mapping p) ≡ nearest t.mapping p
  unfolding nearest
  nearest_twice t p h =
      let a = t.mapping in
      λ i. record {
        x = constrain_twice a.x (last a.x a.width) p.x (not_before a.x a.width h.wide) i;
        y = constrain_twice a.y (last a.y a.height) p.y (not_before a.y a.height h.high) i;
      }

  -- Outside mouse mode, on an area that is not empty, the stylus is shown where a point of the active area
  -- is that is as near to it, in each direction, as any other point of the area; and one that is not to
  -- the right of the area's left edge is shown at the left edge of the area's part of the screen, likewise
  -- one that is not below the upper edge, counted from the corner of all screens, with the coordinates of
  -- that part cut to 16 bits, if they fit an `int`, and if the numbers keep three laws of double.
  pub screen_place-nearest :
      (t : Tablet) (p : Point)
      → IsDouble fl
      → IsMapped t
      → let shown = screen_place fl less at_least mouse_scaling (point_at p t) in
        IsNearest t.mapping p (nearest t.mapping p)
        × (shown ≡ screen_place fl less at_least mouse_scaling (point_at (nearest t.mapping p) t))
        × (ltb_ℤ t.mapping.x p.x ≡ false
            → shown.x ≡ signed16 (to_uint16 t.screen.x) +ℤ t.screen_bounds.x)
        × (ltb_ℤ t.mapping.y p.y ≡ false
            → shown.y ≡ signed16 (to_uint16 t.screen.y) +ℤ t.screen_bounds.y)
  unfolding ◌+ℤ◌ nearest constrain
  screen_place-nearest t p d h =
      let a = t.mapping in
      let b = t.screen in
      let at = screen_place-absolute (point_at p t) h.absolute in
      let there = screen_place-absolute (point_at (nearest a p) t) h.absolute in
      (
        nearest-IsNearest a p (not_before a.x a.width h.wide) (not_before a.y a.height h.high),
        at ∙ sym (ap (shown_at t) (nearest_twice t p h)) ∙ sym there,
        λ left.
            ap (λ s. s.x) at
            ∙ ap
                (λ v.
                  to_short fl less at_least mouse_scaling
                    (scale fl less at_least mouse_scaling b.x b.width a.x a.width v)
                  +ℤ t.screen_bounds.x)
                (constrain_low a.x (last a.x a.width) p.x (not_before a.x a.width h.wide) left)
            ∙ ap (λ v. signed16 (to_uint16 v) +ℤ t.screen_bounds.x)
                (scale-origin b.x b.width a.x a.width d h.screen_wide h.wide h.x_fits),
        λ top.
            ap (λ s. s.y) at
            ∙ ap
                (λ v.
                  to_short fl less at_least mouse_scaling
                    (scale fl less at_least mouse_scaling b.y b.height a.y a.height v)
                  +ℤ t.screen_bounds.y)
                (constrain_low a.y (last a.y a.height) p.y (not_before a.y a.height h.high) top)
            ∙ ap (λ v. signed16 (to_uint16 v) +ℤ t.screen_bounds.y)
                (scale-origin b.y b.height a.y a.height d h.screen_high h.high h.y_fits),
      )
