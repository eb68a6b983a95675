-- ===== src/Post/EdgeTests.antt =====
-- A stylus outside the active area of a tablet.
use tablet_magic.Base.{◌≡◌, refl, ap, arith, false}
use tablet_magic.Int.{pos, negsuc, ltb_ℤ, leb_ℤ, ◌+ℤ◌, +ℤ_parts, eq_of_parts, signed16}
use tablet_magic.Format.{to_uint16}
use tablet_magic.Stylus.{Point}
use tablet_magic.Daemon.Samples.{whole, tablet}
use tablet_magic.Post.Position.{nearest, screen_place}
use tablet_magic.Post.Near.{IsNearest}
use tablet_magic.Post.Edges.{point_at, IsDouble, IsMapped, screen_place-nearest}

-- Whole numbers keep the laws.
whole-IsDouble : IsDouble whole
whole-IsDouble = record {
  zero_mul = λ h w p q. ap pos (omega arith);
  add_zero = λ v. eq_of_parts (v +ℤ pos 0) v (omega (arith, +ℤ_parts v (pos 0)));
  whole = λ v h. refl;
}

tablet-IsMapped : IsMapped tablet
tablet-IsMapped = record {
  absolute = refl;
  wide = refl;
  high = refl;
  screen_wide = refl;
  screen_high = refl;
  x_fits = omega arith;
  y_fits = omega arith;
}

-- A stylus to the right of the area and above it.
abbrev beside : Point
beside = record { x = pos 6000; y = negsuc 4 }

screen_place-nearest_example :
    let shown = screen_place whole ltb_ℤ (λ a b. leb_ℤ b a) (pos 1) (point_at beside tablet) in
    IsNearest tablet.mapping beside (nearest tablet.mapping beside)
    × (shown
        ≡ screen_place whole ltb_ℤ
            (λ a b. leb_ℤ b a)
            (pos 1)
            (point_at (nearest tablet.mapping beside) tablet))
    × (ltb_ℤ tablet.mapping.x beside.x ≡ false
        → shown.x ≡ signed16 (to_uint16 tablet.screen.x) +ℤ tablet.screen_bounds.x)
    × (ltb_ℤ tablet.mapping.y beside.y ≡ false
        → shown.y ≡ signed16 (to_uint16 tablet.screen.y) +ℤ tablet.screen_bounds.y)
screen_place-nearest_example =
    screen_place-nearest whole ltb_ℤ (λ a b. leb_ℤ b a) (pos 1) tablet beside whole-IsDouble
      tablet-IsMapped
