-- ===== src/Post/Near.antt =====
-- The nearest point of the active area: `PostChangeEvents` confines the stylus to it.
use tablet_magic.Base.{ℕ, ◌+◌, ◌≤◌, ◌≡◌, arith, true, false, ◌⊎◌, inl, inr}
use tablet_magic.Int.{ℤ, pos_part, neg_part, ltb_ℤ, ◌-ℤ◌, ◌≤ℤ◌}
use tablet_magic.Stylus.{Point}
use tablet_magic.Protocol.Sensing.{Rect}
use tablet_magic.Post.Position.{constrain, last, nearest}

-- How far two numbers are apart.
abbrev pub apart : ℤ → ℤ → ℕ
apart a b = let d = a -ℤ b in pos_part d + neg_part d

-- A point of an area.
pub record IsWithin (r : Rect) (p : Point) : Type 0 where
  pub left : ltb_ℤ p.x r.x ≡ false
  pub right : ltb_ℤ (last r.x r.width) p.x ≡ false
  pub top : ltb_ℤ p.y r.y ≡ false
  pub bottom : ltb_ℤ (last r.y r.height) p.y ≡ false

-- The point q of an area is as near to p, in each direction, as any point of the area.
pub record IsNearest (r : Rect) (p q : Point) : Type 0 where
  pub within : IsWithin r q
  pub closest_x : (u : Point) → IsWithin r u → apart p.x q.x ≤ apart p.x u.x
  pub closest_y : (u : Point) → IsWithin r u → apart p.y q.y ≤ apart p.y u.y

constrain-least :
    (low high v : ℤ) → ltb_ℤ high low ≡ false → ltb_ℤ (constrain low high v) low ≡ false
unfolding constrain
constrain-least low high v h = ground arith

constrain-most : (low high v : ℤ) → ltb_ℤ high (constrain low high v) ≡ false
unfolding constrain
constrain-most low high v = ground arith

apart-parts :
    (a b : ℤ)
    → (pos_part a + neg_part b ≡ pos_part b + neg_part a + apart a b)
      ⊎ (pos_part b + neg_part a ≡ pos_part a + neg_part b + apart a b)
unfolding ◌-ℤ◌
apart-parts a b = ground arith

not_less : (a b : ℤ) → ltb_ℤ a b ≡ false → b ≤ℤ a
not_less a b h = ground arith

less : (a b : ℤ) → ltb_ℤ a b ≡ true → a ≤ℤ b
less a b h = ground arith

-- A number between two others is nearer to each of them.
between : (v c u : ℤ) → ((v ≤ℤ c) × (c ≤ℤ u)) ⊎ ((u ≤ℤ c) × (c ≤ℤ v)) → apart v c ≤ apart v u
between v c u h = ground (arith, apart-parts v c, apart-parts v u)

constrain-cases :
    (low high v : ℤ)
    → low ≤ℤ high
    → ((v ≤ℤ low) × (constrain low high v ≡ low))
      ⊎ (((high ≤ℤ v) × (constrain low high v ≡ high)) ⊎ (constrain low high v ≡ v))
unfolding constrain
constrain-cases low high v h = ground arith

constrain-closest :
    (low high v u : ℤ)
    → ltb_ℤ u low ≡ false
    → ltb_ℤ high u ≡ false
    → apart v (constrain low high v) ≤ apart v u
constrain-closest low high v u h k =
    let hl = not_less u low h in
    let hh = not_less high u k in
    elim (constrain-cases low high v (omega arith)) [
      | inl (below, e) ↦ rw e (between v low u (inl (below, hl)))
      | inr (inl (above, e)) ↦ rw e (between v high u (inr (hh, above)))
      | inr (inr e) ↦ rw e (
          between v v u (elim (apart-parts v u) [
            | inl beyond ↦ inr (omega arith, omega arith)
            | inr before ↦ inl (omega arith, omega arith)
          ]))
    ]

pub nearest-IsNearest :
    (r : Rect) (p : Point)
    → ltb_ℤ (last r.x r.width) r.x ≡ false
    → ltb_ℤ (last r.y r.height) r.y ≡ false
    → IsNearest r p (nearest r p)
unfolding nearest
nearest-IsNearest r p wide high = record {
  within = record {
    left = constrain-least r.x (last r.x r.width) p.x wide;
    right = constrain-most r.x (last r.x r.width) p.x;
    top = constrain-least r.y (last r.y r.height) p.y high;
    bottom = constrain-most r.y (last r.y r.height) p.y;
  };
  closest_x = λ u w. constrain-closest r.x (last r.x r.width) p.x u.x w.left w.right;
  closest_y = λ u w. constrain-closest r.y (last r.y r.height) p.y u.y w.top w.bottom;
}
