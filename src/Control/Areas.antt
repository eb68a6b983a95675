-- ===== src/Control/Areas.antt =====
-- Areas of the tablet and of the screen, and what reading their corners makes of them.
use tablet_magic.Base.{ℕ, ◌^◌, ◌<◌, ◌≡◌, refl, arith, Bool, true, false, not, if◌then◌else◌}
use tablet_magic.Int.{ℤ, pos, negsuc, ◌+ℤ◌, ◌-ℤ◌, ◌≤ℤ◌, ◌<ℤ◌, ltb_ℤ, eqb_ℤ}
use tablet_magic.Format.{IsInt}
use tablet_magic.Protocol.Sensing.{Rect}
use tablet_magic.Daemon.Mapping.{or_default}
use tablet_magic.Control.Answers.{flag}
use tablet_magic.Control.Handle.{to_index, to_sint16}

-- An area with its origin at or above 0 that is not empty and ends below the limit.
pub record IsArea (limit : ℕ) (r : Rect) : Type 0 where
  pub x_least : pos 0 ≤ℤ r.x
  pub y_least : pos 0 ≤ℤ r.y
  pub wide : pos 0 <ℤ r.width
  pub high : pos 0 <ℤ r.height
  pub x_ends : r.x +ℤ r.width ≤ℤ pos limit
  pub y_ends : r.y +ℤ r.height ≤ℤ pos limit

-- The last coordinate of a span.
abbrev last_of : ℤ → ℤ → ℤ
last_of x w = (if ltb_ℤ w (pos 0) then x else x +ℤ w) -ℤ pos 1

last_of-value : (x w : ℤ) → pos 0 <ℤ w → last_of x w ≡ x +ℤ w -ℤ pos 1
last_of-value x w h = ground arith

pub span-origin : (x : ℤ) → pos 0 ≤ℤ x → or_default (pos 0) x ≡ x
span-origin x h = ground arith

pub span-end : (x w : ℤ) → pos 0 ≤ℤ x → pos 0 <ℤ w → eqb_ℤ (last_of x w) (negsuc 0) ≡ false
unfolding ◌+ℤ◌ ◌-ℤ◌
span-end x w hx hw = ground arith

pub span-size : (x w : ℤ) → pos 0 <ℤ w → last_of x w -ℤ x +ℤ pos 1 ≡ w
unfolding ◌+ℤ◌ ◌-ℤ◌
span-size x w hw = ground arith

pub span-IsInt :
    (x w : ℤ) → pos 0 ≤ℤ x → pos 0 <ℤ w → x +ℤ w ≤ℤ pos (2 ^ 31) → IsInt x × IsInt (last_of x w)
unfolding ◌+ℤ◌ ◌-ℤ◌
span-IsInt x w hx hw he = ground arith

pub span-sint16 :
    (x w : ℤ)
    → pos 0 ≤ℤ x
    → pos 0 <ℤ w
    → x +ℤ w ≤ℤ pos (2 ^ 15)
    → (to_sint16 x ≡ x) × (to_sint16 (last_of x w) ≡ last_of x w)
unfolding ◌+ℤ◌ ◌-ℤ◌
span-sint16 x w hx hw he = ground arith

pub index-kept : (n : ℕ) → n < 2 ^ 31 → to_index (pos n) ≡ n
index-kept n h = ground arith

pub flag-kept : (b : Bool) → not (eqb_ℤ (flag b) (pos 0)) ≡ b
flag-kept true = refl
flag-kept false = refl
