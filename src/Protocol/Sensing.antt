-- ===== src/Protocol/Sensing.antt =====
-- What the interpreters read of the tablet besides the stylus.
use tablet_magic.Base.{ℕ, Bool, ◌||◌, List, get_or, if◌then◌else◌}
use tablet_magic.Int.{ℤ, pos, ◌+ℤ◌, ◌-ℤ◌, ltb_ℤ}
use tablet_magic.Series.{Series}
use tablet_magic.Settings.{TabletSettings}
use tablet_magic.Stylus.{Point}

-- A `CGRect` with whole coordinates.
pub record Rect : Type 0 where
  pub x : ℤ
  pub y : ℤ
  pub width : ℤ
  pub height : ℤ

-- `CGRectGetMaxX` and `CGRectGetMaxY`, which turn a negative size round.
unfoldable pub max_x : Rect → ℤ
max_x r = if ltb_ℤ r.width (pos 0) then r.x else r.x +ℤ r.width

unfoldable pub max_y : Rect → ℤ
max_y r = if ltb_ℤ r.height (pos 0) then r.y else r.y +ℤ r.height

-- The version counts tenths: the code rounds `base_version` down to tenths, and its comparisons
-- with 1.199 and 1.399 ask for less than 12 and less than 14 of them.
pub record Sensing : Type 0 where
  pub settings : TabletSettings
  pub series : Series
  pub version_tenths : ℕ
  pub mouse_mode : Bool
  pub mapping : Rect
  pub old_raw_pressure : ℕ

-- The point lies outside the active area.
unfoldable pub outside : Rect → Point → Bool
unfolding max_x max_y
outside r p =
    ltb_ℤ p.x r.x || ltb_ℤ (max_x r -ℤ pos 1) p.x || ltb_ℤ p.y r.y || ltb_ℤ (max_y r -ℤ pos 1) p.y

-- A byte of the packet; the buffer has a NUL behind the last.
abbrev pub byte : List ℕ → ℕ → ℕ
byte packet i = get_or packet i 0
