-- ===== src/Start/Options.antt =====
-- `process_arguments` and `GetIntArgument`.
use tablet_magic.Base.{
  ℕ, suc, Bool, true, false, ◌&&◌, ◌||◌, not, ◌==◌, if◌then◌else◌, List, [], ◌∷◌, Option, none,
  some, update,
}
use tablet_magic.Int.{ℤ, pos, negsuc, ltb_ℤ, leb_ℤ}
use tablet_magic.Format.{codes, is_digit, expect, scan_int, atol, to_sint32}
use tablet_magic.Post.Change.{system_button1, system_button2, system_eraser}
use tablet_magic.Stylus.{stylus_tip, stylus_button1, stylus_button2}

-- `init_arguments`, with the global `button_mapping` and what `process_arguments` returns. `digi` and
-- `rate`, which no option sets, are left out, and `scaling` is the text of the number.
pub record Arguments : Type 0 where
  pub quiet : Bool
  pub command : Bool
  pub forcepc : Bool
  pub baud38400 : Bool
  pub startoff : Bool
  pub quit : Bool
  pub logging : Bool
  pub mouse : Bool
  pub port : Option (List ℕ)
  pub init : Option (List ℕ)
  pub scaling : List ℕ
  pub priority : ℤ
  pub tab_left : ℤ
  pub tab_top : ℤ
  pub tab_right : ℤ
  pub tab_bottom : ℤ
  pub scr_left : ℤ
  pub scr_top : ℤ
  pub scr_right : ℤ
  pub scr_bottom : ℤ
  pub button_mapping : ℕ → ℕ
  pub usage : Bool

abbrev pub first_mapping : ℕ → ℕ
first_mapping q =
    if q == stylus_tip || q == stylus_button1
    then system_button1
    else if q == stylus_button2
    then system_button2
    else system_eraser

unfoldable pub default_arguments : Arguments
default_arguments = record {
  quiet = false;
  command = false;
  forcepc = false;
  baud38400 = false;
  startoff = false;
  quit = false;
  logging = false;
  mouse = false;
  port = none;
  init = none;
  scaling = codes "1";
  priority = pos 0;
  tab_left = negsuc 0;
  tab_top = negsuc 0;
  tab_right = negsuc 0;
  tab_bottom = negsuc 0;
  scr_left = negsuc 0;
  scr_top = negsuc 0;
  scr_right = negsuc 0;
  scr_bottom = negsuc 0;
  button_mapping = first_mapping;
  usage = false;
}

unfoldable pub all_digits : List ℕ → Bool
all_digits [] = true
all_digits (c ∷ s) = is_digit c && all_digits s

-- Digits, with a sign before them.
unfoldable pub is_int_text : List ℕ → Bool
unfolding all_digits
is_int_text [] = true
is_int_text (c ∷ s) = (is_digit c || c == b'-') && all_digits s

-- `atoi` is `(int)strtol`.
unfoldable pub get_int_argument : List ℕ → Option ℤ
unfolding is_int_text atol
get_int_argument arg = if is_int_text arg then some (to_sint32 (atol arg)) else none

abbrev pub fail : Arguments → Arguments
fail a = record a { usage = true }

-- An option with a whole number.
unfoldable pub with_int : (ℤ → Arguments → Arguments) → List ℕ → Arguments → Arguments
unfolding get_int_argument
with_int store arg a = elim (get_int_argument arg) [ none ↦ fail a | some v ↦ store v a ]

-- The priority is kept even if it is out of range.
unfoldable pub store_priority : ℤ → Arguments → Arguments
store_priority v a0 =
    let a = record a0 { priority = v } in
    if ltb_ℤ v (negsuc 19) || ltb_ℤ (pos 20) v then fail a else a

-- `"%d:%d"`.
unfoldable pub scan_pair : List ℕ → Option (ℤ × ℤ)
unfolding expect
scan_pair s = elim (scan_int s) [
  | none ↦ none
  | some (m1, t) ↦ elim (expect b':' t) [
    | none ↦ none
    | some u ↦ elim (scan_int u) [ none ↦ none | some (m2, rest) ↦ some (m1, m2) ]
  ]
]

-- A button of the stylus, counted from 1, and one of the eleven system buttons.
abbrev pub click_types : ℕ
click_types = 11

unfoldable pub set_mapping : ℤ → ℤ → Arguments → Arguments
set_mapping (pos (suc q)) (pos n) a =
    let changed = record a { button_mapping = update a.button_mapping q n } in
    if leb_ℤ (pos (suc q)) (pos 4) && ltb_ℤ (pos n) (pos click_types) then changed else fail a
set_mapping m1 m2 a = fail a

unfoldable pub remap : List ℕ → Arguments → Arguments
unfolding scan_pair set_mapping
remap arg a = elim (scan_pair arg) [ none ↦ fail a | some (m1, m2) ↦ set_mapping m1 m2 a ]

-- The rest of a number behind its first character: digits and one point.
unfoldable pub is_fraction : Bool → List ℕ → Bool
is_fraction point [] = true
is_fraction point (c ∷ s) =
    let dot = c == b'.' in
    let rest = is_fraction (point || dot) s in (is_digit c || (dot && not point)) && rest

-- The check of `GetFloatArgument`.
unfoldable pub is_float_text : List ℕ → Bool
unfolding is_fraction
is_float_text [] = true
is_float_text (c ∷ s) = (is_digit c || c == b'-' || c == b'.') && is_fraction (c == b'.') s

-- Whether the number of a text, by `atof`, is from 0.1 to 10 is a question to the floating-point
-- numbers.
module _ (fits_scaling : List ℕ → Bool) where
  -- The scaling is kept even if it is out of range.
  unfoldable pub store_scaling : List ℕ → Arguments → Arguments
  store_scaling arg a0 =
      let a = record a0 { scaling = arg } in
      if is_float_text arg then (if fits_scaling arg then a else fail a) else fail a0

  -- `switch (c)`: the options with a range of their own, those with a corner of an area, and the rest.
  unfoldable pub apply_ranged : ℕ → List ℕ → Arguments → Arguments
  unfolding store_scaling
  apply_ranged c arg a =
      if c == b'n'
      then with_int store_priority arg a
      else if c == b's'
      then store_scaling arg a
      else if c == b'M'
      then remap arg a
      else fail a

  unfoldable pub apply_corner : ℕ → List ℕ → Arguments → Arguments
  unfolding apply_ranged
  apply_corner c arg a =
      if c == b'l'
      then with_int (λ v b. record b { scr_left = v }) arg a
      else if c == b't'
      then with_int (λ v b. record b { scr_top = v }) arg a
      else if c == b'r'
      then with_int (λ v b. record b { scr_right = v }) arg a
      else if c == b'b'
      then with_int (λ v b. record b { scr_bottom = v }) arg a
      else if c == b'L'
      then with_int (λ v b. record b { tab_left = v }) arg a
      else if c == b'T'
      then with_int (λ v b. record b { tab_top = v }) arg a
      else if c == b'R'
      then with_int (λ v b. record b { tab_right = v }) arg a
      else if c == b'B'
      then with_int (λ v b. record b { tab_bottom = v }) arg a
      else apply_ranged c arg a

  unfoldable pub apply_option : ℕ → List ℕ → Arguments → Arguments
  unfolding apply_corner
  apply_option c arg a =
      if c == b'c'
      then record a { command = true }
      else if c == b'F'
      then record a { forcepc = true }
      else if c == b'3'
      then record a { baud38400 = true }
      else if c == b'q'
      then record a { quiet = true }
      else if c == b'w'
      then record a { logging = true }
      else if c == b'X'
      then record a { quit = true }
      else if c == b'm'
      then record a { mouse = true }
      else if c == b'o'
      then record a { startoff = true }
      else if c == b'p'
      then record a { port = some arg }
      else if c == b'i'
      then record a { init = some arg }
      else apply_corner c arg a

  unfoldable pub apply_options : List (ℕ × List ℕ) → Arguments → Arguments
  unfolding apply_option
  apply_options [] a = a
  apply_options ((c, arg) ∷ rest) a = apply_options rest (apply_option c arg a)

  unfoldable pub process_arguments : List (ℕ × List ℕ) → Arguments
  unfolding apply_options default_arguments
  process_arguments options =
      let a = apply_options options default_arguments in
      record a { startoff = a.quit || (a.command && a.startoff) }
