-- ===== src/Format/Chars.antt =====
-- Classes of characters in the C locale, and what both scanning conversions do before the digits.
use Prim.Native.Char.{code}
use Prim.Native.String.{String}
use tablet_magic.Base.{
  ℕ, ◌≡◌, Bool, true, false, ◌&&◌, ◌||◌, leb, ◌==◌, if◌then◌else◌, List, [], ◌∷◌, Option, none,
  some,
}

-- The codes of a literal of the source.
abbrev pub codes : String → List ℕ
codes String.[] = []
codes (String.◌∷◌ c s) = code c ∷ codes s

abbrev pub is_digit : ℕ → Bool
is_digit c = leb b'0' c && leb c b'9'

abbrev pub is_space : ℕ → Bool
is_space c = c == 32 || (leb 9 c && leb c 13)

-- `isprint`, a space included.
abbrev pub is_print : ℕ → Bool
is_print c = leb 32 c && leb c 126

unfoldable pub skip_space : List ℕ → List ℕ
skip_space [] = []
skip_space (c ∷ s) = let rest = skip_space s in if is_space c then rest else c ∷ s

-- An optional sign: whether it was a minus, and what follows.
unfoldable pub take_sign : List ℕ → Bool × List ℕ
take_sign [] = (false, [])
take_sign (c ∷ s) =
    if c == b'-' then (true, s) else if c == b'+' then (false, s) else (false, c ∷ s)

-- A character of the format that has to stand in the text as it is.
unfoldable pub expect : ℕ → List ℕ → Option (List ℕ)
expect c [] = none
expect c (d ∷ s) = if d == c then some s else none

-- The text does not go on with a character of the class.
abbrev pub EndsBefore : (ℕ → Bool) → List ℕ → Type 0
EndsBefore p [] = Unit {0}
EndsBefore p (c ∷ s) = p c ≡ false
