-- ===== src/Format/Long.antt =====
-- `%ld` of sscanf, `atol`, and C strings.
use tablet_magic.Base.{
  ℕ, ◌+◌, ◌-◌, ◌%◌, ◌^◌, Bool, leb, ◌==◌, if◌then◌else◌, List, [], ◌∷◌, Option, none, some,
}
use tablet_magic.Int.{ℤ, pos, neg_ℤ, pos_part, neg_part, signed32}
use tablet_magic.Format.Chars.{is_digit, skip_space, take_sign}
use tablet_magic.Format.Decimal.{dec_run}

-- The `long` that is stored: `strtol` stops at 64 bits.
abbrev pub to_long : Bool → ℕ → ℤ
to_long minus v =
    let last = if minus then 2 ^ 63 else 2 ^ 63 - 1 in
    let w = if leb v last then v else last in if minus then neg_ℤ (pos w) else pos w

unfoldable pub scan_long_digits : Bool → List ℕ → Option (ℤ × List ℕ)
unfolding dec_run
scan_long_digits minus [] = none
scan_long_digits minus (c ∷ s) =
    let r = dec_run 0 (c ∷ s) in if is_digit c then some (to_long minus r.0, r.1) else none

unfoldable pub scan_long : List ℕ → Option (ℤ × List ℕ)
unfolding skip_space take_sign scan_long_digits
scan_long s = let (minus, t) = take_sign (skip_space s) in scan_long_digits minus t

-- `atol`: zero if the text begins with no number.
unfoldable pub atol : List ℕ → ℤ
unfolding scan_long
atol s = elim (scan_long s) [ none ↦ pos 0 | some (v, rest) ↦ v ]

-- `(SInt32)v`.
abbrev pub to_sint32 : ℤ → ℤ
to_sint32 v = signed32 ((pos_part v + (2 ^ 32 - neg_part v % 2 ^ 32)) % 2 ^ 32)

-- `(UInt16)v`.
abbrev pub to_uint16 : ℤ → ℕ
to_uint16 v = (pos_part v + (2 ^ 16 - neg_part v % 2 ^ 16)) % 2 ^ 16

-- The text of a `char` array: what stands before the first NUL.
unfoldable pub c_string : List ℕ → List ℕ
c_string [] = []
c_string (c ∷ s) = let rest = c_string s in if c == 0 then [] else c ∷ rest
