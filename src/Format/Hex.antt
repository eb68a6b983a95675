-- ===== src/Format/Hex.antt =====
-- `%X`, and `%0kX` of a number that fits in k digits.
use native.Mathlib.Nat.{pow-suc, one-le-pow}
use tablet_magic.Base.{
  ℕ, zero, suc, ◌+◌, ◌-◌, ◌*◌, ◌/◌, ◌%◌, ◌^◌, ◌<◌, ◌≡◌, refl, ap, ◌∙◌, arith, Bool, true, false,
  ◌&&◌, ◌||◌, leb, ltb, ◌==◌, Bool-cases, inl, inr, if◌then◌else◌, List, [], ◌∷◌, ◌++◌, Option,
  none, some,
}
use tablet_magic.Format.Chars.{is_digit, is_space, skip_space, take_sign, EndsBefore}
use tablet_magic.Bits.{remainder_split}

-- The digits that `%X` writes and those that it reads, in either case.
abbrev pub hex_digit : ℕ → ℕ
hex_digit d = if ltb d 10 then d + b'0' else d - 10 + b'A'

abbrev pub is_hex : ℕ → Bool
is_hex c = is_digit c || (leb b'A' c && leb c b'F') || (leb b'a' c && leb c b'f')

abbrev pub hex_value : ℕ → ℕ
hex_value c = if leb c b'9' then c - b'0' else if leb c b'F' then c - 55 else c - 87

-- The k lowest digits, the highest first.
unfoldable pub print_hex : ℕ → ℕ → List ℕ
print_hex zero n = []
print_hex (suc k) n = hex_digit (n / 16 ^ k % 16) ∷ print_hex k n

-- The longest run of digits from an accumulator on.
unfoldable pub hex_run : ℕ → List ℕ → ℕ × List ℕ
hex_run acc [] = (acc, [])
hex_run acc (c ∷ s) =
    let rest = hex_run (acc * 16 + hex_value c) s in if is_hex c then rest else (acc, c ∷ s)

-- An optional `0x` before a digit.
unfoldable pub skip_prefix : List ℕ → List ℕ
skip_prefix (z ∷ x ∷ d ∷ s) =
    if z == b'0' && (x == b'x' || x == b'X') && is_hex d then d ∷ s else z ∷ x ∷ d ∷ s
skip_prefix s = s

-- The `unsigned int` that is stored: `strtoul` stops at 64 bits, and 32 of them are kept.
abbrev pub to_unsigned : Bool → ℕ → ℕ
to_unsigned minus v =
    let w = (if ltb v (2 ^ 64) then v else 2 ^ 64 - 1) % 2 ^ 32 in
    if minus then (2 ^ 32 - w) % 2 ^ 32 else w

-- At least one digit has to follow; otherwise nothing is stored.
unfoldable pub scan_digits : Bool → List ℕ → Option (ℕ × List ℕ)
scan_digits minus [] = none
scan_digits minus (c ∷ s) =
    let r = hex_run 0 (c ∷ s) in if is_hex c then some (to_unsigned minus r.0, r.1) else none

unfoldable pub scan_hex : List ℕ → Option (ℕ × List ℕ)
unfolding skip_space take_sign
scan_hex s = let (minus, t) = take_sign (skip_space s) in scan_digits minus (skip_prefix t)

-- A written digit is read as one, and is none of the characters that a number may begin with.
hex_digit_facts :
    (d : ℕ)
    → d < 16
    → (is_hex (hex_digit d) ≡ true)
      × (hex_value (hex_digit d) ≡ d)
      × (is_space (hex_digit d) ≡ false)
      × ((hex_digit d == b'-') ≡ false)
      × ((hex_digit d == b'+') ≡ false)
      × ((hex_digit d == b'x') ≡ false)
      × ((hex_digit d == b'X') ≡ false)
hex_digit_facts d h = ground arith

pub hex_digit-ne-tilde : (d : ℕ) → d < 16 → (hex_digit d == b'~') ≡ false
hex_digit-ne-tilde d h = ground arith

hex_run-stop : (acc : ℕ) (rest : List ℕ) → EndsBefore is_hex rest → hex_run acc rest ≡ (acc, rest)
unfolding hex_run
hex_run-stop acc [] h = refl
hex_run-stop acc (c ∷ s) h = rw h refl

-- Reading the k digits of n gives the remainder of n by 16 ^ k.
hex_run-print_hex :
    (k acc n : ℕ) (rest : List ℕ)
    → EndsBefore is_hex rest
    → hex_run acc (print_hex k n ++ rest) ≡ (acc * 16 ^ k + n % 16 ^ k, rest)
unfolding hex_run print_hex
hex_run-print_hex zero acc n rest h =
    hex_run-stop acc rest h ∙ ap (λ (t : ℕ). (t, rest)) (omega arith)
hex_run-print_hex (suc k) acc n rest h =
    let d = n / 16 ^ k % 16 in
    let facts = hex_digit_facts d (omega arith) in
    let power : 16 ^ suc k ≡ 16 ^ k * 16 = pow-suc 16 k in
    let split = remainder_split (16 ^ k) 16 n (one-le-pow k 16 (omega arith)) (omega arith) in
    rw (facts.0, facts.1, hex_run-print_hex k (acc * 16 + d) n rest h, power, split)
      (ap (λ (t : ℕ). (t, rest)) (omega arith))

skip_prefix-plain :
    (c d e : ℕ) (s : List ℕ)
    → (d == b'x') ≡ false
    → (d == b'X') ≡ false
    → skip_prefix (c ∷ d ∷ e ∷ s) ≡ c ∷ d ∷ e ∷ s
unfolding skip_prefix
skip_prefix-plain c d e s x1 x2 = elim (Bool-cases (c == b'0')) [
  | inl z ↦ rw (z, x1, x2)
  | inr z ↦ rw z
]

scan_digits-digit :
    (c : ℕ) (s : List ℕ)
    → is_hex c ≡ true
    → let r = hex_run 0 (c ∷ s) in scan_digits false (c ∷ s) ≡ some (to_unsigned false r.0, r.1)
unfolding scan_digits
scan_digits-digit c s digit = rw digit

-- A text of three or more characters that starts with a digit and has no `0x`.
scan_hex_plain :
    (c d e : ℕ) (s : List ℕ)
    → is_space c ≡ false
    → (c == b'-') ≡ false
    → (c == b'+') ≡ false
    → (d == b'x') ≡ false
    → (d == b'X') ≡ false
    → is_hex c ≡ true
    → let r = hex_run 0 (c ∷ d ∷ e ∷ s) in
      scan_hex (c ∷ d ∷ e ∷ s) ≡ some (to_unsigned false r.0, r.1)
scan_hex_plain c d e s space minus plus x1 x2 digit =
    unfold scan_hex in
    rw (space, minus, plus)
      (rw (skip_prefix-plain c d e s x1 x2) (scan_digits-digit c (d ∷ e ∷ s) digit))

-- A number below 2 ^ 32 that `%08X` wrote is read back by `%X`, and the rest is left.
pub scan_hex-print_hex :
    (n : ℕ) (rest : List ℕ)
    → n < 2 ^ 32
    → EndsBefore is_hex rest
    → scan_hex (print_hex 8 n ++ rest) ≡ some (n, rest)
unfolding print_hex
scan_hex-print_hex n rest small h =
    let first = hex_digit_facts (n / 16 ^ 7 % 16) (omega arith) in
    let second = hex_digit_facts (n / 16 ^ 6 % 16) (omega arith) in
    let run = hex_run-print_hex 8 0 n rest h in
    scan_hex_plain _ _ _ _ first.2 first.3 first.4 second.5 second.6 first.0 ∙ rw run (ground arith)
