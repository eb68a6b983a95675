-- ===== src/Format/Decimal.antt =====
-- `%d`, and `%0kd`.
use tablet_magic.Base.{
  ℕ, zero, suc, ◌+◌, ◌-◌, ◌*◌, ◌/◌, ◌%◌, ◌^◌, ◌<◌, ◌≡◌, refl, ap, ◌∙◌, arith, Bool, true, false,
  ltb, ltb→lt, leb, ◌==◌, Bool-cases, inl, inr, if◌then◌else◌, List, [], ◌∷◌, ◌++◌, length, Option,
  none, some,
}
use tablet_magic.Int.{ℤ, pos, negsuc, signed32, ◌≤ℤ◌}
use tablet_magic.Format.Chars.{is_digit, is_space, skip_space, take_sign, EndsBefore}

-- The digits of n in front of a tail. The fuel has to be above n.
unfoldable pub decimal_run : ℕ → ℕ → List ℕ → List ℕ
decimal_run zero n tail = tail
decimal_run (suc f) n tail =
    let low = (n % 10 + b'0') ∷ tail in
    let rest = decimal_run f (n / 10) low in if ltb n 10 then low else rest

unfoldable pub decimal : ℕ → List ℕ
unfolding decimal_run
decimal n = decimal_run (suc n) n []

unfoldable pub zero_pad : ℕ → List ℕ → List ℕ
zero_pad zero s = s
zero_pad (suc k) s = b'0' ∷ zero_pad k s

-- The width counts the sign, and a longer number is not cut.
unfoldable pub print_int : ℕ → ℤ → List ℕ
unfolding decimal zero_pad
print_int width (pos n) = let s = decimal n in zero_pad (width - length s) s
print_int width (negsuc n) = let s = decimal (suc n) in b'-' ∷ zero_pad (width - 1 - length s) s

unfoldable pub dec_run : ℕ → List ℕ → ℕ × List ℕ
dec_run acc [] = (acc, [])
dec_run acc (c ∷ s) =
    let rest = dec_run (acc * 10 + (c - b'0')) s in if is_digit c then rest else (acc, c ∷ s)

-- The `int` that is stored: `strtol` stops at 64 bits, and the low 32 are kept.
abbrev pub to_int : Bool → ℕ → ℤ
to_int minus v =
    let last = if minus then 2 ^ 63 else 2 ^ 63 - 1 in
    let w = (if leb v last then v else last) % 2 ^ 32 in
    signed32 (if minus then (2 ^ 32 - w) % 2 ^ 32 else w)

unfoldable pub scan_decimal : Bool → List ℕ → Option (ℤ × List ℕ)
scan_decimal minus [] = none
scan_decimal minus (c ∷ s) =
    let r = dec_run 0 (c ∷ s) in if is_digit c then some (to_int minus r.0, r.1) else none

unfoldable pub scan_int : List ℕ → Option (ℤ × List ℕ)
unfolding skip_space take_sign
scan_int s = let (minus, t) = take_sign (skip_space s) in scan_decimal minus t

abbrev pub IsInt : ℤ → Type 0
IsInt v = (negsuc (2 ^ 31 - 1) ≤ℤ v) × (v ≤ℤ pos (2 ^ 31 - 1))

abbrev StartsWithDigit : List ℕ → Type 0
StartsWithDigit [] = ⊥
StartsWithDigit (c ∷ s) = is_digit c ≡ true

digit_facts :
    (c : ℕ)
    → is_digit c ≡ true
    → (is_space c ≡ false) × ((c == b'-') ≡ false) × ((c == b'+') ≡ false)
digit_facts c h = ground arith

low_digit : (n : ℕ) → is_digit (n % 10 + b'0') ≡ true
low_digit n = ground arith

dec_run-stop : (acc : ℕ) (rest : List ℕ) → EndsBefore is_digit rest → dec_run acc rest ≡ (acc, rest)
unfolding dec_run
dec_run-stop acc [] h = refl
dec_run-stop acc (c ∷ s) h = rw h refl

-- Reading the digits of n leaves n in the accumulator.
dec_run-decimal_run :
    (f n : ℕ) (tail rest : List ℕ)
    → n < f
    → dec_run 0 (decimal_run f n tail ++ rest) ≡ dec_run n (tail ++ rest)
unfolding decimal_run dec_run
dec_run-decimal_run zero n tail rest h = elim h [ ]
dec_run-decimal_run (suc f) n tail rest h = elim (Bool-cases (ltb n 10)) [
  | inl small ↦
      rw (small, low_digit n)
        (ap (λ (t : ℕ). dec_run t (tail ++ rest)) (omega (arith, ltb→lt n 10 small)))
  | inr large ↦ rw large (
      dec_run-decimal_run f (n / 10) ((n % 10 + b'0') ∷ tail) rest (ground arith)
      ∙ rw (low_digit n) (ap (λ (t : ℕ). dec_run t (tail ++ rest)) (omega arith)))
]

dec_run-zero_pad : (k : ℕ) (s : List ℕ) → dec_run 0 (zero_pad k s) ≡ dec_run 0 s
unfolding zero_pad dec_run
dec_run-zero_pad zero s = refl
dec_run-zero_pad (suc k) s = dec_run-zero_pad k s

zero_pad-append : (k : ℕ) (s rest : List ℕ) → zero_pad k s ++ rest ≡ zero_pad k (s ++ rest)
unfolding zero_pad
zero_pad-append zero s rest = refl
zero_pad-append (suc k) s rest = ap (λ (t : List ℕ). b'0' ∷ t) (zero_pad-append k s rest)

decimal_run-starts :
    (f n c : ℕ) (tail : List ℕ) → is_digit c ≡ true → StartsWithDigit (decimal_run f n (c ∷ tail))
unfolding decimal_run
decimal_run-starts zero n c tail h = h
decimal_run-starts (suc f) n c tail h = elim (Bool-cases (ltb n 10)) [
  | inl small ↦ rw small (low_digit n)
  | inr large ↦ rw large (decimal_run-starts f (n / 10) _ (c ∷ tail) (low_digit n))
]

append-starts : (s rest : List ℕ) → StartsWithDigit s → StartsWithDigit (s ++ rest)
append-starts [] rest h = elim h [ ]
append-starts (c ∷ s) rest h = h

decimal-starts : (n : ℕ) → StartsWithDigit (decimal n)
unfolding decimal
decimal-starts n = elim (Bool-cases (ltb n 10)) [
  | inl small ↦ rw small (low_digit n)
  | inr large ↦ rw large (decimal_run-starts n (n / 10) _ [] (low_digit n))
]

zero_pad-starts : (k : ℕ) (s : List ℕ) → StartsWithDigit s → StartsWithDigit (zero_pad k s)
unfolding zero_pad
zero_pad-starts zero s h = h
zero_pad-starts (suc k) s h = refl

-- A padded number, and what is read from it.
padded : ℕ → ℕ → List ℕ
padded k n = zero_pad k (decimal n)

padded_read :
    (k n : ℕ) (rest : List ℕ)
    → EndsBefore is_digit rest
    → StartsWithDigit (padded k n ++ rest) × (dec_run 0 (padded k n ++ rest) ≡ (n, rest))
unfolding padded
padded_read k n rest h = (
  append-starts _ rest (zero_pad-starts k _ (decimal-starts n)),
  ap (λ (t : List ℕ). dec_run 0 t) (zero_pad-append k (decimal n) rest)
      ∙ dec_run-zero_pad k (decimal n ++ rest)
      ∙ unfold decimal in
        dec_run-decimal_run (suc n) n [] rest (omega arith) ∙ dec_run-stop n rest h,
)

scan_int_plus :
    (n : ℕ) (s rest : List ℕ)
    → StartsWithDigit s
    → dec_run 0 s ≡ (n, rest)
    → scan_int s ≡ some (to_int false n, rest)
unfolding scan_int scan_decimal
scan_int_plus n [] rest h run = elim h [ ]
scan_int_plus n (c ∷ s) rest h run =
    let facts = digit_facts c h in rw (facts.0, facts.1, facts.2, run, h) refl

scan_int_minus :
    (n : ℕ) (s rest : List ℕ)
    → StartsWithDigit s
    → dec_run 0 s ≡ (n, rest)
    → scan_int (b'-' ∷ s) ≡ some (to_int true n, rest)
unfolding scan_int scan_decimal
scan_int_minus n [] rest h run = elim h [ ]
scan_int_minus n (c ∷ s) rest h run = rw (run, h) refl

-- An `int` that `%0kd` wrote, for any k, is read back by `%d`, and the rest is left.
pub scan_int-print_int :
    (width : ℕ) (v : ℤ) (rest : List ℕ)
    → IsInt v
    → EndsBefore is_digit rest
    → scan_int (print_int width v ++ rest) ≡ some (v, rest)
unfolding print_int padded
scan_int-print_int width (pos n) rest small h =
    let read = padded_read (width - length (decimal n)) n rest h in
    scan_int_plus n _ rest read.0 read.1 ∙ ap (λ (t : ℤ). some (t, rest)) (ground arith)
scan_int-print_int width (negsuc n) rest small h =
    let read = padded_read (width - 1 - length (decimal (suc n))) (suc n) rest h in
    scan_int_minus (suc n) _ rest read.0 read.1 ∙ ap (λ (t : ℤ). some (t, rest)) (ground arith)
