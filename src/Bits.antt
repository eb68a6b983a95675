-- ===== src/Bits.antt =====
-- C's `&`, `|`, `<<` and `>>` on unsigned patterns: `|` of disjoint fields is a sum, `&` with low
-- ones is a remainder, and the daemon's other masks are read off a table of all bytes.
mod Step
use Step.{bit_or_step, bit_and_step}
use native.Mathlib.Nat.{
  pow-suc, one-le-pow, mul-add-mod_self_left, mod-eq_of_lt, mod-lt, mod-add-div,
}
use tablet_magic.Base.{
  ℕ, zero, suc, ◌+◌, ◌-◌, ◌*◌, ◌/◌, ◌%◌, ◌^◌, ◌≤◌, ◌<◌, bit_and, bit_or, ◌≡◌, refl, ap, ◌∙◌, arith,
  Bool, true, ◌&&◌, ◌==◌, ==_iff, not,
}

infixl 75 ◌<<◌ ◌>>◌
abbrev pub ◌<<◌ : ℕ → ℕ → ℕ
x << k = x * 2 ^ k

abbrev pub ◌>>◌ : ℕ → ℕ → ℕ
x >> k = x / 2 ^ k

-- `(x & m) != 0`, an `int` used as a condition.
abbrev pub has : ℕ → ℕ → Bool
has x m = not (bit_and x m == 0)

-- `k` ones.
abbrev pub ones : ℕ → ℕ
ones k = 2 ^ k - 1

halve_shift : (x k : ℕ) → (x * 2 ^ suc k ≡ 2 * (x * 2 ^ k)) × (1 ≤ 2 ^ k)
halve_shift x k = (omega (arith, ap (λ (t : ℕ). x * t) (pow-suc 2 k)), one-le-pow k 2 (omega arith))

or_nothing : (bound x : ℕ) → x ≤ bound → bit_or x 0 ≡ x
or_nothing bound zero h = refl
or_nothing zero (suc x) h = elim h [ ]
or_nothing (suc bound) (suc x) h =
    omega (arith, bit_or_step (suc x) 0, or_nothing bound (suc x / 2) (omega arith))

pub bit_or-zero : (x : ℕ) → bit_or x 0 ≡ x
bit_or-zero x = or_nothing x x (omega arith)

and_nothing : (bound x : ℕ) → x ≤ bound → bit_and x 0 ≡ 0
and_nothing bound zero h = refl
and_nothing zero (suc x) h = elim h [ ]
and_nothing (suc bound) (suc x) h =
    omega (arith, bit_and_step (suc x) 0, and_nothing bound (suc x / 2) (omega arith))

-- `(high << k) | low` is a sum where `low` fits in `k` bits.
pub or_of_fields : (k high low : ℕ) → low < 2 ^ k → bit_or (high << k) low ≡ high * 2 ^ k + low
or_of_fields zero high low fits = ground (arith, bit_or-zero high)
or_of_fields (suc k) high low fits =
    let double = halve_shift high k in
    ground (arith, double, bit_or_step (high << suc k) low, or_of_fields k high (low / 2))

below_area : (r c h w : ℕ) → r < h → c < w → r * w + c < w * h
below_area r c h w p q = grind arith

-- The remainder by a product: a high part below `b`, and a low part below `m`.
pub remainder_split : (m b n : ℕ) → 0 < m → 0 < b → n % (m * b) ≡ n / m % b * m + n % m
remainder_split m b n hm hb =
    let low = n / m % b * m + n % m in
    let fits : low < m * b = below_area (n / m % b) (n % m) b m (mod-lt (n / m) hb) (mod-lt n hm) in
    let parts : n ≡ m * b * (n / m / b) + low =
      omega (arith, mod-add-div n m, ap (λ (t : ℕ). m * t) (mod-add-div (n / m) b)) in
    ap (λ (t : ℕ). t % (m * b)) parts
    ∙ mul-add-mod_self_left (m * b) (n / m / b) low
    ∙ mod-eq_of_lt fits

-- A mask of `k` low ones is the remainder by `2 ^ k`.
pub and_ones : (k x : ℕ) → bit_and x (ones k) ≡ x % 2 ^ k
and_ones zero x = omega (arith, and_nothing x x (omega arith))
and_ones (suc k) x =
    let double = halve_shift 1 k in
    let tail : ones (suc k) / 2 ≡ ones k = omega arith in
    let width : 2 ^ suc k ≡ 2 * 2 ^ k = omega arith in
    let split = remainder_split 2 (2 ^ k) x (omega arith) double.1 in
    rw (bit_and_step x (ones (suc k)), tail, and_ones k (x / 2), width, split) (omega arith)

-- A statement that holds of every byte by evaluation.
unfoldable pub all_below : ℕ → (ℕ → Bool) → Bool
all_below zero p = true
all_below (suc n) p = p n && all_below n p

pub all_below_sound : (p : ℕ → Bool) (n x : ℕ) → all_below n p ≡ true → x < n → p x ≡ true
unfolding all_below
all_below_sound p zero x h lt = elim lt [ ]
all_below_sound p (suc n) x h lt = ground (arith, all_below_sound p n x)

-- An equation between two functions of a byte, from their table.
pub byte_table :
    (f g : ℕ → ℕ) → all_below 256 (λ x. f x == g x) ≡ true → (x : ℕ) → x < 256 → f x ≡ g x
byte_table f g h x lt = (==_iff _ _).0 (all_below_sound (λ x. f x == g x) 256 x h lt)
