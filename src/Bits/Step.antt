-- ===== src/Bits/Step.antt =====
-- What the native `&` and `|` do to the lowest binary digit. The library explains both by a
-- recursion on digits with fuel; any fuel that is at least the number gives the same.
use Prim.Native.Nat.{min, max, digits, bit_and-bitwise, bit_or-bitwise}
use tablet_magic.Base.{ℕ, zero, suc, ◌+◌, ◌*◌, ◌/◌, ◌%◌, ◌≤◌, bit_and, bit_or, ◌≡◌, refl, arith}

-- The clauses for a positive first number come first: they are the only ones that recur.
enough_fuel :
    (rest : ℕ → ℕ) (digit : ℕ → ℕ → ℕ) (k l x y : ℕ)
    → x ≤ k
    → x ≤ l
    → digits rest digit k x y ≡ digits rest digit l x y
enough_fuel rest digit (suc k) (suc l) (suc x) y xk xl =
    let half = suc x / 2 in
    rw (enough_fuel rest digit k l half (y / 2) (omega arith) (omega arith)) refl
enough_fuel rest digit zero l (suc x) y xk xl = elim xk [ ]
enough_fuel rest digit (suc k) zero (suc x) y xk xl = elim xl [ ]
enough_fuel rest digit zero zero zero y xk xl = refl
enough_fuel rest digit zero (suc l) zero y xk xl = refl
enough_fuel rest digit (suc k) zero zero y xk xl = refl
enough_fuel rest digit (suc k) (suc l) zero y xk xl = refl

pub bit_and_step : (x y : ℕ) → bit_and x y ≡ 2 * bit_and (x / 2) (y / 2) + min (x % 2) (y % 2)
bit_and_step zero y = omega (arith, bit_and-bitwise 0 y, bit_and-bitwise 0 (y / 2))
bit_and_step (suc x) y = omega (
  arith,
  bit_and-bitwise (suc x) y,
  bit_and-bitwise (suc x / 2) (y / 2),
  enough_fuel (λ _. 0) min x (suc x / 2) (suc x / 2) (y / 2) (omega arith) (omega arith),
)

pub bit_or_step : (x y : ℕ) → bit_or x y ≡ 2 * bit_or (x / 2) (y / 2) + max (x % 2) (y % 2)
bit_or_step zero y = omega (arith, bit_or-bitwise 0 y, bit_or-bitwise 0 (y / 2))
bit_or_step (suc x) y = omega (
  arith,
  bit_or-bitwise (suc x) y,
  bit_or-bitwise (suc x / 2) (y / 2),
  enough_fuel (λ y. y) max x (suc x / 2) (suc x / 2) (y / 2) (omega arith) (omega arith),
)
