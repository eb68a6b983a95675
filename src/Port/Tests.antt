-- ===== src/Port/Tests.antt =====
-- Replies on a concrete line of bytes.
use tablet_magic.Base.{ℕ, zero, suc, ◌≡◌, refl, arith, false, List, [], ◌∷◌, ◌++◌, All, none, some}
use tablet_magic.Format.{codes}
use tablet_magic.Port.{read_line}
use tablet_magic.Port.Replies.{IsText, read_line-reply, read_line-overflow}

abbrev packet : List ℕ
packet = 0xe0 ∷ 1 ∷ 2 ∷ 3 ∷ 4 ∷ 5 ∷ 6 ∷ []

-- A packet before the reply, and another behind it.
read_line-reply_example :
    read_line [] false (packet ++ (b'~' ∷ codes "#UD-0608-R00" ++ b'\r' ∷ packet))
    ≡ some (record { text = b'~' ∷ codes "#UD-0608-R00"; rest = packet })
read_line-reply_example =
    read_line-reply [] false packet (codes "#UD-0608-R00") packet b'\r' (omega arith) (omega arith)
      refl (omega arith) (omega arith)

-- A run of the letter a.
abbrev letters : ℕ → List ℕ
letters zero = []
letters (suc n) = b'a' ∷ letters n

letters-IsText : (n : ℕ) → All IsText (letters n)
letters-IsText zero = tt
letters-IsText (suc n) = (omega arith, letters-IsText n)

abbrev before : List ℕ
before = letters 1020

read_line-overflow_example : read_line before false (letters 4) ≡ none
read_line-overflow_example =
    read_line-overflow before (letters 4) (letters-IsText 4) (omega arith) (omega arith)
