-- ===== src/Machine/Known.antt =====
-- The line endings of the code of a digitizer.
use tablet_magic.Base.{
  ℕ, ◌≡◌, Bool, true, false, ltb, ◌==◌, ◌||◌, if◌then◌else◌, List, [], ◌∷◌, length, Option, none,
  some, Bool-cases, inl, inr,
}
use tablet_magic.Machine.{
  find_digitizer, find_name, clean_string, keep_unless_ending, Tool, from_hex, from_long,
  from_found, first_or, get_digitizer_string,
}

-- The last character, if there is one, is no line ending.
pub data IsClean : List ℕ → Type 0 where
  empty : IsClean []
  one : (c : ℕ) → (c == b'\n' || c == b'\r') ≡ false → IsClean (c ∷ [])
  more : (c d : ℕ) (s : List ℕ) → IsClean (d ∷ s) → IsClean (c ∷ d ∷ s)

keep-IsClean : (c : ℕ) (s : List ℕ) → IsClean s → IsClean (keep_unless_ending c s)
keep-IsClean c [] h = elim (Bool-cases (c == b'\n' || c == b'\r')) [
  | inl ending ↦ rw ending empty
  | inr plain ↦ rw plain (one c plain)
]
keep-IsClean c (d ∷ s) h = more c d s h

pub clean_string-IsClean : (s : List ℕ) → IsClean (clean_string s)
unfolding clean_string
clean_string-IsClean [] = empty
clean_string-IsClean (c ∷ s) = keep-IsClean c (clean_string s) (clean_string-IsClean s)

-- What is found, if all tools could be run, is clean.
abbrev Clean : Option (Option (List ℕ)) → Type 0
Clean none = Unit {0}
Clean (some none) = Unit {0}
Clean (some (some s)) = IsClean s

Clean-if :
    (b : Bool) (x y : Option (Option (List ℕ))) → Clean x → Clean y → Clean (if b then x else y)
Clean-if true x y h k = h
Clean-if false x y h k = k

from_hex-Clean :
    (o : Option (List ℕ)) → Clean (elim o [ none ↦ none | some u ↦ some (some (clean_string u)) ])
from_hex-Clean none = tt
from_hex-Clean (some u) = clean_string-IsClean u

from_found-Clean : (run : Tool → Option (List ℕ)) (o : Option (List ℕ)) → Clean (from_found run o)
from_found-Clean run none = tt
from_found-Clean run (some s) =
    let t = clean_string s in
    Clean-if (ltb 12 (length t)) (from_long run t) (some (some t))
      (from_hex-Clean (run (from_hex t))) (clean_string-IsClean s)

-- Whatever the tools print, the code of the digitizer that is found ends with no line ending.
pub get_digitizer_string-IsClean :
    (run : Tool → Option (List ℕ)) (s : List ℕ)
    → get_digitizer_string run ≡ some (some s)
    → IsClean s
unfolding get_digitizer_string
get_digitizer_string-IsClean run s e =
    rw e at (from_found-Clean run (first_or (run find_digitizer) (run find_name)))
