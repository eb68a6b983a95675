-- ===== src/Stream/Lines.antt =====
-- Text outside a packet: replies that end in CR or LF, and lines that do not fit.
use native.Mathlib.Decide.{dec_lt}
use mathlib.Core.List.{append_assoc, append-nil}
use tablet_magic.Base.{
  ℕ, ◌+◌, ◌≤◌, ◌<◌, ◌≡◌, ◌≢◌, ◌⊎◌, ◌∙◌, arith, false, List, [], ◌∷◌, ◌++◌, length, length-append,
  All, Option, none, some,
}
use tablet_magic.Stream.Step.{Config, Framer, Event, command_reply, is_fujitsu_p, step, phrase_max}
use tablet_magic.Stream.Loop.{head?, consume, consume-step, consume-none}
use tablet_magic.Settings.Constants.{command_set_wacom_iis}

-- A character of a line: no line ending, no comma, and no high bit.
abbrev pub IsPlain : ℕ → Type 0
IsPlain s = (s < 128) × (s ≢ b'\n') × (s ≢ b'\r') × (s ≢ b',')

abbrev pub line : List ℕ → ℕ → Framer
line ph commas = record { phrase = ph; in_packet = false; comma_count = commas }

abbrev IsEnding : ℕ → Type 0
IsEnding s = (s ≡ b'\r') ⊎ (s ≡ b'\n')

-- The next byte is no second line ending.
abbrev pub StartsFresh : List ℕ → Type 0
StartsFresh [] = Unit {0}
StartsFresh (s ∷ rest) = (s ≢ b'\r') × (s ≢ b'\n')

module _ (c : Config) (next : Option ℕ) (s : ℕ) (ph : List ℕ) (commas : ℕ) where
  step_plain :
      IsPlain s
      → length ph < phrase_max
      → step c (line ph commas) next s
        ≡ some (record { framer = line (ph ++ s ∷ []) commas; skip = false; calls = [] })
  unfolding step
  step_plain plain room = ground arith

  step_full : IsPlain s → length ph ≡ phrase_max → step c (line ph commas) next s ≡ none
  unfolding step
  step_full plain full = ground arith

step_end :
    (c : Config) (rest : List ℕ) (s : ℕ) (ph : List ℕ) (commas : ℕ)
    → IsEnding s
    → StartsFresh rest
    → c.command_set ≢ command_set_wacom_iis
    → 1 ≤ length ph
    → length ph < phrase_max
    → step c (line ph commas) (head? rest) s
      ≡ some (record {
        framer = line [] 0;
        skip = false;
        calls = command_reply (ph ++ b'\r' ∷ []) ∷ [];
      })
unfolding step
step_end c [] s ph commas ending fresh mode some_byte room =
    ground (arith, length-append ph (b'\r' ∷ []))
step_end c (u ∷ rest) s ph commas ending fresh mode some_byte room =
    ground (arith, length-append ph (b'\r' ∷ []))

module _ {T : Type 0} (config : T → Config) (handle : T → Event → T) (t : T) (commas : ℕ) where
  -- On a tablet that is not in II-S mode, a line of plain characters, fewer than 100 with what is
  -- already in the phrase, that ends in one CR or LF is handed over once as a reply that ends in CR,
  -- and the framer is empty behind it.
  pub consume-line :
      (ph p body : List ℕ) (s : ℕ) (rest : List ℕ)
      → is_fujitsu_p (config t).series ≡ false
      → (config t).command_set ≢ command_set_wacom_iis
      → All IsPlain body
      → 1 ≤ length ph + length body
      → length ph + length body < phrase_max
      → IsEnding s
      → StartsFresh rest
      → consume config handle t (line ph commas) p false (body ++ s ∷ rest)
        ≡ consume config handle
            (handle t (command_reply ((ph ++ body) ++ b'\r' ∷ [])))
            (line [] 0)
            []
            false
            rest
  consume-line ph p [] s rest fuj mode plain some_byte room ending fresh =
      consume-step config handle t (line ph commas) p s rest _ _ fuj
        (step_end (config t) rest s ph commas ending fresh mode (omega arith) (omega arith))
      ∙ rw append-nil
  consume-line ph p (u ∷ body) s rest fuj mode plain some_byte room ending fresh =
      let grown = length-append ph (u ∷ []) in
      consume-step config handle t (line ph commas) p u (body ++ s ∷ rest)
        (line (ph ++ u ∷ []) commas) [] fuj
        (step_plain (config t) _ u ph commas plain.0 (omega arith))
      ∙ consume-line (ph ++ u ∷ []) [] body s rest fuj mode plain.1 (omega arith) (omega arith)
          ending fresh
      ∙ rw (append_assoc ph (u ∷ []) body)

  -- A text of plain characters that makes the phrase longer than 100 bytes before a line ending
  -- comes writes behind the end of `phrase`, whatever the mode.
  pub consume-overflow :
      (ph p body : List ℕ)
      → is_fujitsu_p (config t).series ≡ false
      → All IsPlain body
      → length ph ≤ phrase_max
      → phrase_max < length ph + length body
      → consume config handle t (line ph commas) p false body ≡ none
  consume-overflow ph p [] fuj plain fits over = absurd (omega arith)
  consume-overflow ph p (u ∷ body) fuj plain fits over = elim (dec_lt (length ph) phrase_max) [
    | yes room ↦
        let grown = length-append ph (u ∷ []) in
        consume-step config handle t (line ph commas) p u body (line (ph ++ u ∷ []) commas) [] fuj
          (step_plain (config t) _ u ph commas plain.0 room)
        ∙ consume-overflow (ph ++ u ∷ []) [] body fuj plain.1 (omega arith) (omega arith)
    | no full ↦
        consume-none config handle t (line ph commas) p u body fuj
          (step_full (config t) _ u ph commas plain.0 (omega arith))
  ]
