-- ===== src/Stream/Lookahead.antt =====
-- What a round owes to the byte behind it: nothing, but that of two line endings the second is
-- skipped.
use mathlib.Core.Path.{subst}
use tablet_magic.Base.{
  ℕ, ◌≡◌, ◌⊎◌, inl, inr, refl, sym, ap, ◌∙◌, arith, Bool, true, false, ◌==◌, ◌||◌, ◌&&◌, leb, List,
  [], ◌∷◌, ◌++◌, length, Option, none, some, Bool-cases,
}
use tablet_magic.Stream.Step.{
  Config, Framer, Outcome, Round, begin, high_bit, close_phrase, normalize, extend, finish, deliver,
  catch_packet, count_comma, end_line, step, phrase_max, p_max,
}
use tablet_magic.Stream.Lines.{line}

abbrev pub is_newline : ℕ → Bool
is_newline n = n == b'\n' || n == b'\r'

abbrev pub newline? : Option ℕ → Bool
newline? none = false
newline? (some n) = is_newline n

abbrev pub quiet_line : ℕ → Bool → Outcome
quiet_line k skip = record { framer = line [] k; skip = skip; calls = [] }

-- Between the lines a line ending does nothing, but that it may skip the next.
pub step_newline :
    (c : Config) (k : ℕ) (next : Option ℕ) (s : ℕ)
    → is_newline s ≡ true
    → step c (line [] k) next s ≡ some (quiet_line k (newline? next))
unfolding step
step_newline c k none s h = ground arith
step_newline c k (some n) s h = ground arith

-- The rest of the round behind the line endings.
after : Config → Round → Option Outcome
after c x = elim (extend x) [ none ↦ none | some y ↦ deliver (finish c y) ]

step_lem :
    (c : Config) (f : Framer) (next : Option ℕ) (s : ℕ)
    → step c f next s ≡ after c (normalize next (close_phrase c (begin f s)))
unfolding step after
step_lem c f next s = refl

normalize-same :
    (next : Option ℕ) (x : Round)
    → (x.framer.in_packet ≡ true) ⊎ (is_newline x.byte ≡ false)
    → normalize next x ≡ normalize none x
unfolding normalize
normalize-same next x (inl inside) = rw inside
normalize-same next x (inr plain) = ground arith

close_phrase-inside :
    (c : Config) (f : Framer) (s : ℕ)
    → (f.in_packet ≡ true) ⊎ (high_bit s ≡ true)
    → (close_phrase c (begin f s)).framer.in_packet ≡ true
unfolding close_phrase
close_phrase-inside c f s h = ground arith

close_phrase-byte : (c : Config) (f : Framer) (s : ℕ) → (close_phrase c (begin f s)).byte ≡ s
unfolding close_phrase
close_phrase-byte c f s = ground arith

-- A round whose byte became CR outside a packet.
abbrev cr : List ℕ → ℕ → Bool → Round
cr ph k skip = record { framer = line ph k; byte = b'\r'; skip = skip; calls = []; p = []; r = [] }

abbrev pub set_skip : Bool → Option Outcome → Option Outcome
set_skip skip none = none
set_skip skip (some x) = some (record x { skip = skip })

after-cr :
    (c : Config) (ph : List ℕ) (k : ℕ) (b : Bool)
    → after c (cr ph k b) ≡ set_skip b (after c (cr ph k false))
unfolding after extend finish deliver count_comma end_line
after-cr c ph k b = ground arith

abbrev pub IsStart : Option Outcome → Type 0
IsStart none = Unit {0}
IsStart (some x) = x.framer ≡ line [] x.framer.comma_count

abbrev pub NoSkip : Option Outcome → Type 0
NoSkip none = Unit {0}
NoSkip (some x) = x.skip ≡ false

after-cr-IsStart : (c : Config) (ph : List ℕ) (k : ℕ) → IsStart (after c (cr ph k false))
unfolding after extend finish deliver count_comma end_line
after-cr-IsStart c ph k = ground arith

finish-skip : (c : Config) (x : Round) → (finish c x).skip ≡ x.skip
unfolding finish catch_packet count_comma end_line
finish-skip c x = ground arith

deliver-skip : (x : Round) → x.skip ≡ false → NoSkip (deliver x)
unfolding deliver
deliver-skip x h = elim (Bool-cases (leb p_max (length x.p))) [
  | inl over ↦ rw over tt
  | inr fits ↦ rw fits h
]

extend-cases :
    (x : Round) → (extend x ≡ none) ⊎ ((y : Round) × (extend x ≡ some y) × (y.skip ≡ x.skip))
unfolding extend
extend-cases x =
    let longer = record x {
      framer = record x.framer { phrase = x.framer.phrase ++ x.byte ∷ [] };
    } in
    elim (Bool-cases (length x.framer.phrase == 0 && x.byte == b'\r')) [
      | inl blank ↦ inr (x, rw blank refl, refl)
      | inr more ↦ elim (Bool-cases (leb phrase_max (length x.framer.phrase))) [
        | inl full ↦ inl (rw (more, full) refl)
        | inr room ↦ inr (longer, rw (more, room) refl, refl)
      ]
    ]

after-none : (c : Config) (x : Round) → extend x ≡ none → after c x ≡ none
unfolding after
after-none c x e = rw (e, after) refl

after-some : (c : Config) (x y : Round) → extend x ≡ some y → after c x ≡ deliver (finish c y)
unfolding after
after-some c x y e = rw (e, after) refl

after-skip : (c : Config) (x : Round) → x.skip ≡ false → NoSkip (after c x)
after-skip c x h = elim (extend-cases x) [
  | inl over ↦ subst NoSkip (sym (after-none c x over)) tt
  | inr (y, e, kept) ↦
      subst NoSkip (sym (after-some c x y e))
        (deliver-skip (finish c y) (finish-skip c y ∙ kept ∙ h))
]

pub step-none-skip : (c : Config) (f : Framer) (s : ℕ) → NoSkip (step c f none s)
unfolding normalize close_phrase
step-none-skip c f s =
    subst NoSkip (sym (step_lem c f none s))
      (after-skip c (normalize none (close_phrase c (begin f s))) (ground arith))

normalize-cr :
    (c : Config) (f : Framer) (next : Option ℕ) (s : ℕ)
    → f.in_packet ≡ false
    → high_bit s ≡ false
    → is_newline s ≡ true
    → normalize next (close_phrase c (begin f s)) ≡ cr f.phrase f.comma_count (newline? next)
unfolding normalize close_phrase
normalize-cr c f none s out low newline = ground arith
normalize-cr c f (some n) s out low newline = ground arith

pub lookahead :
    (c : Config) (f : Framer) (next : Option ℕ) (s : ℕ)
    → (step c f next s ≡ step c f none s)
      ⊎ ((newline? next ≡ true)
          × (step c f next s ≡ set_skip true (step c f none s))
          × IsStart (step c f none s))
lookahead c f next s =
    let x = close_phrase c (begin f s) in
    let same : normalize next x ≡ normalize none x → step c f next s ≡ step c f none s =
      λ e. step_lem c f next s ∙ ap (after c) e ∙ sym (step_lem c f none s) in
    elim (Bool-cases f.in_packet) [
      | inl inside ↦
          inl (same (normalize-same next x (inl (close_phrase-inside c f s (inl inside)))))
      | inr out ↦ elim (Bool-cases (high_bit s)) [
        | inl high ↦ inl (same (normalize-same next x (inl (close_phrase-inside c f s (inr high)))))
        | inr low ↦ elim (Bool-cases (is_newline s)) [
          | inr plain ↦
              inl (
                same
                  (normalize-same next x (inr (ap is_newline (close_phrase-byte c f s) ∙ plain))))
          | inl newline ↦
              let here = normalize-cr c f next s out low newline in
              let alone = normalize-cr c f none s out low newline in
              let ends = step_lem c f none s ∙ ap (after c) alone in
              elim (Bool-cases (newline? next)) [
                | inr single ↦ inl (same (here ∙ ap (cr f.phrase f.comma_count) single ∙ sym alone))
                | inl double ↦ inr (
                  double,
                  step_lem c f next s
                      ∙ ap (after c) (here ∙ ap (cr f.phrase f.comma_count) double)
                      ∙ after-cr c f.phrase f.comma_count true
                      ∙ ap (set_skip true) (sym ends),
                  subst IsStart (sym ends) (after-cr-IsStart c f.phrase f.comma_count),
                )
              ]
        ]
      ]
    ]
