-- ===== src/Stream/Chunks.antt =====
-- Where one read ends and the next begins does not matter.
use mathlib.Core.List.{flatten}
use tablet_magic.Base.{
  ℕ, ◌≡◌, ◌⊎◌, inl, inr, refl, sym, ap, ◌∙◌, arith, true, false, List, [], ◌∷◌, ◌++◌, Option, none,
  some, Bool-cases,
}
use tablet_magic.Stream.Step.{Config, Framer, Event, Outcome, is_fujitsu_p, step}
use tablet_magic.Stream.Loop.{head?, handle_all, consume, process_reads}
use tablet_magic.Stream.Lines.{line}
use tablet_magic.Stream.Lookahead.{
  is_newline, newline?, set_skip, IsStart, NoSkip, step_newline, step-none-skip, lookahead,
}

outcome-cases : (o : Option Outcome) → (o ≡ none) ⊎ ((x : Outcome) × (o ≡ some x))
outcome-cases none = inl refl
outcome-cases (some x) = inr (x, refl)

module _ {T : Type 0} (config : T → Config) (handle : T → Event → T)
    (fuj : (t : T) → is_fujitsu_p (config t).series ≡ false) where
  -- What one round leads to.
  round : T → List ℕ → Option Outcome → Option (T × Framer)
  round t rest none = none
  round t rest (some x) =
      consume config handle (handle_all config handle t x.calls) x.framer [] x.skip rest

  consume-round :
      (t : T) (f : Framer) (p : List ℕ) (s : ℕ) (rest : List ℕ)
      → consume config handle t f p false (s ∷ rest)
        ≡ round t rest (step (config t) f (head? rest) s)
  unfolding consume round
  consume-round t f p s rest = elim (outcome-cases (step (config t) f (head? rest) s)) [
    | inl over ↦ rw (fuj t, over, consume)
    | inr (x, e) ↦ rw (fuj t, e, consume)
  ]

  then_read : List ℕ → Option (T × Framer) → Option (T × Framer)
  then_read ys none = none
  then_read ys (some (t, f)) = consume config handle t f [] false ys

  leading :
      (t : T) (k : ℕ) (p : List ℕ) (s : ℕ) (rest : List ℕ)
      → is_newline s ≡ true
      → consume config handle t (line [] k) p false (s ∷ rest)
        ≡ consume config handle t (line [] k) [] false rest
  unfolding consume round
  leading t k p s [] h =
      consume-round t (line [] k) p s []
      ∙ ap (round t []) (step_newline (config t) k none s h)
      ∙ refl
  leading t k p s (u ∷ rest) h =
      consume-round t (line [] k) p s (u ∷ rest)
      ∙ ap (round t (u ∷ rest)) (step_newline (config t) k (some u) s h)
      ∙ elim (Bool-cases (is_newline u)) [
        | inl double ↦ rw double (sym (leading t k [] u rest double))
        | inr single ↦ rw single refl
      ]

  round-alone :
      (t : T) (ys : List ℕ) (o : Option Outcome)
      → NoSkip o
      → round t ys o ≡ then_read ys (round t [] o)
  unfolding round then_read consume
  round-alone t ys none h = refl
  round-alone t ys (some x) h = rw h refl

  -- The skipped line ending comes with the next read, where it does nothing.
  round-double :
      (t : T) (ys : List ℕ) (o : Option Outcome)
      → newline? (head? ys) ≡ true
      → IsStart o
      → round t ys (set_skip true o) ≡ then_read ys (round t [] o)
  unfolding round then_read consume
  round-double t [] o h start = ground arith
  round-double t (u ∷ rest) none h start = refl
  round-double t (u ∷ rest) (some x) h start =
      let t' = handle_all config handle t x.calls in
      ap (λ (f : Framer). consume config handle t' f [] false rest) start
      ∙ sym (leading t' x.framer.comma_count [] u rest h)
      ∙ ap (λ (f : Framer). consume config handle t' f [] false (u ∷ rest)) (sym start)

  -- The last byte of a read, whatever the next read begins with.
  last_byte :
      (t : T) (f : Framer) (p : List ℕ) (s : ℕ) (ys : List ℕ)
      → consume config handle t f p false (s ∷ ys)
        ≡ then_read ys (consume config handle t f p false (s ∷ []))
  last_byte t f p s ys =
      let alone = step (config t) f none s in
      consume-round t f p s ys
      ∙ elim (lookahead (config t) f (head? ys) s) [
        | inl same ↦ ap (round t ys) same ∙ round-alone t ys alone (step-none-skip (config t) f s)
        | inr (double, e, start) ↦ ap (round t ys) e ∙ round-double t ys alone double start
      ]
      ∙ ap (then_read ys) (sym (consume-round t f p s []))

  p_unused :
      (t : T) (f : Framer) (p ys : List ℕ)
      → consume config handle t f p false ys ≡ consume config handle t f [] false ys
  unfolding consume
  p_unused t f p [] = refl
  p_unused t f p (s ∷ ys) = consume-round t f p s ys ∙ sym (consume-round t f [] s ys)

  round-append :
      (t : T) (u : ℕ) (xs ys : List ℕ) (o : Option Outcome)
      → ((t : T) (f : Framer)
          → consume config handle t f [] false (xs ++ ys)
            ≡ then_read ys (consume config handle t f [] false xs))
      → ((t : T) (f : Framer)
          → consume config handle t f [] false (u ∷ (xs ++ ys))
            ≡ then_read ys (consume config handle t f [] false (u ∷ xs)))
      → round t (u ∷ (xs ++ ys)) o ≡ then_read ys (round t (u ∷ xs) o)
  unfolding round then_read consume
  round-append t u xs ys none later next = refl
  round-append t u xs ys (some x) later next = elim (Bool-cases x.skip) [
    | inl skips ↦ rw skips (later (handle_all config handle t x.calls) x.framer)
    | inr stays ↦ rw stays (next (handle_all config handle t x.calls) x.framer)
  ]

  -- A read that is cut in two.
  consume-append :
      (xs ys : List ℕ) (t : T) (f : Framer) (p : List ℕ)
      → consume config handle t f p false (xs ++ ys)
        ≡ then_read ys (consume config handle t f p false xs)
  unfolding then_read consume
  consume-append [] ys t f p = p_unused t f p ys
  consume-append (s ∷ []) ys t f p = last_byte t f p s ys
  consume-append (s ∷ u ∷ xs) ys t f p =
      consume-round t f p s (u ∷ (xs ++ ys))
      ∙ round-append t u xs ys (step (config t) f (some u) s) (λ t f. consume-append xs ys t f [])
          (λ t f. consume-append (u ∷ xs) ys t f [])
      ∙ ap (then_read ys) (sym (consume-round t f p s (u ∷ xs)))

  reads_then :
      (chunks : List (List ℕ)) (o : Option (T × Framer))
      → ((t : T) (f : Framer)
          → process_reads config handle t f chunks
            ≡ consume config handle t f [] false (flatten chunks))
      → (elim o as (λ _. Option (T × Framer)) [
        | none ↦ none
        | some x ↦ process_reads config handle x.0 x.1 chunks
      ])
        ≡ then_read (flatten chunks) o
  unfolding then_read
  reads_then chunks none later = refl
  reads_then chunks (some (t, f)) later = later t f

  -- However the bytes of the stream are cut into reads, even between a CR and its LF, the daemon
  -- does with them what it does with a single read of all of them: the same packets and replies in
  -- the same order, the same framer behind them, and a write out of bounds in the same cases. This
  -- holds of every tablet that is not a Fujitsu P-Series.
  pub process_reads-flatten :
      (chunks : List (List ℕ)) (t : T) (f : Framer)
      → process_reads config handle t f chunks ≡ consume config handle t f [] false (flatten chunks)
  unfolding process_reads consume flatten then_read
  process_reads-flatten [] t f = refl
  process_reads-flatten (chunk ∷ chunks) t f =
      reads_then chunks (consume config handle t f [] false chunk) (process_reads-flatten chunks)
      ∙ sym (consume-append chunk (flatten chunks) t f [])
