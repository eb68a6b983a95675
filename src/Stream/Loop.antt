-- ===== src/Stream/Loop.antt =====
-- The loop over the bytes of one `Read`, and over the reads of one call.
use tablet_magic.Base.{ℕ, ◌≡◌, Bool, true, false, List, [], ◌∷◌, Option, none, some}
use tablet_magic.Stream.Step.{Config, Framer, Event, is_fujitsu_p, step, fujitsu_step}

abbrev pub head? : List ℕ → Option ℕ
head? [] = none
head? (b ∷ bs) = some b

module _ {T : Type 0} (config : T → Config) (handle : T → Event → T) where
  -- The calls of a round, in order.
  abbrev pub handle_all : T → List Event → T
  handle_all t [] = t
  handle_all t (e ∷ es) = handle_all (handle t e) es

  -- The bytes of one `Read`: the tablet, its framer, what `p` holds for the Fujitsu, and whether
  -- the next byte is skipped.
  unfoldable pub consume : T → Framer → List ℕ → Bool → List ℕ → Option (T × Framer)
  consume t f p skip [] = some (t, f)
  consume t f p true (b ∷ bs) = consume t f p false bs
  consume t f p false (b ∷ bs) = elim (is_fujitsu_p (config t).series) [
    | true ↦ elim (fujitsu_step p b) [
      | none ↦ none
      | some (p', calls) ↦ consume (handle_all t calls) f p' false bs
    ]
    | false ↦ elim (step (config t) f (head? bs) b) [
      | none ↦ none
      | some x ↦ consume (handle_all t x.calls) x.framer [] x.skip bs
    ]
  ]

  -- With a round's outcome known the loop goes on from it.
  pub consume-step :
      (t : T) (f : Framer) (p : List ℕ) (s : ℕ) (rest : List ℕ) (f' : Framer) (calls : List Event)
      → is_fujitsu_p (config t).series ≡ false
      → step (config t) f (head? rest) s
        ≡ some (record { framer = f'; skip = false; calls = calls })
      → consume t f p false (s ∷ rest) ≡ consume (handle_all t calls) f' [] false rest
  unfolding consume
  consume-step t f p s rest f' calls b e = rw (b, e, consume)

  pub consume-none :
      (t : T) (f : Framer) (p : List ℕ) (s : ℕ) (rest : List ℕ)
      → is_fujitsu_p (config t).series ≡ false
      → step (config t) f (head? rest) s ≡ none
      → consume t f p false (s ∷ rest) ≡ none
  unfolding consume
  consume-none t f p s rest b e = rw (b, e, consume)

  -- The `do … while` of one call: a read for each chunk that the port holds.
  unfoldable pub process_reads : T → Framer → List (List ℕ) → Option (T × Framer)
  unfolding consume
  process_reads t f [] = some (t, f)
  process_reads t f (chunk ∷ chunks) = elim (consume t f [] false chunk) [
    | none ↦ none
    | some (t', f') ↦ process_reads t' f' chunks
  ]

  -- A call with a single read.
  pub process_reads-one :
      (t t' : T) (f f' : Framer) (chunk : List ℕ)
      → consume t f [] false chunk ≡ some (t', f')
      → process_reads t f (chunk ∷ []) ≡ some (t', f')
  unfolding process_reads
  process_reads-one t t' f f' chunk e = rw (e, process_reads)
