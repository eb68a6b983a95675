-- ===== src/Stream/Packets.antt =====
-- Binary packets: a byte with its high bit set, and bytes without.
use mathlib.Core.List.{append_assoc, flatten}
use tablet_magic.Base.{
  ℕ, ◌+◌, ◌≤◌, ◌<◌, ◌≡◌, refl, ◌∙◌, arith, true, false, List, [], ◌∷◌, ◌++◌, length, length-append,
  map, All, Option, some,
}
use tablet_magic.Stream.Step.{
  Config, Framer, Event, packet, Outcome, is_tablet_pc, is_fujitsu_p, step,
}
use tablet_magic.Stream.Loop.{head?, handle_all, consume, consume-step}

-- A tablet other than the TabletPC and the Fujitsu P-Series that sends packets of n bytes, which fit in
-- the buffers.
pub record IsBinary (c : Config) (n : ℕ) : Type 0 where
  pub not_tablet_pc : is_tablet_pc c.series ≡ false
  pub not_fujitsu : is_fujitsu_p c.series ≡ false
  pub size : c.packet_size ≡ n
  pub least : 2 ≤ n
  pub fits : n < 64

abbrev pub inside : List ℕ → ℕ → Framer
inside ph commas = record { phrase = ph; in_packet = true; comma_count = commas }

abbrev pub idle : Framer
idle = record { phrase = []; in_packet = false; comma_count = 0 }

-- No packet of the full size waits in the framer, and no reply.
pub record IsReady (f : Framer) (n : ℕ) : Type 0 where
  pub short : f.in_packet ≡ true → length f.phrase < n
  pub empty : f.in_packet ≡ false → f.phrase ≡ []

abbrev quiet : Framer → Outcome
quiet f = record { framer = f; skip = false; calls = [] }

module _ (c : Config) (n : ℕ) (b : IsBinary c n) (next : Option ℕ) (s : ℕ) where
  -- The first byte of a packet drops what was begun and opens the packet.
  step_first :
      (f : Framer)
      → IsReady f n
      → 128 ≤ s
      → step c f next s ≡ some (quiet (inside (s ∷ []) f.comma_count))
  unfolding step
  step_first f r high = ground arith

  -- A further byte is added.
  step_middle :
      (ph : List ℕ) (commas : ℕ)
      → 1 ≤ length ph
      → length ph + 1 < n
      → s < 128
      → step c (inside ph commas) next s ≡ some (quiet (inside (ph ++ s ∷ []) commas))
  unfolding step
  step_middle ph commas some_byte room low = ground (arith, length-append ph (s ∷ []))

  -- The last byte hands the packet over and leaves nothing behind.
  step_last :
      (ph : List ℕ) (commas : ℕ)
      → 1 ≤ length ph
      → length ph + 1 ≡ n
      → s < 128
      → step c (inside ph commas) next s
        ≡ some (record { framer = idle; skip = false; calls = packet (ph ++ s ∷ []) ∷ [] })
  unfolding step
  step_last ph commas some_byte full low = ground (arith, length-append ph (s ∷ []))

-- The bytes behind the first byte of a packet.
abbrev pub Low : ℕ → Type 0
Low s = s < 128

-- One packet of n bytes.
abbrev pub IsPacket : ℕ → List ℕ → Type 0
IsPacket n [] = ⊥
IsPacket n (s ∷ body) = (128 ≤ s) × (1 + length body ≡ n) × All Low body

module _ {T : Type 0} (config : T → Config) (handle : T → Event → T) (n : ℕ) where
  consume_body :
      (t : T) (ph : List ℕ) (commas : ℕ) (p body rest : List ℕ)
      → IsBinary (config t) n
      → 1 ≤ length ph
      → length ph + length body ≡ n
      → 1 ≤ length body
      → All Low body
      → consume config handle t (inside ph commas) p false (body ++ rest)
        ≡ consume config handle (handle t (packet (ph ++ body))) idle [] false rest
  consume_body t ph commas p [] rest b first size some_byte low = elim some_byte [ ]
  consume_body t ph commas p (s ∷ []) rest b first size some_byte low =
      consume-step config handle t (inside ph commas) p s rest idle (packet (ph ++ s ∷ []) ∷ [])
        b.not_fujitsu (step_last (config t) n b (head? rest) s ph commas first (omega arith) low.0)
  consume_body t ph commas p (s ∷ u ∷ body) rest b first size some_byte low =
      let go =
        consume-step config handle t (inside ph commas) p s ((u ∷ body) ++ rest)
          (inside (ph ++ s ∷ []) commas) [] b.not_fujitsu
          (step_middle (config t) n b _ s ph commas first (omega arith) low.0) in
      let tail =
        consume_body t (ph ++ s ∷ []) commas [] (u ∷ body) rest b
          (omega (arith, length-append ph (s ∷ []))) (omega (arith, length-append ph (s ∷ [])))
          (omega arith) low.1 in
      go ∙ tail ∙ rw (append_assoc ph (s ∷ []) (u ∷ body)) refl

  -- A packet is handled whatever was begun before it, and leaves the framer idle.
  pub consume-packet :
      (t : T) (f : Framer) (p pk rest : List ℕ)
      → IsBinary (config t) n
      → IsReady f n
      → IsPacket n pk
      → consume config handle t f p false (pk ++ rest)
        ≡ consume config handle (handle t (packet pk)) idle [] false rest
  consume-packet t f p [] rest b r ok = elim ok [ ]
  consume-packet t f p (s ∷ body) rest b r ok =
      consume-step config handle t f p s (body ++ rest) (inside (s ∷ []) f.comma_count) []
        b.not_fujitsu (step_first (config t) n b _ s f r ok.0)
      ∙ consume_body t (s ∷ []) f.comma_count [] body rest b (omega arith) ok.1
          (omega (arith, b.least, ok.1)) ok.2

  consume-idle :
      (keep : (t : T) (pk : List ℕ) → config (handle t (packet pk)) ≡ config t) (t : T)
      (ps : List (List ℕ))
      → IsBinary (config t) n
      → All (IsPacket n) ps
      → consume config handle t idle [] false (flatten ps)
        ≡ some (handle_all config handle t (map packet ps), idle)
  unfolding flatten
  consume-idle keep t [] b ok = unfold consume in refl
  consume-idle keep t (pk ∷ ps) b ok =
      consume-packet t idle [] pk (flatten ps) b (record { short = λ e. cc; empty = λ e. refl })
        ok.0
      ∙ consume-idle keep (handle t (packet pk)) ps (rw (keep t pk) b) ok.1

  -- On a tablet other than the TabletPC and the Fujitsu P-Series, with packets of n bytes, 2 ≤ n < 64, a
  -- read that holds one packet or more behind one another hands each of them over once, in order, and
  -- nothing else, writes nowhere out of bounds and leaves the framer idle. It may begin with the framer
  -- idle or inside a packet that is not complete, which is dropped. The handler of a packet must not
  -- change how the stream is cut.
  pub consume-flatten :
      (keep : (t : T) (pk : List ℕ) → config (handle t (packet pk)) ≡ config t) (t : T) (f : Framer)
      (pk : List ℕ) (ps : List (List ℕ))
      → IsBinary (config t) n
      → IsReady f n
      → All (IsPacket n) (pk ∷ ps)
      → consume config handle t f [] false (flatten (pk ∷ ps))
        ≡ some (handle_all config handle t (map packet (pk ∷ ps)), idle)
  unfolding flatten
  consume-flatten keep t f pk ps b r ok =
      consume-packet t f [] pk (flatten ps) b r ok.0
      ∙ consume-idle keep (handle t (packet pk)) ps (rw (keep t pk) b) ok.1
