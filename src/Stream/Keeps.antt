-- ===== src/Stream/Keeps.antt =====
-- What every call of the handlers keeps, a whole stream keeps, however its bytes read and however
-- they are cut.
use tablet_magic.Base.{
  ℕ, ◌≡◌, Bool, true, false, List, [], ◌∷◌, Option, none, some, inl, inr, Bool-cases, Option-cases,
}
use tablet_magic.Stream.Step.{Config, Framer, Event, is_fujitsu_p, step, fujitsu_step}
use tablet_magic.Stream.Loop.{head?, handle_all, consume, process_reads}

module _ {T : Type 0} (config : T → Config) (handle : T → Event → T) where
  module _ (P : T → Type 0) (keep : (t : T) (e : Event) → P t → P (handle t e)) where
    abbrev pub Holds : Option (T × Framer) → Type 0
    Holds none = Unit {0}
    Holds (some (t, f)) = P t

    handle_all-keeps : (es : List Event) (t : T) → P t → P (handle_all config handle t es)
    handle_all-keeps [] t h = h
    handle_all-keeps (e ∷ es) t h = handle_all-keeps es (handle t e) (keep t e h)

    consume-keeps :
        (bs : List ℕ) (t : T) (f : Framer) (p : List ℕ) (skip : Bool)
        → P t
        → Holds (consume config handle t f p skip bs)
    unfolding consume
    consume-keeps [] t f p skip h = h
    consume-keeps (b ∷ bs) t f p true h = consume-keeps bs t f p false h
    consume-keeps (b ∷ bs) t f p false h = elim (Bool-cases (is_fujitsu_p (config t).series)) [
      | inl fuj ↦ elim (Option-cases (fujitsu_step p b)) [
        | inl over ↦ rw (fuj, over, consume) tt
        | inr made ↦
            rw (fuj, made.shown, consume)
              (consume-keeps bs (handle_all config handle t made.value.1) f made.value.0 false
                (handle_all-keeps made.value.1 t h))
      ]
      | inr other ↦ elim (Option-cases (step (config t) f (head? bs) b)) [
        | inl over ↦ rw (other, over, consume) tt
        | inr made ↦
            rw (other, made.shown, consume)
              (consume-keeps bs (handle_all config handle t made.value.calls) made.value.framer []
                made.value.skip (handle_all-keeps made.value.calls t h))
      ]
    ]

    pub process_reads-keeps :
        (chunks : List (List ℕ)) (t : T) (f : Framer)
        → P t
        → Holds (process_reads config handle t f chunks)
    unfolding process_reads
    process_reads-keeps [] t f h = h
    process_reads-keeps (chunk ∷ chunks) t f h =
        let first = consume-keeps chunk t f [] false h in
        elim (Option-cases (consume config handle t f [] false chunk)) [
          | inl over ↦ rw (over, process_reads) tt
          | inr made ↦
              rw (made.shown, process_reads)
                (process_reads-keeps chunks made.value.0 made.value.1 (rw made.shown at first))
        ]

    -- So a result of the stream has what its start had.
    pub process_reads-result :
        (chunks : List (List ℕ)) (t u : T) (f g : Framer)
        → P t
        → process_reads config handle t f chunks ≡ some (u, g)
        → P u
    process_reads-result chunks t u f g h e = rw e at (process_reads-keeps chunks t f h)
