-- ===== src/Settings/Described.antt =====
-- Settings that a tablet has reported, and their description.
use tablet_magic.Base.{ℕ, zero, suc, ◌<◌, ◌≢◌, arith, List, [], ◌∷◌, ◌++◌, Option, none, some}
use tablet_magic.Settings.{TabletSettings, import_state}
use tablet_magic.Settings.Range.{IsReported, import_state-IsReported}
use tablet_magic.Settings.Description.{pick, entry, gather, description_lines, description}

-- An entry that is there.
abbrev IsThere : Option (List ℕ) → Type 0
IsThere none = ⊥
IsThere (some x) = Unit {0}

-- Every entry of a list is there.
abbrev AllThere : List (Option (List ℕ)) → Type 0
AllThere [] = Unit {0}
AllThere (o ∷ l) = IsThere o × AllThere l

pick_four :
    (a b c d : List ℕ) (l : List (List ℕ)) (label : List ℕ) (n : ℕ)
    → n < 4
    → IsThere (entry label (a ∷ b ∷ c ∷ d ∷ l) n)
unfolding entry pick
pick_four a b c d l label zero h = tt
pick_four a b c d l label (suc zero) h = tt
pick_four a b c d l label (suc (suc zero)) h = tt
pick_four a b c d l label (suc (suc (suc zero))) h = tt
pick_four a b c d l label (suc (suc (suc (suc n)))) h = absurd (omega arith)

none_at_end : gather [] ≢ none
none_at_end = cc

one_more :
    (x : List ℕ) (o : Option (List ℕ))
    → o ≢ none
    → elim o [ none ↦ none | some rest ↦ some (x ++ rest) ] ≢ none
one_more x none h = h
one_more x (some rest) h = cc

gather_there : (l : List (Option (List ℕ))) → AllThere l → gather l ≢ none
gather_there [] h = none_at_end
gather_there (none ∷ l) (h, hs) = absurd h
gather_there (some x ∷ l) (h, hs) = one_more x (gather l) (gather_there l hs)

-- The description of settings that a tablet has reported reads inside of every table.
pub description-IsReported : (s : TabletSettings) → IsReported s → description s ≢ none
unfolding description
description-IsReported s w = gather_there (description_lines s) (
  search (pick_four, w.command_set),
  (
    tt,
    (
      search (pick_four, w.terminator),
      (
        tt,
        (
          tt,
          (
            tt,
            (
              search (pick_four, w.parity),
              (
                tt,
                (
                  tt,
                  (
                    tt,
                    (
                      search (pick_four, w.transfer_mode),
                      (
                        tt,
                        (
                          search (pick_four, w.transfer_rate),
                          (
                            search (pick_four, w.resolution),
                            (
                              tt,
                              (
                                tt,
                                (
                                  tt,
                                  (
                                    tt,
                                    (
                                      tt,
                                      (
                                        tt,
                                        (
                                          tt,
                                          (
                                            tt,
                                            (
                                              tt,
                                              (tt, (tt, (tt, (tt, (tt, (tt, (tt, (tt, tt)))))))),
                                            ),
                                          ),
                                        ),
                                      ),
                                    ),
                                  ),
                                ),
                              ),
                            ),
                          ),
                        ),
                      ),
                    ),
                  ),
                ),
              ),
            ),
          ),
        ),
      ),
    ),
  ),
)

-- After an import of any text the description reads inside of every table.
pub import_state-description :
    (stack : ℕ) (state : List ℕ) (s : TabletSettings)
    → description (import_state stack state s) ≢ none
import_state-description stack state s =
    description-IsReported (import_state stack state s) (import_state-IsReported stack state s).1
