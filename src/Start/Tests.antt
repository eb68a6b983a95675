-- ===== src/Start/Tests.antt =====
-- A command line.
use tablet_magic.Base.{ℕ, ◌≡◌, true, ◌||◌, List, [], ◌∷◌}
use tablet_magic.Format.{codes}
use tablet_magic.Start.Options.{process_arguments}
use tablet_magic.Start.Sane.{IsSane, process_arguments-IsSane}

-- `-c -o -n 5 -M 3:4`.
abbrev options : List (ℕ × List ℕ)
options = (b'c', []) ∷ (b'o', []) ∷ (b'n', codes "5") ∷ (b'M', codes "3:4") ∷ []

process_arguments-IsSane_example :
    let a = process_arguments (λ s. true) options in
    IsSane a × (a.startoff ≡ true → a.quit || a.command ≡ true)
process_arguments-IsSane_example = process_arguments-IsSane (λ s. true) options
