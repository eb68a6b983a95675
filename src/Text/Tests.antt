-- ===== src/Text/Tests.antt =====
-- A reply with a control character in it.
use tablet_magic.Base.{◌≡◌, refl, arith, ◌∷◌, ◌++◌}
use tablet_magic.Format.{codes, print_hex}
use tablet_magic.Text.{log_string}
use tablet_magic.Text.Cut.{log_string-cut}

log_string-cut_example :
    log_string (codes "~RE2" ++ (1 ∷ codes "03C9")) ≡ codes "~RE2" ++ (b'\\' ∷ print_hex 2 1)
log_string-cut_example =
    log_string-cut (codes "~RE2") 1 (codes "03C9") (refl, (refl, (refl, (refl, tt))))
      (record {
        shown = λ e. omega arith;
        low = omega arith;
        no_escape = λ e. omega arith;
        no_tab = λ e. omega arith;
        no_feed = λ e. omega arith;
        no_return = λ e. omega arith;
      })
