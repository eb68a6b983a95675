-- ===== src/Start/Sane.antt =====
-- The arguments that are accepted are in range.
use tablet_magic.Base.{
  ◌==◌, ℕ, suc, ◌<◌, ◌≡◌, refl, sym, ◌∙◌, arith, if◌then◌else◌, Option-cases, inl, inr, zero, Bool,
  true, false, ◌||◌, List, [], ◌∷◌, some,
}
use tablet_magic.Int.{ℤ, pos, negsuc, ◌≤ℤ◌}
use tablet_magic.Start.Options.{
  Arguments, default_arguments, get_int_argument, with_int, store_priority, scan_pair, click_types,
  set_mapping, remap, store_scaling, is_float_text, fail, apply_ranged, apply_corner, apply_option,
  apply_options, process_arguments,
}

-- The priority is in range unless the arguments are refused, and every button stands for one of the
-- system's.
pub record IsSane (a : Arguments) : Type 0 where
  pub priority_least : a.usage ≡ false → negsuc 19 ≤ℤ a.priority
  pub priority_most : a.usage ≡ false → a.priority ≤ℤ pos 20
  pub mapped : (q : ℕ) → a.button_mapping q < click_types

-- What leaves the three fields alone keeps the property.
same-IsSane :
    (u a : Arguments)
    → u.priority ≡ a.priority
    → u.usage ≡ a.usage
    → u.button_mapping ≡ a.button_mapping
    → IsSane a
    → IsSane u
same-IsSane u a p r m h = record {
  priority_least = λ e. rw p (h.priority_least (sym r ∙ e));
  priority_most = λ e. rw p (h.priority_most (sym r ∙ e));
  mapped = λ q. rw m (h.mapped q);
}

fail-IsSane : (a : Arguments) → IsSane a → IsSane (fail a)
fail-IsSane a h = record { priority_least = λ e. cc; priority_most = λ e. cc; mapped = h.mapped }

IsSane-if : (b : Bool) {x y : Arguments} → IsSane x → IsSane y → IsSane (if b then x else y)
IsSane-if true hx hy = hx
IsSane-if false hx hy = hy

store_priority-IsSane : (v : ℤ) (a : Arguments) → IsSane a → IsSane (store_priority v a)
unfolding store_priority
store_priority-IsSane v a h = record {
  priority_least = λ e. ground arith;
  priority_most = λ e. ground arith;
  mapped = λ q. ground (arith, h.mapped q);
}

set_mapping-IsSane : (m1 m2 : ℤ) (a : Arguments) → IsSane a → IsSane (set_mapping m1 m2 a)
unfolding set_mapping
set_mapping-IsSane (pos (suc p)) (pos n) a h = record {
  priority_least = λ e. ground (arith, h.priority_least);
  priority_most = λ e. ground (arith, h.priority_most);
  mapped = λ q. ground (arith, h.mapped q);
}
set_mapping-IsSane (pos (suc p)) (negsuc n) a h = fail-IsSane a h
set_mapping-IsSane (pos zero) m2 a h = fail-IsSane a h
set_mapping-IsSane (negsuc p) m2 a h = fail-IsSane a h

with_int-IsSane :
    (store : ℤ → Arguments → Arguments) (arg : List ℕ) (a : Arguments)
    → ((v : ℤ) → IsSane (store v a))
    → IsSane a
    → IsSane (with_int store arg a)
unfolding with_int
with_int-IsSane store arg a stored h = elim (Option-cases (get_int_argument arg)) [
  | inl e ↦ rw (with_int, e) (fail-IsSane a h)
  | inr hit ↦ rw (with_int, hit.shown) (stored hit.value)
]

remap-IsSane : (arg : List ℕ) (a : Arguments) → IsSane a → IsSane (remap arg a)
unfolding remap
remap-IsSane arg a h = elim (Option-cases (scan_pair arg)) [
  | inl e ↦ rw (remap, e) (fail-IsSane a h)
  | inr hit ↦ rw (remap, hit.shown) (set_mapping-IsSane hit.value.0 hit.value.1 a h)
]

module _ (fits_scaling : List ℕ → Bool) where
  store_scaling-IsSane :
      (arg : List ℕ) (a : Arguments) → IsSane a → IsSane (store_scaling fits_scaling arg a)
  unfolding store_scaling
  store_scaling-IsSane arg a h =
      let a' = record a { scaling = arg } in
      let h' = same-IsSane a' a refl refl refl h in
      IsSane-if (is_float_text arg) (IsSane-if (fits_scaling arg) h' (fail-IsSane a' h'))
        (fail-IsSane a h)

  module _ (c : ℕ) (arg : List ℕ) (a : Arguments) (h : IsSane a) where
    -- A change of another field.
    kept :
        (u : Arguments)
        → u.priority ≡ a.priority
        → u.usage ≡ a.usage
        → u.button_mapping ≡ a.button_mapping
        → IsSane u
    kept u p r m = same-IsSane u a p r m h

    apply_ranged-IsSane : IsSane (apply_ranged fits_scaling c arg a)
    unfolding apply_ranged
    apply_ranged-IsSane =
        IsSane-if (c == b'n')
          (with_int-IsSane store_priority arg a (λ v. store_priority-IsSane v a h) h)
          (IsSane-if (c == b's') (store_scaling-IsSane arg a h)
            (IsSane-if (c == b'M') (remap-IsSane arg a h) (fail-IsSane a h)))

    corner-IsSane :
        (store : ℤ → Arguments → Arguments)
        → ((v : ℤ) → IsSane (store v a))
        → IsSane (with_int store arg a)
    corner-IsSane store stored = with_int-IsSane store arg a stored h

    apply_corner-IsSane : IsSane (apply_corner fits_scaling c arg a)
    unfolding apply_corner
    apply_corner-IsSane =
        IsSane-if (c == b'l')
          (corner-IsSane (λ v b. record b { scr_left = v })
            (λ v. kept (record a { scr_left = v }) refl refl refl))
          (IsSane-if (c == b't')
            (corner-IsSane (λ v b. record b { scr_top = v })
              (λ v. kept (record a { scr_top = v }) refl refl refl))
            (IsSane-if (c == b'r')
              (corner-IsSane (λ v b. record b { scr_right = v })
                (λ v. kept (record a { scr_right = v }) refl refl refl))
              (IsSane-if (c == b'b')
                (corner-IsSane (λ v b. record b { scr_bottom = v })
                  (λ v. kept (record a { scr_bottom = v }) refl refl refl))
                (IsSane-if (c == b'L')
                  (corner-IsSane (λ v b. record b { tab_left = v })
                    (λ v. kept (record a { tab_left = v }) refl refl refl))
                  (IsSane-if (c == b'T')
                    (corner-IsSane (λ v b. record b { tab_top = v })
                      (λ v. kept (record a { tab_top = v }) refl refl refl))
                    (IsSane-if (c == b'R')
                      (corner-IsSane (λ v b. record b { tab_right = v })
                        (λ v. kept (record a { tab_right = v }) refl refl refl))
                      (IsSane-if (c == b'B')
                        (corner-IsSane (λ v b. record b { tab_bottom = v })
                          (λ v. kept (record a { tab_bottom = v }) refl refl refl))
                        (apply_ranged-IsSane))))))))

    apply_option-IsSane : IsSane (apply_option fits_scaling c arg a)
    unfolding apply_option
    apply_option-IsSane =
        IsSane-if (c == b'c') (kept (record a { command = true }) refl refl refl) (
          IsSane-if (c == b'F') (kept (record a { forcepc = true }) refl refl refl) (
            IsSane-if (c == b'3') (kept (record a { baud38400 = true }) refl refl refl) (
              IsSane-if (c == b'q') (kept (record a { quiet = true }) refl refl refl) (
                IsSane-if (c == b'w') (kept (record a { logging = true }) refl refl refl) (
                  IsSane-if (c == b'X') (kept (record a { quit = true }) refl refl refl) (
                    IsSane-if (c == b'm') (kept (record a { mouse = true }) refl refl refl) (
                      IsSane-if (c == b'o') (kept (record a { startoff = true }) refl refl refl) (
                        IsSane-if (c == b'p') (kept (record a { port = some arg }) refl refl refl) (
                          IsSane-if (c == b'i') (kept (record a { init = some arg }) refl refl refl)
                            (apply_corner-IsSane))))))))))

  apply_options-IsSane :
      (options : List (ℕ × List ℕ)) (a : Arguments)
      → IsSane a
      → IsSane (apply_options fits_scaling options a)
  unfolding apply_options
  apply_options-IsSane [] a h = h
  apply_options-IsSane ((c, arg) ∷ rest) a h =
      apply_options-IsSane rest (apply_option fits_scaling c arg a) (apply_option-IsSane c arg a h)

  default_arguments-IsSane : IsSane default_arguments
  unfolding default_arguments
  default_arguments-IsSane = record {
    priority_least = λ e. omega arith;
    priority_most = λ e. omega arith;
    mapped = λ q. ground arith;
  }

  -- Whatever the command line, if it is not refused then the priority is from -20 to 20; every button
  -- stands for one of the system's; and the daemon starts switched off only if it is to quit or is
  -- run by the preference pane.
  pub process_arguments-IsSane :
      (options : List (ℕ × List ℕ))
      → let a = process_arguments fits_scaling options in
        IsSane a × (a.startoff ≡ true → a.quit || a.command ≡ true)
  unfolding process_arguments
  process_arguments-IsSane options =
      let a = apply_options fits_scaling options default_arguments in
      let h = apply_options-IsSane options default_arguments default_arguments-IsSane in
      (same-IsSane (process_arguments fits_scaling options) a refl refl refl h, λ e. ground arith)
