-- ===== src/Control/Written.antt =====
-- The text of the geometry, and the numbers that are read from it.
use mathlib.Core.List.{append_assoc}
use tablet_magic.Base.{
  ℕ, ◌≡◌, refl, ap, Bool, true, false, if◌then◌else◌, List, [], ◌∷◌, ◌++◌, map, All, some,
}
use tablet_magic.Int.{ℤ, pos, ◌-ℤ◌}
use tablet_magic.Format.{
  codes, is_digit, skip_space, expect, scan_int, print_int, EndsBefore, IsInt, scan_int-print_int,
}
use tablet_magic.Protocol.Sensing.{max_x, max_y}
use tablet_magic.Stylus.{stylus_tip, stylus_button1, stylus_button2, stylus_eraser}
use tablet_magic.Daemon.State.{Tablet}
use tablet_magic.Daemon.Queue.{spaced}
use tablet_magic.Control.Answers.{flag, message_geometry}
use tablet_magic.Control.Handle.{scan_numbers}

-- Numbers, some behind a colon.
abbrev pub written : List (Bool × ℤ) → List ℕ
written [] = []
written ((colon, v) ∷ l) = (if colon then codes " :" else []) ++ (spaced v ++ written l)

scan_int-spaced :
    (v : ℤ) (rest : List ℕ)
    → IsInt v
    → EndsBefore is_digit rest
    → scan_int (spaced v ++ rest) ≡ some (v, rest)
unfolding scan_int
scan_int-spaced v rest h ends = scan_int-print_int 0 v rest h ends

written-ends :
    (l : List (Bool × ℤ)) (rest : List ℕ)
    → EndsBefore is_digit rest
    → EndsBefore is_digit (written l ++ rest)
written-ends [] rest h = h
written-ends ((true, v) ∷ l) rest h = refl
written-ends ((false, v) ∷ l) rest h = refl

expect-colon : (s : List ℕ) → expect b':' (skip_space (b' ' ∷ b':' ∷ s)) ≡ some s
unfolding expect skip_space
expect-colon s = refl

abbrev tacked : ℤ → List ℤ × List ℕ → List ℤ × List ℕ
tacked v (vs, s) = (v ∷ vs, s)

pub scan_numbers-written :
    (l : List (Bool × ℤ)) (rest : List ℕ)
    → All (λ f. IsInt f.1) l
    → EndsBefore is_digit rest
    → scan_numbers (map (λ f. f.0) l) (written l ++ rest) ≡ (map (λ f. f.1) l, rest)
unfolding scan_numbers
scan_numbers-written [] rest h ends = refl
scan_numbers-written ((true, v) ∷ l) rest h ends =
    let read = scan_int-spaced v (written l ++ rest) h.0 (written-ends l rest ends) in
    let go = scan_numbers-written l rest h.1 ends in
    rw (append_assoc (print_int 0 v) (written l) rest)
      (rw (expect-colon (spaced v ++ (written l ++ rest)), read, scan_numbers) (ap (tacked v) go))
scan_numbers-written ((false, v) ∷ l) rest h ends =
    let read = scan_int-spaced v (written l ++ rest) h.0 (written-ends l rest ends) in
    let go = scan_numbers-written l rest h.1 ends in
    rw (append_assoc (print_int 0 v) (written l) rest) (rw (read, scan_numbers) (ap (tacked v) go))

-- The thirteen numbers of the geometry, with the colons.
abbrev pub geometry : Tablet → List (Bool × ℤ)
geometry t =
    let m = t.output.button_mapping in
    let r = t.mapping in
    let s = t.screen in
    (false, r.x)
    ∷ (false, r.y)
    ∷ (false, max_x r -ℤ pos 1)
    ∷ (false, max_y r -ℤ pos 1)
    ∷ (true, s.x)
    ∷ (false, s.y)
    ∷ (false, max_x s -ℤ pos 1)
    ∷ (false, max_y s -ℤ pos 1)
    ∷ (true, pos (m stylus_tip))
    ∷ (false, pos (m stylus_button1))
    ∷ (false, pos (m stylus_button2))
    ∷ (false, pos (m stylus_eraser))
    ∷ (true, flag t.mouse_mode)
    ∷ []

pub message_geometry-written :
    (scaling : List ℕ) (t : Tablet)
    → message_geometry scaling t ≡ codes "[geom]" ++ (written (geometry t) ++ (b' ' ∷ scaling))
unfolding message_geometry
message_geometry-written scaling t = simp append_assoc
