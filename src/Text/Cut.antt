-- ===== src/Text/Cut.antt =====
-- A text that is logged, and its control characters.
use tablet_magic.Base.{
  ℕ, ◌/◌, ◌%◌, ◌<◌, ◌≢◌, ◌≡◌, ◌∙◌, refl, ap, arith, true, false, ◌==◌, All, List, [], ◌∷◌, ◌++◌,
}
use tablet_magic.Format.{c_string, hex_digit, print_hex}
use tablet_magic.Text.{is_print, log_char, log_buffer, log_string}

-- A control character that has no code of its own.
pub record IsPlainControl (c : ℕ) : Type 0 where
  pub shown : c ≢ 0
  pub low : c < 32
  pub no_escape : c ≢ 27
  pub no_tab : c ≢ 9
  pub no_feed : c ≢ 10
  pub no_return : c ≢ 13

log_char-print : (c : ℕ) → is_print c ≡ true → log_char c ≡ c ∷ []
unfolding log_char
log_char-print c h = rw h refl

log_char-control : (c : ℕ) → IsPlainControl c → log_char c ≡ b'\\' ∷ print_hex 2 c ++ (0 ∷ [])
unfolding log_char
log_char-control c h = ground arith

c_string-next : (c : ℕ) (s : List ℕ) → (c == 0) ≡ false → c_string (c ∷ s) ≡ c ∷ c_string s
unfolding c_string
c_string-next c s h = rw h refl

digit-shown : (d : ℕ) → d < 16 → (hex_digit d == 0) ≡ false
digit-shown d h = ground arith

print-shown : (c : ℕ) → is_print c ≡ true → (c == 0) ≡ false
print-shown c h = ground arith

-- The code of a control character ends the text.
c_string-control :
    (c : ℕ) (s : List ℕ)
    → c_string ((b'\\' ∷ print_hex 2 c ++ (0 ∷ [])) ++ s) ≡ b'\\' ∷ print_hex 2 c
unfolding print_hex c_string
c_string-control c s =
    let high = c / 16 % 16 in
    let low = c / 1 % 16 in
    c_string-next b'\\' (hex_digit high ∷ hex_digit low ∷ 0 ∷ s) refl
    ∙ ap (λ l. b'\\' ∷ l)
        (c_string-next (hex_digit high) (hex_digit low ∷ 0 ∷ s) (digit-shown high (omega arith))
          ∙ ap (λ l. hex_digit high ∷ l)
              (c_string-next (hex_digit low) (0 ∷ s) (digit-shown low (omega arith))
                ∙ ap (λ l. hex_digit low ∷ l) refl))

-- What the loop leaves in the buffer, up to its first NUL.
log_buffer-cut :
    (s : List ℕ) (c : ℕ) (rest : List ℕ)
    → All (λ b. is_print b ≡ true) s
    → IsPlainControl c
    → c_string (log_buffer (s ++ (c ∷ rest))) ≡ s ++ (b'\\' ∷ print_hex 2 c)
unfolding log_buffer
log_buffer-cut [] c rest h k =
    ap (λ l. c_string (l ++ log_buffer rest)) (log_char-control c k)
    ∙ c_string-control c (log_buffer rest)
log_buffer-cut (b ∷ s) c rest h k =
    ap (λ l. c_string (l ++ log_buffer (s ++ (c ∷ rest)))) (log_char-print b h.0)
    ∙ c_string-next b (log_buffer (s ++ (c ∷ rest))) (print-shown b h.0)
    ∙ ap (λ l. b ∷ l) (log_buffer-cut s c rest h.1 k)

c_string-text :
    (s : List ℕ) (c : ℕ) (rest : List ℕ)
    → All (λ b. is_print b ≡ true) s
    → (c == 0) ≡ false
    → c_string (s ++ (c ∷ rest)) ≡ s ++ (c ∷ c_string rest)
c_string-text [] c rest h k = c_string-next c rest k
c_string-text (b ∷ s) c rest h k =
    c_string-next b (s ++ (c ∷ rest)) (print-shown b h.0)
    ∙ ap (λ l. b ∷ l) (c_string-text s c rest h.1 k)

control-shown : (c : ℕ) → c ≢ 0 → (c == 0) ≡ false
control-shown c h = ground arith

-- A text that is logged ends at the first control character, other than its NUL, that has no code of its
-- own: what stands before it, if all of it is printed as it is, and the code are shown, and nothing of
-- what follows.
pub log_string-cut :
    (s : List ℕ) (c : ℕ) (rest : List ℕ)
    → All (λ b. is_print b ≡ true) s
    → IsPlainControl c
    → log_string (s ++ (c ∷ rest)) ≡ s ++ (b'\\' ∷ print_hex 2 c)
unfolding log_string
log_string-cut s c rest h k =
    ap (λ l. c_string (log_buffer l)) (c_string-text s c rest h (control-shown c k.shown))
    ∙ log_buffer-cut s c (c_string rest) h k
