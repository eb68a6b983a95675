-- ===== src/Settings/RoundTrip.antt =====
-- Settings that were written as a text and read back: `SettingsString` against `Import`.
use mathlib.Core.List.{append_assoc}
use tablet_magic.Base.{
  ℕ, suc, ◌/◌, ◌%◌, ◌^◌, ◌≡◌, refl, ap, ◌∙◌, arith, false, Bool, List, [], ◌∷◌, ◌++◌, length, map,
  All, some,
}
use tablet_magic.Int.{ℤ}
use tablet_magic.Format.{
  codes, is_digit, is_hex, EndsBefore, hex_digit-ne-tilde, scan_int, print_int, scan_hex, print_hex,
  IsInt, scan_int-print_int, scan_hex-print_hex,
}
use tablet_magic.Settings.{
  TabletSettings, setup_body, derived_packet_size, scan_fields, scan_state, skip_header,
  import_state, print_fields, tail_fields, setup_text, settings_string,
}
use tablet_magic.Settings.Mask.{reported, import_mask-setup_body, setup_body-lt}

abbrev IsIntField : ℕ × ℤ → Type 0
IsIntField f = IsInt f.1

fields_end_hex :
    (l : List (ℕ × ℤ)) (rest : List ℕ)
    → EndsBefore is_hex rest
    → EndsBefore is_hex (print_fields l ++ rest)
unfolding print_fields
fields_end_hex [] rest h = h
fields_end_hex (f ∷ l) rest h = refl

fields_end_digit :
    (l : List (ℕ × ℤ)) (rest : List ℕ)
    → EndsBefore is_digit rest
    → EndsBefore is_digit (print_fields l ++ rest)
unfolding print_fields
fields_end_digit [] rest h = h
fields_end_digit (f ∷ l) rest h = refl

scan_fields-suc :
    (k : ℕ) (v : ℤ) (t rest : List ℕ)
    → scan_int t ≡ some (v, rest)
    → scan_fields (suc k) (b',' ∷ t) ≡ v ∷ scan_fields k rest
unfolding scan_fields
scan_fields-suc k v t rest e = rw (e, scan_fields)

-- All the numbers come back, whatever follows them.
scan_fields-print_fields :
    (l : List (ℕ × ℤ)) (rest : List ℕ)
    → All IsIntField l
    → EndsBefore is_digit rest
    → scan_fields (length l) (print_fields l ++ rest) ≡ map (λ f. f.1) l
unfolding print_fields
scan_fields-print_fields [] rest h e = unfold scan_fields in refl
scan_fields-print_fields ((w, v) ∷ l) rest h e =
    let read = scan_int-print_int w v (print_fields l ++ rest) h.0 (fields_end_digit l rest e) in
    let t = print_int w v ++ (print_fields l ++ rest) in
    rw (append_assoc (print_int w v) (print_fields l) rest) (
      scan_fields-suc (length l) v t (print_fields l ++ rest) read
      ∙ ap (λ (t : List ℤ). v ∷ t) (scan_fields-print_fields l rest h.1 e))

-- What the import of a setup string of s makes of the settings t.
abbrev pub transferred : TabletSettings → TabletSettings → TabletSettings
transferred s t =
    let r = reported s in
    record r {
      mem_slot = t.mem_slot;
      xscale = t.xscale;
      yscale = t.yscale;
      packet_size = derived_packet_size r.command_set r.output_format r.tilt;
    }

abbrev pub HasInts : TabletSettings → Type 0
HasInts s = All IsIntField (tail_fields s)

scan_state-some :
    (stack mask : ℕ) (t rest : List ℕ)
    → scan_hex t ≡ some (mask, rest)
    → scan_state stack t ≡ (mask, scan_fields 4 rest)
unfolding scan_state
scan_state-some stack mask t rest e = rw (e, scan_state)

scan_state-setup_text :
    (stack : ℕ) (s : TabletSettings) (rest : List ℕ)
    → HasInts s
    → EndsBefore is_digit rest
    → scan_state stack (setup_text false s ++ rest) ≡ (setup_body s, map (λ f. f.1) (tail_fields s))
unfolding setup_text
scan_state-setup_text stack s rest h d =
    let fields = print_fields (tail_fields s) in
    let read = scan_hex-print_hex (setup_body s) (fields ++ rest) (setup_body-lt s) refl in
    rw (append_assoc (print_hex 8 (setup_body s)) fields rest) (
      scan_state-some stack (setup_body s) _ (fields ++ rest) read
      ∙ ap (λ (l : List ℤ). (setup_body s, l)) (scan_fields-print_fields (tail_fields s) rest h d))

-- What may stand before the setup string: nothing in a preset of the preferences, `~R` in a reply,
-- `~*` and `~W1` in the commands that set the active settings and a memory bank.
pub data Header : Type 0 where
  bare reply active : Header
  memory : ℕ → Header

abbrev pub header_text : Header → List ℕ
header_text bare = []
header_text reply = codes "~R"
header_text active = codes "~*"
header_text (memory bank) = b'~' ∷ b'W' ∷ bank ∷ []

skip_header-header :
    (header : Header) (s : TabletSettings) (rest : List ℕ)
    → skip_header (header_text header ++ (setup_text false s ++ rest)) ≡ setup_text false s ++ rest
skip_header-header bare s rest =
    let d = setup_body s / 16 ^ 7 % 16 in
    unfold skip_header setup_text print_hex in rw (hex_digit-ne-tilde d (omega arith)) refl
skip_header-header reply s rest = unfold skip_header in refl
skip_header-header active s rest = unfold skip_header in refl
skip_header-header (memory bank) s rest = unfold skip_header in refl

pub import_state-setup_text :
    (stack : ℕ) (header : Header) (s t : TabletSettings) (rest : List ℕ)
    → HasInts s
    → EndsBefore is_digit rest
    → import_state stack (header_text header ++ (setup_text false s ++ rest)) t ≡ transferred s t
unfolding import_state
import_state-setup_text stack header s t rest h d = rw (skip_header-header header s rest) (
    rw (scan_state-setup_text stack s rest h d)
      (import_mask-setup_body s t (map (λ f. f.1) (tail_fields s))))

-- A text that fits in the array is the one that is printed.
settings_string-fits :
    (notail : Bool) (s : TabletSettings) (text : List ℕ)
    → settings_string notail s ≡ some text
    → text ≡ setup_text notail s
unfolding settings_string
settings_string-fits notail s text h = ground arith

-- Behind any header, if the setup string of s fits in its array of 32 bytes, importing it into t gives
-- t the fields of s, each cut to the bits it has in the mask, the four numbers of s, and the packet
-- size that follows from them; only the slot and the scale of t stay. The numbers of s have to be of
-- type `int`, and no digit follows the string.
pub import_state-settings_string :
    (stack : ℕ) (header : Header) (s t : TabletSettings) (text rest : List ℕ)
    → HasInts s
    → settings_string false s ≡ some text
    → EndsBefore is_digit rest
    → import_state stack (header_text header ++ (text ++ rest)) t ≡ transferred s t
import_state-settings_string stack header s t text rest h made d =
    rw (settings_string-fits false s text made) (import_state-setup_text stack header s t rest h d)
