-- ===== src/Daemon/Identify.antt =====
-- The branch of `ProcessCommandReply` for `~#`: the model, the ROM version and the unique number of
-- the tablet from its reply.
use tablet_magic.Base.{
  ℕ, ◌+◌, ◌*◌, ◌-◌, ◌%◌, ◌^◌, Bool, true, false, ◌&&◌, ltb, leb, ◌==◌, if◌then◌else◌, List, [], ◌∷◌,
  ◌++◌, map, length, drop, get_or, Option, none, some,
}
use tablet_magic.Int.{pos, pos_part}
use tablet_magic.Floats.{Floats}
use tablet_magic.Format.{codes, is_digit, is_space, skip_space, expect}
use tablet_magic.Series.{
  Series, unknown, intuos2, intuos, graphire3, graphire2, graphire, cintiq, cintiq_partner, art_z,
  art_pad, pen_partner, sd_series, tablet_pc, fujitsu_p, cal_comp, pl_series, ud_series,
}
use tablet_magic.Daemon.State.{Tablet, set_stylus}
use tablet_magic.Daemon.Queue.{series_code}

-- `strncmp(s, code, strlen(code)) == 0`.
unfoldable pub begins_with : List ℕ → List ℕ → Bool
begins_with [] s = true
begins_with (c ∷ code) [] = false
begins_with (c ∷ code) (d ∷ s) = d == c && begins_with code s

-- The order of `series_list`.
abbrev pub all_series : List Series
all_series =
    unknown ∷ intuos2 ∷ intuos ∷ graphire3 ∷ graphire2 ∷ graphire ∷ cintiq ∷ cintiq_partner ∷ art_z
    ∷ art_pad ∷ pen_partner ∷ sd_series ∷ tablet_pc ∷ fujitsu_p ∷ cal_comp ∷ pl_series ∷ ud_series
    ∷ []

-- The first entry whose code begins the text; the index stays as it was if there is none.
unfoldable pub find_series : List ℕ → Series → List Series → Series
unfolding begins_with series_code
find_series rom old [] = old
find_series rom old (s ∷ rest) =
    let later = find_series rom old rest in if begins_with (series_code s) rom then s else later

abbrev pub parses_ud_setup : Series → Bool
parses_ud_setup sd_series = false
parses_ud_setup tablet_pc = false
parses_ud_setup cal_comp = false
parses_ud_setup _ = true

-- The word that `%s` reads, and what follows it.
unfoldable pub take_word : List ℕ → List ℕ × List ℕ
take_word [] = ([], [])
take_word (c ∷ s) = let r = take_word s in if is_space c then ([], c ∷ s) else (c ∷ r.0, r.1)

abbrev pub word_of : List ℕ → List ℕ
word_of s = (take_word (skip_space s)).0

-- `rom_version`, which stays as it was where there is no word.
unfoldable pub rom_of : List ℕ → List ℕ → List ℕ
unfolding take_word skip_space
rom_of body old =
    if is_digit (get_or body 0 0)
    then codes "SD-" ++ word_of body
    else elim (word_of body) [ [] ↦ old | c ∷ w ↦ c ∷ w ]

-- Commas become spaces.
abbrev pub commas_to_spaces : List ℕ → List ℕ
commas_to_spaces s = map (λ c. if c == b',' then b' ' else c) s

-- A `char` widened to 64 bits.
abbrev pub char_u64 : ℕ → ℕ
char_u64 b = if ltb b 128 then b else 2 ^ 64 - (256 - b)

-- `tid += c * (1 << (q++ % 24))`, from some q and tid on.
unfoldable pub add_weighted : ℕ → ℕ → List ℕ → ℕ
add_weighted q tid [] = tid
add_weighted q tid (c ∷ s) = add_weighted (q + 1) ((tid + char_u64 c * 2 ^ (q % 24)) % 2 ^ 64) s

abbrev pub unique_number : List ℕ → List ℕ → ℕ
unique_number path reply = add_weighted 1 0 (path ++ reply)

module _ (fl : Floats) where
  open fl use {of_int, literal, add, mul, floor, to_int, scan}

  -- `%*s V%f`, and `floorf(base_version * 10 + 0.1)`, the version in tenths.
  unfoldable pub scan_version : List ℕ → Option ℕ
  unfolding take_word skip_space expect
  scan_version body =
      let r = take_word (skip_space body) in
      elim r.0 [
        | [] ↦ none
        | c ∷ w ↦ elim (expect b'V' (skip_space r.1)) [
          | none ↦ none
          | some t ↦ elim (scan t) [
            | none ↦ none
            | some v ↦
                some (pos_part (to_int (floor (add (mul v (of_int (pos 10))) (literal 1 1)))))
          ]
        ]
      ]

  abbrev pub version_of : Series → List ℕ → ℕ → ℕ
  version_of sd_series body old = 12
  version_of s body old = elim (scan_version body) [ none ↦ old | some n ↦ n ]

  -- The array `rom_version` has 64 bytes.
  unfoldable pub identify : List ℕ → Tablet → Option Tablet
  unfolding rom_of find_series add_weighted scan_version
  identify reply t =
      let text = commas_to_spaces reply in
      let body = drop 2 text in
      let rom = rom_of body t.rom_version in
      let series = find_series rom t.series all_series in
      let s = t.output.stylus in
      let near = s.proximity in
      let told = record s {
        proximity = record near { unique_id = unique_number t.device_path text };
      } in
      let t' = record (set_stylus told t) {
        rom_version = rom;
        series = series;
        can_parse_ud_setup = parses_ud_setup series;
        version_tenths = version_of series body t.version_tenths;
      } in
      if leb 64 (length rom) then none else some t'
