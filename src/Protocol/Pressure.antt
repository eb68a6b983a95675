-- ===== src/Protocol/Pressure.antt =====
-- The pressure that the interpreters leave, as arithmetic on the packet's bytes.
use tablet_magic.Base.{
  ℕ, zero, suc, ◌+◌, ◌-◌, ◌*◌, ◌/◌, ◌%◌, ◌^◌, ◌≤◌, ◌<◌, ◌≡◌, refl, ◌∙◌, ap, arith, bit_and, bit_or,
  Bool, true, false, not, ◌&&◌, ◌==◌, ltb, if◌then◌else◌, List, inl, inr, Bool-cases, differ,
}
use tablet_magic.Settings.Constants.{coord_sys_absolute}
use tablet_magic.Bits.{has, byte_table, and_ones, all_below, all_below_sound, ◌<<◌}
use tablet_magic.Stylus.{Stylus, set_buttons}
use tablet_magic.Protocol.Sensing.{Sensing, byte}
use tablet_magic.Protocol.Fields.{or_fields}
use tablet_magic.Protocol.WacomIv.{
  raw_press, press_of, process_wacom_iv_13, process_wacom_iv_base, engage, settle, is_disengaged,
}
use tablet_magic.Protocol.WacomIis.{
  Pressed, is_sd, iis_raw, process_wacom_iis_binary, iis_start, iis_pressed, press_branch,
  pressure_branch, leave, confine,
}
use tablet_magic.Protocol.TabletPc.{tpc_pressure, process_tablet_pc, move}

-- Seven bits with the highest inverted: an offset of 64 in two's complement.
abbrev pub offset_seven : ℕ → ℕ
offset_seven b = (b + 64) % 128

old_lem :
    (x : ℕ) → x < 256 → bit_or (bit_and x 0x3f) (bit_and (255 - x) 0x40) << 1 ≡ offset_seven x * 2
unfolding all_below
old_lem x h =
    byte_table (λ x. bit_or (bit_and x 0x3f) (bit_and (255 - x) 0x40) << 1)
      (λ x. offset_seven x * 2) refl x h

new_bits : ℕ → ℕ → ℕ
new_bits a x = bit_or (bit_or a (bit_and x 0x3f << 1)) (bit_and (255 - x) 0x40 << 1)

new_lem : (a x : ℕ) → a < 2 → x < 256 → new_bits a x ≡ offset_seven x * 2 + a
unfolding all_below new_bits
new_lem zero x ha h = byte_table (new_bits 0) (λ x. offset_seven x * 2 + 0) refl x h
new_lem (suc zero) x ha h = byte_table (new_bits 1) (λ x. offset_seven x * 2 + 1) refl x h
new_lem (suc (suc a)) x ha h = omega arith

and_0x04 : (x : ℕ) → x < 256 → bit_and x 0x04 / 2 ^ 2 ≡ x / 4 % 2
unfolding all_below
and_0x04 x h = byte_table (λ x. bit_and x 0x04 / 2 ^ 2) (λ x. x / 4 % 2) refl x h

raw_press_lem :
    (version : ℕ) (pk : List ℕ)
    → byte pk 3 < 256
    → byte pk 6 < 256
    → raw_press version pk
      ≡ offset_seven (byte pk 6) * 2 + (if ltb version 12 then 0 else byte pk 3 / 4 % 2)
unfolding raw_press new_bits
raw_press_lem version pk h3 h6 = elim (Bool-cases (ltb version 12)) [
  | inl old ↦ rw old (old_lem (byte pk 6) h6 ∙ omega arith)
  | inr new ↦
      rw (new, and_0x04 (byte pk 3) h3) (new_lem (byte pk 3 / 4 % 2) (byte pk 6) (omega arith) h6)
]

-- Outside mouse mode an engaged packet of protocol IV sets a pressure of (raw - 1) / 254 of 65535,
-- none if raw is 0, where raw is twice the pressure byte's seven bits, the highest inverted, and
-- from version 1.2 on one more bit of byte 3. It never wraps.
pub process_wacom_iv_13-pressure :
    (t : Sensing) (pk : List ℕ) (s : Stylus)
    → byte pk 3 < 256
    → byte pk 6 < 256
    → t.mouse_mode ≡ false
    → is_disengaged pk ≡ false
    → let raw =
        offset_seven (byte pk 6) * 2 + (if ltb t.version_tenths 12 then 0 else byte pk 3 / 4 % 2) in
      let s' = process_wacom_iv_13 t pk 7 s in
      (s'.pressure ≡ (raw - 1) * 65535 / 254) × (s'.pressure ≤ 65535)
unfolding process_wacom_iv_13 process_wacom_iv_base engage settle set_buttons press_of
process_wacom_iv_13-pressure t pk s h3 h6 still engaged =
    let raw = raw_press_lem t.version_tenths pk h3 h6 in
    let small : (if ltb t.version_tenths 12 then 0 else byte pk 3 / 4 % 2) ≤ 1 = ground arith in
    rw (still, engaged, raw) (ground arith, ground arith)

tpc_bits : (a b : ℕ) → b < 128 → bit_or (a << 7) b ≡ a * 128 + b
tpc_bits a b h = or_fields 7 a b h ∙ omega arith

-- A packet of nine bytes of the TabletPC with the stylus near sets a pressure of (press - 24) / 231 of
-- 65535, none up to 24, where press is eight bits of bytes 6 and 5. It never wraps.
pub process_tablet_pc-pressure :
    (pk : List ℕ) (s : Stylus)
    → has (byte pk 0) 0x20 ≡ true
    → let press = byte pk 6 % 2 * 128 + byte pk 5 % 128 in
      let s' = process_tablet_pc pk 9 s in
      (s'.pressure ≡ (press - 24) * 65535 / 231) × (s'.pressure ≤ 65535)
unfolding process_tablet_pc tpc_pressure set_buttons move
process_tablet_pc-pressure pk s near =
    let bits = tpc_bits (byte pk 6 % 2) (byte pk 5 % 128) (omega arith) in
    elim (Bool-cases s.off_tablet) [
      | inl away ↦
          rw (near, away, and_ones 1 (byte pk 6), and_ones 7 (byte pk 5), bits)
            (ground arith, ground arith)
      | inr here ↦
          rw (near, here, and_ones 1 (byte pk 6), and_ones 7 (byte pk 5), bits)
            (ground arith, ground arith)
    ]

near_engaged : (x : ℕ) → x < 256 → has x 0x40 ≡ true → (bit_and x 0x60 == 0x20) ≡ false
unfolding all_below
near_engaged x h near =
    let table = all_below_sound (λ x. not (has x 0x40 && (bit_and x 0x60 == 0x20))) 256 x refl h in
    ground arith

leave-engaged :
    (pk : List ℕ) (p : Pressed) → (bit_and (byte pk 0) 0x60 == 0x20) ≡ false → leave pk p ≡ p
unfolding leave
leave-engaged pk p h = rw h

confine-still : (t : Sensing) (p : Pressed) → t.mouse_mode ≡ false → confine t p ≡ p
unfolding confine
confine-still t p h = elim (Bool-cases (t.settings.coordsys == coord_sys_absolute)) [
  | inl absolute ↦ rw (h, absolute)
  | inr relative ↦ rw (h, relative)
]

move-pressure : (ot : Bool) (s : Stylus) → (move ot s).pressure ≡ s.pressure
unfolding move
move-pressure ot s = elim (Bool-cases (differ s.off_tablet ot)) [ inl h ↦ rw h | inr h ↦ rw h ]

pressure_branch-wraps :
    (pk : List ℕ) (s : Stylus)
    → has (byte pk 0) 0x40 ≡ true
    → 94 < iis_raw pk
    → iis_raw pk < 128
    → (pressure_branch pk s).0.pressure ≡ (iis_raw pk - 34) * 65535 / 60 - 65536
unfolding pressure_branch
pressure_branch-wraps pk s near big bound = rw near (ground arith)

press_branch-pressure :
    (t : Sensing) (pk : List ℕ) (s : Stylus)
    → is_sd t.series ≡ false
    → has (byte pk 0) 0x10 ≡ true
    → press_branch t pk s ≡ pressure_branch pk s
unfolding press_branch
press_branch-pressure t pk s no_sd pressing = rw (no_sd, pressing)

-- A pressure packet of protocol II-S, on the tablet and outside mouse mode, of a tablet that is no
-- SD, wraps for a raw pressure from 95 on: the result is 65536 less than the scaled pressure, while 94
-- is full pressure.
pub process_wacom_iis_binary-wraps :
    (t : Sensing) (pk : List ℕ) (s : Stylus)
    → is_sd t.series ≡ false
    → t.mouse_mode ≡ false
    → has (byte pk 0) 0x10 ≡ true
    → has (byte pk 0) 0x40 ≡ true
    → byte pk 0 < 256
    → 94 < iis_raw pk
    → iis_raw pk < 128
    → (process_wacom_iis_binary t pk 7 s).pressure ≡ (iis_raw pk - 34) * 65535 / 60 - 65536
unfolding process_wacom_iis_binary iis_pressed set_buttons
process_wacom_iis_binary-wraps t pk s no_sd still pressing near small big bound =
    let engaged = near_engaged (byte pk 0) small near in
    let start = iis_start t pk s in
    let p = iis_pressed t pk s in
    move-pressure p.2 p.0
    ∙ ap (λ (p : Pressed). p.0.pressure)
        (confine-still t (leave pk (press_branch t pk start)) still)
    ∙ ap (λ (p : Pressed). p.0.pressure) (leave-engaged pk (press_branch t pk start) engaged)
    ∙ ap (λ (p : Pressed). p.0.pressure) (press_branch-pressure t pk start no_sd pressing)
    ∙ pressure_branch-wraps pk start near big bound
