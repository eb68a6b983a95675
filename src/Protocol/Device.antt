-- ===== src/Protocol/Device.antt =====
-- `ProcessWacomV`, the packet that names the tool: its layout as an encoder, and what the interpreter
-- makes of it.
use tablet_magic.Base.{
  ℕ, ◌+◌, ◌*◌, ◌/◌, ◌%◌, ◌^◌, ◌<◌, ◌≡◌, refl, ◌∙◌, arith, bit_and, bit_or, true, false, ◌==◌, List,
  [], ◌∷◌,
}
use tablet_magic.Bits.{and_ones, byte_table, all_below, ◌<<◌}
use tablet_magic.Stylus.{Stylus, set_buttons}
use tablet_magic.Protocol.Sensing.{byte}
use tablet_magic.Protocol.WacomV.{
  v_toolid, v_serialno, kind, device, tool_type, is_eraser, v_dispatch, process_wacom_v,
}
use tablet_magic.Protocol.Fields.{or_fields, and_0x60}

-- A tool number of twelve bits and a serial number of 32 behind the first byte.
abbrev pub device_packet : (head id serial : ℕ) → List ℕ
device_packet head id serial =
    head
    ∷ (id / 32)
    ∷ (id % 32 * 4 + serial / 2 ^ 30)
    ∷ (serial / 2 ^ 23 % 128)
    ∷ (serial / 2 ^ 16 % 128)
    ∷ (serial / 2 ^ 9 % 128)
    ∷ (serial / 4 % 128)
    ∷ (serial % 4 * 32)
    ∷ 0
    ∷ []

and_0x7c : (x : ℕ) → x < 256 → bit_and x 0x7c ≡ x / 4 % 32 * 4
unfolding all_below
and_0x7c x h = byte_table (λ x. bit_and x 0x7c) (λ x. x / 4 % 32 * 4) refl x h

v_toolid_lem :
    (pk : List ℕ) → byte pk 2 < 256 → v_toolid pk ≡ byte pk 1 % 128 * 32 + byte pk 2 / 4 % 32
unfolding v_toolid
v_toolid_lem pk h =
    let a = byte pk 1 % 128 in
    let b = byte pk 2 / 4 % 32 in
    rw (and_ones 7 (byte pk 1), and_0x7c (byte pk 2) h)
      (or_fields 5 a (b * 4 / 4) (omega arith) ∙ omega arith)

-- Fields of 2, 7, 7, 7, 7 and 2 bits side by side.
serial_fields :
    (a b c d e f : ℕ)
    → a < 4
    → b < 128
    → c < 128
    → d < 128
    → e < 128
    → f < 4
    → bit_or (bit_or (bit_or (bit_or (bit_or (a << 30) (b << 23)) (c << 16)) (d << 9)) (e << 2)) f
      ≡ a * 2 ^ 30 + b * 2 ^ 23 + c * 2 ^ 16 + d * 2 ^ 9 + e * 4 + f
serial_fields a b c d e f ha hb hc hd he hf =
    let ab = a * 128 + b in
    let abc = ab * 128 + c in
    let abcd = abc * 128 + d in
    let abcde = abcd * 128 + e in
    let e1 : bit_or (a << 30) (b << 23) ≡ ab << 23 =
      or_fields 30 a (b << 23) (omega arith) ∙ omega arith in
    let e2 : bit_or (ab << 23) (c << 16) ≡ abc << 16 =
      or_fields 23 ab (c << 16) (omega arith) ∙ omega arith in
    let e3 : bit_or (abc << 16) (d << 9) ≡ abcd << 9 =
      or_fields 16 abc (d << 9) (omega arith) ∙ omega arith in
    let e4 : bit_or (abcd << 9) (e << 2) ≡ abcde << 2 =
      or_fields 9 abcd (e << 2) (omega arith) ∙ omega arith in
    rw (e1, e2, e3, e4) (or_fields 2 abcde f (omega arith) ∙ omega arith)

v_serialno_lem :
    (pk : List ℕ)
    → byte pk 7 < 256
    → v_serialno pk
      ≡ byte pk 2 % 4 * 2 ^ 30
        + byte pk 3 % 128 * 2 ^ 23
        + byte pk 4 % 128 * 2 ^ 16
        + byte pk 5 % 128 * 2 ^ 9
        + byte pk 6 % 128 * 4
        + byte pk 7 / 32 % 4
unfolding v_serialno
v_serialno_lem pk h =
    rw
      (
        and_ones 2 (byte pk 2),
        and_ones 7 (byte pk 3),
        and_ones 7 (byte pk 4),
        and_ones 7 (byte pk 5),
        and_ones 7 (byte pk 6),
        and_0x60 (byte pk 7) h,
      )
      (serial_fields (byte pk 2 % 4) (byte pk 3 % 128) (byte pk 4 % 128) (byte pk 5 % 128)
          (byte pk 6 % 128) (byte pk 7 / 32 % 4 * 32 / 32) (omega arith) (omega arith) (omega arith)
          (omega arith) (omega arith) (omega arith)
        ∙ omega arith)

-- A packet that names a tool by a number of twelve bits and a serial number of 32 bits puts both
-- into the stylus and chooses the tool by the number, with the eraser flag for an eraser. The
-- stylus is then near and on the tablet, and keeps its mask of buttons.
pub process_wacom_v-device :
    (head id serial : ℕ) (s : Stylus)
    → id < 4096
    → serial < 2 ^ 32
    → kind head ≡ device
    → let s' = process_wacom_v (device_packet head id serial) 9 s in
      (s'.toolid ≡ id)
      × (s'.serialno ≡ serial)
      × (s'.tool ≡ tool_type id)
      × (s'.eraser_flag ≡ is_eraser (tool_type id))
      × (s'.off_tablet ≡ false)
      × (s'.pen_near ≡ true)
      × (s'.button_mask ≡ s.button_mask)
unfolding process_wacom_v v_dispatch set_buttons
process_wacom_v-device head id serial s hid hserial names =
    let pk = device_packet head id serial in
    let tool : v_toolid pk ≡ id = v_toolid_lem pk (omega arith) ∙ omega arith in
    let number : v_serialno pk ≡ serial = v_serialno_lem pk (omega arith) ∙ omega arith in
    let same : (s.button_mask == s.button_mask) ≡ true = ground arith in
    rw (names, same, tool) (refl, number, refl, refl, refl, refl, refl)
