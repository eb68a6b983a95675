-- ===== src/Protocol/Fields.antt =====
-- The bit fields of the packets as numbers.
use tablet_magic.Base.{
  ℕ, ◌+◌, ◌*◌, ◌/◌, ◌%◌, ◌^◌, ◌<◌, ◌≡◌, refl, ◌∙◌, ap, arith, bit_and, bit_or, List,
}
use tablet_magic.Bits.{and_ones, or_of_fields, byte_table, all_below}
use tablet_magic.Protocol.Sensing.{byte}
use tablet_magic.Protocol.WacomIv.{coordinate}
use tablet_magic.Protocol.WacomV.{v_x, v_y, v_ten}

-- Two fields side by side: k low bits and what is above them.
pub or_fields : (k high low : ℕ) → low < 2 ^ k → bit_or (high * 2 ^ k) low ≡ high * 2 ^ k + low
or_fields k high low fits = or_of_fields k high low fits

pub coordinate_lem :
    (pk : List ℕ) (i : ℕ)
    → coordinate pk i ≡ byte pk i % 4 * 16384 + byte pk (i + 1) % 128 * 128 + byte pk (i + 2) % 128
coordinate_lem pk i =
    let a = byte pk i % 4 in
    let b = byte pk (i + 1) % 128 in
    let c = byte pk (i + 2) % 128 in
    rw (and_ones 2 (byte pk i), and_ones 7 (byte pk (i + 1)), and_ones 7 (byte pk (i + 2)))
      (rw (or_fields 14 a (b * 128) (omega arith)) (
        ap (λ (t : ℕ). bit_or t c) (omega arith)
        ∙ or_fields 7 (a * 128 + b) c (omega arith)
        ∙ omega arith))

pub and_0x60 : (x : ℕ) → x < 256 → bit_and x 0x60 ≡ x / 32 % 4 * 32
unfolding all_below
and_0x60 x h = byte_table (λ x. bit_and x 0x60) (λ x. x / 32 % 4 * 32) refl x h

and_0x78 : (x : ℕ) → x < 256 → bit_and x 0x78 ≡ x / 8 % 16 * 8
unfolding all_below
and_0x78 x h = byte_table (λ x. bit_and x 0x78) (λ x. x / 8 % 16 * 8) refl x h

pub v_x_lem :
    (pk : List ℕ)
    → byte pk 3 < 256
    → v_x pk ≡ byte pk 1 % 128 * 512 + byte pk 2 % 128 * 4 + byte pk 3 / 32 % 4
unfolding v_x
v_x_lem pk h =
    let a = byte pk 1 % 128 in
    let b = byte pk 2 % 128 in
    let c = byte pk 3 / 32 % 4 in
    rw (and_ones 7 (byte pk 1), and_ones 7 (byte pk 2), and_0x60 (byte pk 3) h)
      (rw (or_fields 9 a (b * 4) (omega arith)) (
        ap (λ (t : ℕ). bit_or t (c * 32 / 32)) (omega arith)
        ∙ or_fields 2 (a * 128 + b) (c * 32 / 32) (omega arith)
        ∙ omega arith))

pub v_y_lem :
    (pk : List ℕ)
    → byte pk 5 < 256
    → v_y pk ≡ byte pk 3 % 32 * 2048 + byte pk 4 % 128 * 16 + byte pk 5 / 8 % 16
unfolding v_y
v_y_lem pk h =
    let a = byte pk 3 % 32 in
    let b = byte pk 4 % 128 in
    let c = byte pk 5 / 8 % 16 in
    rw (and_ones 5 (byte pk 3), and_ones 7 (byte pk 4), and_0x78 (byte pk 5) h)
      (rw (or_fields 11 a (b * 16) (omega arith)) (
        ap (λ (t : ℕ). bit_or t (c * 8 / 8)) (omega arith)
        ∙ or_fields 4 (a * 128 + b) (c * 8 / 8) (omega arith)
        ∙ omega arith))

pub v_ten_lem : (pk : List ℕ) → v_ten pk ≡ byte pk 5 % 8 * 128 + byte pk 6 % 128
unfolding v_ten
v_ten_lem pk =
    rw (and_ones 3 (byte pk 5), and_ones 7 (byte pk 6))
      (or_fields 7 (byte pk 5 % 8) (byte pk 6 % 128) (omega arith))
