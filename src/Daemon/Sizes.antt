-- ===== src/Daemon/Sizes.antt =====
-- The size of the tablet from its replies.
use tablet_magic.Base.{
  ℕ, ◌+◌, ◌*◌, ◌/◌, ◌%◌, ◌^◌, ◌<◌, bit_and, bit_or, ◌≡◌, refl, ◌∙◌, arith, true, false, ◌==◌, List,
  ◌∷◌,
}
use tablet_magic.Int.{pos, ◌+ℤ◌, ◌-ℤ◌}
use tablet_magic.Bits.{◌<<◌, ◌>>◌, or_of_fields, and_ones, all_below, byte_table}
use tablet_magic.Daemon.State.{Tablet}
use tablet_magic.Daemon.Mapping.{init_tablet_bounds}
use tablet_magic.Daemon.Reply.{
  query_x, query_y, set_scale, process_tablet_pc_reply, identify_tablet_pc,
}

-- A TabletPC's answer for a size of x by y: seven, seven and two bits of each, with three further
-- bits in byte 6.
abbrev pub query_reply : ℕ → ℕ → ℕ → ℕ → List ℕ → List ℕ
query_reply x y pressure more rest =
    0xc0
    ∷ (x / 512)
    ∷ (x / 4 % 128)
    ∷ (y / 512)
    ∷ (y / 4 % 128)
    ∷ pressure
    ∷ (x % 4 * 32 + y % 4 * 8 + more)
    ∷ rest

x_bits_table : all_below 256 (λ b. bit_and b 0x60 >> 5 == b / 32 % 4) ≡ true
unfolding all_below
x_bits_table = refl

y_bits_table : all_below 256 (λ b. bit_and b 0x18 >> 3 == b / 8 % 4) ≡ true
unfolding all_below
y_bits_table = refl

-- Seven, seven and two bits put together.
join_bits :
    (a b c x : ℕ)
    → a ≡ x / 512
    → b ≡ x / 4 % 128
    → c ≡ x % 4
    → bit_or (bit_or (a << 9) (b << 2)) c ≡ x
join_bits a b c x p q r =
    let low : b << 2 < 2 ^ 9 = omega arith in
    let upper = or_of_fields 9 a (b << 2) low in
    let again : a * 2 ^ 9 + b * 2 ^ 2 ≡ (a * 2 ^ 7 + b) << 2 = omega arith in
    rw (upper, again) (or_of_fields 2 (a * 2 ^ 7 + b) c (omega arith) ∙ omega arith)

seven_bits : (v : ℕ) → v < 128 → bit_and v 0x7f ≡ v
seven_bits v h = omega (arith, and_ones 7 v)

module _ (x y pressure more : ℕ) (rest : List ℕ) (hx : x < 2 ^ 16) (hy : y < 2 ^ 16)
    (hm : more < 8) where
  query_x-reply : query_x (query_reply x y pressure more rest) ≡ x
  unfolding query_x
  query_x-reply =
      join_bits _ _ _ x (seven_bits (x / 512) (omega arith))
        (seven_bits (x / 4 % 128) (omega arith))
        (byte_table _ _ x_bits_table (x % 4 * 32 + y % 4 * 8 + more) (omega arith) ∙ omega arith)

  query_y-reply : query_y (query_reply x y pressure more rest) ≡ y
  unfolding query_y
  query_y-reply =
      join_bits _ _ _ y (seven_bits (y / 512) (omega arith))
        (seven_bits (y / 4 % 128) (omega arith))
        (byte_table _ _ y_bits_table (x % 4 * 32 + y % 4 * 8 + more) (omega arith) ∙ omega arith)

set_scale-whole :
    (x y : ℕ) (t : Tablet)
    → ((set_scale (pos x) (pos y) t).active.xscale ≡ pos x)
      × ((set_scale (pos x) (pos y) t).active.yscale ≡ pos y)
      × ((set_scale (pos x) (pos y) t).mapping
          ≡ record { x = pos 0; y = pos 0; width = pos x; height = pos y })
unfolding set_scale init_tablet_bounds ◌+ℤ◌ ◌-ℤ◌
set_scale-whole x y t = ground arith

-- A TabletPC's answer that encodes a size of 16 bits each way sets the scale of the tablet and its
-- active area to that size, whatever area was chosen before, unless the stream is shown.
pub process_tablet_pc_reply-size :
    (x y pressure more : ℕ) (rest : List ℕ) (t : Tablet)
    → x < 2 ^ 16
    → y < 2 ^ 16
    → more < 8
    → t.log.send_stream ≡ false
    → let t' = process_tablet_pc_reply (query_reply x y pressure more rest) t in
      (t'.active.xscale ≡ pos x)
      × (t'.active.yscale ≡ pos y)
      × (t'.mapping ≡ record { x = pos 0; y = pos 0; width = pos x; height = pos y })
unfolding process_tablet_pc_reply
process_tablet_pc_reply-size x y pressure more rest t hx hy hm off =
    let ex = query_x-reply x y pressure more rest hx hy hm in
    let ey = query_y-reply x y pressure more rest hx hy hm in
    let t' = identify_tablet_pc (query_reply x y pressure more rest) t in
    rw (off, ex, ey) (set_scale-whole x y t')
