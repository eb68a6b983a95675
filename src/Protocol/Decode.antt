-- ===== src/Protocol/Decode.antt =====
-- The packets' layouts written down as encoders, and what the interpreters make of an encoded packet.
use tablet_magic.Base.{
  ℕ, ◌+◌, ◌-◌, ◌*◌, ◌/◌, ◌%◌, ◌<◌, ◌≡◌, refl, ◌∙◌, ap, arith, true, false, ltb, ◌==◌, if◌then◌else◌,
  List, [], ◌∷◌, inl, inr, Bool-cases,
}
use tablet_magic.Int.{pos, ◌-ℤ◌}
use tablet_magic.Settings.Constants.{origin_ll}
use tablet_magic.Stylus.{Point, point_sub, Stylus, set_buttons}
use tablet_magic.Protocol.Sensing.{Sensing, byte}
use tablet_magic.Protocol.WacomIv.{
  coordinate, is_disengaged, position, engage, settle, iv_buttons, process_wacom_iv_13,
  process_wacom_iv_base,
}
use tablet_magic.Protocol.WacomV.{
  v_ten, v_point, v_pressure, v_stylus_buttons, kind, stylus_data, v_dispatch, process_wacom_v,
}
use tablet_magic.Protocol.Fields.{coordinate_lem, v_x_lem, v_y_lem, v_ten_lem}

-- A packet of protocol IV: the flags above x, the buttons above y, and the pressure byte.
abbrev pub iv_packet : (flags x buttons y press : ℕ) → List ℕ
iv_packet flags x buttons y press =
    (flags * 4 + x / 16384)
    ∷ (x / 128 % 128)
    ∷ (x % 128)
    ∷ (buttons * 4 + y / 16384)
    ∷ (y / 128 % 128)
    ∷ (y % 128)
    ∷ press
    ∷ []

-- A stylus packet of protocol V: x and y of 16 bits, ten bits of pressure, two tilt bytes.
abbrev pub v_packet : (head x y press tilt_x tilt_y : ℕ) → List ℕ
v_packet head x y press tilt_x tilt_y =
    head
    ∷ (x / 512)
    ∷ (x / 4 % 128)
    ∷ (x % 4 * 32 + y / 2048)
    ∷ (y / 16 % 128)
    ∷ (y % 16 * 8 + press / 128)
    ∷ (press % 128)
    ∷ tilt_x
    ∷ tilt_y
    ∷ []

module _ (flags x buttons y press : ℕ) (hx : x < 65536) (hy : y < 65536) where
  coordinate-iv_packet :
      (coordinate (iv_packet flags x buttons y press) 0 ≡ x)
      × (coordinate (iv_packet flags x buttons y press) 3 ≡ y)
  coordinate-iv_packet = (
    coordinate_lem (iv_packet flags x buttons y press) 0 ∙ omega arith,
    coordinate_lem (iv_packet flags x buttons y press) 3 ∙ omega arith,
  )

  position-iv_packet :
      (t : Sensing)
      → position t (iv_packet flags x buttons y press) ≡ record {
        x = pos x;
        y = if t.settings.origin == origin_ll then t.settings.yscale -ℤ pos y else pos y;
      }
  unfolding position
  position-iv_packet t = rw (coordinate-iv_packet.0, coordinate-iv_packet.1)

module _ (head x y press tilt_x tilt_y : ℕ) (hx : x < 65536) (hy : y < 65536)
    (hp : press < 1024) where
  abbrev pk : List ℕ
  pk = v_packet head x y press tilt_x tilt_y

  v_point-v_packet : v_point pk ≡ record { x = pos x; y = pos y }
  unfolding v_point
  v_point-v_packet =
      rw (v_x_lem pk (omega arith), v_y_lem pk (omega arith))
        (ap
            (λ (a : ℕ).
              let p : Point = record {
                x = pos a;
                y = pos (byte pk 3 % 32 * 2048 + byte pk 4 % 128 * 16 + byte pk 5 / 8 % 16);
              } in
              p)
            (omega arith)
          ∙ ap (λ (b : ℕ). let p : Point = record { x = pos x; y = pos b } in p) (omega arith))

  v_pressure-v_packet : v_pressure pk ≡ (if ltb press 100 then 0 else (press - 99) * 65535 / 924)
  unfolding v_pressure
  v_pressure-v_packet =
      let ten : v_ten pk ≡ press = v_ten_lem pk ∙ omega arith in rw ten (ground arith)

  -- A stylus packet of protocol V with 16-bit x and y and a pressure of ten bits moves the stylus
  -- to x and y, whatever it was before; it sets the pressure, which is none below 100 and is
  -- otherwise spread over 924 steps without wrapping; and the motion leads from the point before.
  pub process_wacom_v-stylus :
      (s : Stylus)
      → kind head ≡ stylus_data
      → let s' = process_wacom_v pk 9 s in
        (s'.point ≡ record { x = pos x; y = pos y })
        × (s'.pressure ≡ (if ltb press 100 then 0 else (press - 99) * 65535 / 924))
        × (s'.motion ≡ point_sub (record { x = pos x; y = pos y }) s.point)
        × (s'.off_tablet ≡ s.off_tablet)
  unfolding process_wacom_v v_dispatch set_buttons
  process_wacom_v-stylus s is_stylus =
      let point = v_point-v_packet in
      let level = v_pressure-v_packet in
      elim (Bool-cases (s.button_mask == v_stylus_buttons pk)) [
        | inl same ↦
            rw (is_stylus, same) (point, level, ap (λ (p : Point). point_sub p s.point) point, refl)
        | inr changed ↦
            rw (is_stylus, changed)
              (point, level, ap (λ (p : Point). point_sub p s.point) point, refl)
      ]

iv_buttons-keeps :
    (pk : List ℕ) (s : Stylus)
    → ((iv_buttons pk s).0.point ≡ s.point) × ((iv_buttons pk s).0.off_tablet ≡ s.off_tablet)
unfolding iv_buttons
iv_buttons-keeps pk s = ground arith

-- Where an engaged stylus goes, and where its motion starts: at the new point if it was away.
engaged_motion : Point → Stylus → Point
engaged_motion p s = point_sub p (if s.off_tablet then p else s.point)

base-engaged :
    (t : Sensing) (pk : List ℕ) (s : Stylus)
    → t.mouse_mode ≡ false
    → is_disengaged pk ≡ false
    → let s' = process_wacom_iv_base t pk s in
      (s'.point ≡ position t pk)
      × (s'.motion ≡ engaged_motion (position t pk) s)
      × (s'.off_tablet ≡ false)
      × (s'.pen_near ≡ true)
unfolding process_wacom_iv_base engage settle engaged_motion
base-engaged t pk s still engaged = elim (Bool-cases s.off_tablet) [
  | inl away ↦ rw (still, engaged, away) (refl, refl, refl, refl)
  | inr here ↦ rw (still, engaged, here) (refl, refl, refl, refl)
]

-- Outside mouse mode an engaged packet of protocol IV with 16-bit x and y moves the stylus to x and
-- y, with y counted from the vertical scale down if the origin is the lower left corner. The stylus
-- is then near and on the tablet, and the motion leads from the point before, or is from the new
-- point to itself if the stylus was away.
pub process_wacom_iv_13-engaged :
    (flags x buttons y press : ℕ) (t : Sensing) (s : Stylus)
    → x < 65536
    → y < 65536
    → t.mouse_mode ≡ false
    → is_disengaged (iv_packet flags x buttons y press) ≡ false
    → let s' = process_wacom_iv_13 t (iv_packet flags x buttons y press) 7 s in
      let down = if t.settings.origin == origin_ll then t.settings.yscale -ℤ pos y else pos y in
      let p : Point = record { x = pos x; y = down } in
      (s'.point ≡ p)
      × (s'.motion ≡ point_sub p (if s.off_tablet then p else s.point))
      × (s'.off_tablet ≡ false)
      × (s'.pen_near ≡ true)
unfolding process_wacom_iv_13 engaged_motion set_buttons
process_wacom_iv_13-engaged flags x buttons y press t s hx hy still engaged =
    let pk = iv_packet flags x buttons y press in
    let s1 = (iv_buttons pk s).0 in
    let kept = iv_buttons-keeps pk s in
    let moved = base-engaged t pk s1 still engaged in
    let place = position-iv_packet flags x buttons y press hx hy t in
    (
      moved.0 ∙ place,
      moved.1 ∙ ap (λ (p : Point). engaged_motion p s1) place ∙ rw (kept.0, kept.1),
      moved.2,
      moved.3,
    )
