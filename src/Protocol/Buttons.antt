-- ===== src/Protocol/Buttons.antt =====
-- The buttons that the interpreters leave: the mask, the flag and the array.
use tablet_magic.Base.{
  ℕ, ◌<◌, ◌≡◌, refl, ◌∙◌, ap, arith, bit_and, bit_or, Bool, true, false, not, ◌&&◌, ◌||◌, ◌==◌,
  if◌then◌else◌, List, inl, inr, Bool-cases,
}
use tablet_magic.Bits.{has, all_below, all_below_sound, ◌<<◌, ◌>>◌}
use tablet_magic.Stylus.{
  Point, Stylus, set_buttons, bit_stylus_tip, bit_stylus_button2, bit_stylus_eraser, button_left,
  button_middle, button_right, button_extra, button_side,
}
use tablet_magic.Settings.Constants.{transfer_mode_suppressed}
use tablet_magic.Protocol.Sensing.{Sensing, byte, outside}
use tablet_magic.Protocol.WacomIv.{
  iv_buttons, process_wacom_iv_13, process_wacom_iv_14, process_wacom_iv_base, engage, settle,
  is_disengaged,
}
use tablet_magic.Protocol.WacomIis.{process_wacom_iis_binary}
use tablet_magic.Protocol.TabletPc.{process_tablet_pc, move}
use tablet_magic.Protocol.Graphire.{process_graphire, graphire_base, graphire_tool}
use tablet_magic.Protocol.WacomV.{
  process_wacom_v, v_dispatch, kind, mouse_data, tool_mouse_4d, v_mouse_buttons,
}

-- The click flag and the array say what the mask says.
pub record AgreesWithMask (s : Stylus) : Type 0 where
  pub click : s.button_click ≡ not (s.button_mask == 0)
  pub each : (q : ℕ) → s.button q ≡ has s.button_mask (1 << q)

set_buttons-agrees : (x : ℕ) (s : Stylus) → AgreesWithMask (set_buttons x s)
unfolding set_buttons
set_buttons-agrees x s = record { click = refl; each = λ q. refl }

graphire_tool-agrees : (pk : List ℕ) (s : Stylus) → AgreesWithMask (graphire_tool pk s)
unfolding graphire_tool
graphire_tool-agrees pk s =
    let b = byte pk 1 in
    let tool = bit_and (b >> 5) 0x03 in
    elim (Bool-cases (tool == 0)) [
      | inl h ↦ rw h (set_buttons-agrees _ _)
      | inr n0 ↦ elim (Bool-cases (tool == 1)) [
        | inl h ↦ rw (n0, h) (set_buttons-agrees _ _)
        | inr n1 ↦ elim (Bool-cases (tool == 2)) [
          | inl h ↦ rw (n0, n1, h) (set_buttons-agrees _ _)
          | inr n2 ↦ rw (n0, n1, n2) (set_buttons-agrees _ _)
        ]
      ]
    ]

module _ (t : Sensing) (pk : List ℕ) (size : ℕ) (s : Stylus) (before : AgreesWithMask s) where
  agrees_13 : (n : ℕ) → AgreesWithMask (process_wacom_iv_13 t pk n s)
  unfolding process_wacom_iv_13
  agrees_13 n = elim (Bool-cases (not (n == 7))) [
    | inl wrong ↦ rw wrong before
    | inr right ↦ rw right (set_buttons-agrees _ _)
  ]

  agrees_tilt :
      (s' : Stylus) (p : Point) → AgreesWithMask s' → AgreesWithMask (record s' { tilt = p })
  agrees_tilt s' p h = record { click = h.click; each = h.each }

  agrees_14 : AgreesWithMask (process_wacom_iv_14 t pk size s)
  unfolding process_wacom_iv_14
  agrees_14 = elim (Bool-cases (not (size == 7 || size == 9))) [
    | inl wrong ↦ rw wrong before
    | inr right ↦ rw right (agrees_tilt _ _ (agrees_13 7))
  ]

  agrees_iis : AgreesWithMask (process_wacom_iis_binary t pk size s)
  unfolding process_wacom_iis_binary
  agrees_iis = elim (Bool-cases (not (size == 7))) [
    | inl wrong ↦ rw wrong before
    | inr right ↦ rw right (set_buttons-agrees _ _)
  ]

  agrees_tpc : AgreesWithMask (process_tablet_pc pk size s)
  unfolding process_tablet_pc
  agrees_tpc = elim (Bool-cases (not (size == 9))) [
    | inl wrong ↦ rw wrong before
    | inr right ↦ elim (Bool-cases (has (byte pk 0) 0x20)) [
      | inl near ↦ rw (right, near) (set_buttons-agrees _ _)
      | inr far ↦ rw (right, far) (set_buttons-agrees _ _)
    ]
  ]

  agrees_graphire : AgreesWithMask (process_graphire t pk size s)
  unfolding process_graphire
  agrees_graphire = elim (Bool-cases (not (size == 7))) [
    | inl wrong ↦ rw wrong before
    | inr right ↦ rw right (graphire_tool-agrees pk (graphire_base t pk s))
  ]

  -- The interpreters of protocol II-S, IV, the TabletPC and the Graphire keep the array of buttons
  -- and the click flag in agreement with the mask of buttons, whatever the packet.
  pub interpreters-AgreesWithMask :
      AgreesWithMask (process_wacom_iis_binary t pk size s)
      × AgreesWithMask (process_wacom_iv_13 t pk size s)
      × AgreesWithMask (process_wacom_iv_14 t pk size s)
      × AgreesWithMask (process_tablet_pc pk size s)
      × AgreesWithMask (process_graphire t pk size s)
  interpreters-AgreesWithMask = (agrees_iis, agrees_13 size, agrees_14, agrees_tpc, agrees_graphire)

-- The interpreters of protocol II-S, IV 1.3 and the Graphire leave the stylus as it is if the packet
-- has not seven bytes.
pub interpreters_of_seven-size :
    (t : Sensing) (pk : List ℕ) (size : ℕ) (s : Stylus)
    → ¬ (size ≡ 7)
    → (process_wacom_iis_binary t pk size s ≡ s)
      × (process_wacom_iv_13 t pk size s ≡ s)
      × (process_graphire t pk size s ≡ s)
unfolding process_wacom_iis_binary process_wacom_iv_13 process_graphire
interpreters_of_seven-size t pk size s h =
    let no : (size == 7) ≡ false = ground arith in rw no (refl, refl, refl)

-- The interpreters of protocol V and of the TabletPC leave the stylus as it is if the packet has not
-- nine bytes.
pub interpreters_of_nine-size :
    (pk : List ℕ) (size : ℕ) (s : Stylus)
    → ¬ (size ≡ 9)
    → (process_wacom_v pk size s ≡ s) × (process_tablet_pc pk size s ≡ s)
unfolding process_wacom_v process_tablet_pc
interpreters_of_nine-size pk size s h =
    let no : (size == 9) ≡ false = ground arith in rw no (refl, refl)

-- After a packet of seven bytes of protocol IV, or of nine bytes of the TabletPC, a stylus that is
-- off the tablet has no button down.
pub lifted-released :
    (t : Sensing) (pk : List ℕ) (s : Stylus)
    → let s4 = process_wacom_iv_13 t pk 7 s in
      let sp = process_tablet_pc pk 9 s in
      ((s4.off_tablet && not (s4.button_mask == 0)) ≡ false)
      × ((sp.off_tablet && not (sp.button_mask == 0)) ≡ false)
unfolding process_wacom_iv_13 process_tablet_pc set_buttons move
lifted-released t pk s = (
  ground arith,
  elim (Bool-cases (has (byte pk 0) 0x20)) [
    | inl near ↦ rw near (ground arith)
    | inr far ↦ rw far (ground arith)
  ],
)

-- In suppressed mode the packet of protocol IV that disengages the stylus takes it off the tablet
-- and away, without pressure and with no button down.
pub process_wacom_iv_13-disengaged :
    (t : Sensing) (pk : List ℕ) (s : Stylus)
    → is_disengaged pk ≡ true
    → t.settings.transfer_mode ≡ transfer_mode_suppressed
    → let s' = process_wacom_iv_13 t pk 7 s in
      (s'.off_tablet ≡ true) × (s'.pressure ≡ 0) × (s'.pen_near ≡ false) × (s'.button_mask ≡ 0)
unfolding process_wacom_iv_13 process_wacom_iv_base engage settle set_buttons
process_wacom_iv_13-disengaged t pk s gone mode =
    let quiet : (t.settings.transfer_mode == transfer_mode_suppressed) ≡ true = ground arith in
    elim (Bool-cases (t.mouse_mode && outside t.mapping (iv_buttons pk s).0.point)) [
      | inl out ↦ rw (gone, quiet, out) (refl, refl, refl, refl)
      | inr inside ↦ rw (gone, quiet, inside) (refl, refl, refl, refl)
    ]

-- The eraser is down together with the tip or with button 2.
abbrev mixes : ℕ → Bool
mixes m = has m bit_stylus_eraser && (has m bit_stylus_tip || has m bit_stylus_button2)

-- The mask as a function of byte 3 and of two flags.
abbrev iv_mask : Bool → Bool → ℕ → ℕ
iv_mask engaged flag byte_3 =
    let b = bit_and byte_3 0x78 >> 3 in
    let bm = bit_and b 3 in
    let erasing =
      if has b bit_stylus_tip then bit_and (bit_or bm bit_stylus_eraser) 0xfffe else bm in
    if not engaged
    then 0
    else if not (has b bit_stylus_button2)
    then bm
    else (if flag then erasing else bit_or bm bit_stylus_button2)

iv_mask-alone :
    (engaged flag : Bool) (x : ℕ) → x < 256 → not (mixes (iv_mask engaged flag x)) ≡ true
unfolding all_below
iv_mask-alone true true x h = all_below_sound (λ x. not (mixes (iv_mask true true x))) 256 x refl h
iv_mask-alone true false x h =
    all_below_sound (λ x. not (mixes (iv_mask true false x))) 256 x refl h
iv_mask-alone false flag x h = refl

iv_buttons_lem :
    (pk : List ℕ) (s : Stylus)
    → (iv_buttons pk s).1
      ≡ iv_mask (has (byte pk 0) 0x08) (s.off_tablet || s.eraser_flag) (byte pk 3)
unfolding iv_buttons
iv_buttons_lem pk s = ground arith

-- In the mask of a packet of protocol IV the eraser stands alone: neither the tip nor button 2 is
-- down with it.
pub iv_buttons-eraser :
    (pk : List ℕ) (s : Stylus)
    → byte pk 3 < 256
    → let m = (iv_buttons pk s).1 in
      (has m bit_stylus_eraser && (has m bit_stylus_tip || has m bit_stylus_button2)) ≡ false
iv_buttons-eraser pk s h =
    let alone =
      iv_mask-alone (has (byte pk 0) 0x08) (s.off_tablet || s.eraser_flag) (byte pk 3) h in
    ap mixes (iv_buttons_lem pk s) ∙ ground (arith, alone)

-- A mouse packet of protocol V whose buttons differ from the mask leaves the places of the mouse
-- buttons clear, whichever buttons are down, for every mouse but the 4D mouse: the new mask
-- overwrites what the packet has just put there.
pub process_wacom_v-mouse_lost :
    (pk : List ℕ) (s : Stylus)
    → byte pk 8 < 256
    → kind (byte pk 0) ≡ mouse_data
    → (s.toolid == tool_mouse_4d) ≡ false
    → (s.button_mask == v_mouse_buttons s.toolid pk) ≡ false
    → let s' = process_wacom_v pk 9 s in
      (s'.button button_left ≡ false)
      × (s'.button button_middle ≡ false)
      × (s'.button button_right ≡ false)
      × (s'.button button_extra ≡ false)
      × (s'.button button_side ≡ false)
unfolding process_wacom_v v_dispatch set_buttons v_mouse_buttons all_below
process_wacom_v-mouse_lost pk s h is_mouse_packet no_4d changed =
    let places : (x : ℕ) → Bool = λ x.
      not (has x 32) && not (has x 64) && not (has x 128) && not (has x 256) && not (has x 512) in
    let lens_table = all_below_sound (λ x. places (bit_and x 0x1f)) 256 (byte pk 8) refl h in
    let two_table = all_below_sound (λ x. places (bit_and x 0x1c >> 2)) 256 (byte pk 8) refl h in
    elim (Bool-cases (s.toolid == 0x96)) [ inl is_lens ↦ ground arith | inr no_lens ↦ ground arith ]
