-- ===== src/Daemon/Agrees.antt =====
-- What holds of the stylus behind every packet: the buttons agree with their mask, and there is no
-- pressure without the tip or the eraser.
use tablet_magic.Base.{
  ℕ, ◌≡◌, ◌≢◌, refl, sym, ap, ◌∙◌, arith, Bool, true, false, not, ◌==◌, ltb, ◌&&◌, differ,
  Bool-cases, List, [], ◌∷◌, length, Option, none, some, inl, inr,
}
use tablet_magic.Bits.{◌<<◌, has}
use tablet_magic.Floats.{Floats}
use tablet_magic.Settings.Constants.{
  command_set_wacom_iis, command_set_wacom_iv, command_set_tablet_pc,
}
use tablet_magic.Stylus.{Point, Stylus, set_buttons}
use tablet_magic.Protocol.Sensing.{Sensing, byte}
use tablet_magic.Protocol.Buttons.{AgreesWithMask, interpreters-AgreesWithMask}
use tablet_magic.Protocol.IisAscii.{Report, ascii_apply, process_wacom_iis_ascii}
use tablet_magic.Protocol.Fujitsu.{fujitsu_switch, process_fujitsu}
use tablet_magic.Protocol.TabletPc.{move}
use tablet_magic.Daemon.State.{Tablet, sensing}
use tablet_magic.Daemon.Dispatch.{
  Interpreter, for_graphire, for_v, for_fujitsu, for_settings, interpreter, is_binary_packet,
  interpret_as, interpret_by_settings, note_format, lift, prepare, post_changes, process_packet,
}
use tablet_magic.Daemon.Kept.{body, body-post_change_events}
use tablet_magic.Daemon.Whole.{after, config-process_packet}

-- The buttons agree with their mask, and there is no pressure without the tip or the eraser.
pub record IsConsistent (s : Stylus) : Type 0 where
  pub agrees : AgreesWithMask s
  pub lifted : has s.button_mask 9 ≡ false → s.pressure ≡ 0

agrees_of_body : (u s : Stylus) → body u ≡ body s → AgreesWithMask s → AgreesWithMask u
unfolding body
agrees_of_body u s e h = record {
  click = ap (λ b. b.click) e ∙ h.click ∙ ap (λ b. not (b.mask == 0)) (sym e);
  each = λ q. ap (λ b. b.button q) e ∙ h.each q ∙ ap (λ b. has b.mask (1 << q)) (sym e);
}

set_agrees : (x : ℕ) (s : Stylus) → AgreesWithMask (set_buttons x s)
unfolding set_buttons
set_agrees x s = record { click = refl; each = λ q. refl }

move_agrees : (ot : Bool) (s : Stylus) → AgreesWithMask s → AgreesWithMask (move ot s)
unfolding move
move_agrees ot s h = elim (Bool-cases (differ s.off_tablet ot)) [
  | inl turned ↦ rw turned (record { click = h.click; each = h.each })
  | inr same ↦ rw same (record { click = h.click; each = h.each })
]

apply_agrees :
    (t : Sensing) (pk : List ℕ) (s : Stylus) (r : Option Report)
    → AgreesWithMask s
    → AgreesWithMask (ascii_apply t pk s r)
unfolding ascii_apply
apply_agrees t pk s none h = h
apply_agrees t pk s (some r) h = set_agrees _ _

ascii_agrees :
    (t : Sensing) (pk : List ℕ) (s : Stylus)
    → AgreesWithMask s
    → AgreesWithMask (process_wacom_iis_ascii t pk s)
unfolding process_wacom_iis_ascii
ascii_agrees t pk s h = apply_agrees t pk s _ h

pressed_agrees :
    (s : Stylus) (x pressure : ℕ)
    → AgreesWithMask (record (set_buttons x s) { pressure = pressure })
unfolding set_buttons
pressed_agrees s x pressure = record { click = refl; each = λ q. refl }

switch_agrees : (pk : List ℕ) (s : Stylus) → AgreesWithMask s → AgreesWithMask (fujitsu_switch pk s)
unfolding fujitsu_switch
switch_agrees pk s h = elim (Bool-cases (byte pk 0 == 1)) [
  | inl down ↦ rw down (move_agrees false _ (pressed_agrees s _ _))
  | inr other ↦ elim (Bool-cases (byte pk 0 == 2)) [
    | inl up ↦ rw (other, up) (move_agrees true _ (pressed_agrees s _ _))
    | inr moved ↦ rw (other, moved) (move_agrees false s h)
  ]
]

fujitsu_agrees :
    (fl : Floats) (pk : List ℕ) (s : Stylus)
    → AgreesWithMask s
    → AgreesWithMask (process_fujitsu fl pk s)
unfolding process_fujitsu
fujitsu_agrees fl pk s h = switch_agrees pk _ (record { click = h.click; each = h.each })

pub lifted_of_body :
    (u s : Stylus)
    → body u ≡ body s
    → (has s.button_mask 9 ≡ false → s.pressure ≡ 0)
    → has u.button_mask 9 ≡ false
    → u.pressure ≡ 0
unfolding body
lifted_of_body u s e h up = ap (λ b. b.pressure) e ∙ h (ap (λ b. has b.mask 9) (sym e) ∙ up)

lift-lifted : (s : Stylus) → has (lift s).button_mask 9 ≡ false → (lift s).pressure ≡ 0
lift-lifted s up = rw up

settings_agrees :
    (pk : List ℕ) (t : Tablet)
    → AgreesWithMask t.output.stylus
    → AgreesWithMask (interpret_by_settings pk t)
unfolding interpret_by_settings
settings_agrees pk t h =
    let s = t.output.stylus in
    let set = t.active.command_set in
    let all = interpreters-AgreesWithMask (sensing t) pk (length pk) s h in
    elim (Bool-cases (set == command_set_wacom_iis)) [
      | inl iis ↦ elim (Bool-cases (is_binary_packet pk)) [
        | inl bin ↦ rw (iis, bin) all.0
        | inr text ↦ rw (iis, text) (ascii_agrees (sensing t) pk s h)
      ]
      | inr n2 ↦ elim (Bool-cases (set == command_set_wacom_iv)) [
        | inl iv ↦ elim (Bool-cases (ltb t.version_tenths 14)) [
          | inl old ↦ rw (n2, iv, old) all.1
          | inr new ↦ rw (n2, iv, new) all.2
        ]
        | inr n3 ↦ elim (Bool-cases (set == command_set_tablet_pc && is_binary_packet pk)) [
          | inl tpc ↦ rw (n2, n3, tpc) all.3
          | inr neither ↦ rw (n2, n3, neither) h
        ]
      ]
    ]

note_format-output : (pk : List ℕ) (t : Tablet) → (note_format pk t).output ≡ t.output
unfolding note_format
note_format-output pk t = ground arith

module _ (fl : Floats) where
  interpret_agrees :
      (i : Interpreter) (pk : List ℕ) (t : Tablet)
      → i ≢ for_v
      → AgreesWithMask t.output.stylus
      → AgreesWithMask (interpret_as fl i pk t).output.stylus
  unfolding interpret_as
  interpret_agrees for_graphire pk t other h =
      (interpreters-AgreesWithMask (sensing t) pk (length pk) t.output.stylus h).4
  interpret_agrees for_v pk t other h = absurd (other refl)
  interpret_agrees for_fujitsu pk t other h = fujitsu_agrees fl pk t.output.stylus h
  interpret_agrees for_settings pk t other h =
      settings_agrees pk (note_format pk t) (rw (note_format-output pk t) h)

  module _ (place : Tablet → Point) where
    prepare_agrees :
        (pk : List ℕ) (t : Tablet)
        → interpreter t.series ≢ for_v
        → AgreesWithMask t.output.stylus
        → AgreesWithMask (prepare fl place pk t).output.stylus
    unfolding prepare
    prepare_agrees pk t other h =
        let r = interpret_agrees (interpreter t.series) pk t other h in
        record { click = r.click; each = r.each }

    prepare_lifted :
        (pk : List ℕ) (t : Tablet)
        → has (prepare fl place pk t).output.stylus.button_mask 9 ≡ false
        → (prepare fl place pk t).output.stylus.pressure ≡ 0
    unfolding prepare
    prepare_lifted pk t up =
        lift-lifted (interpret_as fl (interpreter t.series) pk t).output.stylus up

    -- The stylus behind a packet is the one that `PostChangeEvents` found, in all that it keeps.
    body-process_packet :
        (pk : List ℕ) (t : Tablet)
        → body (process_packet fl place pk t).output.stylus
          ≡ body (prepare fl place pk t).output.stylus
    unfolding process_packet post_changes
    body-process_packet pk t =
        let t' = prepare fl place pk t in body-post_change_events (place t') t'.output

    pub process_packet-lifted :
        (pk : List ℕ) (t : Tablet)
        → has (process_packet fl place pk t).output.stylus.button_mask 9 ≡ false
        → (process_packet fl place pk t).output.stylus.pressure ≡ 0
    process_packet-lifted pk t up =
        lifted_of_body (process_packet fl place pk t).output.stylus
          (prepare fl place pk t).output.stylus (body-process_packet pk t) (prepare_lifted pk t) up

    packet-IsConsistent :
        (pk : List ℕ) (t : Tablet)
        → interpreter t.series ≢ for_v
        → AgreesWithMask t.output.stylus
        → IsConsistent (process_packet fl place pk t).output.stylus
    packet-IsConsistent pk t other h =
        let u = (process_packet fl place pk t).output.stylus in
        let s = (prepare fl place pk t).output.stylus in
        let e = body-process_packet pk t in
        record {
          agrees = agrees_of_body u s e (prepare_agrees pk t other h);
          lifted = process_packet-lifted pk t;
        }

    -- On every tablet but the Intuos and the Intuos 2, whose interpreter is that of protocol V: if
    -- the stylus is consistent, it is so behind every sequence of packets, whatever their bytes. Its
    -- button array and its click flag agree with the mask of buttons, and it has no pressure while
    -- neither the tip nor the eraser is down.
    pub after-IsConsistent :
        (pks : List (List ℕ)) (t : Tablet)
        → interpreter t.series ≢ for_v
        → IsConsistent t.output.stylus
        → IsConsistent (after fl place pks t).output.stylus
    unfolding after
    after-IsConsistent [] t other h = h
    after-IsConsistent (pk ∷ pks) t other h =
        let same = config-process_packet fl place pk t in
        after-IsConsistent pks (process_packet fl place pk t)
          (λ e. other (ap (λ c. interpreter c.series) (sym same) ∙ e))
          (packet-IsConsistent pk t other h.agrees)
