-- ===== src/Run/Acts.antt =====
-- The invariant and the commands, the requests and the settings that are sent.
use tablet_magic.Base.{
  ℕ, zero, suc, ◌≡◌, arith, Bool, true, false, leb, ltb, List, [], ◌∷◌, ◌++◌, length, Option, none,
  some, Bool-cases, Option-cases, inl, inr,
}
use tablet_magic.Int.{ℤ}
use tablet_magic.Floats.{Floats}
use tablet_magic.Format.{c_string, codes, print_int}
use tablet_magic.Settings.{import_state}
use tablet_magic.Daemon.State.{Tablet}
use tablet_magic.Daemon.Reply.{bank_settings, set_bank, process_command_reply}
use tablet_magic.Port.{read_line}
use tablet_magic.Control.World.{Device, World, ◌>>◌, return, port_read_line}
use tablet_magic.Control.Send.{
  note_bank, bank_of, read_setting, is_answer, send_command, send_request, send_scale, pause,
  request_ud_settings, stop_tablet, start_tablet, setup_command, handle_reply, try_settings,
  insist_on, send_setup, send_ud_setup_string,
}
use tablet_magic.Run.Sound.{core, Sound, IsSound-core}
use tablet_magic.Run.Replies.{SoundAfter, core-set_bank, process_command_reply-Sound}
use tablet_magic.Run.Keeps.{
  SoundWorld, Keeps, Keeps->>=, Keeps->>, Keeps-return, Keeps-Bool, SoundWorld-if, SoundWorld-elim,
}

core-note_bank : (command : List ℕ) (t : Tablet) → core (note_bank command t) ≡ core t
unfolding core note_bank
core-note_bank command t = ground arith

module _ (d : Device) where
  pub send_command-Keeps : (command : List ℕ) → Keeps d (send_command d command)
  unfolding send_command
  send_command-Keeps command w h = elim (Bool-cases (leb 100 (length command))) [
    | inl long ↦ rw long tt
    | inr fits ↦
        rw fits
          (IsSound-core (note_bank command w.tablet) w.tablet (core-note_bank command w.tablet) h)
  ]

  port_read_line-Keeps : Keeps d (port_read_line d)
  unfolding port_read_line
  port_read_line-Keeps w h = elim (Option-cases (read_line [] false (d.arriving w.port))) [
    | inl over ↦ rw (over, port_read_line) tt
    | inr l ↦ rw (l.shown, port_read_line) h
  ]

  pub send_request-Keeps : (command : List ℕ) → Keeps d (send_request d command)
  unfolding send_request
  send_request-Keeps command =
      Keeps->>= d (send_command d command) _ (send_command-Keeps command) (λ sent.
        Keeps-Bool d sent _ _
          (Keeps->>= d (port_read_line d) _ port_read_line-Keeps
            (λ text. Keeps-return d (c_string text)))
          (Keeps-return d {A = List ℕ} []))

  pub send_scale-Keeps : (h v : ℤ) → Keeps d (send_scale d h v)
  unfolding send_scale
  send_scale-Keeps h v =
      send_command-Keeps (codes "SC" ++ (print_int 0 h ++ (b',' ∷ print_int 0 v ++ b'\r' ∷ [])))

  pub pause-Keeps : Keeps d (pause d)
  pause-Keeps w h = h

  asked :
      (o : Option ℕ) (w : World d)
      → Sound w.tablet
      → SoundWorld d {A = Unit {0}}
          (elim o [ none ↦ none | some b ↦ (send_command d (read_setting b) >> return tt) w ])
  asked none w h = tt
  asked (some b) w h =
      Keeps->> d (send_command d (read_setting b)) _ (send_command-Keeps (read_setting b))
        (Keeps-return d tt) w h

  pub request_ud_settings-Keeps : (bank : ℤ) → Keeps d (request_ud_settings d bank)
  unfolding request_ud_settings
  request_ud_settings-Keeps bank w h =
      SoundWorld-if d w.tablet.can_parse_ud_setup _ (some (tt, w)) (asked (bank_of bank) w h) h

  module _ (fl : Floats) (stack : ℕ) where
    replied :
        (o : Option Tablet) (w : World d)
        → SoundAfter o
        → SoundWorld d {A = Unit {0}}
            (elim o [ none ↦ none | some t ↦ some (tt, record w { tablet = t }) ])
    replied none w h = tt
    replied (some t) w h = h

    pub handle_reply-Keeps : (r : List ℕ) → Keeps d (handle_reply d fl stack r)
    handle_reply-Keeps r w h =
        replied (process_command_reply fl stack r w.tablet) w
          (process_command_reply-Sound fl stack r w.tablet h)

    pub try_settings-Keeps : (bank n : ℕ) → Keeps d (try_settings d fl stack bank n)
    unfolding try_settings
    try_settings-Keeps bank zero = Keeps-return d false
    try_settings-Keeps bank (suc n) =
        Keeps->>= d (send_request d (read_setting bank)) _ (send_request-Keeps (read_setting bank))
          (λ text.
            Keeps-Bool d (is_answer text) _ _
              (Keeps->> d (handle_reply d fl stack text) _ (handle_reply-Keeps text)
                (Keeps-return d (ltb 0 n)))
              (Keeps->> d (pause d) _ pause-Keeps (try_settings-Keeps bank n)))

    insist_on-Keeps : (insist : Bool) (bank : ℕ) → Keeps d (insist_on d fl stack insist bank)
    insist_on-Keeps true bank =
        Keeps->> d (try_settings d fl stack bank 15) _ (try_settings-Keeps bank 15)
          (Keeps-return d tt)
    insist_on-Keeps false bank = Keeps-return d tt

    send_setup-Keeps :
        (bank : ℕ) (command : List ℕ) (insist : Bool)
        → Keeps d (send_setup d fl stack bank command insist)
    unfolding send_setup
    send_setup-Keeps bank command insist =
        Keeps->>= d (send_command d stop_tablet) _ (send_command-Keeps stop_tablet) (λ stopped.
          Keeps->>= d (send_command d command) _ (send_command-Keeps command) (λ written.
            Keeps->> d (pause d) _ pause-Keeps (
              Keeps->> d (insist_on d fl stack insist bank) _ (insist_on-Keeps insist bank) (
                Keeps->>= d (send_command d start_tablet) _ (send_command-Keeps start_tablet)
                  (λ started. Keeps-return d tt)))))

    setup_sent :
        (o : Option ℕ) (setup : List ℕ) (insist : Bool) (w : World d)
        → Sound w.tablet
        → SoundWorld d {A = Unit {0}} (elim o [
          | none ↦ none
          | some b ↦
              let command = setup_command d fl stack b setup in
              let s = import_state stack command (bank_settings b w.tablet) in
              let w' = record w { tablet = set_bank b s w.tablet } in
              elim w.tablet.can_parse_ud_setup [
                | true ↦ send_setup d fl stack b command insist w'
                | false ↦ some (tt, w')
              ]
        ])
    setup_sent none setup insist w h = tt
    setup_sent (some b) setup insist w h =
        let command = setup_command d fl stack b setup in
        let s = import_state stack command (bank_settings b w.tablet) in
        let t' = set_bank b s w.tablet in
        let w' = record w { tablet = t' } in
        let k = IsSound-core t' w.tablet (core-set_bank b s w.tablet) h in
        SoundWorld-elim d w.tablet.can_parse_ud_setup (send_setup d fl stack b command insist w')
          (some (tt, w')) (send_setup-Keeps b command insist w' k) k

    pub send_ud_setup_string-Keeps :
        (setup : List ℕ) (bank : ℤ) (insist : Bool)
        → Keeps d (send_ud_setup_string d fl stack setup bank insist)
    unfolding send_ud_setup_string
    send_ud_setup_string-Keeps setup bank insist w h = setup_sent (bank_of bank) setup insist w h
