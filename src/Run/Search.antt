-- ===== src/Run/Search.antt =====
-- The invariant and `InitializeTablet`.
use tablet_magic.Base.{
  ℕ, zero, suc, ◌==◌, Bool, true, false, not, ◌&&◌, if◌then◌else◌, leb, List, [], length, Option,
  none, some, Bool-cases, inl, inr,
}
use tablet_magic.Int.{ℤ, pos}
use tablet_magic.Floats.{Floats}
use tablet_magic.Format.{codes}
use tablet_magic.Series.{Series, sd_series, tablet_pc}
use tablet_magic.Settings.{TabletSettings}
use tablet_magic.Settings.Presets.{
  init_for_sd, init_for_pl, init_for_pen_partner, init_for_intuos, init_for_tablet_pc,
}
use tablet_magic.Daemon.State.{Tablet}
use tablet_magic.Daemon.Mapping.{update_tablet_scale}
use tablet_magic.Daemon.Reply.{process_tablet_pc_reply}
use tablet_magic.Control.World.{Device, World, ◌>>=◌, ◌>>◌, return}
use tablet_magic.Control.Send.{
  line, is_answer, stop_tablet, start_tablet, send_command, send_request, send_scale, pause, change,
  handle_reply, get_ud_settings_or_fail,
}
use tablet_magic.Control.Initialize.{
  tablet_pc_id, query_reply_size, sd_setup, update_active, Setting, as_pl, as_sd, as_tablet_pc,
  as_pen_partner, as_intuos, asked, setting, flush_port, ask_id, query_tablet_pc, query_wacom,
  find_id, init_command, fits_setstr, forget_init, send_init, switch_off, ask_settings,
  apply_settings, apply_size, is_tablet_pc_series, start_sending, set_up, initialize_tablet,
}
use tablet_magic.Run.Sound.{core, Sound, IsSound-core}
use tablet_magic.Run.Replies.{core-update_tablet_scale, process_tablet_pc_reply-Sound}
use tablet_magic.Run.Keeps.{
  SoundWorld, Keeps, Keeps->>=, Keeps->>, Keeps-return, Keeps-change, Keeps-Bool, SoundWorld-elim,
}
use tablet_magic.Run.Acts.{
  send_command-Keeps, send_request-Keeps, send_scale-Keeps, pause-Keeps, handle_reply-Keeps,
  try_settings-Keeps,
}

update_active-Sound :
    (f : TabletSettings → TabletSettings) (t : Tablet) → Sound t → Sound (update_active f t)
unfolding core
update_active-Sound f t h = h

pub scale-Sound :
    (fl : Floats) (h v : ℤ) (tell : Bool) (t : Tablet)
    → Sound t
    → Sound (update_tablet_scale fl h v tell t)
scale-Sound fl h v tell t k =
    IsSound-core (update_tablet_scale fl h v tell t) t (core-update_tablet_scale fl h v tell t) k

switch_off-Sound :
    (d : Device) (fl : Floats) (stack : ℕ) (answered : Bool) (t : Tablet)
    → Sound t
    → Sound (switch_off d fl stack answered t)
unfolding core
switch_off-Sound d fl stack answered t h = elim (Bool-cases (not answered && t.command)) [
  | inl off ↦ rw off h
  | inr on ↦ rw on h
]

module _ (d : Device) where
  flush_port-Keeps : Keeps d (flush_port d)
  flush_port-Keeps w h = h

  ask_id-Keeps : (n : ℕ) (last : List ℕ) → Keeps d (ask_id d n last)
  unfolding ask_id
  ask_id-Keeps zero last = Keeps-return d last
  ask_id-Keeps (suc n) last =
      Keeps->>= d (send_request d (line (codes "~#"))) _ (send_request-Keeps d (line (codes "~#")))
        (λ text. Keeps-Bool d (is_answer text) _ _ (Keeps-return d text) (ask_id-Keeps n text))

  query_tablet_pc-Keeps : Keeps d (query_tablet_pc d)
  unfolding query_tablet_pc
  query_tablet_pc-Keeps =
      Keeps->>= d (send_command d (codes "0")) _ (send_command-Keeps d (codes "0")) (λ stopped.
        Keeps-Bool d stopped _ _
          (Keeps->> d (pause d) _ (pause-Keeps d) (
            Keeps->> d (flush_port d) _ flush_port-Keeps (
              Keeps->>= d (send_request d (codes "*")) _ (send_request-Keeps d (codes "*")) (λ text.
                Keeps->> d (change d (process_tablet_pc_reply text))
                  (return (if length text == query_reply_size then some tablet_pc_id else none))
                  (Keeps-change d (process_tablet_pc_reply text)
                    (process_tablet_pc_reply-Sound text))
                  (Keeps-return d
                    (if length text == query_reply_size then some tablet_pc_id else none))))))
          (Keeps-return d {A = Option (List ℕ)} none))

  query_wacom-Keeps : Keeps d (query_wacom d)
  unfolding query_wacom
  query_wacom-Keeps =
      Keeps->>= d (send_command d stop_tablet) _ (send_command-Keeps d stop_tablet) (λ stopped.
        Keeps-Bool d stopped _ _
          (Keeps->> d (flush_port d) _ flush_port-Keeps (
            Keeps->>= d (ask_id d 3 []) _ (ask_id-Keeps 3 [])
              (λ id. Keeps-return d (if length id == 0 then none else some id))))
          (Keeps-return d {A = Option (List ℕ)} none))

  find_id-Keeps : (s : Series) → Keeps d (find_id d s)
  unfolding find_id
  find_id-Keeps sd_series w h = h
  find_id-Keeps tablet_pc w h =
      SoundWorld-elim d w.args.forcepc (some (some tablet_pc_id, w)) (query_tablet_pc d w) h
        (query_tablet_pc-Keeps w h)
  find_id-Keeps _ w h = query_wacom-Keeps w h

  module _ (fl : Floats) (stack : ℕ) where
    fits_setstr-Keeps : (command : List ℕ) → Keeps d (fits_setstr d fl stack command)
    fits_setstr-Keeps command w h = elim (Bool-cases (leb 32 (length command))) [
      | inl long ↦ rw long tt
      | inr fits ↦ rw fits h
    ]

    send_init-Keeps : (init : Option (List ℕ)) → Keeps d (send_init d fl stack init)
    unfolding send_init
    send_init-Keeps none = Keeps-return d tt
    send_init-Keeps (some init) =
        let command = init_command d fl stack init in
        Keeps->> d (fits_setstr d fl stack command) _ (fits_setstr-Keeps command) (
          Keeps->>= d (send_command d command) _ (send_command-Keeps d command)
            (λ sent. Keeps->> d (pause d) (forget_init d fl stack) (pause-Keeps d) (λ w h. h)))

    ask_settings-Keeps : Keeps d (ask_settings d fl stack)
    unfolding ask_settings
    ask_settings-Keeps w h =
        Keeps->> d (send_init d fl stack w.args.init) _ (send_init-Keeps w.args.init)
          (Keeps->>= d (get_ud_settings_or_fail d fl stack 0) _ (try_settings-Keeps d fl stack 0 15)
            (λ answered.
              Keeps-change d (switch_off d fl stack answered)
                (switch_off-Sound d fl stack answered)))
          w h

    update_active-Keeps :
        (f : TabletSettings → TabletSettings) → Keeps d (change d (update_active f))
    update_active-Keeps f = Keeps-change d (update_active f) (update_active-Sound f)

    apply_settings-Keeps : (s : Setting) → Keeps d (apply_settings d fl stack s)
    unfolding apply_settings
    apply_settings-Keeps as_pl w h = update_active-Keeps (init_for_pl stack) w h
    apply_settings-Keeps as_sd w h =
        Keeps->> d (send_command d sd_setup) _ (send_command-Keeps d sd_setup)
          (update_active-Keeps (init_for_sd stack)) w h
    apply_settings-Keeps as_tablet_pc w h =
        update_active-Keeps (init_for_tablet_pc w.args.baud38400) w h
    apply_settings-Keeps as_pen_partner w h = update_active-Keeps (init_for_pen_partner stack) w h
    apply_settings-Keeps as_intuos w h = update_active-Keeps init_for_intuos w h
    apply_settings-Keeps asked w h = ask_settings-Keeps w h

    pub scale-Keeps : (h v : ℤ) (tell : Bool) → Keeps d (change d (update_tablet_scale fl h v tell))
    scale-Keeps h v tell =
        Keeps-change d (update_tablet_scale fl h v tell) (scale-Sound fl h v tell)

    ask_size-Keeps : Keeps d (do
      text ← send_request d (line (codes "~C"))
      elim (length text == 0) [
        | true ↦ return false
        | false ↦ handle_reply d fl stack text >> return true
      ])
    ask_size-Keeps =
        Keeps->>= d (send_request d (line (codes "~C"))) _
          (send_request-Keeps d (line (codes "~C")))
          (λ text. Keeps-Bool d (length text == 0) _ _ (Keeps-return d false) (
            Keeps->> d (handle_reply d fl stack text) _ (handle_reply-Keeps d fl stack text)
              (Keeps-return d true)))

    apply_size-Keeps : (s : Series) → Keeps d (apply_size d fl stack s)
    unfolding apply_size
    apply_size-Keeps tablet_pc =
        Keeps->> d (change d (update_tablet_scale fl (pos 24570) (pos 18430) false)) (return true)
          (scale-Keeps (pos 24570) (pos 18430) false) (Keeps-return d true)
    apply_size-Keeps sd_series =
        Keeps->>= d (send_scale d (pos 15240) (pos 15240)) _
          (send_scale-Keeps d (pos 15240) (pos 15240))
          (λ sent.
            Keeps->> d (change d (update_tablet_scale fl (pos 15240) (pos 15240) false))
              (return true) (scale-Keeps (pos 15240) (pos 15240) false) (Keeps-return d true))
    apply_size-Keeps _ = ask_size-Keeps

    start_told :
        (pc forced : Bool) (w : World d)
        → Sound w.tablet
        → SoundWorld d {A = Unit {0}} (elim pc [
          | false ↦ (send_command d start_tablet >> return tt) w
          | true ↦ elim forced [
            | true ↦ return tt w
            | false ↦ (send_command d (codes "1") >> return tt) w
          ]
        ])
    start_told false forced w h =
        Keeps->> d (send_command d start_tablet) (return tt) (send_command-Keeps d start_tablet)
          (Keeps-return d tt) w h
    start_told true true w h = h
    start_told true false w h =
        Keeps->> d (send_command d (codes "1")) (return tt) (send_command-Keeps d (codes "1"))
          (Keeps-return d tt) w h

    start_sending-Keeps : Keeps d (start_sending d fl stack)
    unfolding start_sending
    start_sending-Keeps w h =
        start_told (is_tablet_pc_series d fl stack w.tablet.series) w.args.forcepc w h

    set_up-Keeps : (id : List ℕ) → Keeps d (set_up d fl stack id)
    unfolding set_up
    set_up-Keeps id = Keeps->> d (handle_reply d fl stack id) _ (handle_reply-Keeps d fl stack id) (
        Keeps->> d (λ w. apply_settings d fl stack (setting w.tablet.series) w) _
          (λ w h. apply_settings-Keeps (setting w.tablet.series) w h)
          (Keeps->>= d (λ w. apply_size d fl stack w.tablet.series w) _
            (λ w h. apply_size-Keeps w.tablet.series w h)
            (λ sized.
              Keeps-Bool d sized _ _
                (Keeps->> d (start_sending d fl stack) _ start_sending-Keeps (Keeps-return d true))
                (Keeps-return d false))))

    identified :
        (o : Option (List ℕ))
        → Keeps d (elim o [ none ↦ return false | some text ↦ set_up d fl stack text ])
    identified none = Keeps-return d false
    identified (some text) = set_up-Keeps text

    pub initialize_tablet-Keeps : (model : Series) → Keeps d (initialize_tablet d fl stack model)
    unfolding initialize_tablet
    initialize_tablet-Keeps model = Keeps->>= d (find_id d model) _ (find_id-Keeps model) identified
