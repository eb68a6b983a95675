-- ===== src/Run/Found.antt =====
-- The invariant and `FindTabletOnPort` and `InitializeForPort`.
use tablet_magic.Base.{
  ℕ, ◌≡◌, ◌≤◌, refl, Bool, true, false, if◌then◌else◌, List, [], ◌∷◌, Option, Bool-cases, inl, inr,
}
use tablet_magic.Bits.{has}
use tablet_magic.Floats.{Floats}
use tablet_magic.Format.{codes}
use tablet_magic.Stylus.{Point}
use tablet_magic.Daemon.State.{Tablet}
use tablet_magic.Daemon.Queue.{send_message}
use tablet_magic.Daemon.Reset.{fresh_stylus, init_stylus}
use tablet_magic.Control.World.{Device, World, ◌>>◌, return}
use tablet_magic.Control.Send.{change}
use tablet_magic.Control.Initialize.{initialize_tablet}
use tablet_magic.Control.Ports.{
  Try, models_to_try, on_port, try_models, open_next, try_ports, find_tablet_on_port, forget_tablet,
  empty_framer, initialize_for_port,
}
use tablet_magic.Run.Sound.{core, Sound}
use tablet_magic.Run.Keeps.{
  SoundWorld, Keeps, Keeps->>=, Keeps->>, Keeps-return, Keeps-change, Keeps-Bool,
}
use tablet_magic.Run.Search.{initialize_tablet-Keeps}

-- What a search for a tablet asks of the memory it starts from.
pub record IsFresh (t : Tablet) : Type 0 where
  pub lifted : has t.output.stylus.button_mask 9 ≡ false → t.output.stylus.pressure ≡ 0
  pub paused : t.log.stream_pause ≤ 2

init_stylus-Sound : (cursor : Point) (t : Tablet) → Sound t → Sound (init_stylus cursor t)
unfolding core init_stylus fresh_stylus
init_stylus-Sound cursor t h = record {
  lifted = λ e. refl;
  parsed = h.parsed;
  reached = h.reached;
  paused = h.paused;
}

-- Only the stylus and the pause outlive the forgetting.
forget_tablet-Sound :
    (d : Device) (fl : Floats) (stack : ℕ) (t : Tablet)
    → IsFresh t
    → Sound (forget_tablet d fl stack t)
unfolding core
forget_tablet-Sound d fl stack t h = record {
  lifted = h.lifted;
  parsed = refl;
  reached = λ e. cc;
  paused = h.paused;
}

told-Sound : (m : List ℕ) (t : Tablet) → Sound t → Sound (if t.command then send_message m t else t)
unfolding core
told-Sound m t h = elim (Bool-cases t.command) [ inl on ↦ rw on h | inr off ↦ rw off h ]

module _ (d : Device) (fl : Floats) (stack : ℕ) where
  open d use {State, matching, close, set_speed, speed, is_active}

  on_port-Keeps : (f : State → State) → Keeps d (on_port d fl stack f)
  on_port-Keeps f w h = h

  open_next-Keeps : (f : State → Bool × State) → Keeps d (open_next d fl stack f)
  open_next-Keeps f w h = h

  try_models-Keeps : (l : List Try) → Keeps d (try_models d fl stack l)
  unfolding try_models
  try_models-Keeps [] = Keeps-return d false
  try_models-Keeps ((model, baud) ∷ rest) =
      Keeps->> d (on_port d fl stack (set_speed baud)) _ (on_port-Keeps (set_speed baud)) (
        Keeps->>= d (initialize_tablet d fl stack model) _
          (initialize_tablet-Keeps d fl stack model)
          (λ found. Keeps-Bool d found _ _ (Keeps-return d true) (try_models-Keeps rest)))

  try_ports-Keeps :
      (models : List Try) (l : List (State → Bool × State))
      → Keeps d (try_ports d fl stack models l)
  unfolding try_ports
  try_ports-Keeps models [] = Keeps-return d tt
  try_ports-Keeps models (open_port ∷ rest) =
      Keeps->>= d (open_next d fl stack open_port) _ (open_next-Keeps open_port) (λ opened.
        Keeps-Bool d opened _ _
          (Keeps->>= d (try_models d fl stack models) _ (try_models-Keeps models) (λ found.
            Keeps-Bool d found (return tt) _ (Keeps-return d tt) (
              Keeps->> d (on_port d fl stack close) _ (on_port-Keeps close)
                (try_ports-Keeps models rest))))
          (try_ports-Keeps models rest))

  find_tablet_on_port-Keeps :
      (name : Option (List ℕ)) → Keeps d (find_tablet_on_port d fl stack name)
  unfolding find_tablet_on_port
  find_tablet_on_port-Keeps name w h =
      Keeps->> d (try_ports d fl stack (models_to_try w.args (speed w.port)) (matching name w.port))
        _ (try_ports-Keeps (models_to_try w.args (speed w.port)) (matching name w.port))
        (λ u k. elim (Bool-cases (is_active u.port)) [ inl on ↦ rw on k | inr off ↦ rw off k ]) w h

  initialized-Keeps :
      (cursor : Point) (found : Bool)
      → Keeps d (elim found [
        | true ↦ do
          change d (λ t. if t.command then send_message (codes "[ready]") t else t)
          change d (init_stylus cursor)
          return true
        | false ↦ λ w.
            let t = w.tablet in
            return t.command
              (if t.command then record w { tablet = send_message (codes "[none]") t } else w)
      ])
  unfolding core
  initialized-Keeps cursor true w h =
      Keeps->> d (change d (λ t. if t.command then send_message (codes "[ready]") t else t))
        (change d (init_stylus cursor) >> return true)
        (Keeps-change d (λ t. if t.command then send_message (codes "[ready]") t else t)
          (told-Sound (codes "[ready]")))
        (Keeps->> d (change d (init_stylus cursor)) (return true)
          (Keeps-change d (init_stylus cursor) (init_stylus-Sound cursor)) (Keeps-return d true))
        w h
  initialized-Keeps cursor false w h = elim (Bool-cases w.tablet.command) [
    | inl on ↦ rw on h
    | inr off ↦ rw off h
  ]

  pub initialize_for_port-Sound :
      (cursor : Point) (name : Option (List ℕ)) (w : World d)
      → IsFresh w.tablet
      → SoundWorld d (initialize_for_port d fl stack cursor name w)
  unfolding initialize_for_port
  initialize_for_port-Sound cursor name w h =
      Keeps->>= d (find_tablet_on_port d fl stack name) _ (find_tablet_on_port-Keeps name)
        (initialized-Keeps cursor)
        (record w {
          tablet = forget_tablet d fl stack w.tablet;
          framer = empty_framer d fl stack;
          port = close w.port;
        })
        (forget_tablet-Sound d fl stack w.tablet h)

  pub initialize_for_port-Keeps :
      (cursor : Point) (name : Option (List ℕ))
      → Keeps d (initialize_for_port d fl stack cursor name)
  unfolding core
  initialize_for_port-Keeps cursor name w h =
      initialize_for_port-Sound cursor name w (record { lifted = h.lifted; paused = h.paused })
