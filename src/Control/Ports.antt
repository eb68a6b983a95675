-- ===== src/Control/Ports.antt =====
-- `FindTabletOnPort` and `InitializeForPort`: the ports and speeds that are tried.
use tablet_magic.Base.{ℕ, Bool, true, false, ◌==◌, if◌then◌else◌, List, [], ◌∷◌, Option}
use tablet_magic.Floats.{Floats}
use tablet_magic.Format.{codes}
use tablet_magic.Series.{Series, unknown, tablet_pc}
use tablet_magic.Stylus.{Point}
use tablet_magic.Stream.Step.{Framer}
use tablet_magic.Daemon.State.{Tablet}
use tablet_magic.Daemon.Queue.{send_message}
use tablet_magic.Daemon.Reset.{init_stylus}
use tablet_magic.Control.World.{Device, Act, Args, ◌>>=◌, ◌>>◌, return}
use tablet_magic.Control.Send.{change}
use tablet_magic.Control.Initialize.{initialize_tablet}

-- What is tried on each port: a model and a speed.
abbrev pub Try : Type 0
Try = Series × ℕ

abbrev pub b9600 : ℕ
b9600 = 9600

abbrev pub b19200 : ℕ
b19200 = 19200

abbrev pub b38400 : ℕ
b38400 = 38400

unfoldable pub models_to_try : Args → ℕ → List Try
models_to_try a first =
    let second = if first == b9600 then b19200 else b9600 in
    let typical = (unknown, first) ∷ (unknown, second) ∷ [] in
    let tablet_pcs =
      (tablet_pc, if a.baud38400 then b38400 else b19200)
      ∷ (tablet_pc, if a.baud38400 then b19200 else b9600)
      ∷ typical in
    if a.hackintosh then tablet_pcs else typical

module _ (d : Device) (fl : Floats) (stack : ℕ) where
  open d use {State, matching, close, set_speed, speed, is_active}

  abbrev pub on_port : (State → State) → Act d (Unit {0})
  on_port f w = return tt (record w { port = f w.port })

  -- The models and speeds on one port.
  unfoldable pub try_models : List Try → Act d Bool
  try_models [] = return false
  try_models ((model, baud) ∷ rest) = do
    on_port (set_speed baud)
    found ← initialize_tablet d fl stack model
    let next = try_models rest
    elim found [ true ↦ return true | false ↦ next ]

  abbrev pub open_next : (State → Bool × State) → Act d Bool
  open_next f w = let r = f w.port in return r.0 (record w { port = r.1 })

  -- The ports that match and can be opened, until a tablet is found.
  unfoldable pub try_ports : List Try → List (State → Bool × State) → Act d (Unit {0})
  try_ports models [] = return tt
  try_ports models (open_port ∷ rest) = do
    opened ← open_next open_port
    let later = try_ports models rest
    elim opened [
      | false ↦ later
      | true ↦ do
        found ← try_models models
        elim found [ true ↦ return tt | false ↦ on_port close >> later ]
    ]

  -- The speed is put back if no port is open behind the scan.
  unfoldable pub find_tablet_on_port : Option (List ℕ) → Act d Bool
  find_tablet_on_port name w =
      let first = speed w.port in
      (do
        try_ports (models_to_try w.args first) (matching name w.port)
        λ u.
            return (is_active u.port)
              (if is_active u.port then u else record u { port = set_speed first (close u.port) }))
        w

  -- Nothing is known of the tablet.
  abbrev pub forget_tablet : Tablet → Tablet
  forget_tablet t = record t {
    rom_version = [];
    version_tenths = 13;
    series = unknown;
    can_parse_ud_setup = true;
  }

  abbrev pub empty_framer : Framer
  empty_framer = record { phrase = []; in_packet = false; comma_count = 0 }

  abbrev pub clear_framer : Act d (Unit {0})
  clear_framer w = return tt (record w { framer = empty_framer })

  -- False stands for the exception that is thrown if the daemon runs by itself and finds no tablet.
  -- `cursor` is the place of the system's cursor.
  unfoldable pub initialize_for_port : Point → Option (List ℕ) → Act d Bool
  initialize_for_port cursor name = do
    on_port close
    clear_framer
    change d forget_tablet
    found ← find_tablet_on_port name
    elim found [
      | true ↦ do
        change d (λ t. if t.command then send_message (codes "[ready]") t else t)
        change d (init_stylus cursor)
        return true
      | false ↦ λ w.
          let t = w.tablet in
          return t.command
            (if t.command then record w { tablet = send_message (codes "[none]") t } else w)
    ]
