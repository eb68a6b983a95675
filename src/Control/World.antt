-- ===== src/Control/World.antt =====
-- The tablet together with the device on its port, and actions on both. `none` is an access outside
-- an array.
use tablet_magic.Base.{◌≡◌, ℕ, Bool, false, List, [], Option, none, some}
use tablet_magic.Int.{ℤ}
use tablet_magic.Daemon.State.{Tablet}
use tablet_magic.Settings.{TabletSettings}
use tablet_magic.Stream.Step.{Framer}
use tablet_magic.Port.{read_line}

-- The device: `write` takes the bytes of a command and returns what the system call returns,
-- `arriving` are the bytes that come before the port falls silent, and `leave` keeps of them those
-- that were not read.
pub record Device : Type 1 where
  pub State : Type 0
  pub write : List ℕ → State → ℤ × State
  pub arriving : State → List ℕ
  pub leave : List ℕ → State → State
  -- `Flush` and the waits.
  pub flush : State → State
  pub wait : State → State
  -- The ports of the machine that match a name, each by what the attempt to open it does, with its
  -- success; the speed of the port, and whether one is open.
  pub matching : Option (List ℕ) → State → List (State → Bool × State)
  pub close : State → State
  pub set_speed : ℕ → State → State
  pub speed : State → ℕ
  pub is_active : State → Bool
  -- `ReInit`, by the settings.
  pub reinit : TabletSettings → State → State

-- The options of the command line that outlive the start, and whether the machine is a PC.
pub record Args : Type 0 where
  pub forcepc : Bool
  pub hackintosh : Bool
  pub baud38400 : Bool
  pub init : Option (List ℕ)
  pub port : Option (List ℕ)

module _ (d : Device) where
  open d use {State, arriving, leave}

  -- The framer of the stream and the text of the mouse scaling are kept beside the tablet.
  pub record World : Type 0 where
    pub tablet : Tablet
    pub args : Args
    pub framer : Framer
    pub scaling : List ℕ
    pub port : State

  abbrev pub Act : Type 0 → Type 0
  Act A = World → Option (A × World)

  -- `ReadLine`.
  unfoldable pub port_read_line : Act (List ℕ)
  unfolding read_line
  port_read_line w = elim (read_line [] false (arriving w.port)) [
    | none ↦ none
    | some l ↦ some (l.text, record w { port = leave l.rest w.port })
  ]

infixl 5 ◌>>=◌ ◌>>◌
abbrev pub ◌>>=◌ {ℓ κ μ} :
    {W : Type μ} {A : Type ℓ} {B : Type κ}
    → (W → Option (A × W))
    → (A → W → Option (B × W))
    → W
    → Option (B × W)
◌>>=◌ m f w = elim (m w) [ none ↦ none | some (a, w') ↦ f a w' ]

abbrev pub ◌>>◌ {ℓ κ μ} :
    {W : Type μ} {A : Type ℓ} {B : Type κ}
    → (W → Option (A × W))
    → (W → Option (B × W))
    → W
    → Option (B × W)
m >> k = m >>= λ _. k

abbrev pub return {ℓ μ} : {W : Type μ} {A : Type ℓ} → A → W → Option (A × W)
return a w = some (a, w)

-- An action goes on from what the one before left.
pub bind-some {ℓ κ μ} :
    {W : Type μ} {A : Type ℓ} {B : Type κ} (m : W → Option (A × W)) (f : A → W → Option (B × W))
    (w u : W) (a : A)
    → m w ≡ some (a, u)
    → (m >>= f) w ≡ f a u
bind-some m f w u a e = rw (e, ◌>>=◌)
