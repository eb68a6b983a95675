-- ===== src/Serial/Calls.antt =====
-- The attributes of a terminal, the calls of the system, and the port.
use tablet_magic.Base.{ℕ, Bool, true, false, ◌==◌, if◌then◌else◌, List, [], ◌∷◌, Option, none, some}

-- The bits of `CSIZE`.
pub data CharSize : Type 0 where
  cs5 cs6 cs7 cs8 : CharSize

-- `struct termios`: its speed, the flags of `c_cflag` that the daemon sets, `VMIN` and `VTIME`, and
-- everything else.
pub record Attributes : Type 0 where
  pub speed : ℕ
  pub size : CharSize
  pub parenb : Bool
  pub parodd : Bool
  pub cstopb : Bool
  pub vmin : ℕ
  pub vtime : ℕ
  pub others : ℕ

-- A call, with what it returned where the daemon goes on by it.
pub data Call : Type 0 where
  open_file : List ℕ → Option ℕ → Call
  set_exclusive : ℕ → Bool → Call
  set_blocking : ℕ → Bool → Call
  get_attributes : ℕ → Option Attributes → Call
  set_attributes : ℕ → Attributes → Bool → Call
  assert_dtr : ℕ → Call
  clear_dtr : ℕ → Call
  set_lines : ℕ → Bool → Bool → Call
  get_lines : ℕ → Call
  drain : ℕ → Call
  close_file : ℕ → Call

-- `TMSerialPort`. No descriptor stands for `kSerialError`.
pub record SerialPort : Type 0 where
  pub fd : Option ℕ
  pub device_file_path : List ℕ
  pub short_name : List ℕ
  pub original_attribs : Attributes
  pub open_speed : ℕ
  pub open_data_bits : CharSize
  pub open_parity : ℕ
  pub open_stop_bits : ℕ
  pub open_cts : Bool
  pub open_dsr : Bool

abbrev pub is_open : SerialPort → Bool
is_open p = elim p.fd [ none ↦ false | some n ↦ true ]

-- `switch(openParity)`; any other number leaves the flags.
unfoldable pub set_parity : ℕ → Attributes → Attributes
set_parity parity a =
    if parity == 0
    then record a { parenb = false }
    else if parity == 1
    then record a { parenb = true; parodd = true }
    else if parity == 2
    then record a { parenb = true; parodd = false }
    else a

-- The speed, the data bits, the parity and the stop bits that are asked for.
unfoldable pub frame : SerialPort → Attributes → Attributes
unfolding set_parity
frame p a0 =
    let a =
      set_parity p.open_parity (record a0 { speed = p.open_speed; size = p.open_data_bits }) in
    record a { cstopb = p.open_stop_bits == 2 }

-- What the calls of `ApplySettings` return: the attributes that are read, and whether new ones are
-- accepted.
pub record Applying : Type 0 where
  pub found : Option Attributes
  pub accepted : Bool

-- The calls of `ApplySettings` on a descriptor, and its result.
unfoldable pub apply_to : ℕ → Applying → SerialPort → Bool × List Call
unfolding frame
apply_to n r p = elim r.found [
  | none ↦ (false, get_attributes n none ∷ [])
  | some a ↦ (r.accepted, get_attributes n (some a) ∷ set_attributes n (frame p a) r.accepted ∷ [])
]

unfoldable pub apply_settings : Applying → SerialPort → Bool × List Call
unfolding apply_to
apply_settings r p = elim p.fd [ none ↦ (true, []) | some n ↦ apply_to n r p ]
