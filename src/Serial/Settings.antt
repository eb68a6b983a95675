-- ===== src/Serial/Settings.antt =====
-- `SetParameters`, `SetSpeed` and `ReInit`: the parameters that the settings of the tablet ask for.
use tablet_magic.Base.{ℕ, Bool, false, not, ◌==◌, if◌then◌else◌, List, ◌++◌, Option, none, some}
use tablet_magic.Settings.{TabletSettings}
use tablet_magic.Serial.Calls.{cs7, cs8, Attributes, Call, SerialPort, Applying, apply_settings}
use tablet_magic.Serial.Open.{Opening, open_port, close_port}

-- The tables `rate` and `parity`. None is an access behind their ends.
unfoldable pub rate : ℕ → Option ℕ
rate n =
    if n == 0
    then some 2400
    else if n == 1
    then some 4800
    else if n == 2
    then some 9600
    else if n == 3
    then some 19200
    else if n == 4
    then some 38400
    else none

unfoldable pub parity_of : ℕ → Option ℕ
parity_of n =
    if n == 0
    then some 0
    else if n == 1
    then some 0
    else if n == 2
    then some 1
    else if n == 3
    then some 2
    else none

abbrev pub is_set : ℕ → Bool
is_set n = not (n == 0)

-- `SetDefaultParameters`, in the constructor of a port.
abbrev pub default_parameters : SerialPort → SerialPort
default_parameters p = record p {
  fd = none;
  open_speed = 9600;
  open_data_bits = cs8;
  open_parity = 0;
  open_stop_bits = 1;
  open_cts = false;
  open_dsr = false;
}

-- The parameters of the settings, before they are applied.
unfoldable pub take_parameters : TabletSettings → SerialPort → Option SerialPort
unfolding rate parity_of
take_parameters s p = elim (rate s.baud_rate) [
  | none ↦ none
  | some v ↦ elim (parity_of s.parity) [
    | none ↦ none
    | some y ↦ some record p {
      open_speed = v;
      open_data_bits = if is_set s.data_bits then cs8 else cs7;
      open_parity = y;
      open_stop_bits = if is_set s.stop_bits then 2 else 1;
      open_cts = is_set s.cts;
      open_dsr = is_set s.dsr;
    }
  ]
]

-- `SetSpeed`.
unfoldable pub set_speed : ℕ → Applying → SerialPort → SerialPort × List Call
unfolding apply_settings
set_speed v r p0 = let p = record p0 { open_speed = v } in (p, (apply_settings r p).1)

-- `SetParameters(TabletSettings*)`.
unfoldable pub set_parameters :
    TabletSettings → Applying → SerialPort → Option (SerialPort × List Call)
unfolding take_parameters apply_settings
set_parameters s r p = elim (take_parameters s p) [
  | none ↦ none
  | some q ↦ some (q, (apply_settings r q).1)
]

module _ (make_raw : Attributes → Attributes) where
  -- `ReInit`. The port is closed before the parameters are taken.
  unfoldable pub reinit :
      TabletSettings → Bool → Opening → SerialPort → Option (SerialPort × List Call)
  unfolding close_port take_parameters open_port
  reinit s restored r p =
      let (q, closing) = close_port restored p in
      elim (take_parameters s q) [
        | none ↦ none
        | some u ↦ let (v, opening) = open_port make_raw r u in some (v, closing ++ opening)
      ]
