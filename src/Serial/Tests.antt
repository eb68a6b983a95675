-- ===== src/Serial/Tests.antt =====
-- A port that is opened, set up, searched for and closed.
use tablet_magic.Base.{◌≡◌, refl, true, false, List, [], ◌∷◌, Option, none, some}
use tablet_magic.Format.{codes}
use tablet_magic.Settings.Presets.{new_settings}
use tablet_magic.Serial.Calls.{
  apply_to, apply_settings, cs8, Attributes, Call, drain, set_attributes, close_file, SerialPort,
  Applying,
}
use tablet_magic.Serial.Open.{Opening, contains, set_up_file, open_port, close_port}
use tablet_magic.Serial.Settings.{
  rate, parity_of, take_parameters, set_speed, set_parameters, reinit,
}
use tablet_magic.Serial.Scan.{matches, Service, open_next_matching}
use tablet_magic.Serial.Trace.{replay, read_first, held, untouched}
use tablet_magic.Daemon.Identify.{begins_with}
use tablet_magic.Serial.Operations.{
  Operation, operate, set_up, change_speed, restart, search, operate_all, operate_all-held,
  close_port-restores,
}
use tablet_magic.Serial.Asked.{last_accepted, IsAsked}
use tablet_magic.Serial.Framed.{reinit-IsAsked}
use tablet_magic.Serial.First.{opened_port, candidates, first, open_next_matching-first}

abbrev attributes : Attributes
attributes = record {
  speed = 1200;
  size = cs8;
  parenb = true;
  parodd = false;
  cstopb = false;
  vmin = 0;
  vtime = 0;
  others = 5;
}

abbrev raw : Attributes → Attributes
raw a = record a { others = 0 }

abbrev opening : Opening
opening = record {
  opened = some 4;
  exclusive = true;
  blocking = true;
  found = some attributes;
  accepted = true;
}

abbrev refused : Opening
refused = record opening { exclusive = false }

abbrev port : SerialPort
port = record {
  fd = none;
  device_file_path = [];
  short_name = [];
  original_attribs = attributes;
  open_speed = 9600;
  open_data_bits = cs8;
  open_parity = 0;
  open_stop_bits = 1;
  open_cts = false;
  open_dsr = false;
}

abbrev services : List Service
services =
    record { valid = true; path = none; opening = opening }
    ∷ record { valid = true; path = some (codes "/dev/cu.modem"); opening = opening }
    ∷ record { valid = true; path = some (codes "/dev/cu.USA19H"); opening = refused }
    ∷ record { valid = true; path = some (codes "/dev/cu.USA28X"); opening = opening }
    ∷ []

open_next_matching-first_example :
    opened_port (open_next_matching raw (some (codes "USA")) true services port)
    ≡ first (candidates (some (codes "USA")) services)
open_next_matching-first_example =
    open_next_matching-first raw (some (codes "USA")) true services port refl

-- A search, the speed, the settings of the tablet, and a fresh start by them.
abbrev answer : Applying
answer = record { found = some attributes; accepted = true }

abbrev operations : List Operation
operations =
    search (some (codes "USA")) true services
    ∷ change_speed 19200 answer
    ∷ set_up (new_settings 0 7) answer
    ∷ restart (new_settings 0 7) true opening
    ∷ []

abbrev result_of : Option (SerialPort × List Call) → SerialPort × List Call
result_of none = (port, [])
result_of (some r) = r

abbrev result : SerialPort × List Call
result = result_of (operate_all raw operations port)

operated : operate_all raw operations port ≡ some (result.0, result.1)
unfolding operate_all operate set_speed set_parameters take_parameters rate parity_of apply_settings
    apply_to close_port reinit open_next_matching matches contains begins_with open_port set_up_file
    new_settings
operated = refl

result-fd : result.0.fd ≡ some 4
unfolding operate_all operate set_speed set_parameters take_parameters rate parity_of apply_settings
    apply_to close_port reinit open_next_matching matches contains begins_with open_port set_up_file
    new_settings
result-fd = refl

operate_all-held_example : replay result.1 untouched ≡ held result.0
operate_all-held_example = operate_all-held raw operations port result.0 result.1 refl operated

close_port-restores_example :
    (a : Attributes) × ((replay result.1 untouched).memory ≡ read_first a)
    × ((close_port true result.0).1 ≡ drain 4 ∷ set_attributes 4 a true ∷ close_file 4 ∷ [])
close_port-restores_example =
    close_port-restores raw operations port result.0 result.1 4 true refl operated result-fd

abbrev again : SerialPort × List Call
again = result_of (reinit raw (new_settings 0 7) true opening port)

reinited : reinit raw (new_settings 0 7) true opening port ≡ some (again.0, again.1)
unfolding reinit take_parameters rate parity_of close_port open_port set_up_file new_settings
reinited = refl

again-fd : again.0.fd ≡ some 4
unfolding reinit take_parameters rate parity_of close_port open_port set_up_file new_settings
again-fd = refl

reinit-IsAsked_example :
    (b : Attributes) × (last_accepted again.1 none ≡ some b) × IsAsked (new_settings 0 7) b
reinit-IsAsked_example =
    reinit-IsAsked raw (new_settings 0 7) true opening port again.0 again.1 4 reinited again-fd
