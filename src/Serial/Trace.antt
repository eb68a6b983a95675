-- ===== src/Serial/Trace.antt =====
-- What a list of calls leaves open, and with which attributes a port was found.
use tablet_magic.Base.{ℕ, ◌==◌, if◌then◌else◌, List, [], ◌∷◌, Option, none, some}
use tablet_magic.Serial.Calls.{Attributes, Call, open_file, get_attributes, close_file, SerialPort}

-- What is known of the attributes that a port had before it was opened: nothing is open, nothing was
-- read yet, or the first ones that were read.
pub data Memory : Type 0 where
  nothing_open : Memory
  nothing_read : Memory
  read_first : Attributes → Memory

-- The descriptors that are open, and the attributes of the one that was opened last.
pub record Trace : Type 0 where
  pub opened : List ℕ
  pub memory : Memory

abbrev pub forget : ℕ → List ℕ → List ℕ
forget n [] = []
forget n (m ∷ l) = if n == m then l else m ∷ forget n l

abbrev pub remember : Attributes → Memory → Memory
remember a nothing_read = read_first a
remember a m = m

-- A trace after one more call.
abbrev pub after_call : Call → Trace → Trace
after_call (open_file path (some n)) t = record { opened = n ∷ t.opened; memory = nothing_read }
after_call (get_attributes n (some a)) t = record t { memory = remember a t.memory }
after_call (close_file n) t = record { opened = forget n t.opened; memory = nothing_open }
after_call _ t = t

abbrev pub replay : List Call → Trace → Trace
replay [] t = t
replay (c ∷ cs) t = replay cs (after_call c t)

-- What the port itself says: its descriptor is open, and nothing else, and the attributes that it
-- keeps are those that were read first.
abbrev pub trace_of : Option ℕ → Attributes → Trace
trace_of none a = record { opened = []; memory = nothing_open }
trace_of (some n) a = record { opened = n ∷ []; memory = read_first a }

abbrev pub held : SerialPort → Trace
held p = trace_of p.fd p.original_attribs

abbrev pub untouched : Trace
untouched = record { opened = []; memory = nothing_open }
