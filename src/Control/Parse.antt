-- ===== src/Control/Parse.antt =====
-- The first half of `HandleMessage`: the command that a message begins with, by the table
-- `TMParseData`.
use tablet_magic.Base.{
  ℕ, ◌||◌, ◌==◌, if◌then◌else◌, List, [], ◌∷◌, drop, length, Option, none, some,
}
use tablet_magic.Format.{codes, c_string}
use tablet_magic.Daemon.Identify.{begins_with}

-- `PREF_…`, of the commands that the table names.
pub data Command : Type 0 where
  stream next_message set_setup set_scale set_geometry set_mouse_mode reinit_port : Command
  datastream_start datastream_stop start stop select_port get_info get_geometry : Command
  get_model get_scale get_memory_bank get_serialport send_command send_request : Command
  set_memory quit panic prefs_hello prefs_bye tabletpc : Command

unfoldable pub token : Command → List ℕ
token stream = codes "stream"
token next_message = codes "next"
token set_setup = codes "setup"
token set_scale = codes "scale"
token set_geometry = codes "geom"
token set_mouse_mode = codes "mmode"
token reinit_port = codes "reinit"
token datastream_start = codes "stron"
token datastream_stop = codes "stroff"
token start = codes "start"
token stop = codes "stop"
token select_port = codes "port"
token get_info = codes "?info"
token get_geometry = codes "?geom"
token get_model = codes "?model"
token get_scale = codes "?scale"
token get_memory_bank = codes "?bank"
token get_serialport = codes "?port"
token send_command = codes "command"
token send_request = codes "request"
token set_memory = codes "setmem"
token quit = codes "quit"
token panic = codes "panic"
token prefs_hello = codes "hello"
token prefs_bye = codes "bye"
token tabletpc = codes "tabletpc"

-- The order of `TMParseData`.
abbrev pub all_commands : List Command
all_commands =
    stream ∷ next_message ∷ set_setup ∷ set_scale ∷ set_geometry ∷ set_mouse_mode ∷ reinit_port
    ∷ datastream_start ∷ datastream_stop ∷ start ∷ stop ∷ select_port ∷ get_info ∷ get_geometry
    ∷ get_model ∷ get_scale ∷ get_memory_bank ∷ get_serialport ∷ send_command ∷ send_request
    ∷ set_memory ∷ quit ∷ panic ∷ prefs_hello ∷ prefs_bye ∷ tabletpc ∷ []

-- What may follow the token: the end of the text, a line ending, which becomes the end, or spaces,
-- which are skipped. It gives the argument.
unfoldable pub skip_blanks : List ℕ → List ℕ
skip_blanks [] = []
skip_blanks (c ∷ s) = let rest = skip_blanks s in if c == b' ' then rest else c ∷ s

unfoldable pub argument : List ℕ → Option (List ℕ)
unfolding skip_blanks
argument [] = some []
argument (c ∷ s) =
    if c == b'\n' || c == b'\r'
    then some []
    else if c == b' '
    then some (skip_blanks (c ∷ s))
    else none

-- `strncmp` by the token, and what follows it.
unfoldable pub match_token : List ℕ → List ℕ → Option (List ℕ)
unfolding begins_with argument
match_token tok message =
    if begins_with tok message then argument (drop (length tok) message) else none

unfoldable pub find_command : List Command → List ℕ → Option (Command × List ℕ)
unfolding match_token token
find_command [] message = none
find_command (c ∷ rest) message = elim (match_token (token c) message) [
  | none ↦ find_command rest message
  | some arg ↦ some (c, arg)
]

unfoldable pub parse_command : List ℕ → Option (Command × List ℕ)
unfolding find_command c_string
parse_command bytes = find_command all_commands (c_string bytes)
