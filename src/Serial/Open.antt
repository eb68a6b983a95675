-- ===== src/Serial/Open.antt =====
-- `Open`, `Close`, `SetParameters`, `SetSpeed` and `ReInit`.
use tablet_magic.Base.{
  ℕ, Bool, true, not, if◌then◌else◌, List, [], ◌∷◌, ◌++◌, drop, Option, none, some,
}
use tablet_magic.Format.{codes}
use tablet_magic.Daemon.Identify.{begins_with}
use tablet_magic.Serial.Calls.{
  Attributes, Call, open_file, set_exclusive, set_blocking, get_attributes, set_attributes,
  assert_dtr, clear_dtr, set_lines, get_lines, drain, close_file, SerialPort, frame,
}

-- `strstr`: whether a text stands somewhere in another.
unfoldable pub contains : List ℕ → List ℕ → Bool
unfolding begins_with
contains text [] = begins_with text []
contains text (c ∷ s) =
    let later = contains text s in if begins_with text (c ∷ s) then true else later

unfoldable pub short_name_of : List ℕ → List ℕ
unfolding contains
short_name_of path =
    drop
      (if contains (codes "/dev/cu.") path
        then 8
        else if contains (codes "/dev/") path
        then 5
        else 0)
      path

-- What the calls of `Open` return.
pub record Opening : Type 0 where
  pub opened : Option ℕ
  pub exclusive : Bool
  pub blocking : Bool
  pub found : Option Attributes
  pub accepted : Bool

-- The label `error`.
abbrev pub give_up : ℕ → List Call → SerialPort → SerialPort × List Call
give_up n calls p = (record p { fd = none }, calls ++ (close_file n ∷ []))

-- The lines of the port, whose calls are not asked for their results.
abbrev pub handshake : ℕ → SerialPort → List Call
handshake n p = assert_dtr n ∷ clear_dtr n ∷ set_lines n p.open_cts p.open_dsr ∷ get_lines n ∷ []

-- `Close`; `restored` tells whether the attributes that were found are accepted.
unfoldable pub close_port : Bool → SerialPort → SerialPort × List Call
close_port restored p = elim p.fd [
  | none ↦ (p, [])
  | some n ↦ (
    record p { fd = none },
    drain n ∷ set_attributes n p.original_attribs restored ∷ close_file n ∷ [],
  )
]

-- `cfmakeraw` is the system's.
module _ (make_raw : Attributes → Attributes) where
  -- The attributes that `Open` asks for.
  unfoldable pub raw_frame : SerialPort → Attributes → Attributes
  unfolding frame
  raw_frame p a = frame p (record (make_raw a) { vmin = 1; vtime = 10 })

  -- With the descriptor open.
  unfoldable pub set_up_file : ℕ → Opening → List Call → SerialPort → SerialPort × List Call
  unfolding raw_frame
  set_up_file n r c0 p =
      let c1 = c0 ++ (set_exclusive n r.exclusive ∷ []) in
      let c2 = c1 ++ (set_blocking n r.blocking ∷ []) in
      let c3 = c2 ++ (get_attributes n r.found ∷ []) in
      if not r.exclusive
      then give_up n c1 p
      else if not r.blocking
      then give_up n c2 p
      else elim r.found [
        | none ↦ give_up n c3 p
        | some a ↦
            let q = record p { fd = some n; original_attribs = a } in
            let c4 = c3 ++ (set_attributes n (raw_frame p a) r.accepted ∷ []) in
            if r.accepted then (q, c4 ++ handshake n p) else give_up n c4 q
      ]

  -- `Open` without a path of its own, as it is always called.
  unfoldable pub open_port : Opening → SerialPort → SerialPort × List Call
  unfolding short_name_of set_up_file
  open_port r p0 =
      let path = p0.device_file_path in
      let p = record p0 { short_name = short_name_of path } in
      let c0 = open_file path r.opened ∷ [] in
      elim r.opened [ none ↦ (record p { fd = none }, c0) | some n ↦ set_up_file n r c0 p ]
