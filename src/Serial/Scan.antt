-- ===== src/Serial/Scan.antt =====
-- `BeginPortScan`, `GetNextPortPath` and `OpenNextMatchingPort`: the search through the ports of the
-- machine.
use tablet_magic.Base.{ℕ, Bool, true, false, not, ◌&&◌, List, [], ◌∷◌, ◌++◌, Option, none, some}
use tablet_magic.Serial.Calls.{Attributes, Call, SerialPort, is_open}
use tablet_magic.Serial.Open.{contains, Opening, open_port}

-- A service that the iterator gives (a conversion that fails leaves no path): whether the iterator is valid before it, its path if it has one
-- that converts, and what an attempt to open it meets.
pub record Service : Type 0 where
  pub valid : Bool
  pub path : Option (List ℕ)
  pub opening : Opening

-- No name and the empty name match every path.
unfoldable pub matches : Option (List ℕ) → List ℕ → Bool
unfolding contains
matches none path = true
matches (some []) path = true
matches (some (c ∷ name)) path = contains (c ∷ name) path

-- What `OpenNextMatchingPort` leaves.
pub record Found : Type 0 where
  pub success : Bool
  pub port : SerialPort
  pub calls : List Call
  pub rest : List Service

module _ (make_raw : Attributes → Attributes) where
  abbrev pub behind : List Call → Found → Found
  behind calls f = record f { calls = calls ++ f.calls }

  -- The iterator is asked whether it is valid before each look for a path, but not between the
  -- services without one.
  unfoldable pub open_next_matching : Option (List ℕ) → Bool → List Service → SerialPort → Found
  unfolding matches open_port
  open_next_matching name ask [] p = record {
    success = false;
    port = record p { device_file_path = [] };
    calls = [];
    rest = [];
  }
  open_next_matching name ask (s ∷ rest) p = elim (ask && not s.valid) [
    | true ↦ record { success = false; port = p; calls = []; rest = s ∷ rest }
    | false ↦ elim s.path [
      | none ↦ open_next_matching name false rest (record p { device_file_path = [] })
      | some path ↦
          let q = record p { device_file_path = path } in
          let (u, calls) = open_port make_raw s.opening q in
          elim (matches name path) [
            | false ↦ open_next_matching name true rest q
            | true ↦ elim (is_open u) [
              | true ↦ record { success = true; port = u; calls = calls; rest = rest }
              | false ↦ behind calls (open_next_matching name true rest u)
            ]
          ]
    ]
  ]
