-- ===== src/Serial/Operations.antt =====
-- The operations of the port in any order.
use tablet_magic.Base.{
  ℕ, ◌≡◌, ◌∙◌, refl, sym, ap, Bool, true, if◌then◌else◌, List, [], ◌∷◌, ◌++◌, Option, none, some,
}
use tablet_magic.Settings.{TabletSettings}
use tablet_magic.Serial.Calls.{
  cs7, cs8, Attributes, Call, set_attributes, drain, close_file, SerialPort, Applying,
  apply_settings,
}
use tablet_magic.Serial.Open.{Opening, open_port, close_port}
use tablet_magic.Serial.Settings.{
  rate, parity_of, is_set, take_parameters, set_speed, set_parameters, reinit,
}
use tablet_magic.Serial.Scan.{Service, open_next_matching}
use tablet_magic.Serial.Trace.{read_first, replay, trace_of, held, untouched}
use tablet_magic.Serial.Balance.{
  replay-append, apply_settings-replay, close_port-replay, open_port-replay,
  open_next_matching-replay,
}

-- What the daemon does with its port. A search goes on only after `Close`, as in `InitializeForPort` and
-- at the end of the loop of `FindTabletOnPort`.
pub data Operation : Type 0 where
  set_up : TabletSettings → Applying → Operation
  change_speed : ℕ → Applying → Operation
  shut : Bool → Operation
  restart : TabletSettings → Bool → Opening → Operation
  search : Option (List ℕ) → Bool → List Service → Operation

module _ (make_raw : Attributes → Attributes) where
  unfoldable pub operate : Operation → SerialPort → Option (SerialPort × List Call)
  unfolding set_speed set_parameters close_port reinit open_next_matching
  operate (set_up s r) p = set_parameters s r p
  operate (change_speed v r) p = some (set_speed v r p)
  operate (shut restored) p = some (close_port restored p)
  operate (restart s restored r) p = reinit make_raw s restored r p
  operate (search name restored l) p =
      let (q, closing) = close_port restored p in
      let f = open_next_matching make_raw name true l q in some (f.port, closing ++ f.calls)

  unfoldable pub operate_all : List Operation → SerialPort → Option (SerialPort × List Call)
  unfolding operate
  operate_all [] p = some (p, [])
  operate_all (o ∷ os) p = elim (operate o p) [
    | none ↦ none
    | some (q, calls) ↦ elim (operate_all os q) [
      | none ↦ none
      | some (u, later) ↦ some (u, calls ++ later)
    ]
  ]

  abbrev Held : SerialPort → Option (SerialPort × List Call) → Type 0
  Held p none = Unit {0}
  Held p (some (q, calls)) = replay calls (held p) ≡ held q

  closed_held : (q : SerialPort) → q.fd ≡ none → held q ≡ untouched
  closed_held q e = ap (λ fd. trace_of fd q.original_attribs) e

  abbrev SameHeld : SerialPort → Option SerialPort → Type 0
  SameHeld p none = Unit {0}
  SameHeld p (some q) = held q ≡ held p

  take_parameters-SameHeld :
      (s : TabletSettings) (p : SerialPort) → SameHeld p (take_parameters s p)
  unfolding take_parameters
  take_parameters-SameHeld s p = go (rate s.baud_rate) (parity_of s.parity)
    where
      go :
          (v y : Option ℕ)
          → SameHeld p (elim v [
            | none ↦ none
            | some v ↦ elim y [
              | none ↦ none
              | some y ↦ some record p {
                open_speed = v;
                open_data_bits = if is_set s.data_bits then cs8 else cs7;
                open_parity = y;
                open_stop_bits = if is_set s.stop_bits then 2 else 1;
                open_cts = is_set s.cts;
                open_dsr = is_set s.dsr;
              }
            ]
          ])
      go none y = tt
      go (some v) none = tt
      go (some v) (some y) = refl

  set_up-Held :
      (p : SerialPort) (r : Applying) (o : Option SerialPort)
      → SameHeld p o
      → Held p (elim o [ none ↦ none | some q ↦ some (q, (apply_settings r q).1) ])
  set_up-Held p r none h = tt
  set_up-Held p r (some q) h =
      ap (replay (apply_settings r q).1) (sym h) ∙ apply_settings-replay r q

  -- What follows a close starts with nothing open.
  closed_first :
      (restored : Bool) (p : SerialPort) (calls : List Call)
      → replay ((close_port restored p).1 ++ calls) (held p) ≡ replay calls untouched
  closed_first restored p calls =
      replay-append (close_port restored p).1 calls (held p)
      ∙ ap (replay calls) (close_port-replay restored p).0

  restart-Held :
      (p : SerialPort) (restored : Bool) (r : Opening) (o : Option SerialPort)
      → Held p (elim o [
        | none ↦ none
        | some u ↦
            let (v, opening) = open_port make_raw r u in
            some (v, (close_port restored p).1 ++ opening)
      ])
  restart-Held p restored r none = tt
  restart-Held p restored r (some u) =
      closed_first restored p (open_port make_raw r u).1 ∙ open_port-replay make_raw r u

  operate-Held : (o : Operation) (p : SerialPort) → Held p (operate o p)
  unfolding operate
  operate-Held (set_up s r) p =
      unfold set_parameters in set_up-Held p r (take_parameters s p) (take_parameters-SameHeld s p)
  operate-Held (change_speed v r) p =
      unfold set_speed in apply_settings-replay r (record p { open_speed = v })
  operate-Held (shut restored) p =
      let closed = close_port-replay restored p in
      closed.0 ∙ sym (closed_held (close_port restored p).0 closed.1)
  operate-Held (restart s restored r) p =
      unfold reinit in restart-Held p restored r (take_parameters s (close_port restored p).0)
  operate-Held (search name restored l) p =
      let q = (close_port restored p).0 in
      closed_first restored p (open_next_matching make_raw name true l q).calls
      ∙ open_next_matching-replay make_raw name true l q (close_port-replay restored p).1

  append-Held :
      (p q : SerialPort) (calls : List Call) (o : Option (SerialPort × List Call))
      → replay calls (held p) ≡ held q
      → Held q o
      → Held p (elim o [ none ↦ none | some (u, later) ↦ some (u, calls ++ later) ])
  append-Held p q calls none h k = tt
  append-Held p q calls (some (u, later)) h k =
      replay-append calls later (held p) ∙ ap (replay later) h ∙ k

  elim-Held :
      (p : SerialPort) (os : List Operation) (o : Option (SerialPort × List Call))
      → Held p o
      → ((q : SerialPort) → Held q (operate_all os q))
      → Held p (elim o [
        | none ↦ none
        | some (q, calls) ↦ elim (operate_all os q) [
          | none ↦ none
          | some (u, later) ↦ some (u, calls ++ later)
        ]
      ])
  elim-Held p os none h ih = tt
  elim-Held p os (some (q, calls)) h ih = append-Held p q calls (operate_all os q) h (ih q)

  operate_all-Held : (os : List Operation) (p : SerialPort) → Held p (operate_all os p)
  unfolding operate_all
  operate_all-Held [] p = refl
  operate_all-Held (o ∷ os) p =
      elim-Held p os (operate o p) (operate-Held o p) (operate_all-Held os)

  -- Whatever is done with a port that starts closed, in any order: of all descriptors that were opened
  -- exactly the port's own is open in the end, and the attributes that the port will put back are those
  -- that were read first after it was opened.
  pub operate_all-held :
      (os : List Operation) (p q : SerialPort) (calls : List Call)
      → p.fd ≡ none
      → operate_all os p ≡ some (q, calls)
      → replay calls untouched ≡ held q
  operate_all-held os p q calls closed made =
      ap (replay calls) (sym (closed_held p closed)) ∙ (rw made at (operate_all-Held os p))

  -- So a port that is closed in the end has leaked nothing; and where it is open, `Close` waits for its
  -- output, puts the attributes back that were read first after it was opened, and closes it.
  pub close_port-restores :
      (os : List Operation) (p q : SerialPort) (calls : List Call) (n : ℕ) (restored : Bool)
      → p.fd ≡ none
      → operate_all os p ≡ some (q, calls)
      → q.fd ≡ some n
      → (a : Attributes) × ((replay calls untouched).memory ≡ read_first a)
        × ((close_port restored q).1 ≡ drain n ∷ set_attributes n a restored ∷ close_file n ∷ [])
  unfolding close_port
  close_port-restores os p q calls n restored closed made own = (
    q.original_attribs,
    ap (λ t. t.memory) (operate_all-held os p q calls closed made)
        ∙ ap (λ fd. (trace_of fd q.original_attribs).memory) own,
    rw (own, close_port) refl,
  )
