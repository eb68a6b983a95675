-- ===== src/Serial/First.antt =====
-- Which port `OpenNextMatchingPort` opens.
use tablet_magic.Base.{
  ℕ, ◌≡◌, ◌∙◌, refl, ap, arith, Bool, true, false, not, ◌&&◌, if◌then◌else◌, List, [], ◌∷◌, ◌++◌,
  Option, none, some,
}
use tablet_magic.Serial.Calls.{Attributes, Call, SerialPort, is_open}
use tablet_magic.Serial.Open.{Opening, set_up_file, open_port}
use tablet_magic.Serial.Scan.{Service, matches, Found, behind, open_next_matching}

-- The descriptor, if all the calls of `Open` that can fail succeed.
abbrev pub opens : Opening → Option ℕ
opens r = elim r.found [
  | none ↦ none
  | some a ↦ if r.exclusive && r.blocking && r.accepted then r.opened else none
]

-- A service whose path matches and that can be opened, by its path and descriptor.
abbrev pub with_path : Option (List ℕ) → List ℕ → Option ℕ → List (List ℕ × ℕ)
with_path name path none = []
with_path name path (some n) = if matches name path then (path, n) ∷ [] else []

abbrev pub candidate : Option (List ℕ) → Service → List (List ℕ × ℕ)
candidate name s = elim s.path [ none ↦ [] | some path ↦ with_path name path (opens s.opening) ]

-- All of them, in order.
abbrev pub candidates : Option (List ℕ) → List Service → List (List ℕ × ℕ)
candidates name [] = []
candidates name (s ∷ l) = candidate name s ++ candidates name l

abbrev pub first : List (List ℕ × ℕ) → Option (List ℕ × ℕ)
first [] = none
first (c ∷ l) = some c

abbrev pub all_valid : List Service → Bool
all_valid [] = true
all_valid (s ∷ l) = s.valid && all_valid l

-- What was opened, by its path and descriptor.
abbrev pub owned : List ℕ → Option ℕ → Option (List ℕ × ℕ)
owned path none = none
owned path (some n) = some (path, n)

abbrev pub opened_port : Found → Option (List ℕ × ℕ)
opened_port f = if f.success then owned f.port.device_file_path f.port.fd else none

module _ (make_raw : Attributes → Attributes) where
  each_way :
      (opened : Option ℕ) (exclusive blocking : Bool) (found : Option Attributes) (accepted : Bool)
      (p : SerialPort)
      → let r : Opening = record {
        opened = opened;
        exclusive = exclusive;
        blocking = blocking;
        found = found;
        accepted = accepted;
      } in
        let u = (open_port make_raw r p).0 in
        (u.fd ≡ opens r) × (u.device_file_path ≡ p.device_file_path)
  unfolding open_port set_up_file
  each_way none exclusive blocking none accepted p = (refl, refl)
  each_way none false blocking (some a) accepted p = (refl, refl)
  each_way none true false (some a) accepted p = (refl, refl)
  each_way none true true (some a) false p = (refl, refl)
  each_way none true true (some a) true p = (refl, refl)
  each_way (some n) false blocking none accepted p = (refl, refl)
  each_way (some n) true false none accepted p = (refl, refl)
  each_way (some n) true true none accepted p = (refl, refl)
  each_way (some n) false blocking (some a) accepted p = (refl, refl)
  each_way (some n) true false (some a) accepted p = (refl, refl)
  each_way (some n) true true (some a) true p = (refl, refl)
  each_way (some n) true true (some a) false p = (refl, refl)

  open_port-opens :
      (r : Opening) (p : SerialPort)
      → let u = (open_port make_raw r p).0 in
        (u.fd ≡ opens r) × (u.device_file_path ≡ p.device_file_path)
  open_port-opens r p = each_way r.opened r.exclusive r.blocking r.found r.accepted p

  tried :
      (fd : Option ℕ) (name : Option (List ℕ)) (path : List ℕ) (u : SerialPort) (calls : List Call)
      (rest : List Service) (f : Found)
      → matches name path ≡ true
      → u.fd ≡ fd
      → u.device_file_path ≡ path
      → opened_port f ≡ first (candidates name rest)
      → opened_port
          (elim (elim fd as (λ x. Bool) [ none ↦ false | some n ↦ true ]) as (λ x. Found) [
            | true ↦ record { success = true; port = u; calls = calls; rest = rest }
            | false ↦ behind make_raw calls f
          ])
        ≡ first (with_path name path fd ++ candidates name rest)
  tried none name path u calls rest f m e d h = h
  tried (some n) name path u calls rest f m e d h =
      rw m (ap (λ x. owned u.device_file_path x) e ∙ ap (λ x. some (x, n)) d)

  unmatched :
      (fd : Option ℕ) (name : Option (List ℕ)) (path : List ℕ) (l : List (List ℕ × ℕ))
      → matches name path ≡ false
      → l ≡ with_path name path fd ++ l
  unmatched none name path l m = refl
  unmatched (some n) name path l m = rw m refl

  pathed :
      (b : Bool) (name : Option (List ℕ)) (s : Service) (rest : List Service) (p : SerialPort)
      (path : List ℕ)
      → matches name path ≡ b
      → ((q : SerialPort)
          → opened_port (open_next_matching make_raw name true rest q)
            ≡ first (candidates name rest))
      → let q = record p { device_file_path = path } in
        let out = open_port make_raw s.opening q in
        opened_port (elim b as (λ x. Found) [
          | false ↦ open_next_matching make_raw name true rest q
          | true ↦ elim (is_open out.0) [
            | true ↦ record { success = true; port = out.0; calls = out.1; rest = rest }
            | false ↦ behind make_raw out.1 (open_next_matching make_raw name true rest out.0)
          ]
        ])
        ≡ first (with_path name path (opens s.opening) ++ candidates name rest)
  pathed false name s rest p path m ih =
      ih (record p { device_file_path = path })
      ∙ ap first (unmatched (opens s.opening) name path (candidates name rest) m)
  pathed true name s rest p path m ih =
      let q = record p { device_file_path = path } in
      let out = open_port make_raw s.opening q in
      let facts = open_port-opens s.opening q in
      tried out.0.fd name path out.0 out.1 rest (open_next_matching make_raw name true rest out.0) m
        refl facts.1 (ih out.0)
      ∙ ap (λ fd. first (with_path name path fd ++ candidates name rest)) facts.0

  served :
      (name : Option (List ℕ)) (s : Service) (rest : List Service) (p : SerialPort)
      (path : Option (List ℕ))
      → ((ask : Bool) (q : SerialPort)
          → opened_port (open_next_matching make_raw name ask rest q)
            ≡ first (candidates name rest))
      → opened_port (elim path as (λ x. Found) [
        | none ↦ open_next_matching make_raw name false rest (record p { device_file_path = [] })
        | some path ↦
            let q = record p { device_file_path = path } in
            let (u, calls) = open_port make_raw s.opening q in
            elim (matches name path) [
              | false ↦ open_next_matching make_raw name true rest q
              | true ↦ elim (is_open u) [
                | true ↦ record { success = true; port = u; calls = calls; rest = rest }
                | false ↦ behind make_raw calls (open_next_matching make_raw name true rest u)
              ]
            ]
      ])
        ≡ first (
            elim path as (λ x. List (List ℕ × ℕ)) [
              | none ↦ []
              | some path ↦ with_path name path (opens s.opening)
            ]
            ++ candidates name rest)
  served name s rest p none ih = ih false (record p { device_file_path = [] })
  served name s rest p (some path) ih = pathed (matches name path) name s rest p path refl (ih true)

  both : (a b : Bool) → a && b ≡ true → (a ≡ true) × (b ≡ true)
  both true b h = (refl, h)
  both false b h = cc

  still_valid : (ask v : Bool) → v ≡ true → (ask && not v) ≡ false
  still_valid ask v h = ground arith

  -- While the iterator stays valid, what is opened is the first service in order that has a path, whose
  -- path contains the name (every path does if there is no name or an empty one), and on which all the
  -- calls of `Open` that can fail succeed; and nothing is opened if there is none.
  pub open_next_matching-first :
      (name : Option (List ℕ)) (ask : Bool) (l : List Service) (p : SerialPort)
      → all_valid l ≡ true
      → opened_port (open_next_matching make_raw name ask l p) ≡ first (candidates name l)
  unfolding open_next_matching
  open_next_matching-first name ask [] p valid = refl
  open_next_matching-first name ask (s ∷ rest) p valid =
      let (now, later) = both s.valid (all_valid rest) valid in
      rw (still_valid ask s.valid now, open_next_matching)
        (served name s rest p s.path (λ ask q. open_next_matching-first name ask rest q later))
