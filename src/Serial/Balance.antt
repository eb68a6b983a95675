-- ===== src/Serial/Balance.antt =====
-- What each operation of the port leaves open.
use tablet_magic.Base.{
  ℕ, ◌≡◌, ◌∙◌, refl, ap, arith, Bool, true, false, not, ◌&&◌, List, [], ◌∷◌, ◌++◌, Option, none,
  some, Option-cases, inl, inr,
}
use tablet_magic.Serial.Calls.{
  Attributes, Call, open_file, SerialPort, is_open, Applying, apply_to, apply_settings,
}
use tablet_magic.Serial.Open.{Opening, set_up_file, open_port, close_port, short_name_of}
use tablet_magic.Serial.Trace.{
  Trace, nothing_open, forget, after_call, replay, trace_of, held, untouched,
}
use tablet_magic.Serial.Scan.{Service, matches, Found, behind, open_next_matching}

pub replay-append : (a b : List Call) (t : Trace) → replay (a ++ b) t ≡ replay b (replay a t)
replay-append [] b t = refl
replay-append (c ∷ a) b t = replay-append a b (after_call c t)

forget_own : (n : ℕ) → forget n (n ∷ []) ≡ []
forget_own n = ground arith

closed_again :
    (n : ℕ)
    → ◌≡◌ {A = Trace} (record { opened = forget n (n ∷ []); memory = nothing_open }) untouched
closed_again n = ap {B = Trace} (λ l. record { opened = l; memory = nothing_open }) (forget_own n)

applied-replay :
    (n : ℕ) (a : Attributes) (r : Applying) (p : SerialPort)
    → replay (apply_to n r p).1 (trace_of (some n) a) ≡ trace_of (some n) a
unfolding apply_to
applied-replay n a r p = elim (Option-cases r.found) [
  | inl unknown ↦ rw unknown refl
  | inr b ↦ rw b.shown refl
]

pub apply_settings-replay :
    (r : Applying) (p : SerialPort) → replay (apply_settings r p).1 (held p) ≡ held p
unfolding apply_settings
apply_settings-replay r p = go p.fd
  where
    go :
        (fd : Option ℕ)
        → replay
            (elim fd as (λ x. Bool × List Call) [ none ↦ (true, []) | some n ↦ apply_to n r p ]).1
            (trace_of fd p.original_attribs)
          ≡ trace_of fd p.original_attribs
    go none = refl
    go (some n) = applied-replay n p.original_attribs r p

pub close_port-replay :
    (restored : Bool) (p : SerialPort)
    → (replay (close_port restored p).1 (held p) ≡ untouched)
      × ((close_port restored p).0.fd ≡ none)
unfolding close_port
close_port-replay restored p = elim (Option-cases p.fd) [
  | inl shut ↦ rw shut (refl, refl)
  | inr n ↦ rw n.shown (closed_again n.value, refl)
]

module _ (make_raw : Attributes → Attributes) where
  each_way :
      (n : ℕ) (opened : Option ℕ) (exclusive blocking : Bool) (found : Option Attributes)
      (accepted : Bool) (path : List ℕ) (p : SerialPort)
      → let r : Opening = record {
        opened = opened;
        exclusive = exclusive;
        blocking = blocking;
        found = found;
        accepted = accepted;
      } in
        let out = set_up_file make_raw n r (open_file path (some n) ∷ []) p in
        replay out.1 untouched ≡ held out.0
  unfolding set_up_file
  each_way n opened false blocking none accepted path p = closed_again n
  each_way n opened false blocking (some a) accepted path p = closed_again n
  each_way n opened true false none accepted path p = closed_again n
  each_way n opened true false (some a) accepted path p = closed_again n
  each_way n opened true true none accepted path p = closed_again n
  each_way n opened true true (some a) true path p = refl
  each_way n opened true true (some a) false path p = closed_again n

  set_up_file-replay :
      (n : ℕ) (r : Opening) (path : List ℕ) (p : SerialPort)
      → let out = set_up_file make_raw n r (open_file path (some n) ∷ []) p in
        replay out.1 untouched ≡ held out.0
  set_up_file-replay n r path p =
      each_way n r.opened r.exclusive r.blocking r.found r.accepted path p

  pub open_port-replay :
      (r : Opening) (p : SerialPort)
      → replay (open_port make_raw r p).1 untouched ≡ held (open_port make_raw r p).0
  unfolding open_port
  open_port-replay r p = elim (Option-cases r.opened) [
    | inl failed ↦ rw failed refl
    | inr n ↦ rw n.shown (
        set_up_file-replay n.value r p.device_file_path
          (record p { short_name = short_name_of p.device_file_path }))
  ]

  abbrev pub Balanced : Found → Type 0
  Balanced f = replay f.calls untouched ≡ held f.port

  Balanced-elim :
      (b : Bool) (f g : Found)
      → Balanced f
      → Balanced g
      → Balanced (elim b [ true ↦ f | false ↦ g ])
  Balanced-elim true f g h k = h
  Balanced-elim false f g h k = k

  Balanced-behind :
      (u : SerialPort) (calls : List Call) (f : Found)
      → u.fd ≡ none
      → replay calls untouched ≡ held u
      → Balanced f
      → Balanced (behind make_raw calls f)
  Balanced-behind u calls f shut h k =
      replay-append calls f.calls untouched
      ∙ ap (replay f.calls) (h ∙ ap (λ fd. trace_of fd u.original_attribs) shut)
      ∙ k

  tried :
      (fd : Option ℕ) (u : SerialPort) (calls : List Call) (rest : List Service) (f : Found)
      → u.fd ≡ fd
      → replay calls untouched ≡ held u
      → (u.fd ≡ none → Balanced f)
      → Balanced (elim (elim fd as (λ x. Bool) [ none ↦ false | some n ↦ true ]) as (λ x. Found) [
        | true ↦ record { success = true; port = u; calls = calls; rest = rest }
        | false ↦ behind make_raw calls f
      ])
  tried none u calls rest f e h k = Balanced-behind u calls f e h (k e)
  tried (some n) u calls rest f e h k = h

  pathed :
      (name : Option (List ℕ)) (s : Service) (rest : List Service) (p : SerialPort)
      (path : Option (List ℕ))
      → p.fd ≡ none
      → ((ask : Bool) (q : SerialPort)
          → q.fd ≡ none
          → Balanced (open_next_matching make_raw name ask rest q))
      → Balanced (elim path [
        | none ↦ open_next_matching make_raw name false rest (record p { device_file_path = [] })
        | some path ↦
            let q = record p { device_file_path = path } in
            let (u, calls) = open_port make_raw s.opening q in
            elim (matches name path) [
              | false ↦ open_next_matching make_raw name true rest q
              | true ↦ elim (is_open u) [
                | true ↦ record { success = true; port = u; calls = calls; rest = rest }
                | false ↦ behind make_raw calls (open_next_matching make_raw name true rest u)
              ]
            ]
      ])
  pathed name s rest p none shut ih = ih false (record p { device_file_path = [] }) shut
  pathed name s rest p (some path) shut ih =
      let q = record p { device_file_path = path } in
      let out = open_port make_raw s.opening q in
      Balanced-elim (matches name path) _ _
        (tried out.0.fd out.0 out.1 rest (open_next_matching make_raw name true rest out.0) refl
          (open_port-replay s.opening q) (ih true out.0))
        (ih true q shut)

  -- What is found by a search that starts with nothing open.
  pub open_next_matching-replay :
      (name : Option (List ℕ)) (ask : Bool) (l : List Service) (p : SerialPort)
      → p.fd ≡ none
      → Balanced (open_next_matching make_raw name ask l p)
  unfolding open_next_matching
  open_next_matching-replay name ask [] p shut = rw shut refl
  open_next_matching-replay name ask (s ∷ rest) p shut =
      Balanced-elim (ask && not s.valid) _ _ (rw shut refl)
        (pathed name s rest p s.path shut (λ ask q. open_next_matching-replay name ask rest q))
