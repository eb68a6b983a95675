-- ===== src/Serial/Framed.antt =====
-- The attributes that `ReInit` gives the port.
use tablet_magic.Base.{
  ℕ, ◌≡◌, ◌∙◌, refl, sym, ap, Bool, true, false, ◌==◌, List, [], ◌∷◌, ◌++◌, Option, none, some,
}
use mathlib.Core.Option.{some-injective, none-ne-some}
use tablet_magic.Settings.{TabletSettings}
use tablet_magic.Serial.Calls.{Attributes, Call, open_file, SerialPort, set_parity, frame}
use tablet_magic.Serial.Open.{Opening, short_name_of, raw_frame, set_up_file, open_port, close_port}
use tablet_magic.Serial.Settings.{is_set, take_parameters, reinit}
use tablet_magic.Serial.Asked.{
  last_accepted, accept, IsAsked, Takes, rate-power, parity_of-number, take_parameters-Takes,
  set_parity-others, two_stops,
}

module _ (make_raw : Attributes → Attributes) where
  set_each_way :
      (n : ℕ) (opened : Option ℕ) (exclusive blocking : Bool) (found : Option Attributes)
      (accepted : Bool) (path : List ℕ) (p : SerialPort) (m : ℕ) (o : Option Attributes)
      → let r : Opening = record {
        opened = opened;
        exclusive = exclusive;
        blocking = blocking;
        found = found;
        accepted = accepted;
      } in
        let out = set_up_file make_raw n r (open_file path (some n) ∷ []) p in
        out.0.fd ≡ some m
        → (a : Attributes) × (last_accepted out.1 o ≡ some (raw_frame make_raw p a))
  unfolding set_up_file
  set_each_way n opened false blocking none accepted path p m o e = absurd (none-ne-some m e)
  set_each_way n opened false blocking (some a) accepted path p m o e = absurd (none-ne-some m e)
  set_each_way n opened true false none accepted path p m o e = absurd (none-ne-some m e)
  set_each_way n opened true false (some a) accepted path p m o e = absurd (none-ne-some m e)
  set_each_way n opened true true none accepted path p m o e = absurd (none-ne-some m e)
  set_each_way n opened true true (some a) true path p m o e = (a, refl)
  set_each_way n opened true true (some a) false path p m o e = absurd (none-ne-some m e)

  raw_frame-IsAsked :
      (s : TabletSettings) (u : SerialPort) (a : Attributes)
      → Takes s u
      → IsAsked s (raw_frame make_raw u a)
  unfolding raw_frame frame
  raw_frame-IsAsked s u a t =
      let a1 = record (make_raw a) {
        vmin = 1;
        vtime = 10;
        speed = u.open_speed;
        size = u.open_data_bits;
      } in
      let others = set_parity-others u.open_parity a1 in
      let number = parity_of-number s.parity u.open_parity t.flags in
      record {
        speed = others.0 ∙ rate-power s.baud_rate u.open_speed t.speed;
        size = others.1 ∙ t.size;
        no_parity = λ h. unfold set_parity in ap (λ y. (set_parity y a1).parenb) (number.0 h);
        odd = λ h.
            unfold set_parity in
            (
              ap (λ y. (set_parity y a1).parenb) (number.1 h),
              ap (λ y. (set_parity y a1).parodd) (number.1 h),
            );
        even = λ h.
            unfold set_parity in
            (
              ap (λ y. (set_parity y a1).parenb) (number.2 h),
              ap (λ y. (set_parity y a1).parodd) (number.2 h),
            );
        stops = ap (λ n. n == 2) t.stops ∙ two_stops (is_set s.stop_bits);
        least = others.2;
        longest = others.3;
      }

  open_each_way :
      (opened : Option ℕ) (exclusive blocking : Bool) (found : Option Attributes) (accepted : Bool)
      (p : SerialPort) (n : ℕ) (o : Option Attributes)
      → let r : Opening = record {
        opened = opened;
        exclusive = exclusive;
        blocking = blocking;
        found = found;
        accepted = accepted;
      } in
        (open_port make_raw r p).0.fd ≡ some n
        → (a : Attributes) × (last_accepted (open_port make_raw r p).1 o
            ≡ some
                (raw_frame make_raw (record p { short_name = short_name_of p.device_file_path }) a))
  unfolding open_port
  open_each_way none exclusive blocking found accepted p n o e = absurd (none-ne-some n e)
  open_each_way (some m) exclusive blocking found accepted p n o e =
      set_each_way m (some m) exclusive blocking found accepted p.device_file_path
        (record p { short_name = short_name_of p.device_file_path }) n o e

  short_name-Takes :
      (s : TabletSettings) (u : SerialPort) (name : List ℕ)
      → Takes s u
      → Takes s (record u { short_name = name })
  short_name-Takes s u name t = record {
    speed = t.speed;
    size = t.size;
    flags = t.flags;
    stops = t.stops;
  }

  -- What was accepted last, whatever was before.
  last_accepted-append :
      (a b : List Call) (o : Option Attributes)
      → last_accepted (a ++ b) o ≡ last_accepted b (last_accepted a o)
  last_accepted-append [] b o = refl
  last_accepted-append (c ∷ a) b o = last_accepted-append a b (accept c o)

  opened-IsAsked :
      (s : TabletSettings) (r : Opening) (u : SerialPort) (n : ℕ) (o : Option Attributes)
      → Takes s u
      → (open_port make_raw r u).0.fd ≡ some n
      → (b : Attributes) × (last_accepted (open_port make_raw r u).1 o ≡ some b) × IsAsked s b
  opened-IsAsked s r u n o t e =
      let named = record u { short_name = short_name_of u.device_file_path } in
      let (a, set) = open_each_way r.opened r.exclusive r.blocking r.found r.accepted u n o e in
      (
        raw_frame make_raw named a,
        set,
        raw_frame-IsAsked s named a (short_name-Takes s u named.short_name t),
      )

  reinit_sets :
      (s : TabletSettings) (r : Opening) (p q : SerialPort) (closing calls : List Call) (n : ℕ)
      (o : Option SerialPort)
      → take_parameters s p ≡ o
      → elim o as (λ x. Option (SerialPort × List Call)) [
        | none ↦ none
        | some u ↦ let (v, opening) = open_port make_raw r u in some (v, closing ++ opening)
      ]
        ≡ some (q, calls)
      → q.fd ≡ some n
      → (b : Attributes) × (last_accepted calls none ≡ some b) × IsAsked s b
  reinit_sets s r p q closing calls n none taken made own = absurd (none-ne-some (q, calls) made)
  reinit_sets s r p q closing calls n (some u) taken made own =
      let out = open_port make_raw r u in
      let same = some-injective (out.0, closing ++ out.1) (q, calls) made in
      let (b, set, asked) =
        opened-IsAsked s r u n (last_accepted closing none) (take_parameters-Takes s p u taken)
          (ap (λ x. x.0.fd) same ∙ own) in
      (
        b,
        sym (ap (λ x. last_accepted x.1 none) same) ∙ last_accepted-append closing out.1 none ∙ set,
        asked,
      )

  -- Where `ReInit` leaves the port open, the attributes that the system has accepted last are those that
  -- the settings of the tablet ask for: the speed, the data bits, the parity, the stop bits, and reads
  -- that wait for one byte or a second.
  pub reinit-IsAsked :
      (s : TabletSettings) (restored : Bool) (r : Opening) (p q : SerialPort) (calls : List Call)
      (n : ℕ)
      → reinit make_raw s restored r p ≡ some (q, calls)
      → q.fd ≡ some n
      → (b : Attributes) × (last_accepted calls none ≡ some b) × IsAsked s b
  unfolding reinit
  reinit-IsAsked s restored r p q calls n made own =
      reinit_sets s r (close_port restored p).0 q (close_port restored p).1 calls n
        (take_parameters s (close_port restored p).0) refl made own
