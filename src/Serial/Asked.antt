-- ===== src/Serial/Asked.antt =====
-- What the settings of the tablet ask of the attributes of its port.
use tablet_magic.Base.{
  ℕ, zero, suc, ◌*◌, ◌^◌, ◌≤◌, ◌≡◌, ◌∙◌, refl, sym, ap, arith, Bool, true, false, ◌==◌,
  if◌then◌else◌, List, [], ◌∷◌, Option, none, some,
}
use mathlib.Core.Option.{some-injective, none-ne-some}
use tablet_magic.Settings.{TabletSettings}
use tablet_magic.Serial.Calls.{cs7, cs8, Attributes, Call, set_attributes, SerialPort, set_parity}
use tablet_magic.Serial.Settings.{rate, parity_of, is_set, take_parameters}

-- The attributes that were accepted last.
abbrev pub accept : Call → Option Attributes → Option Attributes
accept (set_attributes n a true) o = some a
accept _ o = o

abbrev pub last_accepted : List Call → Option Attributes → Option Attributes
last_accepted [] o = o
last_accepted (c ∷ cs) o = last_accepted cs (accept c o)

-- What the settings of a tablet ask of the attributes of its port.
pub record IsAsked (s : TabletSettings) (b : Attributes) : Type 0 where
  pub speed : b.speed ≡ 2400 * 2 ^ s.baud_rate
  pub size : b.size ≡ (if is_set s.data_bits then cs8 else cs7)
  pub no_parity : s.parity ≤ 1 → b.parenb ≡ false
  pub odd : s.parity ≡ 2 → (b.parenb ≡ true) × (b.parodd ≡ true)
  pub even : s.parity ≡ 3 → (b.parenb ≡ true) × (b.parodd ≡ false)
  pub stops : b.cstopb ≡ is_set s.stop_bits
  pub least : b.vmin ≡ 1
  pub longest : b.vtime ≡ 10

-- What the parameters of a port say of the settings that they are taken from.
pub record Takes (s : TabletSettings) (u : SerialPort) : Type 0 where
  pub speed : rate s.baud_rate ≡ some u.open_speed
  pub size : u.open_data_bits ≡ (if is_set s.data_bits then cs8 else cs7)
  pub flags : parity_of s.parity ≡ some u.open_parity
  pub stops : u.open_stop_bits ≡ (if is_set s.stop_bits then 2 else 1)

rate-none : (n : ℕ) → 5 ≤ n → rate n ≡ none
unfolding rate
rate-none n h = ground arith

parity_of-none : (n : ℕ) → 4 ≤ n → parity_of n ≡ none
unfolding parity_of
parity_of-none n h = ground arith

pub rate-power : (n v : ℕ) → rate n ≡ some v → v ≡ 2400 * 2 ^ n
unfolding rate
rate-power zero v e = sym (some-injective 2400 v e)
rate-power (suc zero) v e = sym (some-injective 4800 v e)
rate-power (suc (suc zero)) v e = sym (some-injective 9600 v e)
rate-power (suc (suc (suc zero))) v e = sym (some-injective 19200 v e)
rate-power (suc (suc (suc (suc zero)))) v e = sym (some-injective 38400 v e)
rate-power (suc (suc (suc (suc (suc n))))) v e =
    absurd (none-ne-some v (sym (rate-none (suc (suc (suc (suc (suc n))))) (omega arith)) ∙ e))

pub parity_of-number :
    (n y : ℕ) → parity_of n ≡ some y → (n ≤ 1 → y ≡ 0) × (n ≡ 2 → y ≡ 1) × (n ≡ 3 → y ≡ 2)
unfolding parity_of
parity_of-number zero y e = (λ h. sym (some-injective 0 y e), λ h. omega arith, λ h. omega arith)
parity_of-number (suc zero) y e =
    (λ h. sym (some-injective 0 y e), λ h. omega arith, λ h. omega arith)
parity_of-number (suc (suc zero)) y e =
    (λ h. omega arith, λ h. sym (some-injective 1 y e), λ h. omega arith)
parity_of-number (suc (suc (suc zero))) y e =
    (λ h. omega arith, λ h. omega arith, λ h. sym (some-injective 2 y e))
parity_of-number (suc (suc (suc (suc n)))) y e =
    absurd (none-ne-some y (sym (parity_of-none (suc (suc (suc (suc n)))) (omega arith)) ∙ e))

pub take_parameters-Takes :
    (s : TabletSettings) (p u : SerialPort) → take_parameters s p ≡ some u → Takes s u
unfolding take_parameters
take_parameters-Takes s p u = go (rate s.baud_rate) (parity_of s.parity) refl refl
  where
    go :
        (v y : Option ℕ)
        → rate s.baud_rate ≡ v
        → parity_of s.parity ≡ y
        → elim v as (λ x. Option SerialPort) [
          | none ↦ none
          | some v ↦ elim y as (λ x. Option SerialPort) [
            | none ↦ none
            | some y ↦ some record p {
              open_speed = v;
              open_data_bits = if is_set s.data_bits then cs8 else cs7;
              open_parity = y;
              open_stop_bits = if is_set s.stop_bits then 2 else 1;
              open_cts = is_set s.cts;
              open_dsr = is_set s.dsr;
            }
          ]
        ]
          ≡ some u
        → Takes s u
    go none y ev ey e = absurd (none-ne-some u e)
    go (some v) none ev ey e = absurd (none-ne-some u e)
    go (some v) (some y) ev ey e =
        let same =
          some-injective
            (record p {
              open_speed = v;
              open_data_bits = if is_set s.data_bits then cs8 else cs7;
              open_parity = y;
              open_stop_bits = if is_set s.stop_bits then 2 else 1;
              open_cts = is_set s.cts;
              open_dsr = is_set s.dsr;
            })
            u e in
        record {
          speed = ev ∙ ap (λ x. some x.open_speed) same;
          size = sym (ap (λ x. x.open_data_bits) same);
          flags = ey ∙ ap (λ x. some x.open_parity) same;
          stops = sym (ap (λ x. x.open_stop_bits) same);
        }

-- The parity changes its two flags and nothing else.
pub set_parity-others :
    (y : ℕ) (a : Attributes)
    → let b = set_parity y a in
      (b.speed ≡ a.speed) × (b.size ≡ a.size) × (b.vmin ≡ a.vmin) × (b.vtime ≡ a.vtime)
unfolding set_parity
set_parity-others y a = ground arith

pub two_stops : (b : Bool) → ((if b then 2 else 1) == 2) ≡ b
two_stops true = refl
two_stops false = refl
