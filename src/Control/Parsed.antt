-- ===== src/Control/Parsed.antt =====
-- Which messages name which command.
use tablet_magic.Base.{
  ℕ, ◌≡◌, refl, arith, true, List, [], ◌∷◌, ◌++◌, length, drop, some, inl, inr, Bool-cases,
  Option-cases, Option,
}
use mathlib.Core.Path.{subst}
use tablet_magic.Format.{c_string}
use tablet_magic.Daemon.Identify.{begins_with}
use tablet_magic.Control.Parse.{
  Command, stream, token, all_commands, argument, match_token, find_command, parse_command,
}

-- A token, whatever its place in the table, with what may follow it, names its command: no other
-- token of the table matches before it.
pub parse_command-token :
    (c : Command) (tail arg : List ℕ)
    → argument (c_string tail) ≡ some arg
    → parse_command (token c ++ tail) ≡ some (c, arg)
unfolding parse_command
parse_command-token stream tail arg h = rw (h, find_command)
parse_command-token _ tail arg h = rw (h, find_command)

begins_with-split : (tok m : List ℕ) → begins_with tok m ≡ true → m ≡ tok ++ drop (length tok) m
unfolding begins_with
begins_with-split [] m h = refl
begins_with-split (c ∷ tok) [] h = cc
begins_with-split (c ∷ tok) (d ∷ m) h = ground (arith, begins_with-split tok m)

-- What a match of the token says of the text.
abbrev Names : List ℕ → List ℕ → List ℕ → Type 0
Names tok m arg = (m ≡ tok ++ drop (length tok) m) × (argument (drop (length tok) m) ≡ some arg)

match_token-Names : (tok m arg : List ℕ) → match_token tok m ≡ some arg → Names tok m arg
unfolding match_token
match_token-Names tok m arg h = elim (Bool-cases (begins_with tok m)) [
  | inl hit ↦ (begins_with-split tok m hit, rw hit at h)
  | inr miss ↦ cc (rw miss at h)
]

find_command-Names :
    (l : List Command) (m : List ℕ) (c : Command) (arg : List ℕ)
    → find_command l m ≡ some (c, arg)
    → Names (token c) m arg
unfolding find_command
find_command-Names [] m c arg h = cc
find_command-Names (x ∷ l) m c arg h = elim (Option-cases (match_token (token x) m)) [
  | inl miss ↦ find_command-Names l m c arg (rw (miss, find_command) at h)
  | inr hit ↦
      let found : ◌≡◌ {A = Option (Command × List ℕ)} (some (x, hit.value)) (some (c, arg)) =
        rw (hit.shown, find_command) at h in
      let named = match_token-Names (token x) m hit.value hit.shown in
      subst (λ (a : List ℕ). Names (token c) m a) (cc)
        (subst (λ (y : Command). Names (token y) m hit.value) (cc) named)
]

-- A message that is taken for a command begins with its token, and what follows the token gives the
-- argument.
pub parse_command-Names :
    (m : List ℕ) (c : Command) (arg : List ℕ)
    → parse_command m ≡ some (c, arg)
    → (c_string m ≡ token c ++ drop (length (token c)) (c_string m))
      × (argument (drop (length (token c)) (c_string m)) ≡ some arg)
unfolding parse_command
parse_command-Names m c arg h = find_command-Names all_commands (c_string m) c arg h
