-- ===== src/Text.antt =====
-- daemon/SerialDaemon.cpp, the texts for the log: `LogString` and `HexString`. The texts that the daemon
-- logs have fewer than 100 characters, each of which takes four bytes at most of the buffers, and the
-- longest code ten, so the buffer of 2048 bytes is long enough.
pub mod Cut
pub mod Tests
use tablet_magic.Base.{ℕ, Bool, ◌&&◌, ltb, leb, ◌==◌, if◌then◌else◌, List, [], ◌∷◌, ◌++◌}
use tablet_magic.Format.{codes, c_string, print_hex}

-- `isprint` of a byte; a `char` from 128 on is negative, and no such character.
abbrev pub is_print : ℕ → Bool
is_print c = leb 32 c && leb c 126

-- What one character leaves in the buffer below the pointer. The code of two digits ends with a NUL,
-- and the pointer moves behind it; of the code of a negative `char`, which has eight digits, the first
-- three stay.
unfoldable pub log_char : ℕ → List ℕ
log_char c =
    if is_print c
    then c ∷ []
    else if c == 27
    then codes "\\e"
    else if c == 9
    then codes "\\t"
    else if c == 10
    then codes "\\n"
    else if c == 13
    then codes "\\r"
    else if ltb c 128
    then b'\\' ∷ print_hex 2 c ++ (0 ∷ [])
    else codes "\\FFF"

unfoldable pub log_buffer : List ℕ → List ℕ
unfolding log_char
log_buffer [] = []
log_buffer (c ∷ s) = log_char c ++ log_buffer s

-- `LogString`: the loop ends at the NUL of its argument, and what it returns is read up to the first NUL
-- of the buffer.
unfoldable pub log_string : List ℕ → List ℕ
unfolding log_buffer c_string
log_string s = c_string (log_buffer (c_string s))

-- `HexString`.
unfoldable pub hex_string : List ℕ → List ℕ
hex_string [] = []
hex_string (b ∷ s) = print_hex 2 b ++ (b' ' ∷ hex_string s)
