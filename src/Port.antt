-- ===== src/Port.antt =====
-- daemon/TMSerialPort.cpp, `ReadLine`: the reply to a command is picked out of the bytes of the port.
-- The file descriptor is outside the model: the bytes that arrive before the port falls silent are
-- given as a list. The buffer of the only caller has 1024 bytes; `none` is a write behind its end.
pub mod Replies
pub mod Tests
use tablet_magic.Base.{
  ℕ, ◌+◌, Bool, true, false, ◌||◌, leb, ◌==◌, if◌then◌else◌, List, [], ◌∷◌, ◌++◌, length, Option,
  none, some,
}

abbrev pub modal_max : ℕ
modal_max = 1024

abbrev pub is_ending : ℕ → Bool
is_ending c = c == b'\n' || c == b'\r'

-- What `ReadLine` leaves: the text in the buffer, and the bytes that it did not read.
pub record Line : Type 0 where
  pub text : List ℕ
  pub rest : List ℕ

-- A byte with its high bit set begins a packet, and `~` a line.
abbrev pub in_packet_after : Bool → ℕ → Bool
in_packet_after packet c = if leb 128 c then true else if c == b'~' then false else packet

abbrev pub buffer_after : List ℕ → ℕ → List ℕ
buffer_after buffer c = if c == b'~' then [] else buffer

-- The loop: the bytes of the buffer up to `bufPtr`, and whether a packet is being passed over. Also
-- the byte that ends a line, and the NUL at the end, are written to the buffer.
unfoldable pub read_line : List ℕ → Bool → List ℕ → Option Line
read_line buffer packet [] =
    if leb modal_max (length buffer) then none else some (record { text = buffer; rest = [] })
read_line buffer packet (c ∷ bytes) =
    let packet' = in_packet_after packet c in
    let start = buffer_after buffer c in
    let line : Line = record { text = start; rest = bytes } in
    let skipped = read_line start packet' bytes in
    let longer = read_line (start ++ c ∷ []) packet' bytes in
    if packet'
    then skipped
    else if leb modal_max (length start)
    then none
    else if is_ending c
    then some line
    else longer
