-- ===== src/Port/Replies.antt =====
-- Replies are found behind data packets and other noise.
use mathlib.Core.List.{append_assoc, append-nil}
use tablet_magic.Base.{
  ℕ, ◌+◌, ◌<◌, ◌≤◌, ◌≡◌, ◌≢◌, arith, Bool, true, false, List, [], ◌∷◌, ◌++◌, length, length-append,
  All, none, some,
}
use tablet_magic.Port.{modal_max, is_ending, in_packet_after, buffer_after, read_line}

-- A byte of a line: no high bit, no `~` and no line ending.
abbrev pub IsText : ℕ → Type 0
IsText c = (c < 128) × (c ≢ b'~') × (c ≢ b'\n') × (c ≢ b'\r')

-- Noise before a reply: bytes of packets, and text without a line ending.
abbrev pub IsNoise : ℕ → Type 0
IsNoise c = (c ≢ b'\n') × (c ≢ b'\r')

read_text :
    (buffer body rest : List ℕ) (e : ℕ)
    → All IsText body
    → is_ending e ≡ true
    → length buffer + length body < modal_max
    → read_line buffer false (body ++ e ∷ rest)
      ≡ some (record { text = buffer ++ body; rest = rest })
unfolding read_line
read_text buffer [] rest e plain ending room = rw append-nil (ground arith)
read_text buffer (c ∷ body) rest e plain ending room =
    let grown = length-append buffer (c ∷ []) in
    let go = read_text (buffer ++ c ∷ []) body rest e plain.1 ending (omega arith) in
    ground (arith, go, append_assoc buffer (c ∷ []) body)

-- Packets and text that end in no line are passed over: the line that begins with `~` behind them is
-- read whole, up to its ending, and what follows is left. The noise has to fit in the buffer, and so
-- has the line.
pub read_line-reply :
    (buffer : List ℕ) (packet : Bool) (noise body rest : List ℕ) (e : ℕ)
    → All IsNoise noise
    → All IsText body
    → is_ending e ≡ true
    → length buffer + length noise < modal_max
    → length body + 1 < modal_max
    → read_line buffer packet (noise ++ (b'~' ∷ body ++ e ∷ rest))
      ≡ some (record { text = b'~' ∷ body; rest = rest })
unfolding read_line
read_line-reply buffer packet [] body rest e quiet plain ending fits room =
    let go = read_text (b'~' ∷ []) body rest e plain ending (omega arith) in ground (arith, go)
read_line-reply buffer packet (c ∷ noise) body rest e quiet plain ending fits room =
    let start = buffer_after buffer c in
    let packet' = in_packet_after packet c in
    let grown = length-append start (c ∷ []) in
    let short : length start ≤ length buffer = ground arith in
    let skipped =
      read_line-reply start packet' noise body rest e quiet.1 plain ending (omega arith) room in
    let longer =
      read_line-reply (start ++ c ∷ []) packet' noise body rest e quiet.1 plain ending (omega arith)
        room in
    ground (arith, skipped, longer, grown, short)

-- The length that the caller allows is not asked: text without a line ending that does not fit in
-- the buffer is written behind its end.
pub read_line-overflow :
    (buffer body : List ℕ)
    → All IsText body
    → length buffer ≤ modal_max
    → modal_max ≤ length buffer + length body
    → read_line buffer false body ≡ none
unfolding read_line
read_line-overflow buffer [] plain fits over = ground arith
read_line-overflow buffer (c ∷ body) plain fits over =
    let grown = length-append buffer (c ∷ []) in
    let longer = read_line-overflow (buffer ++ c ∷ []) body plain.1 in ground (arith, longer, grown)
