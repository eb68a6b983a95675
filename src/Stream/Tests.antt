-- ===== src/Stream/Tests.antt =====
-- The stream on concrete reads, with a tablet that keeps what it was handed.
use mathlib.Core.List.{flatten}
use tablet_magic.Base.{
  ℕ, zero, suc, ◌≡◌, refl, arith, true, false, List, [], ◌∷◌, ◌++◌, map, All, none, some, inr,
}
use tablet_magic.Series.{art_z}
use tablet_magic.Settings.Constants.{command_set_wacom_iv}
use tablet_magic.Stream.Step.{Config, Framer, Event, packet, command_reply}
use tablet_magic.Stream.Loop.{handle_all, consume, process_reads}
use tablet_magic.Stream.Chunks.{process_reads-flatten}
use tablet_magic.Stream.Packets.{IsBinary, idle, inside, IsReady, IsPacket, consume-flatten}
use tablet_magic.Stream.Lines.{IsPlain, line, consume-line, consume-overflow}

abbrev artz : Config
artz = record {
  series = art_z;
  packet_size = 7;
  command_set = command_set_wacom_iv;
  can_parse_ud_setup = true;
}

abbrev config : List Event → Config
config seen = artz

abbrev handle : List Event → Event → List Event
handle seen e = seen ++ e ∷ []

abbrev first : List ℕ
first = 0xe0 ∷ 1 ∷ 2 ∷ 3 ∷ 4 ∷ 5 ∷ 6 ∷ []

abbrev second : List ℕ
second = 0xa0 ∷ 6 ∷ 5 ∷ 4 ∷ 3 ∷ 2 ∷ 1 ∷ []

artz-IsBinary : IsBinary artz 7
artz-IsBinary = record {
  not_tablet_pc = refl;
  not_fujitsu = refl;
  size = refl;
  least = omega arith;
  fits = omega arith;
}

-- A packet that was cut off after three bytes.
abbrev broken : Framer
broken = inside (0xe0 ∷ 1 ∷ 2 ∷ []) 0

broken-IsReady : IsReady broken 7
broken-IsReady = record { short = λ e. omega arith; empty = λ e. cc }

packets : All (IsPacket 7) (first ∷ second ∷ [])
packets = omega arith

consume-flatten_example :
    consume config handle [] broken [] false (flatten (first ∷ second ∷ []))
    ≡ some (handle_all config handle [] (map packet (first ∷ second ∷ [])), idle)
consume-flatten_example =
    consume-flatten config handle 7 (λ t pk. refl) [] broken first (second ∷ []) artz-IsBinary
      broken-IsReady packets

-- The reply to a model request arrives behind the start of its line.
consume-line_example :
    consume config handle [] (line (b'~' ∷ []) 0) [] false (b'#' ∷ b'U' ∷ b'D' ∷ b'\n' ∷ [])
    ≡ consume config handle
        (handle [] (command_reply (b'~' ∷ b'#' ∷ b'U' ∷ b'D' ∷ b'\r' ∷ [])))
        (line [] 0)
        []
        false
        []
consume-line_example =
    consume-line config handle [] 0 (b'~' ∷ []) [] (b'#' ∷ b'U' ∷ b'D' ∷ []) b'\n' [] refl
      (ground arith) (ground arith) (omega arith) (omega arith) (inr refl) tt

-- A run of the letter a.
abbrev letters : ℕ → List ℕ
letters zero = []
letters (suc n) = b'a' ∷ letters n

letters-IsPlain : (n : ℕ) → All IsPlain (letters n)
letters-IsPlain zero = tt
letters-IsPlain (suc n) = (ground arith, letters-IsPlain n)

consume-overflow_example : consume config handle [] (line [] 0) [] false (letters 101) ≡ none
consume-overflow_example =
    consume-overflow config handle [] 0 [] [] (letters 101) refl (letters-IsPlain 101) (omega arith)
      (omega arith)

-- The reply and a packet, cut between CR and LF and inside the packet.
abbrev cut : List (List ℕ)
cut = (b'~' ∷ b'#' ∷ b'\r' ∷ []) ∷ (b'\n' ∷ 0xe0 ∷ 1 ∷ 2 ∷ []) ∷ (3 ∷ 4 ∷ 5 ∷ 6 ∷ []) ∷ []

process_reads-flatten_example :
    process_reads config handle [] idle cut ≡ consume config handle [] idle [] false (flatten cut)
process_reads-flatten_example = process_reads-flatten config handle (λ t. refl) cut [] idle
