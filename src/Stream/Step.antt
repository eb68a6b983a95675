-- ===== src/Stream/Step.antt =====
-- One byte of the stream.
use tablet_magic.Base.{
  ℕ, ◌+◌, ◌-◌, Bool, true, false, not, ◌&&◌, ◌||◌, ltb, leb, ◌==◌, if◌then◌else◌, List, [], ◌∷◌,
  ◌++◌, length, take, get_or, Option, none, some,
}
use tablet_magic.Series.{Series, tablet_pc, fujitsu_p}
use tablet_magic.Settings.Constants.{command_set_wacom_iis}

-- What the loop reads of the tablet.
pub record Config : Type 0 where
  pub series : Series
  pub packet_size : ℕ
  pub command_set : ℕ
  pub can_parse_ud_setup : Bool

-- The fields of the tablet that outlive a byte.
pub record Framer : Type 0 where
  pub phrase : List ℕ
  pub in_packet : Bool
  pub comma_count : ℕ

-- The calls that the loop makes: `ProcessPacket`, `ProcessCommandReply` and
-- `ProcessTabletPCCommandReply`.
pub data Event : Type 0 where
  packet : List ℕ → Event
  command_reply : List ℕ → Event
  tablet_pc_reply : List ℕ → Event

-- The variables of one round: the framer, the byte `s`, whether the next byte is skipped, the calls
-- made so far, and the pending contents of `p` and `r` (empty while `plen` or `rlen` is 0).
pub record Round : Type 0 where
  pub framer : Framer
  pub byte : ℕ
  pub skip : Bool
  pub calls : List Event
  pub p : List ℕ
  pub r : List ℕ

-- What a round leaves: the framer, whether the next byte is skipped, and the calls, in order.
pub record Outcome : Type 0 where
  pub framer : Framer
  pub skip : Bool
  pub calls : List Event

abbrev pub phrase_max : ℕ
phrase_max = 100

abbrev pub p_max : ℕ
p_max = 64

abbrev pub tpc_query_reply_size : ℕ
tpc_query_reply_size = 11

abbrev pub is_tablet_pc : Series → Bool
is_tablet_pc tablet_pc = true
is_tablet_pc _ = false

abbrev pub is_fujitsu_p : Series → Bool
is_fujitsu_p fujitsu_p = true
is_fujitsu_p _ = false

-- `s & 0x80`, of a byte.
abbrev pub high_bit : ℕ → Bool
high_bit s = leb 128 s

-- `if (s & 0x80) { … }`: the phrase so far is a packet, a reply or nothing, and a packet begins.
unfoldable pub close_phrase : Config → Round → Round
close_phrase c x =
    let f = x.framer in
    let count = length f.phrase in
    let opened = record f { phrase = []; in_packet = true } in
    let as_packet = if count == c.packet_size then f.phrase else x.p in
    if not (high_bit x.byte)
    then x
    else if not f.in_packet
    then record x { framer = opened; r = f.phrase }
    else if is_tablet_pc c.series && count == tpc_query_reply_size
    then record x { framer = opened; calls = x.calls ++ tablet_pc_reply f.phrase ∷ [] }
    else record x { framer = opened; p = as_packet }

-- Line endings outside a packet: LF is read as CR, and the second of two is skipped.
unfoldable pub normalize : Option ℕ → Round → Round
normalize next x =
    let s = if x.byte == b'\n' then b'\r' else x.byte in
    let double : Bool = elim next [ none ↦ false | some n ↦ n == b'\n' || n == b'\r' ] in
    if x.framer.in_packet then x else record x { byte = s; skip = s == b'\r' && double }

-- `phrase[phrase_count++] = s`, but for a leading CR.
unfoldable pub extend : Round → Option Round
extend x =
    let f = x.framer in
    let longer = record x { framer = record f { phrase = f.phrase ++ x.byte ∷ [] } } in
    if length f.phrase == 0 && x.byte == b'\r'
    then some x
    else if leb phrase_max (length f.phrase)
    then none
    else some longer

-- A packet that is complete without its successor.
unfoldable pub catch_packet : Config → Round → Round
catch_packet c x =
    let f = x.framer in
    let count = length f.phrase in
    let closed = record f { phrase = []; in_packet = false } in
    let size = if is_tablet_pc c.series then tpc_query_reply_size else c.packet_size in
    if not (count == size)
    then x
    else if is_tablet_pc c.series
    then record x { framer = closed; calls = x.calls ++ tablet_pc_reply f.phrase ∷ [] }
    else record x { framer = closed; p = f.phrase }

-- The third comma ends the info string of an SD tablet.
unfoldable pub count_comma : Config → Round → Round
count_comma c x =
    let f = x.framer in
    let commas = f.comma_count + 1 in
    let counted = record x {
      framer = record f { comma_count = commas };
      byte = if commas == 3 then b'\r' else x.byte;
    } in
    if not c.can_parse_ud_setup
      && ltb 4 (length f.phrase)
      && get_or f.phrase 0 0 == b'~'
      && x.byte == b','
    then counted
    else x

abbrev pub is_ascii_packet : List ℕ → Bool
is_ascii_packet phrase =
    let first = get_or phrase 0 0 in
    get_or phrase 1 0 == b',' && (first == b'#' || first == b'!' || first == b'*')

-- A line ends: in II-S mode it may be a data packet, otherwise it is a reply.
unfoldable pub end_line : Config → Round → Round
end_line c x =
    let f = x.framer in
    let count = length f.phrase in
    let cleared = record f { phrase = [] } in
    if not (x.byte == b'\r' && ltb 0 count)
    then x
    else if c.command_set == command_set_wacom_iis && is_ascii_packet f.phrase
    then record x { framer = cleared; p = take (count - 1) f.phrase }
    else record x { framer = cleared; r = f.phrase }

-- `if (in_packet) … else …`.
unfoldable pub finish : Config → Round → Round
unfolding catch_packet count_comma end_line
finish c x = if x.framer.in_packet then catch_packet c x else end_line c (count_comma c x)

-- The calls for what is pending: the packet first, then the reply.
unfoldable pub deliver : Round → Option Outcome
deliver x =
    let f = x.framer in
    let reset = record f { comma_count = 0 } in
    let packets = if length x.p == 0 then [] else packet x.p ∷ [] in
    let replies = if length x.r == 0 then [] else command_reply x.r ∷ [] in
    let idle = length x.p == 0 && length x.r == 0 in
    let done : Outcome = record {
      framer = if idle then f else reset;
      skip = x.skip;
      calls = x.calls ++ (packets ++ replies);
    } in
    if leb p_max (length x.p) then none else some done

abbrev pub begin : Framer → ℕ → Round
begin f s = record { framer = f; byte = s; skip = false; calls = []; p = []; r = [] }

-- The body of the loop for every tablet but the Fujitsu.
unfoldable pub step : Config → Framer → Option ℕ → ℕ → Option Outcome
unfolding close_phrase normalize extend finish deliver
step c f next s = elim (extend (normalize next (close_phrase c (begin f s)))) [
  | none ↦ none
  | some x ↦ deliver (finish c x)
]

-- The body for the Fujitsu P-Series: what `p` holds, and the packet that it makes.
unfoldable pub fujitsu_step : List ℕ → ℕ → Option (List ℕ × List Event)
fujitsu_step p s =
    let code = if s == 136 then 1 else if s == 138 then 2 else 0 in
    let longer = p ++ s ∷ [] in
    if ltb 130 s
    then some (code ∷ [], [])
    else if leb p_max (length p)
    then none
    else some (longer, if length longer == 5 then packet longer ∷ [] else [])
