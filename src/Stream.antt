-- ===== src/Stream.antt =====
-- daemon/SerialDaemon.cpp, `ProcessSerialStream`: the bytes of the serial port are cut into packets
-- and command replies. `phrase` holds the first `phrase_count` bytes of the array of that name, and
-- `none` stands for a write behind the end of `phrase[100]` or of the local `p[64]`.
-- What is done with a packet or a reply is a parameter here (`handle`): the cut is stated for every
-- handler.
pub mod Step
pub mod Loop
pub mod Keeps
pub mod Packets
pub mod Lines
pub mod Lookahead
pub mod Chunks
pub mod Tests
