-- ===== src/Run.antt =====
-- daemon/SerialDaemon.cpp, the daemon while it runs: the callbacks of the run loop as steps, and their
-- interleavings.
pub mod Loop
pub mod Sound
pub mod Replies
pub mod Keeps
pub mod Acts
pub mod Search
pub mod Found
pub mod Messages
pub mod Reached
pub mod Runner
pub mod Quit
pub mod Tests
