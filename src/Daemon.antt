-- ===== src/Daemon.antt =====
-- daemon/SerialDaemon.cpp, the class `WacomTablet` as a whole: the state of the tablet, the handlers
-- that `ProcessSerialStream` calls, and what they say to the preference pane.
pub mod State
pub mod Queue
pub mod Mapping
pub mod Identify
pub mod Reply
pub mod Dispatch
pub mod Handle
pub mod Reset
pub mod Panic
pub mod Kept
pub mod Whole
pub mod Agrees
pub mod Models
pub mod Unreached
pub mod Sizes
pub mod Columns
pub mod Messages
pub mod Samples
pub mod Tests
