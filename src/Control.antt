-- ===== src/Control.antt =====
-- daemon/SerialDaemon.cpp, the commands to the tablet and the messages of the preference pane:
-- `SendCommandToTablet`, `SendRequestToTablet`, `GetUDSettingsOrFail`, `SendUDSetupString`,
-- `InitializeTablet` and `HandleMessage`. The device at the other end of the port is a parameter.
pub mod World
pub mod Send
pub mod Tries
pub mod Parse
pub mod Parsed
pub mod Initialize
pub mod Answers
pub mod Forced
pub mod Ports
pub mod Handle
pub mod Written
pub mod Areas
pub mod Geometry
pub mod Tests
