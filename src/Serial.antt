-- ===== src/Serial.antt =====
-- daemon/TMSerialPort.cpp, the port itself: opening, setting up and closing it, and the search through
-- the ports of the machine. The system's calls are recorded, each with what it returned.
pub mod Calls
pub mod Open
pub mod Settings
pub mod Scan
pub mod Trace
pub mod Balance
pub mod Operations
pub mod Asked
pub mod Framed
pub mod First
pub mod Tests
