-- ===== src/Protocol.antt =====
-- daemon/SerialDaemon.cpp, the interpreters of data packets: each takes the packet's bytes and the
-- stylus, and returns the stylus.
pub mod Sensing
pub mod WacomIv
pub mod WacomIis
pub mod TabletPc
pub mod WacomV
pub mod Graphire
pub mod IisAscii
pub mod Fujitsu
pub mod Fields
pub mod Decode
pub mod Device
pub mod Buttons
pub mod Pressure
pub mod Confine
pub mod Tests
