-- ===== src/Start.antt =====
-- daemon/SerialDaemon.cpp, the start: `process_arguments` and the constructor. `getopt` is outside
-- the model: it gives the options in order, each with its argument.
pub mod Options
pub mod Sane
pub mod Construct
pub mod Tests
