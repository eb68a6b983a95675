-- ===== src/Lib.antt =====
-- TabletMagic: the daemon that reads a serial Wacom tablet and posts the events of its stylus.
--
-- The daemon (daemon/SerialDaemon.cpp, class `WacomTablet`) reads bytes from the serial port and cuts
-- them into data packets and command replies (`ProcessSerialStream`). `ProcessPacket` hands a packet
-- to the interpreter of its protocol (`ProcessWacomIIS_Binary`, `ProcessWacomIIS_ASCII`,
-- `ProcessWacomIV_13`, `ProcessWacomIV_14`, `ProcessWacomV`, `ProcessGraphire`, `ProcessTabletPC`,
-- `ProcessFujitsuPSeries`), which changes the state of the stylus (`StylusState`).
-- `PostChangeEvents` compares the stylus with the one before and posts the events that bring the
-- system up to date (`PostCGEvent`). `ProcessCommandReply` takes the tablet's own words: its settings
-- (daemon/TabletSettings.cpp), which say how long a packet is and how it is read, its model and its
-- size. The daemon asks for them when it looks for a tablet (`FindTabletOnPort`,
-- `InitializeTablet`), reading the answers by `ReadLine` (daemon/TMSerialPort.cpp), and whenever the
-- preference pane tells it to (`HandleMessage`). `process_arguments` reads the command line.
--
-- Files:
--   Base, Int, Bits      shared helpers: tests, lists, signed integers, shifts and masks
--   Floats               the floating-point operations, a parameter
--   Format               `%X`, `%d`, `%ld`, `%0kX` and `%0kd` of sscanf and sprintf, and `atol`
--   Settings             TabletSettings: the record, `Import` (import_state), `SettingsString`
--                        (settings_string, whose text is setup_text); Settings/Presets has the constructor and `InitFor…`,
--                        Settings/Constants the enumerations of common/Constants.h,
--                        Settings/Description the text for the log
--   Series               `SeriesIndex` of common/Constants.h
--   Stream               `ProcessSerialStream`: Stream/Step has the body of the loop, one function
--                        for each block of it, Stream/Loop the loops over bytes and reads
--   Stylus               `StylusState` of daemon/SerialDaemon.h, `SetButtons`
--   Protocol             the interpreters, one file each; what they read of the tablet is Sensing
--   Post                 `PostCGEvent` (Post/Cg) and `PostChangeEvents`: where the stylus is on the
--                        screen (Post/Position, Post/Near) and what is posted (Post/Change); Post/Run has
--                        sequences of calls
--   Port                 `ReadLine` of daemon/TMSerialPort.cpp
--   Daemon               the tablet as a whole (Daemon/State): `ProcessPacket` (Dispatch),
--                        `ProcessCommandReply` (Reply, Identify), the areas (Mapping), `InitStylus`
--                        and `ResetStylus` (Reset), the queue of messages (Queue); Daemon/Handle puts
--                        the handlers into the stream
--   Control              the tablet with its device (Control/World): commands and requests (Send),
--                        `InitializeTablet` (Initialize), `InitializeForPort` (Ports), and
--                        `HandleMessage` (Parse, Answers, Handle)
--   Start                `process_arguments` (Start/Options) and the constructor (Start/Construct)
--   Serial               daemon/TMSerialPort.cpp: the calls of the system and `ApplySettings` (Serial/
--                        Calls), `Open` and `Close` (Serial/Open), `SetParameters` and `ReInit`
--                        (Serial/Settings), the search through the ports (Serial/Scan); Serial/Trace
--                        says what a list of calls leaves open
--   Run                  the run loop: its callbacks as steps (Run/Loop), the invariant of the tablet
--                        between them (Run/Sound) and, in the files that use it, each part of them
--   Text                 `LogString` and `HexString`
--   Machine              helper/Digitizers.c: `is_known_machine`, `get_digitizer_string`, `clean_string`
-- The Tests modules hold concrete runs, of the samples in Daemon/Samples.
--
-- State is passed on explicitly: a framer (phrase, in_packet, comma_count), a stylus, an output (old
-- stylus, old button state, drag state), and the tablet that holds them. `none` from a step is an
-- access outside an array: `phrase[100]`, `p[64]`, `settings[3]`, `rom_version[64]`, the static `out`
-- of 100 bytes, `message_reply[100]`, `setup[50]`, `setstr[32]`, or the 1024 bytes of a modal reply.
-- The loops are recursions on the bytes, on the reads, on the ports, or on the number of tries that
-- the code has (fifteen requests for the settings, three for the identity), so no fuel is needed.
-- Bytes are numbers below 256 where a theorem says so; a `char` that the code widens is
-- sign-extended, results that the code stores in 16 bits are cut to 16 bits, and 32-bit patterns are
-- read as signed. Screen positions and the coordinates of areas are whole numbers. What an
-- uninitialised variable holds is an argument.
--
-- The device is a record of operations (Control/World): what a write returns, the bytes that arrive,
-- and what flushing, waiting, opening and closing make of its state. Serial models the port below it:
-- what each call of the system returns is given, and the calls are recorded. Nothing is assumed of
-- either but in the hypotheses of a theorem, likewise of the floating-point operations. The bits of
-- `c_cflag` are fields of a record. A callback of the run loop runs to its end before another one
-- starts, since a request waits for its reply; the handler of a signal only sets a flag.
--
-- Not modelled: the value of the mouse scaling in the messages, which is kept as its text;
-- `PostNXEvent`, the alternative that is not built; `ProcessCalCompCommandReply`, which
-- nothing calls; `main` but for its choice of a PC, `getopt`, and the making of the timers, the
-- notices, the message ports and the service of events; `Select`, `Read`, `Write`, `Flush` and the
-- setup of the iterator of ports, which are single calls of the system; the main function of the
-- launch helper and the preference pane, which are input, output and calls of the system.
pub mod Base
pub mod Int
pub mod Bits
pub mod Floats
pub mod Format
pub mod Settings
pub mod Series
pub mod Stream
pub mod Stylus
pub mod Protocol
pub mod Post
pub mod Port
pub mod Daemon
pub mod Control
pub mod Start
pub mod Serial
pub mod Text
pub mod Machine
pub mod Run
