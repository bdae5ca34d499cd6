-- ===== src/Lib.antt =====
-- The Open Drone ID transmitter for Linux: a program that broadcasts the identity and position of
-- an unmanned aircraft over Bluetooth legacy advertising, Bluetooth 4 and 5 extended advertising
-- and Wi-Fi beacons.
--
-- The program's parts and the modules that model them (paths from the repository's root):
--
-- Common    lists, options, text as lists of character codes, and tests on numbers.
-- Machine   what a call does to the outside: the effects in order, the state that the threads
--           share (`ctrl_conn`, `semaphore`, `device_descriptor`, `hostapd_cli_quit`), what the
--           HCI socket will return, and how a call ends (it returns, exits, never returns, or its
--           behaviour is undefined). `Env` holds what BlueZ and hostapd's wpa_ctrl answer.
-- Utils     utils.h and utils.c: `config_data`, `uchar_to_ascii`.
-- Odid      the data and calls of opendroneid-core-c that the sources use; `F` is its `double`,
--           and `to_float` takes one to a `float`.
-- Gps       gpsmod.c, and `gps_loop` of transmit.c: `init_gps`, `process_gps_data`. The loop
--           takes a list of what each turn meets.
-- Features  print_bt_features.c: the mask of LE features, its table and what is printed; Colors
--           has the lines of the print macros.
-- Bluetooth bluetooth.c: Buffers (the parameter bytes), Hci (`send_cmd` and the command functions),
--           Api (`init_bluetooth`, the three sending functions, `close_bluetooth`), Btmgmt
--           (`send_bluetooth_message_btmgmt`). Layout, Fitting, Events, Keeping, Takes, Answers,
--           Trace and AddAdv are about them. Controller is an interface for the controller that
--           is commanded, with the effect of each command that the Bluetooth Core Specification
--           documents as a law, and with what the controller does with the two surplus bytes of
--           one command as a field; its children are about what such a controller advertises.
-- Hostapd   ap_interface.c: Table (the rows of `hostapd_cli_commands` and the search of
--           `wpa_request`), Control (`_wpa_ctrl_command`, `hostapd_cli_ping`, `sem_wait`), Commands
--           (the handlers and `wpa_request`; Optional and Dpp have those that the build leaves
--           out, Stations the loops over hostapd's stations), Connection (the static variables of
--           the control connection, `hostapd_cli_reconnect` and what it calls), Startup
--           (`ap_interface_init`), Events (hostapd's events and the program run for them), Help
--           (`print_help`), Prompt (the completions and callbacks of the prompt), Watching
--           (`hostapd_cli_action`), Interfaces (the directory of interfaces). Noticing, Search,
--           Waiting, Appending, Handling, Walking, Protocol, Reconnecting, Prompt.Word
--           and Watching.Runs are about them.
-- Beacon    wifi_beacon.c: the text of `vendor_elements`, and the requests with their waits. Elements
--           is about the text, Served and Answering about the waits, without and with a connection.
-- Transmit  transmit.c: Args (`parse_command_line`), Example (the example data), Send (the messages
--           and packs), Main (`main`, `cleanup`, `sig_handler`), Threads (the GPS thread, the loop
--           of `main` and signals as a step relation). Props and the children of Threads are about
--           them.
-- Tests     concrete libraries, worlds and data, and the theorems applied to them.
--
-- How they interact: `main` reads the command line, starts the thread of `ap_interface_init` and
-- waits for its semaphore, sets up Bluetooth, and then sends; each message goes through
-- `send_message` to bluetooth.c and wifi_beacon.c, the latter through `wpa_request`. The second
-- thread's pings run at the points where the main thread requests or waits: `World.schedule` lists
-- the pings at each coming point, and may be any list. What the main thread finds of
-- the GPS thread before each round is a list as well. Threads has the steps of the two threads and
-- of signals in any order, as far as `kill_program` decides them, and relates them to the turns of `gps_loop`; that a round may read the
-- location while the GPS thread writes it is not modelled.
--
-- Numbers: bytes are natural numbers, with `% 256` where the source wraps; a pointer into a buffer
-- is an index; `F` is abstract. Every loop recurses on a list (reads, turns, rounds, arguments,
-- bytes) or on the number of rounds, and a list that runs out stands for a call that never
-- returns. Only the loops over stations have fuel, a turn of the loop for each unit: as many as
-- hostapd gives answers before its "FAIL" are enough.
--
-- Not modelled: the submodules (BlueZ, opendroneid-core-c, gpsd, hostapd), whose answers are
-- parameters; the exact texts that bluetooth.c, transmit.c and the handlers print, which are names.
-- Of ap_interface.c, `hostapd_cli_interactive` and `hostapd_cli_cleanup` are modelled only as far
-- as they act on the control connection. The limit of a semaphore's count is left out.
pub mod Common
pub mod Machine
pub mod Utils
pub mod Odid
pub mod Gps
pub mod Features
pub mod Bluetooth
pub mod Hostapd
pub mod Beacon
pub mod Transmit
pub mod Tests
