-- ===== src/Lib.antt =====
-- The Venta humifier connector: a daemon that makes a Venta humifier a device of a digitalSTROM
-- server. It asks the humifier for its values by HTTP, reports new values to the server, and turns
-- the server's scenes into presses of the humifier's buttons.
--
-- Parts, and the files that model them:
--   venta/venta.h, the globals of venta/main.c        Types
--   scene table (venta/network.c is_scene_configured, get_scene_configuration;
--     venta/configuration.c save_scene)               Scenes
--   sensor lookup (venta/configuration.c
--     find_sensor_value_by_name)                      Sensors
--   requests (venta/network.c WriteMemoryCallback,
--     http_post)                                      Network.Http
--   answers (venta/network.c parse_json_data)         Network.Parse
--   commands (venta/network.c venta_*)                Network.Commands
--   decodeURIComponent (venta/network.c)              Network.Uri
--   read_config, write_config
--     (venta/configuration.c)                         Config.Read, Config.Write
--   write_config, then read_config at a later start   Config.RoundTrip
--   callbacks (venta/vdsd.c vdc_callscene_cb,
--     vdc_ping_cb, vdc_setprop_cb, vdc_getprop_cb)    Vdc.CallScene, Vdc.Ping, Vdc.SetProp, Vdc.GetProp
--   generic requests, new sessions, removal, saving
--     (venta/vdsd.c)                                  Vdc.Requests
--   push_sensor_data, the loop of main, networkThread
--     (venta/main.c)                                  Main.Push, Main.Loop, Main.NetworkThread
--   the two loops access by access, and the clean-up
--     behind the main loop (venta/main.c)             Main.Accesses
--   signal_handler (venta/main.c)                     Main.Signals
--   main before its loop (venta/main.c)               Main.Start
--   the process from its start on: callbacks, rounds
--     and signals in any order                        System
--   DebugDump, DebugCallback (venta/network.c)        Network.Dump
--   messages (venta/util.c)                           Report
-- Prelude passes the shared names on; CString has the functions of C's library on strings; Tests
-- runs the definitions and applies the theorems at concrete inputs.
--
-- How the parts meet: reading the configuration fills the globals and makes the device. The network
-- thread asks for the values, stores the readings, and signals new ones by a flag. The main thread
-- works for the library, which calls the callbacks, and then runs one round of its loop, which
-- announces the device, signals its presence, and pushes the readings when the flag is set. A
-- called scene is looked up in the table and sends requests of its own. A mutex, recursive, lies
-- between the two threads. Main.Threads has the steps of both in any order; System runs lists of
-- events, a function from the process at its start; and Main.Accesses lets the two loops go on
-- between two accesses of the other one to the flag, the readings and the library.
--
-- The model: the globals are a record, and a function of the program takes and gives them. The result
-- `none` of a function stands for undefined behaviour (a buffer that is too small, a null pointer, an
-- access past an array, memory that was never written), unless its comment says otherwise. Requests
-- to the humifier are kept in a list, in order, with the URL that libcurl is given; where answers
-- redirect libcurl is a parameter, and Network.Http has the URLs that it goes to. Strings are lists of bytes without their NUL. An
-- `int` is an integer; the conversions that can change a value are written out. The time is a
-- parameter. libcurl, json-c, libconfig, libdsvdc, libdSUID and the allocator are parameters: what
-- they answer is any function or value, with what is relied on as hypotheses. Config.Lawful has those
-- on libconfig: a configuration is a map from paths to groups, integers and texts.
--
-- Loops run over the lists they go through. The loop of `push_sensor_data` can go round again without
-- going on, so it runs on fuel; one unit more than there are active slots is enough where every
-- property can be made. The array bounds and buffer sizes are those of the source, but the lists of
-- slots may have any length.
--
-- Not modelled: the callbacks that only log (venta/vdsd.c), and the embedded icons (venta/icons.c,
-- venta/incbin.h). The calls of vdc_report are left out everywhere, so a null pointer, a
-- variable that was never set, a wrong format or a message that is too long is not seen there. The text of a configuration file is libconfig's. In Main.Threads and
-- System one call of a callback or one round of a loop is one step. In Main.Accesses a round is
-- several accesses, but a poll is one of them, as is a push, and the callbacks are left out there.
mod Prelude
pub mod CString
pub mod Types
pub mod Scenes
pub mod Sensors
pub mod Network
pub mod Config
pub mod Vdc
pub mod Main
pub mod Report
pub mod System
mod Tests
