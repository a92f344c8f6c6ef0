-- ===== src/Lib.antt =====
-- Luaw, a web application server that runs Lua on libuv: its C core in src/.
--
-- The program's parts, and the files that model them:
-- - Prelude: names from the libraries, tests on native numbers, lists, and C's signed integers.
-- - Lua: src/luaw_common.c and src/luaw_common.h, as far as they have logic. `resume_lua_thread`
--   calls the scheduler's `resumeThreadId` in lib/luaw_scheduler.lua; the calls are recorded newest
--   first. In Timer and Tcp what a resumed thread does are later operations; Lua.Script has C
--   functions that wait while the thread runs, and histories of calls inside calls. `gc_ref` is the
--   macro GC_REF.
-- - Uv: libuv, a parameter of all that calls it. The record has its handles, its calls with their
--   return codes, and as laws which calls begin to close a handle. `close_if_active` stands here.
-- - Timer: src/luaw_timer.c. A world is the userdata's pointer with the `luaw_timer_t` that it
--   shares with a libuv handle; each operation and callback is a function of the same name.
--   Timer.Run has the histories: lists of Lua calls and libuv callbacks in any order, a callback
--   only when libuv may make it. Timer.Safety, Timer.Wakeups, Timer.Liveness and Timer.Refinement
--   have the theorems, the last one over the machine of phases in Timer.Phases. Timer.Reentrant has
--   the functions as far as each `resume_lua_thread`, whose thread may call the timer before the
--   function goes on; Timer.Reentrant.Preserve, .Safety, .Atomic, .Serial and .Stop have the
--   theorems on that.
-- - Tcp: src/luaw_tcp.c. A connection with its two timers and its write request, again shared with
--   Lua's userdata. Tcp.Read, Tcp.Write and Tcp.Connect have the operations and callbacks, Tcp.Run
--   the steps between states with what libuv has to do yet; Tcp.Invariant, Tcp.Preserve,
--   Tcp.Safety, Tcp.Delivery, Tcp.Stream, Tcp.Liveness and Tcp.Replies have the proofs. Tcp.Accept
--   has `on_server_connect` of src/luaw_server.c, Tcp.Origins the safety of connections that are made
--   by `connect` and by the server, and Tcp.Dns name resolution. Tcp.Reentrant and
--   Tcp.Reentrant.Turns have the functions that resume a thread as far as each such call, with what
--   the thread calls meanwhile; Tcp.Reentrant.Atomic, .Callbacks, .Nested, .Held, .Writer, .Alone,
--   .Flat and .Serial have the theorems on them.
-- - Lpack: src/lua_lpack.c. Lpack.Read has `read_number` and `read_string`, Lpack.Write
--   `serialize_write_Q`; Lpack.Format and Lpack.Entries describe the format without them.
--   Lpack.Types has the table of types, Lpack.Ranges its bounds against the writer and the reader,
--   Lpack.Hex `to_hex`, and Lpack.Strings, Lpack.Bounds and Lpack.NoFault more theorems on the readers
--   and the writer.
-- - Http: src/luaw_http_parser.c. Http.UrlDecode has `luaw_url_decode` as a state machine,
--   Http.Params an encoder of form parameters, Http.Queries the proof that they fit; Http.Splits
--   describes a text by splitting it, and Http.Steps, Http.Bytes, Http.Stores and
--   Http.Equivalence prove that this is the same; Http.Parser drives http_parser, which is a
--   parameter with what it promises, Http.Reports describes what that reports, Http.Offsets where
--   it leads, and Http.Url has `luaw_parse_url`.
-- - Logging: the log file of src/luaw_logging.c, with its asynchronous opens, writes and closes;
--   Logging.Files has what it does to descriptors, Logging.Descriptors the theorem on that, and
--   Logging.Syslog the host name and the syslog socket, over the network as a parameter.
-- - Server: src/luaw_server.c. Server.Reader has `lua_file_reader`, Server.Start `main` with what
--   it calls up to the loop, Server.Listening a description of when it comes there, and Server.Loop
--   the loop. Lua's interpreter is a parameter, and what happens in a turn of the loop is its
--   input. Server.Stack has what the callbacks of all components do to the stack of the main Lua
--   state in such a turn, Server.Agreement that these are the calls that Tcp and Timer record,
--   Server.Room for which callbacks it has room, and Server.Overflow when reads overflow it.
-- - Registration: `luaw_init_libs` of src/luaw_common.c with what it calls in the other files: the
--   tables of functions and methods that Lua sees. Registration.Objects has the objects that luapack
--   makes, and Registration.Lookup the theorem.
-- - Examples: runs at concrete inputs, with a libuv and a floating point that meet what is assumed.
--
-- How they are modelled. An object that C allocates is an option, `none` once it is freed; reading
-- it then is a fault, which no theorem excuses. A pointer back to an object is whether it is set.
-- Counts and status codes are unbounded integers; `ref_count` stays below 6 unless writes overlap.
-- Sizes in lua_lpack.c wrap where C narrows them to an int or adds ints, and theorems on them bound
-- the buffers; the sizes of strings do not wrap a `size_t`. In luaw_http_parser.c lengths stay below
-- 2 ^ 31.
-- Loops run over their input, so that no fuel is needed; only `lua_load` reads a file on fuel, a
-- call for each 1024 bytes and three more, which is proved to be enough.
--
-- A resumed thread calls the methods of the object whose operation resumed it, at any depth; libuv's
-- callbacks come only from its loop and so never inside an operation.
--
-- Not modelled: src/http_parser.c and src/lfs.c, copies of other libraries; a failed `calloc` or
-- `lua_newuserdata`, which raises a Lua error before any object is linked; the stacks of Lua's
-- threads; `raise_lua_error`, which only calls Lua; what libuv does inside, so that
-- of a request shared by two writes only the program's own fields are seen; the text that Lua
-- formats into a message.
pub mod Prelude
pub mod Lua
pub mod Uv
pub mod Timer
pub mod Tcp
pub mod Lpack
pub mod Http
pub mod Logging
pub mod Server
pub mod Registration
pub mod Examples
