-- ===== src/Registration.antt =====
-- How the C functions are registered with Lua: `make_metatable` and `luaw_init_libs` of src/luaw_common.c,
-- `luaL_setfuncs` there, and the tables and `luaw_init_*_lib` of the other files.
pub mod Objects
pub mod Lookup
use luaw.Prelude.{ℕ, ◌≡◌, refl, String, List, [], ◌∷◌, Option, none, some}
use luaw.Lua.{set_field, get_field}
use luaw.Lpack.{Tag, all_tags}
use luaw.Lpack.Types.{define_lapck_types}

-- The C functions that Lua can call.
pub data CFunction : Type 0 where
  get_logging_state open_log_file write_log connect_to_syslog send_to_syslog : CFunction
  get_hostname_lua : CFunction
  start_reading read_check write_buffer close_connection_lua connection_gc : CFunction
  new_connection_lua client_connect dns_resolve : CFunction
  luaw_url_decode luaw_new_http_request_parser luaw_new_http_response_parser : CFunction
  luaw_parse_url parse_http luaw_init_http_parser : CFunction
  start_user_timer stop_user_timer wait_user_timer close_timer_lua timer_gc : CFunction
  new_user_timer : CFunction
  read_number read_string serialize_write_Q new_lpack_parser create_dict to_hex : CFunction

-- What stands in the tables: a function, a type of luapack, or the table itself.
pub data Entry : Type 0 where
  function : CFunction → Entry
  lpack_type : Tag → Entry
  itself : Entry

abbrev pub LuaTable : Type 0
LuaTable = List (String × Entry)

-- `luaL_Reg` arrays, without the sentinel.
abbrev pub Regs : Type 0
Regs = List (String × CFunction)

-- The global tables and the metatables in the registry, by their names.
pub record Registry : Type 0 where
  pub globals : List (String × LuaTable)
  pub metatables : List (String × LuaTable)

unfoldable pub lua_l_setfuncs : Regs → LuaTable → LuaTable
lua_l_setfuncs [] t = t
lua_l_setfuncs ((name, f) ∷ l) t = lua_l_setfuncs l (set_field name (function f) t)

-- `luaL_newmetatable` pushes the table of that name if there is one.
abbrev pub existing : Option LuaTable → LuaTable
existing none = []
existing (some t) = t

-- The metatable, before it is used, as `make_metatable` leaves it on the stack.
unfoldable pub make_metatable : String → Regs → Registry → LuaTable
unfolding lua_l_setfuncs
make_metatable name funcs r =
    set_field "__index" itself (lua_l_setfuncs funcs (existing (get_field name r.metatables)))

abbrev set_metatable : String → LuaTable → Registry → Registry
set_metatable name t r = record r { metatables = set_field name t r.metatables }

-- `luaL_setmetatable` on a new userdata: the metatable that it gets, if there is one of that name.
abbrev pub lua_l_setmetatable : String → Registry → Option LuaTable
lua_l_setmetatable name r = get_field name r.metatables

-- `luaL_newlib` with `lua_setglobal`.
abbrev set_lib : String → Regs → Registry → Registry
unfolding lua_l_setfuncs
set_lib name funcs r = record r { globals = set_field name (lua_l_setfuncs funcs []) r.globals }

abbrev pub luaw_logging_lib : Regs
luaw_logging_lib =
    ("logState", get_logging_state)
    ∷ ("openLog", open_log_file)
    ∷ ("writeLog", write_log)
    ∷ ("syslogConnect", connect_to_syslog)
    ∷ ("syslogSend", send_to_syslog)
    ∷ ("hostname", get_hostname_lua)
    ∷ []

abbrev pub luaw_connection_methods : Regs
luaw_connection_methods =
    ("startReading", start_reading)
    ∷ ("read", read_check)
    ∷ ("write", write_buffer)
    ∷ ("close", close_connection_lua)
    ∷ ("__gc", connection_gc)
    ∷ []

abbrev pub luaw_tcp_lib : Regs
luaw_tcp_lib =
    ("newConnection", new_connection_lua)
    ∷ ("connect", client_connect)
    ∷ ("resolveDNS", dns_resolve)
    ∷ []

abbrev pub luaw_http_lib : Regs
luaw_http_lib =
    ("urlDecode", luaw_url_decode)
    ∷ ("newHttpRequestParser", luaw_new_http_request_parser)
    ∷ ("newHttpResponseParser", luaw_new_http_response_parser)
    ∷ ("parseURL", luaw_parse_url)
    ∷ []

abbrev pub http_parser_methods : Regs
http_parser_methods = ("parseHttp", parse_http) ∷ ("initHttpParser", luaw_init_http_parser) ∷ []

abbrev pub luaw_user_timer_methods : Regs
luaw_user_timer_methods =
    ("start", start_user_timer)
    ∷ ("stop", stop_user_timer)
    ∷ ("wait", wait_user_timer)
    ∷ ("delete", close_timer_lua)
    ∷ ("__gc", timer_gc)
    ∷ []

abbrev pub luaw_timer_lib : Regs
luaw_timer_lib = ("newTimer", new_user_timer) ∷ []

abbrev pub luaw_lpack_methods : Regs
luaw_lpack_methods =
    ("read_number", read_number)
    ∷ ("read_string", read_string)
    ∷ ("serialize_write_Q", serialize_write_Q)
    ∷ []

abbrev pub luaw_lpack_lib : Regs
luaw_lpack_lib =
    ("newLPackParser", new_lpack_parser) ∷ ("createDict", create_dict) ∷ ("toHex", to_hex) ∷ []

unfoldable pub luaw_init_logging_lib : Registry → Registry
unfolding set_lib
luaw_init_logging_lib r = set_lib "luaw_logging_lib" luaw_logging_lib r

-- `make_metatable`, and then the library.
abbrev pub init_lib : String → Regs → String → Regs → Registry → Registry
unfolding set_lib make_metatable
init_lib meta methods name funcs r =
    set_lib name funcs (set_metatable meta (make_metatable meta methods r) r)

unfoldable pub luaw_init_tcp_lib : Registry → Registry
unfolding init_lib
luaw_init_tcp_lib r =
    init_lib "_luaw_connection_MT_" luaw_connection_methods "luaw_tcp_lib" luaw_tcp_lib r

unfoldable pub luaw_init_http_lib : Registry → Registry
unfolding init_lib
luaw_init_http_lib r =
    init_lib "__luaw_HTTP_parser_MT__" http_parser_methods "luaw_http_lib" luaw_http_lib r

unfoldable pub luaw_init_timer_lib : Registry → Registry
unfolding init_lib
luaw_init_timer_lib r =
    init_lib "_luaw_user_timer_MT_" luaw_user_timer_methods "luaw_timer_lib" luaw_timer_lib r

-- `define_lapck_types` puts the types into the metatable, which is on top of the stack.
unfoldable pub set_types : List Tag → LuaTable → LuaTable
set_types [] t = t
set_types (tag ∷ tags) t =
    set_types tags (set_field (define_lapck_types tag).name (lpack_type tag) t)

unfoldable pub luaw_init_lpack_lib : Registry → Registry
unfolding set_lib make_metatable set_types
luaw_init_lpack_lib r =
    let t = make_metatable "_luaw_lpack_MT_" luaw_lpack_methods r in
    set_lib "luaw_lpack_lib" luaw_lpack_lib
      (set_metatable "_luaw_lpack_MT_" (set_types all_tags t) r)

unfoldable pub luaw_init_libs : Registry → Registry
unfolding luaw_init_logging_lib luaw_init_tcp_lib luaw_init_http_lib luaw_init_timer_lib
    luaw_init_lpack_lib
luaw_init_libs r =
    luaw_init_lpack_lib
      (luaw_init_timer_lib (luaw_init_http_lib (luaw_init_tcp_lib (luaw_init_logging_lib r))))
