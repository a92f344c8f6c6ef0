-- ===== src/Registration/Lookup.antt =====
-- What Lua finds once `luaw_init_libs` (src/luaw_common.c) has run.
use luaw.Prelude.{◌≡◌, refl, String, [], ◌∷◌, some}
use luaw.Lua.{get_field}
use luaw.Lpack.{Tag, all_tags}
use luaw.Lpack.Types.{define_lapck_types}
use luaw.Registration.Objects.{new_lpack_parser, index, Finds}
use luaw.Registration.{
  CFunction, function, lpack_type, itself, LuaTable, Regs, Registry, lua_l_setfuncs,
  lua_l_setmetatable, make_metatable, luaw_lpack_methods, luaw_init_logging_lib, luaw_init_tcp_lib,
  luaw_init_http_lib, luaw_init_timer_lib, luaw_init_libs, set_types,
}

-- Every name of the array stands for its function.
abbrev pub Offers : Regs → LuaTable → Type 0
Offers [] t = Unit {0}
Offers ((name, f) ∷ l) t = (get_field name t ≡ some (function f)) × Offers l t

-- A global library, and the metatable of a new userdata, by which methods are found in it itself.
abbrev pub HasLib : Registry → String → Regs → Type 0
HasLib r name l = (t : LuaTable) × (get_field name r.globals ≡ some t) × Offers l t

abbrev pub HasMethods : Registry → String → Regs → Type 0
HasMethods r name l =
    (t : LuaTable) × (lua_l_setmetatable name r ≡ some t)
    × (get_field "__index" t ≡ some itself)
    × Offers l t

-- The names by which the repository's Lua code calls each function, library by library and type by type.
abbrev pub logging_names : Regs
logging_names =
    ("hostname", CFunction.get_hostname_lua)
    ∷ ("logState", CFunction.get_logging_state)
    ∷ ("openLog", CFunction.open_log_file)
    ∷ ("syslogConnect", CFunction.connect_to_syslog)
    ∷ ("syslogSend", CFunction.send_to_syslog)
    ∷ ("writeLog", CFunction.write_log)
    ∷ []

abbrev pub tcp_names : Regs
tcp_names =
    ("connect", CFunction.client_connect)
    ∷ ("newConnection", CFunction.new_connection_lua)
    ∷ ("resolveDNS", CFunction.dns_resolve)
    ∷ []

abbrev pub http_names : Regs
http_names =
    ("newHttpRequestParser", CFunction.luaw_new_http_request_parser)
    ∷ ("newHttpResponseParser", CFunction.luaw_new_http_response_parser)
    ∷ ("parseURL", CFunction.luaw_parse_url)
    ∷ ("urlDecode", CFunction.luaw_url_decode)
    ∷ []

abbrev pub timer_names : Regs
timer_names = ("newTimer", CFunction.new_user_timer) ∷ []

abbrev pub lpack_names : Regs
lpack_names =
    ("createDict", CFunction.create_dict)
    ∷ ("newLPackParser", CFunction.new_lpack_parser)
    ∷ ("toHex", CFunction.to_hex)
    ∷ []

abbrev pub connection_names : Regs
connection_names =
    ("__gc", CFunction.connection_gc)
    ∷ ("close", CFunction.close_connection_lua)
    ∷ ("read", CFunction.read_check)
    ∷ ("startReading", CFunction.start_reading)
    ∷ ("write", CFunction.write_buffer)
    ∷ []

abbrev pub parser_names : Regs
parser_names =
    ("initHttpParser", CFunction.luaw_init_http_parser) ∷ ("parseHttp", CFunction.parse_http) ∷ []

abbrev pub user_timer_names : Regs
user_timer_names =
    ("__gc", CFunction.timer_gc)
    ∷ ("delete", CFunction.close_timer_lua)
    ∷ ("start", CFunction.start_user_timer)
    ∷ ("stop", CFunction.stop_user_timer)
    ∷ ("wait", CFunction.wait_user_timer)
    ∷ []

abbrev pub packer_names : Regs
packer_names =
    ("read_number", CFunction.read_number)
    ∷ ("read_string", CFunction.read_string)
    ∷ ("serialize_write_Q", CFunction.serialize_write_Q)
    ∷ []

-- The types of luapack, by their names.
abbrev pub HasTypes : Registry → Type 0
HasTypes r =
    (t : LuaTable) × (get_field "_luaw_lpack_MT_" r.metatables ≡ some t)
    × ((tag : Tag) → get_field (define_lapck_types tag).name t ≡ some (lpack_type tag))

types :
    (r : Registry) (tag : Tag)
    → get_field
        (define_lapck_types tag).name
        (set_types all_tags (make_metatable "_luaw_lpack_MT_" luaw_lpack_methods r))
      ≡ some (lpack_type tag)
unfolding set_types define_lapck_types
types r Tag.type_marker = refl
types r _ = refl

methods :
    (r : Registry)
    → let t = set_types all_tags (make_metatable "_luaw_lpack_MT_" luaw_lpack_methods r) in
      (get_field "__index" t ≡ some itself) × Offers packer_names t
unfolding set_types define_lapck_types make_metatable lua_l_setfuncs
methods r = (refl, (refl, (refl, (refl, tt))))

found :
    (r : Registry)
    → Finds packer_names (record {
      fields = [];
      metatable = some (set_types all_tags (make_metatable "_luaw_lpack_MT_" luaw_lpack_methods r));
    })
unfolding set_types define_lapck_types make_metatable lua_l_setfuncs
found r = (refl, (refl, (refl, tt)))

-- Whatever tables and metatables there were before, `luaw_init_libs` leaves the five libraries with every
-- function under the name by which Lua code calls it (`logging_names` to `lpack_names`), and the
-- metatables that new connections, parsers, timers and luapack's userdata get with every method under
-- its name (`connection_names` to `packer_names`), each of them its own `__index`, and in luapack's every
-- type. In a new luapack parser, an empty table, Lua then finds every method of luapack and every type.
pub luaw_init_libs-Finds :
    (r : Registry)
    → let s = luaw_init_libs r in
      HasLib s "luaw_logging_lib" logging_names
      × HasLib s "luaw_tcp_lib" tcp_names
      × HasLib s "luaw_http_lib" http_names
      × HasLib s "luaw_timer_lib" timer_names
      × HasLib s "luaw_lpack_lib" lpack_names
      × HasMethods s "_luaw_connection_MT_" connection_names
      × HasMethods s "__luaw_HTTP_parser_MT__" parser_names
      × HasMethods s "_luaw_user_timer_MT_" user_timer_names
      × HasMethods s "_luaw_lpack_MT_" packer_names
      × HasTypes s
      × Finds packer_names (new_lpack_parser s)
      × ((tag : Tag)
          → index (define_lapck_types tag).name (new_lpack_parser s) ≡ some (lpack_type tag))
unfolding luaw_init_libs lua_l_setfuncs make_metatable new_lpack_parser define_lapck_types
luaw_init_libs-Finds r =
    let before : Registry =
      luaw_init_timer_lib (luaw_init_http_lib (luaw_init_tcp_lib (luaw_init_logging_lib r))) in
    (
      (_, refl, (refl, (refl, (refl, (refl, (refl, (refl, tt))))))),
      (_, refl, (refl, (refl, (refl, tt)))),
      (_, refl, (refl, (refl, (refl, (refl, tt))))),
      (_, refl, (refl, tt)),
      (_, refl, (refl, (refl, (refl, tt)))),
      (_, refl, refl, (refl, (refl, (refl, (refl, (refl, tt)))))),
      (_, refl, refl, (refl, (refl, tt))),
      (_, refl, refl, (refl, (refl, (refl, (refl, (refl, tt)))))),
      (_, refl, (methods before).0, (methods before).1),
      (_, refl, types before),
      found before,
      types before,
    )
