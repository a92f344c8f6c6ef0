-- ===== src/Registration/Objects.antt =====
-- src/lua_lpack.c: the objects that `newLPackParser` and `createDict` make, and how Lua finds a field.
use luaw.Prelude.{ℕ, ◌≡◌, String, [], ◌∷◌, Option, none, some}
use luaw.Lua.{get_field}
use luaw.Registration.{Entry, function, itself, LuaTable, Regs, Registry, lua_l_setmetatable}

-- A table with its metatable, if it has one.
pub record Object : Type 0 where
  pub fields : LuaTable
  pub metatable : Option LuaTable

unfoldable pub new_lpack_parser : Registry → Object
new_lpack_parser r = record { fields = []; metatable = lua_l_setmetatable "_luaw_lpack_MT_" r }

-- The two numbers say how much memory to set aside.
unfoldable pub create_dict : ℕ → ℕ → Object
create_dict narr nrec = record { fields = []; metatable = none }

-- Lua's rule for a field that a table does not have: the one of the metatable's `__index`.
abbrev pub in_index : String → Option LuaTable → Option Entry
in_index key none = none
in_index key (some t) = elim (get_field "__index" t) [ some itself ↦ get_field key t | _ ↦ none ]

abbrev pub index : String → Object → Option Entry
index key o = elim (get_field key o.fields) [ some e ↦ some e | none ↦ in_index key o.metatable ]

-- Every name of the array is found in the object, and stands for its function.
abbrev pub Finds : Regs → Object → Type 0
Finds [] o = Unit {0}
Finds ((name, f) ∷ l) o = (index name o ≡ some (function f)) × Finds l o
