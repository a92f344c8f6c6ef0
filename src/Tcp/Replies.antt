-- ===== src/Tcp/Replies.antt =====
-- What the methods of a connection (src/luaw_tcp.c) return to Lua, as the comments above them specify it.
use luaw.Prelude.{◌≡◌, Bool, true, false, List, [], ◌∷◌, Option, none, some, ◌==◌, length}
use luaw.Prelude.Int.{pos}
use luaw.Lua.{Value, nil, boolean, integer, bytes, text, strerror, format, format2}
use luaw.Uv.{Uv}
use luaw.Tcp.{Connection, Env, World, Outcome}
use luaw.Tcp.Run.{Event}

abbrev is_message : Value → Bool
is_message (text s) = true
is_message (strerror e) = true
is_message (format s v) = true
is_message (format2 s v x) = true
is_message _ = false

-- A false status and a message.
abbrev is_failure : List Value → Bool
is_failure (boolean false ∷ message ∷ []) = is_message message
is_failure _ = false

-- A true status with nothing, with data or nil, or with the number of
-- bytes to write; a failure; and for what returns nothing
-- and for the callbacks no value at all.
abbrev pub is_specified : Event → List Value → Bool
is_specified Event.start_read (boolean true ∷ []) = true
is_specified Event.start_read r = is_failure r
is_specified (Event.reads tid n b) (boolean true ∷ nil ∷ []) = true
is_specified (Event.reads tid n b) (boolean true ∷ bytes s ∷ []) = true
is_specified (Event.reads tid n b) r = is_failure r
is_specified (Event.writes tid b n) (boolean true ∷ integer (pos k) ∷ []) = k == length b
is_specified (Event.writes tid b n) r = is_failure r
is_specified _ [] = true
is_specified _ (v ∷ vs) = false

module _ (uv : Uv) where
  open uv use {Handle}

  abbrev Meets : Event → Outcome Handle → Type 0
  Meets e none = Unit {0}
  Meets e (some (w, r)) = is_specified e r ≡ true

  module _ (env : Env) where
    abbrev at : Option (Connection Handle) → World Handle
    at t = record { conn = t; env = env }
