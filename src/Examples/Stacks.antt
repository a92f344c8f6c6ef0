-- ===== src/Examples/Stacks.antt =====
-- The stack of the main Lua state of src/luaw_server.c.
use luaw.Prelude.{
  ℕ, zero, suc, ◌*◌, ◌≤◌, ◌<◌, ◌≡◌, refl, true, false, List, [], ◌∷◌, some, none, arith,
}
use luaw.Prelude.Int.{pos, negsuc}
use luaw.Tcp.{Connection, fresh_connection}
use luaw.Server.Stack.{
  LoopCallback, at_read, at_connect, at_resolved, operate, operate_all, turn_ops,
}
use luaw.Server.Room.{Grows, turn-Grows}
use luaw.Server.Overflow.{reads, reads-overflow}
use luaw.Examples.World.{ToyHandle, toy_uv}

abbrev waiting : Connection ToyHandle
waiting = record (fresh_connection toy_uv) {
  handle_data = true;
  lua_reader_tid = pos 7;
  lua_ref = true;
}

-- A failed connect, an end of the stream, and a name that was resolved.
abbrev some_callbacks : List (LoopCallback ToyHandle)
some_callbacks =
    at_connect (negsuc 0) waiting true true false
    ∷ at_read (negsuc 0) waiting true true
    ∷ at_resolved (pos 3) false
    ∷ []

turn-Grows_example : Grows 0 16 (operate_all (turn_ops toy_uv true some_callbacks) 3)
turn-Grows_example = turn-Grows toy_uv true some_callbacks 3 (omega arith) (omega arith)

abbrev ready : ℕ → List (ℕ × Connection ToyHandle)
ready zero = []
ready (suc n) = (n, waiting) ∷ ready n

reads-overflow_example :
    (10 ≤ 9 → operate_all (turn_ops toy_uv true (reads toy_uv (ready 10))) 0 ≡ some (2 * 10))
    × (9 < 10 → operate_all (turn_ops toy_uv true (reads toy_uv (ready 10))) 0 ≡ none)
unfolding fresh_connection
reads-overflow_example = reads-overflow toy_uv true (ready 10) 0 (omega arith) (ground arith)

-- Six reads that nobody waits for leave four slots each, and so overflow as well.
abbrev unread : LoopCallback ToyHandle
unread = at_read (pos 1) (record waiting { lua_reader_tid = pos 0 }) true true

six_unread :
    operate_all (turn_ops toy_uv true (unread ∷ unread ∷ unread ∷ unread ∷ unread ∷ unread ∷ [])) 0
    ≡ none
unfolding operate operate_all turn_ops fresh_connection
six_unread = refl
