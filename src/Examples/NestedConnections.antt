-- ===== src/Examples/NestedConnections.antt =====
-- Connections whose resumed threads call them again inside the operation that resumed them.
use luaw.Prelude.{◌≡◌, refl, List, [], ◌∷◌, some, none}
use mathlib.Core.Option
use luaw.Prelude.Int.{pos, negsuc}
use luaw.Lua.{error_to_lua, gc_ref}
use luaw.Lua.Script.{Calls, done, call, nested, finish}
use luaw.Uv.{close_if_active}
use luaw.Tcp.{
  release, new_connection, fresh_connection, free_read_timer, free_write_timer, free_tcp_handle,
  start_timer, stop_timer, connection_closed,
}
use luaw.Tcp.Read.{start_reading}
use luaw.Tcp.Write.{write_buffer}
use luaw.Tcp.Run.{System, Reach, created, run}
use luaw.Tcp.Reentrant.{
  Turn, Method, Callback, script, start_reading_script, write_script, releasing, resume,
  close_script, unblock_reader, unblock_writer,
}
use luaw.Tcp.Reentrant.Turns.{turns, turn, perform, call_back, callback_script, on_write_script}
use luaw.Tcp.Reentrant.Serial.{turns-created-Reach, flatten}
use luaw.Examples.World.{ToyHandle, toy_uv}

-- A call that resumes nobody who calls the connection.
abbrev plain : Method → Calls Method → Calls Method
plain m after = call m done done after

-- The writer that `on_write` resumes writes again and closes the connection, before `on_write` gives
-- its reference back; the second write then fails, and the handles are closed.
abbrev rewriting : List Turn
rewriting =
    Turn.calls (plain Method.start_read (plain (Method.writes (pos 4) (1 ∷ 2 ∷ []) (pos 9)) done))
    ∷ Turn.callback (Callback.has_written (pos 0))
        (plain (Method.writes (pos 4) (3 ∷ []) (pos 0)) (plain Method.close done)) done
    ∷ Turn.callback (Callback.has_written (negsuc 31)) (plain Method.gc done) done
    ∷ Turn.callback Callback.read_timer_closed done done
    ∷ Turn.callback Callback.write_timer_closed done done
    ∷ Turn.callback Callback.handle_closed done done
    ∷ []

turns-created-Reach_example :
    (t : System ToyHandle) × (turns toy_uv rewriting (created toy_uv) ≡ some t)
    × (run toy_uv (flatten toy_uv rewriting (created toy_uv)) (created toy_uv) ≡ some t)
    × Reach toy_uv (created toy_uv) t
turns-created-Reach_example = turns-created-Reach toy_uv rewriting

-- The last reference is given back when the last handle is closed.
rewriting_frees :
    Option.map (λ s. s.world.conn) (turns toy_uv rewriting (created toy_uv)) ≡ some none
unfolding turns turn nested perform finish script start_reading_script write_script call_back
    callback_script on_write_script releasing release resume close_script unblock_reader
    unblock_writer created new_connection fresh_connection start_reading write_buffer
    free_read_timer free_write_timer free_tcp_handle close_if_active start_timer stop_timer
    connection_closed error_to_lua gc_ref
rewriting_frees = refl
