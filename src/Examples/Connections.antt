-- ===== src/Examples/Connections.antt =====
-- Connections of src/luaw_tcp.c.
use luaw.Prelude.{arith, ◌≡◌, ◌≢◌, ◌↔◌, refl, true, false, List, [], ◌∷◌, map, none, some}
use luaw.Prelude.Int.{pos, negsuc, is_zero}
use luaw.Lua.{Value, boolean, bytes, nil, strerror, gc_ref}
use luaw.Uv.{close_if_active}
use luaw.Tcp.{
  Connection, Env, World, kept, close_connection, reader_result, writer_result, fresh_connection,
  new_connection, close_connection_lua, free_tcp_handle, free_read_timer, free_write_timer, release,
  start_timer,
}
use luaw.Tcp.Read.{on_read, start_reading, read_check}
use luaw.Tcp.Write.{write_buffer}
use luaw.Tcp.Connect.{on_client_connect}
use luaw.Tcp.Run.{
  System, Event, start_read, reads, writes, close, has_read, handle_closed, read_timer_closed,
  write_timer_closed, execute, run, has_written, advance, Reach, does, here, next, created,
}
use luaw.Tcp.Invariant.{Freed}
use luaw.Tcp.Safety.{Reach-no_fault, Reach-Freed, overlap_leaks}
use luaw.Tcp.Delivery.{
  close_connection-tells, on_client_connect-failed, connected_reader-told_twice,
}
use luaw.Tcp.Stream.{Moment, asks, arrives, as_event, IsOpen, talking, run-handed}
use luaw.Tcp.Liveness.{Reach-close_frees}
use luaw.Examples.World.{ToyHandle, toy_uv}

-- The state after an event; an event that faults leaves it as it is.
abbrev play : Event → System ToyHandle → System ToyHandle
play e s = elim (execute toy_uv e s.world) [ none ↦ s | some (w, r) ↦ advance toy_uv e s w r ]

abbrev playing : List Event → System ToyHandle → System ToyHandle
playing [] s = s
playing (e ∷ es) s = playing es (play e s)

abbrev reading : System ToyHandle
reading = playing (start_read ∷ reads (pos 5) (pos 100) [] ∷ []) (created toy_uv)

reading-Reach : Reach toy_uv (created toy_uv) reading
unfolding created new_connection fresh_connection execute start_reading read_check start_timer
reading-Reach =
    next (next here (does start_read _ _ refl refl refl))
      (does (reads (pos 5) (pos 100) []) _ _ refl refl refl)

Reach-no_fault_example :
    (w : World ToyHandle) × (r : List Value) × (execute toy_uv
        (has_read (pos 2) (104 ∷ 105 ∷ []))
        reading.world
      ≡ some (w, r))
unfolding created new_connection fresh_connection execute start_reading read_check start_timer
Reach-no_fault_example =
    Reach-no_fault toy_uv reading (has_read (pos 2) (104 ∷ 105 ∷ [])) reading-Reach refl

abbrev ended : System ToyHandle
ended =
    playing (close ∷ handle_closed ∷ read_timer_closed ∷ write_timer_closed ∷ []) (created toy_uv)

ended-Reach : Reach toy_uv (created toy_uv) ended
unfolding created new_connection fresh_connection execute close_connection_lua close_connection
    close_if_active free_tcp_handle free_read_timer free_write_timer release gc_ref
ended-Reach =
    next
      (next
        (next (next here (does close _ _ refl refl refl)) (does handle_closed _ _ refl refl refl))
        (does read_timer_closed _ _ refl refl refl))
      (does write_timer_closed _ _ refl refl refl)

Reach-Freed_example : (ended.world.conn ≡ none) ↔ Freed toy_uv ended.world.env.udata ended.pending
Reach-Freed_example = Reach-Freed toy_uv ended ended-Reach

abbrev overlapping : System ToyHandle
overlapping =
    playing (writes (pos 3) (1 ∷ []) (pos 0) ∷ writes (pos 4) (2 ∷ []) (pos 0) ∷ [])
      (created toy_uv)

overlapping-Reach : Reach toy_uv (created toy_uv) overlapping
unfolding created new_connection fresh_connection execute write_buffer start_timer
overlapping-Reach =
    next (next here (does (writes (pos 3) (1 ∷ []) (pos 0)) _ _ refl refl refl))
      (does (writes (pos 4) (2 ∷ []) (pos 0)) _ _ refl refl refl)

abbrev overlapping_closed : System ToyHandle
overlapping_closed = play close overlapping

closed-Reach : Reach toy_uv overlapping overlapping_closed
unfolding created new_connection fresh_connection execute write_buffer start_timer
    close_connection_lua
closed-Reach = next here (does close _ _ refl refl refl)

overlap_leaks_example : overlapping_closed.world.conn ≢ none
unfolding created new_connection fresh_connection execute write_buffer start_timer
overlap_leaks_example =
    overlap_leaks toy_uv overlapping overlapping_closed overlapping-Reach (omega arith) closed-Reach

-- A connection with a reader, and one whose `connect` has not finished.
abbrev with_reader : Connection ToyHandle
with_reader = record (fresh_connection toy_uv) { lua_reader_tid = pos 5 }

abbrev with_writer : Connection ToyHandle
with_writer = record (fresh_connection toy_uv) { lua_writer_tid = pos 7 }

abbrev linked : Env
linked = record { udata = true; calls = []; sent = [] }

close_connection-tells_example :
    let (t, e) = close_connection toy_uv (negsuc 4094) with_reader linked in
    (e.calls ≡ reader_result toy_uv (pos 5) (negsuc 4094) ∷ [])
    × (is_zero t.lua_reader_tid ≡ true)
    × (is_zero t.lua_writer_tid ≡ true)
    × (close_connection toy_uv (pos 0) t e ≡ (t, e))
unfolding fresh_connection
close_connection-tells_example =
    close_connection-tells toy_uv (negsuc 4094) (pos 0) with_reader linked refl

on_client_connect-failed_example :
    (w : World ToyHandle) × (on_client_connect toy_uv (negsuc 110) (kept with_writer linked)
      ≡ some (w, []))
    × (w.env.calls ≡ record { tid = pos 7; status = false; result = strerror (negsuc 110) } ∷ [])
    × (w.env.udata ≡ false)
    × (t : Connection ToyHandle) × (w.conn ≡ some t)
    × (t.handle.closing ≡ true)
    × (t.read_timer.closing ≡ true)
    × (t.write_timer.closing ≡ true)
    × (t.lua_ref ≡ false)
    × (t.ref_count ≡ pos 3)
    × (is_zero t.lua_reader_tid ≡ true)
    × (is_zero t.lua_writer_tid ≡ true)
unfolding fresh_connection
on_client_connect-failed_example =
    on_client_connect-failed toy_uv (negsuc 110) with_writer linked refl refl refl

-- Connecting, with the handle ready for reading.
abbrev half_open : Connection ToyHandle
half_open = record with_writer { handle = record { active = true; closing = false } }

connected_reader-told_twice_example :
    (w₁ w₂ w₃ : World ToyHandle) × (on_client_connect toy_uv (pos 0) (kept half_open linked)
      ≡ some (w₁, []))
    × (read_check toy_uv (pos 7) (pos 100) [] w₁ ≡ some (w₂, boolean true ∷ nil ∷ []))
    × (on_read toy_uv (negsuc 4094) [] w₂ ≡ some (w₃, []))
    × (w₃.env.calls
        ≡ writer_result toy_uv (pos 7) (negsuc 4094)
          ∷ reader_result toy_uv (pos 7) (negsuc 4094)
          ∷ record { tid = pos 7; status = true; result = nil }
          ∷ [])
unfolding fresh_connection
connected_reader-told_twice_example =
    connected_reader-told_twice toy_uv (pos 7) (pos 100) [] half_open linked refl refl refl refl
      refl refl refl refl refl refl

-- A connection with a reader that waits and a write in flight.
abbrev busy : System ToyHandle
busy = playing (writes (pos 7) (1 ∷ 2 ∷ []) (pos 9) ∷ []) reading

busy-Reach : Reach toy_uv (created toy_uv) busy
unfolding created new_connection fresh_connection execute start_reading read_check start_timer
    write_buffer
busy-Reach = next reading-Reach (does (writes (pos 7) (1 ∷ 2 ∷ []) (pos 9)) _ _ refl refl refl)

Reach-close_frees_example :
    (t : System ToyHandle) × (run toy_uv
        (close
          ∷ handle_closed
          ∷ read_timer_closed
          ∷ write_timer_closed
          ∷ has_written (negsuc 124)
          ∷ [])
        busy
      ≡ some t)
    × (t.world.conn ≡ none)
unfolding created new_connection fresh_connection execute start_reading read_check start_timer
    write_buffer
Reach-close_frees_example = Reach-close_frees toy_uv (negsuc 124) busy busy-Reach refl

-- A thread asks, bytes come for it, more bytes come for nobody, and two threads ask before the next.
abbrev conversation : List Moment
conversation =
    asks (pos 5) (pos 100)
    ∷ arrives 104 (105 ∷ []) (0 ∷ [])
    ∷ arrives 106 [] []
    ∷ asks (pos 6) (pos 0)
    ∷ asks (pos 8) (pos 0)
    ∷ arrives 107 [] []
    ∷ []

abbrev quiet : Connection ToyHandle
quiet = record half_open { lua_writer_tid = pos 0 }

quiet-IsOpen : IsOpen toy_uv quiet linked
unfolding fresh_connection
quiet-IsOpen = ground arith

run-handed_example :
    (t : Connection ToyHandle) × (e : Env) × (run toy_uv
        (map as_event conversation)
        (talking toy_uv (created toy_uv).pending quiet linked)
      ≡ some (talking toy_uv (created toy_uv).pending t e))
    × (e.calls
        ≡ record { tid = pos 8; status = true; result = bytes (107 ∷ []) }
          ∷ record { tid = pos 5; status = true; result = bytes (104 ∷ 105 ∷ []) }
          ∷ [])
    × IsOpen toy_uv t e
unfolding fresh_connection
run-handed_example =
    run-handed toy_uv (created toy_uv).pending conversation quiet linked refl quiet-IsOpen
