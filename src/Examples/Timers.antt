-- ===== src/Examples/Timers.antt =====
-- User timers of src/luaw_timer.c.
use luaw.Prelude.{◌++◌, Bool, ◌≡◌, refl, true, false, List, [], ◌∷◌, none, some, length}
use luaw.Prelude.Int.{pos}
use luaw.Lua.{resume_lua_thread, gc_ref}
use luaw.Uv.{close_if_active}
use luaw.Timer.{
  has_elapsed, cancelled, close_timer, unblock_waiter, wait_user_timer, on_user_timer_timeout,
  clear_user_timer, new_user_timer, start_user_timer, close_timer_lua, free_user_timer,
}
use luaw.Timer.Run.{
  System, Event, start, wait, delete, timeout, closed, run, created, step, execute,
}
use luaw.Timer.Wakeups.{resumed}
use luaw.Timer.Liveness.{run-delete-closed}
use luaw.Timer.Phases.{phase, idle, moves}
use luaw.Timer.Refinement.{run-moves}
use luaw.Examples.World.{ToyHandle, toy_uv}

-- Two waits, one served and one cancelled; the timer is deleted and then freed.
abbrev history : List Event
history =
    start (pos 10) ∷ wait (pos 7) ∷ timeout ∷ start (pos 5) ∷ wait (pos 8) ∷ delete ∷ closed ∷ []

abbrev finished : System ToyHandle
finished = record {
  world = record {
    udata = false;
    timer = none;
    calls = cancelled toy_uv (pos 8) ∷ has_elapsed toy_uv (pos 7) ∷ [];
  };
  is_closed = true;
  blocked = pos 8 ∷ pos 7 ∷ [];
}

history_runs : run toy_uv history (created toy_uv) ≡ some finished
unfolding run step execute created new_user_timer start_user_timer wait_user_timer
    on_user_timer_timeout close_timer_lua free_user_timer clear_user_timer close_timer
    unblock_waiter resume_lua_thread close_if_active gc_ref
history_runs = refl

-- Deleted and closed while a thread waits.
abbrev waiting_then_deleted : List Event
waiting_then_deleted = (start (pos 10) ∷ wait (pos 7) ∷ []) ++ delete ∷ closed ∷ []

run-delete-closed_example :
    (t : System ToyHandle) × (run toy_uv waiting_then_deleted (created toy_uv) ≡ some t)
    × (t.world.timer ≡ none)
    × (resumed toy_uv t.world.calls ≡ t.blocked)
run-delete-closed_example = run-delete-closed toy_uv (start (pos 10) ∷ wait (pos 7) ∷ [])

run-moves_example :
    (t : System ToyHandle) × (run toy_uv history (created toy_uv) ≡ some t)
    × (fits : List Bool) × (length fits ≡ 7)
    × ((phase toy_uv t.world, t.world.calls) ≡ moves toy_uv fits history (idle, []))
run-moves_example = run-moves toy_uv history
