-- ===== src/Examples/NestedTimers.antt =====
-- User timers whose resumed threads call them again inside the operation that resumed them.
use luaw.Prelude.{◌≡◌, refl, ◌++◌, true, false, List, [], ◌∷◌, none, some, ◌↔◌}
use mathlib.Core.Option
use luaw.Prelude.Int.{pos}
use luaw.Lua.{error_to_lua, gc_ref}
use luaw.Lua.Script.{Calls, done, call, finish, nested}
use luaw.Uv.{close_if_active}
use luaw.Timer.{
  Timer, ticking, cancelled, has_elapsed, clear_user_timer, new_user_timer, wait_user_timer,
  free_user_timer,
}
use luaw.Timer.Run as TimerRun
use luaw.Timer.Wakeups.{waiting, resumed}
use luaw.Timer.Reentrant as T
use luaw.Timer.Reentrant.Safety.{turns-created_safe}
use luaw.Timer.Reentrant.Serial.{turns-serial, turns-wakeups, flatten}
use luaw.Timer.Reentrant.Stop.{stop-delete}
use luaw.Examples.World.{ToyHandle, toy_uv}

-- A call that resumes nobody who calls the timer.
abbrev plain : {M : Type 0} → M → Calls M → Calls M
plain m after = call m done done after

-- The thread that the timeout resumes starts the timer again and waits; it is told of the deletion
-- inside the call of `delete`, and its try to start the timer then fails.
abbrev again : List T.Turn
again =
    T.Turn.calls (plain (T.Method.start (pos 10)) (plain (T.Method.wait (pos 7)) done))
    ∷ T.Turn.timeout (plain (T.Method.start (pos 5)) (plain (T.Method.wait (pos 8)) done))
    ∷ T.Turn.calls (call T.Method.delete (plain (T.Method.start (pos 3)) done) done done)
    ∷ T.Turn.closed
    ∷ []

abbrev after_again : TimerRun.System ToyHandle
after_again = record {
  world = record {
    udata = false;
    timer = none;
    calls = cancelled toy_uv (pos 8) ∷ has_elapsed toy_uv (pos 7) ∷ [];
  };
  is_closed = true;
  blocked = pos 8 ∷ pos 7 ∷ [];
}

again_runs : T.turns toy_uv again (TimerRun.created toy_uv) ≡ some after_again
unfolding T.turns T.turn nested T.perform finish T.script T.start_script T.delete_script
    T.close_script T.close_handle T.timeout_turn T.timeout_script T.closed_turn T.resume
    TimerRun.created new_user_timer wait_user_timer free_user_timer clear_user_timer error_to_lua
    close_if_active gc_ref
again_runs = refl

turns-created_safe_example :
    (t : TimerRun.System ToyHandle) × (T.turns toy_uv again (TimerRun.created toy_uv) ≡ some t)
    × ((t.world.timer ≡ none) ↔ ((t.world.udata ≡ false) × (t.is_closed ≡ true)))
turns-created_safe_example = turns-created_safe toy_uv again

turns-serial_example :
    T.turns toy_uv again (TimerRun.created toy_uv)
    ≡ TimerRun.run toy_uv (flatten toy_uv again (TimerRun.created toy_uv)) (TimerRun.created toy_uv)
turns-serial_example = turns-serial toy_uv again (TimerRun.created toy_uv) refl

-- The timeout's calls follow it, and the call inside the deletion is left out.
again_flattens :
    flatten toy_uv again (TimerRun.created toy_uv)
    ≡ TimerRun.start (pos 10)
      ∷ TimerRun.wait (pos 7)
      ∷ TimerRun.timeout
      ∷ TimerRun.start (pos 5)
      ∷ TimerRun.wait (pos 8)
      ∷ TimerRun.delete
      ∷ TimerRun.closed
      ∷ []
unfolding T.turns T.turn nested T.perform finish T.script T.start_script T.delete_script
    T.close_script T.close_handle T.timeout_turn T.timeout_script T.closed_turn T.resume
    TimerRun.created new_user_timer wait_user_timer free_user_timer clear_user_timer error_to_lua
    close_if_active gc_ref
again_flattens = refl

turns-wakeups_example :
    waiting toy_uv after_again.world.timer ++ resumed toy_uv after_again.world.calls
    ≡ after_again.blocked
turns-wakeups_example = turns-wakeups toy_uv again after_again refl again_runs

abbrev waited_on : Timer ToyHandle
waited_on = record {
  handle = record { active = true; closing = false };
  handle_data = true;
  state = ticking;
  lua_tid = pos 7;
  ref_count = pos 2;
  lua_ref = true;
}

abbrev before_stop : TimerRun.System ToyHandle
before_stop = record {
  world = record { udata = true; timer = some waited_on; calls = [] };
  is_closed = false;
  blocked = pos 7 ∷ [];
}

stop-delete_example :
    Option.map
      (λ u. u.world.calls)
      (T.make_calls toy_uv
        (call T.Method.stop (call T.Method.delete (plain T.Method.gc done) done done) done done)
        before_stop)
    ≡ some (cancelled toy_uv (pos 7) ∷ cancelled toy_uv (pos 7) ∷ [])
stop-delete_example =
    stop-delete toy_uv (plain T.Method.gc done) before_stop waited_on refl refl refl refl refl
