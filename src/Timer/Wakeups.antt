-- ===== src/Timer/Wakeups.antt =====
-- Every thread that blocks on a user timer is resumed once, and in the order of the calls of `wait`.
use luaw.Prelude.{
  ◌++◌, ◌≡◌, refl, Bool, true, List, [], ◌∷◌, Option, none, some, arith, if◌then◌else◌,
}
use luaw.Prelude.Int.{ℤ, is_zero}
use luaw.Lua.{Resume}
use luaw.Uv.{Uv}
use luaw.Timer.{
  Timer, World, Outcome, start_user_timer, wait_user_timer, stop_user_timer, close_timer_lua,
  on_user_timer_timeout, free_user_timer, new_user_timer, timer_gc,
}
use luaw.Timer.Run.{System, Event, execute, is_enabled, blocks, step, run, created, handle_closing}
use luaw.Timer.Safety.{TimerInv, Inv, step-Inv, created-Inv}

module _ (uv : Uv) where
  open uv use {Handle}

  -- The thread that waits for the timer, if any.
  abbrev pub waiting : Option (Timer Handle) → List ℤ
  waiting none = []
  waiting (some t) = if is_zero t.lua_tid then [] else t.lua_tid ∷ []

  -- The threads that were resumed, newest first.
  abbrev pub resumed : List Resume → List ℤ
  resumed [] = []
  resumed (r ∷ rs) = r.tid ∷ resumed rs

  -- An outcome whose threads that wait or were resumed are `ids`, behind the one that the event blocks.
  abbrev Adds : List ℤ → Event → Outcome Handle → Type 0
  Adds ids e none = Unit {0}
  Adds ids e (some (w, r)) = waiting w.timer ++ resumed w.calls ≡ blocks uv e r ++ ids

  module _ (u c : Bool) (calls : List Resume) where
    abbrev at : Option (Timer Handle) → World Handle
    at t = record { udata = u; timer = t; calls = calls }

    start-Adds :
        (n : ℤ) (t : Option (Timer Handle))
        → Adds (waiting t ++ resumed calls) (Event.start n) (start_user_timer uv n (at t))
    unfolding start_user_timer
    start-Adds n none = ground arith
    start-Adds n (some t) = ground arith

    wait-Adds :
        (n : ℤ) (t : Option (Timer Handle))
        → TimerInv uv u c t
        → Adds (waiting t ++ resumed calls) (Event.wait n) (wait_user_timer uv n (at t))
    unfolding wait_user_timer
    wait-Adds n none v = ground arith
    wait-Adds n (some t) v = ground arith

    stop-Adds :
        (t : Option (Timer Handle))
        → Adds (waiting t ++ resumed calls) Event.stop (stop_user_timer uv (at t))
    unfolding stop_user_timer
    stop-Adds none = ground arith
    stop-Adds (some t) = ground arith

    delete-Adds :
        (t : Option (Timer Handle))
        → Adds (waiting t ++ resumed calls) Event.delete (close_timer_lua uv (at t))
    unfolding close_timer_lua
    delete-Adds none = ground arith
    delete-Adds (some t) = ground arith

    timeout-Adds :
        (t : Option (Timer Handle))
        → TimerInv uv u c t
        → Adds (waiting t ++ resumed calls) Event.timeout (on_user_timer_timeout uv (at t))
    unfolding on_user_timer_timeout
    timeout-Adds none v = ground arith
    timeout-Adds (some t) v = ground arith

    closed-Adds :
        (t : Option (Timer Handle))
        → TimerInv uv u c t
        → handle_closing uv t ≡ true
        → Adds (waiting t ++ resumed calls) Event.closed (free_user_timer uv (at t))
    unfolding free_user_timer
    closed-Adds none v h = ground arith
    closed-Adds (some t) v h = ground arith

  execute-Adds :
      (e : Event) (s : System Handle)
      → Inv uv s
      → is_enabled uv e s ≡ true
      → Adds (waiting s.world.timer ++ resumed s.world.calls) e (execute uv e s.world)
  unfolding execute
  execute-Adds (Event.start n) s v h =
      start-Adds s.world.udata s.is_closed s.world.calls n s.world.timer
  execute-Adds (Event.wait n) s v h =
      wait-Adds s.world.udata s.is_closed s.world.calls n s.world.timer v
  execute-Adds Event.stop s v h = stop-Adds s.world.udata s.is_closed s.world.calls s.world.timer
  execute-Adds Event.delete s v h =
      delete-Adds s.world.udata s.is_closed s.world.calls s.world.timer
  execute-Adds Event.gc s v h =
      unfold timer_gc close_timer_lua in
      delete-Adds s.world.udata s.is_closed s.world.calls s.world.timer
  execute-Adds Event.timeout s v h =
      timeout-Adds s.world.udata s.is_closed s.world.calls s.world.timer v
  execute-Adds Event.closed s v h =
      closed-Adds s.world.udata s.is_closed s.world.calls s.world.timer v (ground arith)

  abbrev Accounted : System Handle → Type 0
  Accounted s = waiting s.world.timer ++ resumed s.world.calls ≡ s.blocked

  step-Accounted :
      (e : Event) (s t : System Handle)
      → Inv uv s
      → Accounted s
      → step uv e s ≡ some t
      → Accounted t
  unfolding step
  step-Accounted e s t v a p = ground (arith, execute-Adds e s v)

  run-Accounted :
      (es : List Event) (s t : System Handle)
      → Inv uv s
      → Accounted s
      → run uv es s ≡ some t
      → Accounted t
  unfolding run
  run-Accounted [] s t v a p = ground arith
  run-Accounted (e ∷ es) s t v a p =
      let (m, q, k) = step-Inv uv e s v in
      run-Accounted es m t k (step-Accounted e s m v a q) (rw (q, run) at p)

  -- In every history of a new timer that runs to an end, the threads whose calls of `wait` blocked are
  -- those that `resumeThreadId` was called with and the one that still waits, in the same order.
  pub run-created_wakeups :
      (es : List Event) (t : System Handle)
      → run uv es (created uv) ≡ some t
      → waiting t.world.timer ++ resumed t.world.calls ≡ t.blocked
  run-created_wakeups es t p =
      run-Accounted es (created uv) t (created-Inv uv) (unfold created new_user_timer in refl) p
