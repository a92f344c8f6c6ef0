-- ===== src/Timer/Reentrant.antt =====
-- src/luaw_timer.c with threads that run inside the C functions which resume them: the functions as
-- far as each call of `resume_lua_thread`, and histories in which a resumed thread calls the timer's
-- methods before the C function goes on.
pub mod Preserve
pub mod Safety
pub mod Atomic
pub mod Serial
pub mod Stop
use luaw.Prelude.{◌++◌, Bool, true, false, List, [], ◌∷◌, Option, none, some, if◌then◌else◌, not}
use mathlib.Core.Option
use luaw.Prelude.Int.{ℤ, pos, is_zero, is_nonpos}
use luaw.Lua.{Value, boolean, integer, text, strerror, format, Resume, error_to_lua, decr_ref}
use luaw.Lua.Script.{Script, returned, resuming, fault, Calls, finish, nested}
use luaw.Uv.{Uv, close_if_active}
use luaw.Timer.{
  Timer, World, Outcome, init, ticking, elapsed, clear_user_timer, cancelled, has_elapsed, is_init,
  is_ticking, wait_user_timer, free_user_timer,
}
use luaw.Timer.Run.{System, Event, blocks, is_enabled}

abbrev pub TimerScript : Type 0 → Type 0
TimerScript H = Script (World H) (List Value)

-- The methods of a timer, which Lua may call at any time.
pub data Method : Type 0 where
  start wait : ℤ → Method
  stop delete gc : Method

-- What happens to a timer, one after the other: a call of a method, or a callback of libuv; and what
-- the thread does that it resumes.
pub data Turn : Type 0 where
  calls : Calls Method → Turn
  timeout : Calls Method → Turn
  closed : Turn

abbrev pub as_event : Method → Event
as_event (Method.start n) = Event.start n
as_event (Method.wait tid) = Event.wait tid
as_event Method.stop = Event.stop
as_event Method.delete = Event.delete
as_event Method.gc = Event.gc

module _ {H : Type 0} where
  -- `lua_pcall` in `resume_lua_thread`, for a thread id other than 0.
  unfoldable pub resume : Resume → World H → (World H → TimerScript H) → TimerScript H
  resume r w k = if is_zero r.tid then k w else resuming (record w { calls = r ∷ w.calls }) k

  -- The C pointer to the timer is followed.
  abbrev pub at_timer : World H → (Timer H → TimerScript H) → TimerScript H
  at_timer w k = elim w.timer [ none ↦ fault | some t ↦ k t ]

  -- `LUA_GET_TIMER_OR_RETURN` and `LUA_GET_TIMER_OR_ERROR`.
  abbrev pub by_userdata : World H → List Value → (Timer H → TimerScript H) → TimerScript H
  by_userdata w missing k = if w.udata then at_timer w k else returned w missing

  abbrev pub of_outcome : Outcome H → TimerScript H
  of_outcome none = fault
  of_outcome (some (w, r)) = returned w r

module _ (uv : Uv) where
  open uv use {Handle, timer_start, timer_start_rc, timer_stop}

  -- The last statement of `close_timer`.
  unfoldable pub close_handle : List Value → World Handle → TimerScript Handle
  close_handle r w = at_timer w λ t.
      returned (record w { timer = some (record t { handle = close_if_active uv t.handle }) }) r

  -- `close_timer`, and `r` for Lua after it.
  unfoldable pub close_script : List Value → World Handle → TimerScript Handle
  unfolding resume
  close_script r w = at_timer w λ t.
      if t.lua_ref
      then (let delinked = record t { lua_ref = false; ref_count = decr_ref t.ref_count } in
          if is_zero t.lua_tid
          then close_handle r (record w { udata = false; timer = some delinked })
          else resume (cancelled uv t.lua_tid)
              (record w { udata = false; timer = some (record delinked { lua_tid = pos 0 }) })
              (close_handle r))
      else returned w r

  unfoldable pub start_script : ℤ → World Handle → TimerScript Handle
  unfolding close_script error_to_lua
  start_script n w = by_userdata w (error_to_lua (text "Timer closed")) λ t.
      if not (is_init t.state)
      then returned w (error_to_lua (text "Timer already in use by another thread"))
      else if is_nonpos n
      then returned w (error_to_lua (format "Invalid timeout value %d specified" (integer n)))
      else let rc = timer_start_rc t.handle n in
        let t' = record t { handle = timer_start t.handle n } in
        if is_zero rc
        then returned (record w { timer = some (record t' { state = ticking }) })
            (boolean true ∷ [])
        else close_script (error_to_lua (format "Error starting timer: %s" (strerror rc)))
            (record w { timer = some t' })

  -- The last two statements of `stop_user_timer`.
  unfoldable pub clear_and_stop : World Handle → TimerScript Handle
  unfolding clear_user_timer
  clear_and_stop w = at_timer w λ t.
      let u = clear_user_timer t in
      returned (record w { timer = some (record u { handle = timer_stop u.handle }) }) []

  unfoldable pub stop_script : World Handle → TimerScript Handle
  unfolding error_to_lua
  stop_script w = by_userdata w (error_to_lua (text "Timer closed")) λ t.
      if is_ticking t.state
      then (if is_zero t.lua_tid
          then clear_and_stop w
          else resume (cancelled uv t.lua_tid) w clear_and_stop)
      else returned w []

  unfoldable pub delete_script : World Handle → TimerScript Handle
  delete_script w = by_userdata w [] λ t. close_script [] w

  unfoldable pub script : Method → World Handle → TimerScript Handle
  script (Method.start n) w = start_script n w
  script (Method.wait tid) w = of_outcome (wait_user_timer uv tid w)
  script Method.stop w = stop_script w
  script Method.delete w = delete_script w
  script Method.gc w = delete_script w

  unfoldable pub timeout_script : World Handle → TimerScript Handle
  unfolding clear_user_timer
  timeout_script w = at_timer w λ t.
      if not t.handle_data
      then returned w []
      else if is_zero t.lua_tid
      then returned (record w { timer = some (record t { state = elapsed }) }) []
      else resume (has_elapsed uv t.lua_tid) (record w { timer = some (clear_user_timer t) })
          λ w'. returned w' []

  abbrev pub put : World Handle → System Handle → System Handle
  put w s = record s { world = w }

  abbrev pub finishing :
      List (System Handle → Option (System Handle))
      → TimerScript Handle
      → System Handle
      → Option (System Handle × List Value)
  finishing = finish (λ s. s.world) put

  -- A method's call, with what the threads do that it resumes.
  unfoldable pub perform :
      Method
      → List (System Handle → Option (System Handle))
      → System Handle
      → Option (System Handle)
  perform m fs s = elim (finishing fs (script m s.world) s) [
    | none ↦ none
    | some (t, r) ↦ some (record t { blocked = blocks uv (as_event m) r ++ t.blocked })
  ]

  abbrev pub make_calls : Calls Method → System Handle → Option (System Handle)
  make_calls = nested perform

  unfoldable pub timeout_turn : Calls Method → System Handle → Option (System Handle)
  timeout_turn during s =
      if is_enabled uv Event.timeout s
      then Option.map (λ (t, _). t)
          (finishing ((λ t. make_calls during t) ∷ []) (timeout_script s.world) s)
      else some s

  unfoldable pub closed_turn : System Handle → Option (System Handle)
  closed_turn s =
      if is_enabled uv Event.closed s
      then Option.map (λ (w, _). record s { world = w; is_closed = true })
          (free_user_timer uv s.world)
      else some s

  unfoldable pub turn : Turn → System Handle → Option (System Handle)
  turn (Turn.calls ks) s = make_calls ks s
  turn (Turn.timeout during) s = timeout_turn during s
  turn Turn.closed s = closed_turn s

  unfoldable pub turns : List Turn → System Handle → Option (System Handle)
  turns [] s = some s
  turns (e ∷ es) s = elim (turn e s) [ none ↦ none | some t ↦ turns es t ]
