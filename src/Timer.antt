-- ===== src/Timer.antt =====
-- src/luaw_timer.c and src/luaw_timer.h: user timers, shared by Lua's userdata and a libuv handle.
-- The `luaw_timer_t` stands in a cell that is `none` once it is freed, and an operation that reads a
-- freed timer is a fault, the result `none`.
pub mod Run
pub mod Safety
pub mod Wakeups
pub mod Liveness
pub mod Phases
pub mod Refinement
pub mod Reentrant
use luaw.Prelude.{Bool, true, false, List, [], ◌∷◌, Option, none, some, if◌then◌else◌, not}
use mathlib.Core.Option
use luaw.Prelude.Int.{ℤ, pos, is_zero, is_nonpos}
use luaw.Lua.{
  Value, boolean, integer, text, strerror, format, userdata, Resume, resume_lua_thread,
  error_to_lua, incr_ref, decr_ref, gc_ref,
}
use luaw.Uv.{Uv, close_if_active}

pub data TimerState : Type 0 where
  init ticking elapsed : TimerState

-- `luaw_timer_s`; for its two pointers, whether they are set.
pub record Timer (H : Type 0) : Type 0 where
  pub handle : H
  pub handle_data : Bool
  pub state : TimerState
  pub lua_tid : ℤ
  pub ref_count : ℤ
  pub lua_ref : Bool

-- `udata` is whether Lua's userdata still points to the timer.
pub record World (H : Type 0) : Type 0 where
  pub udata : Bool
  pub timer : Option (Timer H)
  pub calls : List Resume

-- The new world and what is returned to Lua.
abbrev pub Outcome : Type 0 → Type 0
Outcome H = Option (World H × List Value)

abbrev pub is_init : TimerState → Bool
is_init init = true
is_init _ = false

abbrev pub is_ticking : TimerState → Bool
is_ticking ticking = true
is_ticking _ = false

abbrev is_elapsed : TimerState → Bool
is_elapsed elapsed = true
is_elapsed _ = false

-- `timer_state` as the number that "%d" prints.
abbrev state_code : TimerState → ℤ
state_code init = pos 0
state_code ticking = pos 1
state_code elapsed = pos 2

module _ {H : Type 0} where
  unfoldable pub clear_user_timer : Timer H → Timer H
  clear_user_timer t = record t { state = init; lua_tid = pos 0 }

  -- `LUA_GET_TIMER_OR_RETURN` and `LUA_GET_TIMER_OR_ERROR`: the userdata's pointer is followed if it
  -- is set, and `missing` is returned if not.
  abbrev pub with_timer : World H → List Value → (Timer H → World H × List Value) → Outcome H
  with_timer w missing k = if w.udata then Option.map k w.timer else some (w, missing)

  -- `GET_TIMER_OR_RETURN` on the handle, which is a part of the timer.
  abbrev pub on_handle : World H → (Timer H → World H) → Outcome H
  on_handle w k = Option.map (λ t. (if t.handle_data then k t else w, [])) w.timer

module _ (uv : Uv) where
  open uv use {Handle, timer_start, timer_start_rc, timer_stop, ecanceled}

  abbrev pub cancelled : ℤ → Resume
  cancelled tid = record { tid = tid; status = false; result = strerror ecanceled }

  abbrev pub has_elapsed : ℤ → Resume
  has_elapsed tid = record { tid = tid; status = true; result = boolean true }

  unfoldable pub free_user_timer : World Handle → Outcome Handle
  unfolding gc_ref
  free_user_timer w = on_handle w λ t. record w {
    timer = gc_ref (λ n. record t { handle_data = false; ref_count = n }) t.ref_count;
  }

  -- The waiting thread, if any, is told that the wait was cancelled.
  unfoldable pub unblock_waiter : Timer Handle → List Resume → Timer Handle × List Resume
  unfolding resume_lua_thread
  unblock_waiter t calls =
      if is_zero t.lua_tid
      then (t, calls)
      else (record t { lua_tid = pos 0 }, resume_lua_thread (cancelled t.lua_tid) calls)

  unfoldable pub close_timer : Timer Handle → World Handle → World Handle
  unfolding unblock_waiter
  close_timer t w =
      if t.lua_ref
      then (let (u, calls') =
            unblock_waiter (record t { lua_ref = false; ref_count = decr_ref t.ref_count })
              w.calls in
          record {
            udata = false;
            timer = some (record u { handle = close_if_active uv u.handle });
            calls = calls';
          })
      else w

  unfoldable pub close_timer_lua : World Handle → Outcome Handle
  unfolding close_timer
  close_timer_lua w = with_timer w [] λ t. (close_timer t w, [])

  unfoldable pub timer_gc : World Handle → Outcome Handle
  unfolding close_timer
  timer_gc w = with_timer w [] λ t. (close_timer t w, [])

  -- The timer after both allocations; `calloc` clears what is not set here.
  unfoldable pub new_user_timer : List Resume → World Handle
  unfolding clear_user_timer
  new_user_timer calls = record {
    udata = true;
    timer = some (
        clear_user_timer (record {
          handle = uv.fresh;
          handle_data = true;
          state = init;
          lua_tid = pos 0;
          ref_count = incr_ref (incr_ref (pos 0));
          lua_ref = true;
        }));
    calls = calls;
  }

  unfoldable pub on_user_timer_timeout : World Handle → Outcome Handle
  unfolding clear_user_timer resume_lua_thread
  on_user_timer_timeout w = on_handle w λ t.
      if is_zero t.lua_tid
      then record w { timer = some (record t { state = elapsed }) }
      else record w {
        timer = some (clear_user_timer t);
        calls = resume_lua_thread (has_elapsed t.lua_tid) w.calls;
      }

  unfoldable pub start_user_timer : ℤ → World Handle → Outcome Handle
  unfolding close_timer error_to_lua
  start_user_timer timeout w = with_timer w (error_to_lua (text "Timer closed")) λ t.
      if not (is_init t.state)
      then (w, error_to_lua (text "Timer already in use by another thread"))
      else if is_nonpos timeout
      then (w, error_to_lua (format "Invalid timeout value %d specified" (integer timeout)))
      else let rc = timer_start_rc t.handle timeout in
        let t' = record t { handle = timer_start t.handle timeout } in
        if is_zero rc
        then (record w { timer = some (record t' { state = ticking }) }, boolean true ∷ [])
        else (
          close_timer t' (record w { timer = some t' }),
          error_to_lua (format "Error starting timer: %s" (strerror rc)),
        )

  unfoldable pub wait_user_timer : ℤ → World Handle → Outcome Handle
  unfolding clear_user_timer error_to_lua
  wait_user_timer tid w = with_timer w (error_to_lua (text "Timer closed")) λ t.
      if is_elapsed t.state
      then (record w { timer = some (clear_user_timer t) }, boolean true ∷ boolean true ∷ [])
      else if not (is_ticking t.state)
      then (
        w,
        error_to_lua (
            format "Attempt to wait on timer that is not started, timer state: %d"
              (integer (state_code t.state))),
      )
      else if not (is_zero t.lua_tid)
      then (w, error_to_lua (format "Timer already is in use by thread %d" (integer t.lua_tid)))
      else if is_nonpos tid
      then (w, error_to_lua (format "Invalid thread id %d specified" (integer tid)))
      else (
        record w { timer = some (record t { lua_tid = tid }) },
        boolean true ∷ boolean false ∷ [],
      )

  -- The waiter is resumed before the timer is cleared.
  unfoldable pub stop_user_timer : World Handle → Outcome Handle
  unfolding clear_user_timer resume_lua_thread error_to_lua
  stop_user_timer w = with_timer w (error_to_lua (text "Timer closed")) λ t.
      if is_ticking t.state
      then (
        record w {
          timer = some (let u = clear_user_timer t in record u { handle = timer_stop u.handle });
          calls =
              if is_zero t.lua_tid
              then w.calls
              else resume_lua_thread (cancelled t.lua_tid) w.calls;
        },
        [],
      )
      else (w, [])
