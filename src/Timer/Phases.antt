-- ===== src/Timer/Phases.antt =====
-- What a user timer of src/luaw_timer.c promises, without handles, references and callbacks: a machine of
-- four phases, which the operations implement.
use luaw.Prelude.{
  ◌≡◌, refl, Bool, true, false, List, [], ◌∷◌, ◌++◌, Option, none, some, if◌then◌else◌, not, ◌&&◌,
  arith,
}
use luaw.Prelude.Int.{ℤ, pos, is_zero, is_nonpos}
use luaw.Lua.{Resume}
use luaw.Uv.{Uv}
use luaw.Timer.{
  Timer, TimerState, World, Outcome, start_user_timer, wait_user_timer, stop_user_timer,
  close_timer_lua, on_user_timer_timeout, free_user_timer, timer_gc, cancelled, has_elapsed,
}
use luaw.Timer.Run.{Event, execute, is_enabled, handle_closing}
use luaw.Timer.Safety.{TimerInv}

-- A timer that ticks has the thread that waits for it, 0 for none.
pub data Phase : Type 0 where
  idle elapsed deleted : Phase
  ticking : ℤ → Phase

module _ (uv : Uv) where
  open uv use {Handle, timer_start_rc}

  -- A thread is resumed unless it is 0.
  abbrev pub told : Resume → List Resume
  told r = if is_zero r.tid then [] else r ∷ []

  -- The next phase with the thread that is resumed, if any; `fits` is whether libuv starts the timer.
  unfoldable pub move : Bool → Event → Phase → Phase × List Resume
  move fits (Event.start n) idle =
      if is_nonpos n then (idle, []) else (if fits then ticking (pos 0) else deleted, [])
  move fits (Event.start n) p = (p, [])
  move fits (Event.wait tid) elapsed = (idle, [])
  move fits (Event.wait tid) (ticking waiter) =
      (if is_zero waiter && not (is_nonpos tid) then ticking tid else ticking waiter, [])
  move fits (Event.wait tid) p = (p, [])
  move fits Event.stop (ticking waiter) = (idle, told (cancelled uv waiter))
  move fits Event.stop p = (p, [])
  move fits Event.delete (ticking waiter) = (deleted, told (cancelled uv waiter))
  move fits Event.delete p = (deleted, [])
  move fits Event.gc (ticking waiter) = (deleted, told (cancelled uv waiter))
  move fits Event.gc p = (deleted, [])
  move fits Event.timeout (ticking waiter) =
      (if is_zero waiter then elapsed else idle, told (has_elapsed uv waiter))
  move fits Event.timeout deleted = (deleted, [])
  move fits Event.timeout p = (elapsed, [])
  move fits Event.closed p = (p, [])

  -- A run of the machine, with the threads resumed so far, newest first.
  unfoldable pub moves : List Bool → List Event → Phase × List Resume → Phase × List Resume
  moves [] es x = x
  moves (b ∷ bs) [] x = x
  moves (b ∷ bs) (e ∷ es) x = let (q, calls) = move b e x.0 in moves bs es (q, calls ++ x.1)

  -- The phase that a timer is in.
  abbrev timer_phase : Timer Handle → Phase
  timer_phase t = elim t.state [
    | TimerState.init ↦ idle
    | TimerState.ticking ↦ ticking t.lua_tid
    | TimerState.elapsed ↦ elapsed
  ]

  abbrev phase_of : Bool → Option (Timer Handle) → Phase
  phase_of false t = deleted
  phase_of true none = deleted
  phase_of true (some t) = timer_phase t

  abbrev pub phase : World Handle → Phase
  phase w = phase_of w.udata w.timer

  -- An outcome that is the machine's.
  abbrev pub Moves : Bool → Event → World Handle → Outcome Handle → Type 0
  Moves b e w none = Unit {0}
  Moves b e w (some (w', r)) =
      (phase w' ≡ (move b e (phase w)).0) × (w'.calls ≡ (move b e (phase w)).1 ++ w.calls)

  -- Whether libuv would start the timer now.
  abbrev pub fits : Option (Timer Handle) → Event → Bool
  fits none e = true
  fits (some t) (Event.start n) = is_zero (timer_start_rc t.handle n)
  fits (some t) _ = true

  module _ (c : Bool) (calls : List Resume) where
    abbrev at : Bool → Option (Timer Handle) → World Handle
    at u t = record { udata = u; timer = t; calls = calls }

    start-Moves :
        (n : ℤ) (u : Bool) (t : Timer Handle)
        → TimerInv uv u c (some t)
        → Moves
            (is_zero (timer_start_rc t.handle n))
            (Event.start n)
            (at u (some t))
            (start_user_timer uv n (at u (some t)))
    unfolding start_user_timer move
    start-Moves n false t v = ground arith
    start-Moves n true t v = ground arith

    wait-Moves :
        (n : ℤ) (u : Bool) (t : Timer Handle)
        → TimerInv uv u c (some t)
        → Moves true (Event.wait n) (at u (some t)) (wait_user_timer uv n (at u (some t)))
    unfolding wait_user_timer move
    wait-Moves n false t v = ground arith
    wait-Moves n true t v = ground arith

    stop-Moves :
        (u : Bool) (t : Timer Handle)
        → TimerInv uv u c (some t)
        → Moves true Event.stop (at u (some t)) (stop_user_timer uv (at u (some t)))
    unfolding stop_user_timer move
    stop-Moves false t v = ground arith
    stop-Moves true t v = ground arith

    delete-Moves :
        (u : Bool) (t : Timer Handle)
        → TimerInv uv u c (some t)
        → Moves true Event.delete (at u (some t)) (close_timer_lua uv (at u (some t)))
    unfolding close_timer_lua move
    delete-Moves false t v = ground arith
    delete-Moves true t v = ground arith

    timeout-Moves :
        (u : Bool) (t : Timer Handle)
        → TimerInv uv u c (some t)
        → Moves true Event.timeout (at u (some t)) (on_user_timer_timeout uv (at u (some t)))
    unfolding on_user_timer_timeout move
    timeout-Moves false t v = ground arith
    timeout-Moves true t v = ground arith

    closed-Moves :
        (u : Bool) (t : Timer Handle)
        → TimerInv uv u c (some t)
        → handle_closing uv (some t) ≡ true
        → Moves true Event.closed (at u (some t)) (free_user_timer uv (at u (some t)))
    unfolding free_user_timer move
    closed-Moves false t v h = ground arith
    closed-Moves true t v h = ground arith

    -- A timer that is freed has been deleted, and stays so.
    freed-Moves : (e : Event) → Moves true e (at false none) (execute uv e (at false none))
    unfolding execute move start_user_timer wait_user_timer stop_user_timer close_timer_lua timer_gc
        on_user_timer_timeout free_user_timer
    freed-Moves (Event.start n) = (refl, refl)
    freed-Moves (Event.wait n) = (refl, refl)
    freed-Moves _ = ground arith

    pub at-Moves :
        (e : Event) (b : List ℤ) (u : Bool) (o : Option (Timer Handle))
        → TimerInv uv u c o
        → is_enabled uv e (record { world = at u o; is_closed = c; blocked = b }) ≡ true
        → Moves (fits o e) e (at u o) (execute uv e (at u o))
    unfolding execute
    at-Moves e b true none v h = absurd (cc)
    at-Moves e b false none v h = freed-Moves e
    at-Moves (Event.start n) b u (some t) v h = start-Moves n u t v
    at-Moves (Event.wait n) b u (some t) v h = wait-Moves n u t v
    at-Moves Event.stop b u (some t) v h = stop-Moves u t v
    at-Moves Event.delete b u (some t) v h = delete-Moves u t v
    at-Moves Event.gc b u (some t) v h = unfold timer_gc close_timer_lua move in delete-Moves u t v
    at-Moves Event.timeout b u (some t) v h = timeout-Moves u t v
    at-Moves Event.closed b u (some t) v h = closed-Moves u t v (ground arith)
