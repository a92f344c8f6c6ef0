-- ===== src/Timer/Reentrant/Atomic.antt =====
-- The methods of src/luaw_timer.c with calls inside them, against the methods alone.
use luaw.Prelude.{◌≡◌, refl, Bool, true, false, List, [], ◌∷◌, Option, none, some, arith}
use luaw.Prelude.Int.{ℤ, pos}
use luaw.Lua.{Value, decr_ref, error_to_lua, format, strerror}
use luaw.Lua.Script.{meanwhile, finish}
use luaw.Uv.{Uv}
use luaw.Timer.{
  Timer, World, Outcome, wait_user_timer, start_user_timer, close_timer_lua, timer_gc,
  stop_user_timer, close_timer, cancelled, clear_user_timer,
}
use luaw.Timer.Run.{System, execute, step}
use luaw.Timer.Reentrant.{
  Method, of_outcome, as_event, script, put, perform, finishing, close_script, close_handle,
  start_script, stop_script, delete_script, resume, clear_and_stop,
}

-- Whether the method resumes a thread before it has done all of its work.
abbrev pub is_stop : Method → Bool
is_stop Method.stop = true
is_stop _ = false

module _ (uv : Uv) where
  open uv use {Handle}

  abbrev pub Idle : (System Handle → Option (System Handle)) → Type 0
  Idle f = (s : System Handle) → s.world.udata ≡ false → f s ≡ some s

  module _ (f g : System Handle → Option (System Handle)) (idle : Idle f) where
    -- The outcome of an operation without calls inside it, as the end of its script.
    abbrev ends : System Handle → Outcome Handle → Option (System Handle × List Value)
    ends s none = none
    ends s (some (w, r)) = some (put uv w s, r)

    -- The world in which `close_timer` resumes the waiter.
    abbrev delinked : Timer Handle → World Handle → World Handle
    delinked t w = record {
      udata = false;
      timer =
          some (record t { lua_ref = false; ref_count = decr_ref t.ref_count; lua_tid = pos 0 });
      calls = cancelled uv t.lua_tid ∷ w.calls;
    }

    close-serial :
        (r : List Value) (w : World Handle) (t : Timer Handle) (s : System Handle)
        → w.timer ≡ some t
        → finishing uv (meanwhile f g) (close_script uv r w) s
          ≡ some (put uv (close_timer uv t w) s, r)
    unfolding close_script close_handle close_timer resume finish
    close-serial r w t s p = ground (arith, idle (put uv (delinked t w) s) refl)

    start-serial :
        (n : ℤ) (t : Option (Timer Handle)) (s : System Handle)
        → s.world.timer ≡ t
        → finishing uv (meanwhile f g) (start_script uv n s.world) s
          ≡ ends s (start_user_timer uv n s.world)
    unfolding start_script start_user_timer finish
    start-serial n none s p = ground arith
    start-serial n (some t) s p =
        let u = record t { handle = uv.timer_start t.handle n } in
        let e =
          error_to_lua
            (format "Error starting timer: %s" (strerror (uv.timer_start_rc t.handle n))) in
        ground (arith, close-serial e (record s.world { timer = some u }) u s refl)

    delete-serial :
        (t : Option (Timer Handle)) (s : System Handle)
        → s.world.timer ≡ t
        → finishing uv (meanwhile f g) (delete_script uv s.world) s
          ≡ ends s (close_timer_lua uv s.world)
    unfolding delete_script close_timer_lua finish
    delete-serial none s p = ground arith
    delete-serial (some t) s p = ground (arith, close-serial [] s.world t s p)

    -- A stop of a waited-on timer, if the thread that it resumes does nothing.
    stop-serial :
        ((s : System Handle) → f s ≡ some s)
        → (t : Option (Timer Handle)) (s : System Handle) → s.world.timer ≡ t
        → finishing uv (meanwhile f g) (stop_script uv s.world) s
          ≡ ends s (stop_user_timer uv s.world)
    unfolding stop_script stop_user_timer clear_and_stop clear_user_timer resume finish
    stop-serial still none s p = ground arith
    stop-serial still (some t) s p = ground (
      arith,
      still (put uv (record s.world { calls = cancelled uv t.lua_tid ∷ s.world.calls }) s),
    )

    wait-serial :
        (o : Outcome Handle) (s : System Handle)
        → finishing uv (meanwhile f g) (of_outcome o) s ≡ ends s o
    unfolding finish
    wait-serial none s = refl
    wait-serial (some (w, r)) s = refl

    script-serial :
        (m : Method) (s : System Handle)
        → (is_stop m ≡ true → (s : System Handle) → f s ≡ some s)
        → finishing uv (meanwhile f g) (script uv m s.world) s
          ≡ ends s (execute uv (as_event m) s.world)
    unfolding script execute timer_gc close_timer_lua
    script-serial (Method.start n) s still = start-serial n s.world.timer s refl
    script-serial (Method.wait n) s still = wait-serial (wait_user_timer uv n s.world) s
    script-serial Method.stop s still = stop-serial (still refl) s.world.timer s refl
    script-serial Method.delete s still = delete-serial s.world.timer s refl
    script-serial Method.gc s still = delete-serial s.world.timer s refl

    pub perform-serial :
        (m : Method) (s : System Handle)
        → (is_stop m ≡ true → (s : System Handle) → f s ≡ some s)
        → perform uv m (meanwhile f g) s ≡ step uv (as_event m) s
    unfolding perform step
    perform-serial (Method.start n) s still = ground (arith, script-serial (Method.start n) s still)
    perform-serial (Method.wait n) s still = ground (arith, script-serial (Method.wait n) s still)
    perform-serial Method.stop s still = ground (arith, script-serial Method.stop s still)
    perform-serial Method.delete s still = ground (arith, script-serial Method.delete s still)
    perform-serial Method.gc s still = ground (arith, script-serial Method.gc s still)
