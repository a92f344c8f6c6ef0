-- ===== src/Timer/Reentrant/Stop.antt =====
-- `stop_user_timer` of src/luaw_timer.c, which resumes the waiting thread before it clears the thread's
-- id, when that thread deletes the timer.
use luaw.Prelude.{◌≡◌, refl, true, false, ◌∷◌, some, arith}
use mathlib.Core.Option
use luaw.Prelude.Int.{pos, is_zero}
use luaw.Lua.{decr_ref}
use luaw.Lua.Script.{Calls, done, call, nested, finish}
use luaw.Uv.{Uv}
use luaw.Timer.{Timer, World, ticking, cancelled}
use luaw.Timer.Run.{System}
use luaw.Timer.Reentrant.{
  Method, put, perform, make_calls, script, stop_script, delete_script, close_script, close_handle,
  clear_and_stop, resume,
}
use luaw.Timer.Reentrant.Preserve.{make_calls-delinked}

module _ (uv : Uv) where
  open uv use {Handle}

  abbrev delinked : Timer Handle → World Handle → World Handle
  delinked t w = record {
    udata = false;
    timer = some (record t { lua_ref = false; ref_count = decr_ref t.ref_count; lua_tid = pos 0 });
    calls = cancelled uv t.lua_tid ∷ cancelled uv t.lua_tid ∷ w.calls;
  }

  -- A thread waits for a timer, the timer is stopped, and inside the stop the thread that it resumes
  -- deletes the timer. Whatever runs inside the deletion, the stop resumes the thread twice.
  pub stop-delete :
      (inner : Calls Method) (s : System Handle) (t : Timer Handle)
      → s.world.udata ≡ true
      → s.world.timer ≡ some t
      → t.lua_ref ≡ true
      → t.state ≡ ticking
      → is_zero t.lua_tid ≡ false
      → Option.map
          (λ u. u.world.calls)
          (make_calls uv (call Method.stop (call Method.delete inner done done) done done) s)
        ≡ some (cancelled uv t.lua_tid ∷ cancelled uv t.lua_tid ∷ s.world.calls)
  unfolding nested perform finish script stop_script delete_script close_script close_handle
      clear_and_stop resume
  stop-delete inner s t h p l k z =
      ground (arith, make_calls-delinked uv inner (put uv (delinked t s.world) s) refl)
