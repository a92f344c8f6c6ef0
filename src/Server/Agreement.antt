-- ===== src/Server/Agreement.antt =====
-- The operations on the stack in Server.Stack make the calls that the callbacks of src/luaw_tcp.c and
-- src/luaw_timer.c record in Tcp and Timer.
use luaw.Prelude.{ℕ, ◌+◌, ◌≡◌, Bool, List, [], ◌∷◌, none, some, length, false, arith}
use luaw.Prelude.Int.{ℤ}
use luaw.Uv.{Uv}
use luaw.Lua.{Resume, resume_lua_thread}
use luaw.Tcp.{
  Connection, Env, Outcome, kept, close_connection, release, on_read_timeout, on_write_timeout,
}
use luaw.Tcp.Read.{on_read}
use luaw.Tcp.Write.{on_write, write_finished, write_failed}
use luaw.Tcp.Connect.{on_client_connect, connect_done, connect_failed}
use luaw.Timer as Timer
use luaw.Server.Stack.{StackOp, pushes, pops, calls, emptied, LoopCallback, stack_ops}

abbrev pub calls_made : List StackOp → ℕ
calls_made [] = 0
calls_made (calls nargs nresults ok ∷ os) = 1 + calls_made os
calls_made (pushes k ∷ os) = calls_made os
calls_made (pops k ∷ os) = calls_made os
calls_made (emptied ∷ os) = calls_made os

module _ (uv : Uv) where
  open uv use {Handle}

  -- The calls of the scheduler after a callback, if it reads no freed connection.
  abbrev pub Makes : Env → Outcome Handle → List StackOp → Type 0
  Makes e none os = ⊥
  Makes e (some (w, r)) os = length w.env.calls ≡ length e.calls + calls_made os

  on_read-Makes :
      (nread : ℤ) (buffer : List ℕ) (t : Connection Handle) (e : Env) (a b : Bool)
      → Makes e
          (on_read uv nread buffer (kept t e))
          (stack_ops uv (LoopCallback.at_read nread t a b))
  unfolding on_read stack_ops close_connection resume_lua_thread
  on_read-Makes nread buffer t e a b = ground arith

  on_write-Makes :
      (status : ℤ) (t : Connection Handle) (e : Env) (a b : Bool)
      → Makes e (on_write uv status (kept t e)) (stack_ops uv (LoopCallback.at_write status t a b))
  unfolding on_write write_finished write_failed release stack_ops close_connection
      resume_lua_thread
  on_write-Makes status t e a b = ground arith

  on_client_connect-Makes :
      (status : ℤ) (t : Connection Handle) (e : Env) (a b : Bool)
      → Makes e
          (on_client_connect uv status (kept t e))
          (stack_ops uv (LoopCallback.at_connect status t a b false))
  unfolding on_client_connect connect_done connect_failed stack_ops close_connection
      resume_lua_thread
  on_client_connect-Makes status t e a b = ground arith

  timeouts-Make :
      (t : Connection Handle) (e : Env) (a b : Bool)
      → Makes e (on_read_timeout uv (kept t e)) (stack_ops uv (LoopCallback.at_read_timeout t a b))
        × Makes e
            (on_write_timeout uv (kept t e))
            (stack_ops uv (LoopCallback.at_write_timeout t a b))
  unfolding on_read_timeout on_write_timeout stack_ops close_connection resume_lua_thread
  timeouts-Make t e a b = (ground arith, ground arith)

  abbrev pub TimerMakes : List Resume → Timer.Outcome Handle → List StackOp → Type 0
  TimerMakes before none os = ⊥
  TimerMakes before (some (w, r)) os = length w.calls ≡ length before + calls_made os

  user_timer-Makes :
      (t : Timer.Timer Handle) (udata : Bool) (before : List Resume) (a : Bool)
      → TimerMakes before
          (Timer.on_user_timer_timeout uv
            (record { udata = udata; timer = some t; calls = before }))
          (stack_ops uv (LoopCallback.at_user_timer t a))
  unfolding Timer.on_user_timer_timeout stack_ops resume_lua_thread
  user_timer-Makes t udata before a = ground arith
