-- ===== src/Tcp/Reentrant/Callbacks.antt =====
-- The callbacks of src/luaw_tcp.c with calls inside them, against the callbacks alone; those of `on_write`
-- for a write that succeeded stand in Writer.
use luaw.Prelude.{
  ℕ, ◌≡◌, refl, Bool, true, false, List, [], Option, none, some, arith, not, ◌&&◌, ◌||◌,
}
use mathlib.Core.Option
use luaw.Prelude.Int.{ℤ, is_zero, is_nonpos, eqb}
use luaw.Lua.{Value}
use luaw.Lua.Script.{meanwhile, finish}
use luaw.Uv.{Uv}
use luaw.Tcp.{
  Connection, Outcome, release, closing, close_connection, stop_timer, on_read_timeout,
  on_write_timeout,
}
use luaw.Tcp.Read.{on_read}
use luaw.Tcp.Write.{on_write, write_failed}
use luaw.Tcp.Connect.{on_client_connect, connect_done, connect_failed, closing_resumes}
use luaw.Tcp.Run.{System}
use luaw.Tcp.Reentrant.{Callback, resume, returning, releasing}
use luaw.Tcp.Reentrant.Turns.{
  put, finishing, on_read_script, on_write_script, on_client_connect_script, connect_failing,
  callback_script,
}
use luaw.Tcp.Reentrant.Atomic.{Idle, ends, close-atomic}

module _ (uv : Uv) where
  open uv use {Handle}

  -- Whether a callback resumes a thread from which Lua still reaches the connection.
  abbrev pub resumes : Callback → Option (Connection Handle) → Bool
  resumes (Callback.has_read n b) (some t) =
      t.handle_data
      && not (is_zero n || eqb n uv.enobufs)
      && not (is_nonpos n)
      && not (is_zero t.lua_reader_tid)
  resumes (Callback.has_written n) (some t) =
      is_zero n && t.write_req_data && not (is_zero t.lua_writer_tid)
  resumes (Callback.has_connected n) (some t) = is_zero n && not (is_zero t.lua_writer_tid)
  resumes _ _ = false

  -- The end of a callback that resumes a thread last, or not.
  abbrev pub goes_on :
      (System Handle → Option (System Handle))
      → Bool
      → System Handle
      → Outcome Handle
      → Option (System Handle × List Value)
  goes_on f false s o = ends uv s o
  goes_on f true s none = none
  goes_on f true s (some (w, r)) = Option.map (λ t. (t, [])) (f (put uv w s))

  module _ (f g : System Handle → Option (System Handle)) (f_idle : Idle uv f)
      (g_idle : Idle uv g) where
    pub on_read-last :
        (n : ℤ) (b : List ℕ) (c : Option (Connection Handle)) (s : System Handle)
        → s.world.conn ≡ c
        → finishing uv (meanwhile f g) (on_read_script uv n b s.world) s
          ≡ goes_on f (resumes (Callback.has_read n b) c) s (on_read uv n b s.world)
    unfolding on_read_script on_read resume finish
    on_read-last n b none s p = ground arith
    on_read-last n b (some t) s p =
        let u = record t { read_timer = stop_timer uv t.read_timer } in
        ground (
          arith,
          close-atomic uv f g f_idle g_idle n (returning []) u s.world.env
              (closing uv n u s.world.env) [] s refl,
        )

    pub connect-last :
        (n : ℤ) (c : Option (Connection Handle)) (s : System Handle)
        → s.world.conn ≡ c
        → ((t : Connection Handle)
            → c ≡ some t
            → is_zero t.lua_writer_tid ≡ false
            → t.lua_ref ≡ true)
        → finishing uv (meanwhile f g) (on_client_connect_script uv n s.world) s
          ≡ goes_on f (resumes (Callback.has_connected n) c) s (on_client_connect uv n s.world)
    unfolding on_client_connect_script on_client_connect connect_done connect_failed connect_failing
        resume finish
    connect-last n none s p h = ground arith
    connect-last n (some t) s p h =
        let u = record t { write_timer = stop_timer uv t.write_timer } in
        ground (
          arith,
          h t refl,
          close-atomic uv f g f_idle g_idle n
              (connect_failing uv n t.lua_writer_tid (closing_resumes uv u)) u s.world.env
              (closing uv n u s.world.env) [] s,
        )

    pub timeout-last :
        (c : Option (Connection Handle)) (s : System Handle)
        → s.world.conn ≡ c
        → (finishing uv (meanwhile f g) (callback_script uv Callback.read_timeout s.world) s
            ≡ ends uv s (on_read_timeout uv s.world))
          × (finishing uv (meanwhile f g) (callback_script uv Callback.write_timeout s.world) s
              ≡ ends uv s (on_write_timeout uv s.world))
    unfolding callback_script on_read_timeout on_write_timeout finish
    timeout-last none s p = ground arith
    timeout-last (some t) s p = ground (
      arith,
      close-atomic uv f g f_idle g_idle uv.ecanceled (returning []) t s.world.env
          (closing uv uv.ecanceled t s.world.env) [] s refl,
    )

    pub write_failed-last :
        (n : ℤ) (c : Option (Connection Handle)) (s : System Handle)
        → s.world.conn ≡ c
        → is_zero n ≡ false
        → finishing uv (meanwhile f g) (on_write_script uv n s.world) s
          ≡ ends uv s (on_write uv n s.world)
    unfolding on_write_script on_write write_failed releasing finish
    write_failed-last n none s p h = ground arith
    write_failed-last n (some t) s p h =
        let u = record t { write_req_data = false } in
        let (v, e) = close_connection uv n u s.world.env in
        ground (
          arith,
          close-atomic uv f g f_idle g_idle n releasing u s.world.env (release v e) [] s refl,
        )
