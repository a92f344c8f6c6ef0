-- ===== src/Tcp/Reentrant/Turns.antt =====
-- src/luaw_tcp.c: libuv's callbacks as far as each call of `resume_lua_thread`, and histories of calls
-- and callbacks with the calls that resumed threads make inside them.
use luaw.Prelude.{
  ℕ, ◌+◌, Bool, true, false, List, [], ◌∷◌, Option, none, some, if◌then◌else◌, not, ◌||◌, take,
}
use mathlib.Core.Option
use luaw.Prelude.Int.{ℤ, pos, is_zero, is_nonpos, eqb, pos_part}
use luaw.Lua.{Value, nil, integer, bytes, strerror}
use luaw.Lua.Script.{returned, Calls, finish, nested, meanwhile}
use luaw.Uv.{Uv}
use luaw.Tcp.{World, kept, stop_timer, free_read_timer, free_write_timer, free_tcp_handle}
use luaw.Tcp.Connect.{closing_resumes}
use luaw.Tcp.Run.{System, is_enabled, pending_after, in_flight}
use luaw.Tcp.Reentrant.{
  TcpScript, Method, Callback, Turn, as_event, event_of, resume, at_conn, by_part, of_outcome,
  returning, releasing, close_script, script,
}

module _ (uv : Uv) where
  open uv use {Handle, ecanceled, enobufs}

  unfoldable pub on_read_script : ℤ → List ℕ → World Handle → TcpScript Handle
  unfolding resume
  on_read_script nread buffer w =
      by_part w (λ t. t.handle_data)
        λ t e.
          let t' = record t { read_timer = stop_timer uv t.read_timer } in
          if is_zero nread || eqb nread enobufs
          then returned (kept t' e) []
          else if not (is_nonpos nread)
          then resume
              (record {
                tid = t.lua_reader_tid;
                status = true;
                result = bytes (take (t.read_len + pos_part nread) buffer);
              })
              (record t' { lua_reader_tid = pos 0; read_len = 0 }) e (returning [])
          else close_script uv nread (returning []) t' e

  -- The reference that the write request holds is given back after the resumed threads have run.
  unfoldable pub on_write_script : ℤ → World Handle → TcpScript Handle
  unfolding resume
  on_write_script status w =
      by_part w (λ t. t.write_req_data)
        λ t e.
          let t' = record t { write_req_data = false } in
          if is_zero status
          then resume (record { tid = t.lua_writer_tid; status = true; result = integer (pos 1) })
              (record t' { write_timer = stop_timer uv t.write_timer; lua_writer_tid = pos 0 }) e
              releasing
          else close_script uv status releasing t' e

  -- As in `connect_failed`: no scheduler call follows a closing that resumed a thread.
  unfoldable pub connect_failing : ℤ → ℤ → Bool → World Handle → TcpScript Handle
  unfolding resume
  connect_failing status tid closing_resumed w =
      if closing_resumed
      then returned w []
      else at_conn w λ t e.
        resume (record { tid = tid; status = false; result = strerror status }) t e (returning [])

  unfoldable pub on_client_connect_script : ℤ → World Handle → TcpScript Handle
  unfolding resume
  on_client_connect_script status w = at_conn w λ t e.
      let t' = record t { write_timer = stop_timer uv t.write_timer } in
      if is_zero status
      then resume (record { tid = t.lua_writer_tid; status = true; result = nil }) t' e
          (returning [])
      else close_script uv status (connect_failing status t.lua_writer_tid (closing_resumes uv t'))
          t' e

  unfoldable pub callback_script : Callback → World Handle → TcpScript Handle
  callback_script (Callback.has_read n b) w = on_read_script n b w
  callback_script (Callback.has_written n) w = on_write_script n w
  callback_script (Callback.has_connected n) w = on_client_connect_script n w
  callback_script Callback.read_timeout w =
      by_part w (λ t. t.read_timer_data) (close_script uv ecanceled (returning []))
  callback_script Callback.write_timeout w =
      by_part w (λ t. t.write_timer_data) (close_script uv ecanceled (returning []))
  callback_script Callback.handle_closed w = of_outcome (free_tcp_handle uv w)
  callback_script Callback.read_timer_closed w = of_outcome (free_read_timer uv w)
  callback_script Callback.write_timer_closed w = of_outcome (free_write_timer uv w)

  abbrev pub put : World Handle → System Handle → System Handle
  put w s = record s { world = w }

  abbrev pub finishing :
      List (System Handle → Option (System Handle))
      → TcpScript Handle
      → System Handle
      → Option (System Handle × List Value)
  finishing = finish (λ s. s.world) put

  -- A method's call, with what the threads do that it resumes.
  unfoldable pub perform :
      Method
      → List (System Handle → Option (System Handle))
      → System Handle
      → Option (System Handle)
  perform m fs s = elim (finishing fs (script uv m s.world) s) [
    | none ↦ none
    | some (t, r) ↦ some (record t {
      pending = pending_after uv (as_event m) r (in_flight uv s.world.conn) t.pending;
    })
  ]

  abbrev pub make_calls : Calls Method → System Handle → Option (System Handle)
  make_calls = nested perform

  -- A callback is no longer due while it runs.
  unfoldable pub call_back :
      Callback
      → List (System Handle → Option (System Handle))
      → System Handle
      → Option (System Handle)
  call_back c fs s =
      if is_enabled uv (event_of c) s
      then Option.map (λ (t, _). t)
          (finishing fs (callback_script c s.world) (record s {
            pending = pending_after uv (event_of c) [] (in_flight uv s.world.conn) s.pending;
          }))
      else some s

  unfoldable pub turn : Turn → System Handle → Option (System Handle)
  turn (Turn.calls ks) s = make_calls ks s
  turn (Turn.callback c first second) s =
      call_back c (meanwhile (λ t. make_calls first t) (λ t. make_calls second t)) s

  unfoldable pub turns : List Turn → System Handle → Option (System Handle)
  turns [] s = some s
  turns (e ∷ es) s = elim (turn e s) [ none ↦ none | some t ↦ turns es t ]
