-- ===== src/Tcp/Reentrant.antt =====
-- src/luaw_tcp.c with threads that run inside the C functions which resume them: the functions as far
-- as each call of `resume_lua_thread`, and histories in which a resumed thread calls the connection's
-- methods before the C function goes on. Where a function resumes no thread it is that of the parent.
pub mod Turns
pub mod Atomic
pub mod Held
pub mod Callbacks
pub mod Nested
pub mod Writer
pub mod Alone
pub mod Flat
pub mod Serial
use luaw.Prelude.{
  ℕ, ◌+◌, Bool, true, false, List, [], ◌∷◌, Option, none, some, if◌then◌else◌, not, ◌&&◌, ◌||◌,
  take, ltb, length,
}
use mathlib.Core.Option
use luaw.Prelude.Int.{ℤ, pos, is_zero, is_nonpos, eqb, pos_part}
use luaw.Lua.{Value, nil, boolean, integer, bytes, text, strerror, Resume, error_to_lua, decr_ref}
use luaw.Lua.Script.{Script, returned, resuming, fault, Calls, finish, nested}
use luaw.Uv.{Uv, close_if_active}
use luaw.Tcp.{
  Connection, Env, World, Outcome, kept, release, connection_closed, stop_timer, reader_result,
  writer_result, without_threads, free_read_timer, free_write_timer, free_tcp_handle,
}
use luaw.Tcp.Read.{start_reading, read_check}
use luaw.Tcp.Write.{write_buffer}
use luaw.Tcp.Connect.{closing_resumes}
use luaw.Tcp.Run.{System, Event, is_enabled, pending_after, in_flight}

abbrev pub TcpScript : Type 0 → Type 0
TcpScript H = Script (World H) (List Value)

-- The methods of a connection, which Lua may call at any time.
pub data Method : Type 0 where
  start_read : Method
  reads : ℤ → ℤ → List ℕ → Method
  writes : ℤ → List ℕ → ℤ → Method
  close gc : Method

-- The callbacks, which libuv calls and no Lua thread.
pub data Callback : Type 0 where
  has_read : ℤ → List ℕ → Callback
  has_written has_connected : ℤ → Callback
  read_timeout write_timeout : Callback
  handle_closed read_timer_closed write_timer_closed : Callback

-- What happens to a connection, one after the other; a callback has the calls that are made by the
-- first and by the second thread that it resumes.
pub data Turn : Type 0 where
  calls : Calls Method → Turn
  callback : Callback → Calls Method → Calls Method → Turn

abbrev pub as_event : Method → Event
as_event Method.start_read = Event.start_read
as_event (Method.reads tid n b) = Event.reads tid n b
as_event (Method.writes tid b n) = Event.writes tid b n
as_event Method.close = Event.close
as_event Method.gc = Event.gc

abbrev pub event_of : Callback → Event
event_of (Callback.has_read n b) = Event.has_read n b
event_of (Callback.has_written n) = Event.has_written n
event_of (Callback.has_connected n) = Event.has_connected n
event_of Callback.read_timeout = Event.read_timeout
event_of Callback.write_timeout = Event.write_timeout
event_of Callback.handle_closed = Event.handle_closed
event_of Callback.read_timer_closed = Event.read_timer_closed
event_of Callback.write_timer_closed = Event.write_timer_closed

module _ {H : Type 0} where
  -- `lua_pcall` in `resume_lua_thread`, for a thread id other than 0.
  unfoldable pub resume : Resume → Connection H → Env → (World H → TcpScript H) → TcpScript H
  resume r t e k =
      if is_zero r.tid then k (kept t e) else resuming (kept t (record e { calls = r ∷ e.calls })) k

  -- The C pointer to the connection is followed.
  abbrev pub at_conn : World H → (Connection H → Env → TcpScript H) → TcpScript H
  at_conn w k = elim w.conn [ none ↦ fault | some t ↦ k t w.env ]

  -- `LUA_GET_CONN_OR_RETURN` and `LUA_GET_CONN_OR_ERROR`.
  abbrev pub by_userdata : World H → List Value → (Connection H → Env → TcpScript H) → TcpScript H
  by_userdata w missing k = if w.env.udata then at_conn w k else returned w missing

  -- `GET_CONN_OR_RETURN` on a part of the connection.
  abbrev pub by_part :
      World H → (Connection H → Bool) → (Connection H → Env → TcpScript H) → TcpScript H
  by_part w has_data k = at_conn w λ t e. if has_data t then k t e else returned w []

  abbrev pub of_outcome : Outcome H → TcpScript H
  of_outcome none = fault
  of_outcome (some (w, r)) = returned w r

  abbrev pub returning : List Value → World H → TcpScript H
  returning r w = returned w r

  -- `GC_REF(conn)` at the end of `on_write`.
  unfoldable pub releasing : World H → TcpScript H
  releasing w = at_conn w λ t e. returned (release t e) []

module _ (uv : Uv) where
  open uv use {
    Handle, is_active, timer_stop, read_start, read_start_rc, write, write_rc, ecanceled, eof,
    enobufs, eai_badflags,
  }

  unfoldable pub unblock_reader :
      ℤ → (World Handle → TcpScript Handle) → World Handle → TcpScript Handle
  unfolding resume
  unblock_reader status k w = at_conn w λ t e.
      if is_zero t.lua_reader_tid
      then k w
      else resume (reader_result uv t.lua_reader_tid status) (record t { lua_reader_tid = pos 0 }) e
          k

  unfoldable pub unblock_writer :
      ℤ → (World Handle → TcpScript Handle) → World Handle → TcpScript Handle
  unfolding resume
  unblock_writer status k w = at_conn w λ t e.
      if is_zero t.lua_writer_tid
      then k w
      else resume (writer_result uv t.lua_writer_tid status) (record t { lua_writer_tid = pos 0 }) e
          k

  -- `close_connection`, and what the caller does after it.
  unfoldable pub close_script :
      ℤ → (World Handle → TcpScript Handle) → Connection Handle → Env → TcpScript Handle
  unfolding unblock_reader unblock_writer
  close_script status k t e =
      if t.lua_ref
      then unblock_reader status (unblock_writer status k) (
          kept
            (record t {
              lua_ref = false;
              ref_count = decr_ref t.ref_count;
              read_timer = close_if_active uv (timer_stop t.read_timer);
              write_timer = close_if_active uv (timer_stop t.write_timer);
              handle = close_if_active uv t.handle;
            })
            (record e { udata = false }))
      else k (kept t e)

  unfoldable pub start_reading_script : World Handle → TcpScript Handle
  start_reading_script w = by_userdata w connection_closed λ t e.
      let rc = read_start_rc t.handle in
      if is_zero rc
      then of_outcome (start_reading uv w)
      else close_script rc (returning (boolean false ∷ strerror rc ∷ []))
          (record t { lua_reader_tid = pos 0; handle = read_start t.handle }) e

  unfoldable pub read_check_script : ℤ → ℤ → List ℕ → World Handle → TcpScript Handle
  unfolding error_to_lua
  read_check_script tid timeout buffer w = by_userdata w connection_closed λ t e.
      if is_active t.handle
      then of_outcome (read_check uv tid timeout buffer w)
      else close_script eai_badflags
          (returning (
            error_to_lua
              (text "read() called on conn that is not registered to receive read events")))
          t e

  unfoldable pub write_script : ℤ → List ℕ → ℤ → World Handle → TcpScript Handle
  write_script tid buff timeout w = by_userdata w connection_closed λ t e.
      let rc = write_rc t.handle buff in
      if is_zero tid || not (ltb 0 (length buff)) || is_zero rc
      then of_outcome (write_buffer uv tid buff timeout w)
      else close_script rc (returning (boolean false ∷ strerror rc ∷ []))
          (record t { handle = write t.handle buff }) e

  unfoldable pub script : Method → World Handle → TcpScript Handle
  script Method.start_read w = start_reading_script w
  script (Method.reads tid n b) w = read_check_script tid n b w
  script (Method.writes tid b n) w = write_script tid b n w
  script Method.close w =
      by_userdata w [] λ t. close_script eof (returning []) (without_threads uv t)
  script Method.gc w =
      by_userdata w [] λ t. close_script ecanceled (returning []) (without_threads uv t)
