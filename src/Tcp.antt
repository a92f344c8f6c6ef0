-- ===== src/Tcp.antt =====
-- src/luaw_tcp.c and src/luaw_tcp.h: connections. This file has `connection_s`, its creation and the
-- ways to close it; reading, writing and connecting stand in child modules.
-- As for timers, a connection is `none` once it is freed, and reading it then is a fault.
pub mod Read
pub mod Write
pub mod Connect
pub mod Run
pub mod Invariant
pub mod Preserve
pub mod Safety
pub mod Delivery
pub mod Liveness
pub mod Replies
pub mod Stream
pub mod Accept
pub mod Origins
pub mod Dns
pub mod Reentrant
use luaw.Prelude.{
  ℕ, Bool, true, false, List, [], ◌∷◌, Option, none, some, if◌then◌else◌, not, ◌&&◌, ◌||◌,
}
use mathlib.Core.Option
use luaw.Prelude.Int.{ℤ, pos, is_zero, is_nonpos, eqb}
use luaw.Lua.{
  Value, boolean, integer, text, strerror, Resume, resume_lua_thread, error_to_lua, incr_ref,
  decr_ref, gc_ref,
}
use luaw.Uv.{Uv, close_if_active}

-- `CONN_BUFFER_SIZE`.
abbrev pub conn_buffer_size : ℕ
conn_buffer_size = 4096

-- `connection_s`; for the pointers back to the connection, whether they are set.
pub record Connection (H : Type 0) : Type 0 where
  pub handle : H
  pub handle_data : Bool
  pub lua_reader_tid : ℤ
  pub read_len : ℕ
  pub read_timer : H
  pub read_timer_data : Bool
  pub lua_writer_tid : ℤ
  pub write_timer : H
  pub write_timer_data : Bool
  pub write_req_data : Bool
  pub ref_count : ℤ
  pub lua_ref : Bool

-- What lives outside the connection: whether Lua's userdata still points to it, the calls of the
-- scheduler, and the buffers that `uv_write` took; both lists newest first.
pub record Env : Type 0 where
  pub udata : Bool
  pub calls : List Resume
  pub sent : List (List ℕ)

pub record World (H : Type 0) : Type 0 where
  pub conn : Option (Connection H)
  pub env : Env

-- The new world and what is returned to Lua.
abbrev pub Outcome : Type 0 → Type 0
Outcome H = Option (World H × List Value)

module _ {H : Type 0} where
  abbrev pub kept : Connection H → Env → World H
  kept t e = record { conn = some t; env = e }

  -- `GC_REF` on a connection, at the end of a callback.
  unfoldable pub release : Connection H → Env → World H
  unfolding gc_ref
  release t e = record { conn = gc_ref (λ n. record t { ref_count = n }) t.ref_count; env = e }

  -- `LUA_GET_CONN_OR_RETURN` and `LUA_GET_CONN_OR_ERROR`.
  abbrev pub with_conn :
      World H → List Value → (Connection H → Env → World H × List Value) → Outcome H
  with_conn w missing k =
      if w.env.udata then Option.map (λ t. k t w.env) w.conn else some (w, missing)

  -- `GET_CONN_OR_RETURN` on a part of the connection, with that part's pointer.
  abbrev pub on_part : World H → (Connection H → Bool) → (Connection H → Env → World H) → Outcome H
  on_part w has_data k = Option.map (λ t. (if has_data t then k t w.env else w, [])) w.conn

unfoldable pub connection_closed : List Value
unfolding error_to_lua
connection_closed = error_to_lua (text "Connection closed")

module _ (uv : Uv) where
  open uv use {Handle, is_active, timer_start, timer_stop, ecanceled, eof}

  unfoldable pub start_timer : Handle → ℤ → Handle
  start_timer h timeout =
      if not (is_nonpos timeout) && not (is_active h) then timer_start h timeout else h

  unfoldable pub stop_timer : Handle → Handle
  stop_timer h = if is_active h then timer_stop h else h

  -- A connection after its allocation; `calloc` clears what is not set here.
  unfoldable pub fresh_connection : Connection Handle
  fresh_connection = record {
    handle = uv.fresh;
    handle_data = true;
    lua_reader_tid = pos 0;
    read_len = 0;
    read_timer = uv.fresh;
    read_timer_data = true;
    lua_writer_tid = pos 0;
    write_timer = uv.fresh;
    write_timer_data = true;
    write_req_data = false;
    ref_count = incr_ref (incr_ref (incr_ref (incr_ref (pos 0))));
    lua_ref = true;
  }

  -- The connection with the userdata that points to it.
  unfoldable pub new_connection : World Handle
  unfolding fresh_connection
  new_connection = kept fresh_connection (record { udata = true; calls = []; sent = [] })

  -- `free_timer` on the connection's two timers, and `free_tcp_handle`.
  unfoldable pub free_read_timer : World Handle → Outcome Handle
  free_read_timer w =
      on_part w (λ t. t.read_timer_data) λ t. release (record t { read_timer_data = false })

  unfoldable pub free_write_timer : World Handle → Outcome Handle
  free_write_timer w =
      on_part w (λ t. t.write_timer_data) λ t. release (record t { write_timer_data = false })

  unfoldable pub free_tcp_handle : World Handle → Outcome Handle
  free_tcp_handle w = on_part w (λ t. t.handle_data) λ t. release (record t { handle_data = false })

  -- `status == 0 || status == UV_EOF`.
  abbrev pub is_normal : ℤ → Bool
  is_normal status = is_zero status || eqb status eof

  -- What a blocked reader and a blocked writer are told.
  abbrev pub reader_result : ℤ → ℤ → Resume
  reader_result tid status = record {
    tid = tid;
    status = false;
    result = if is_normal status then text "EOF" else strerror status;
  }

  abbrev pub writer_result : ℤ → ℤ → Resume
  writer_result tid status = record {
    tid = tid;
    status = is_normal status;
    result = if is_normal status then integer (pos 0) else strerror status;
  }

  abbrev unblock_reader : ℤ → ℤ → List Resume → List Resume
  unfolding resume_lua_thread
  unblock_reader tid status calls =
      if is_zero tid then calls else resume_lua_thread (reader_result tid status) calls

  abbrev unblock_writer : ℤ → ℤ → List Resume → List Resume
  unfolding resume_lua_thread
  unblock_writer tid status calls =
      if is_zero tid then calls else resume_lua_thread (writer_result tid status) calls

  -- Both thread ids are 0 afterwards, since the code clears those that are not.
  unfoldable pub close_connection : ℤ → Connection Handle → Env → Connection Handle × Env
  unfolding unblock_reader unblock_writer resume_lua_thread
  close_connection status t e =
      if t.lua_ref
      then (
        record t {
          lua_ref = false;
          ref_count = decr_ref t.ref_count;
          read_timer = close_if_active uv (timer_stop t.read_timer);
          write_timer = close_if_active uv (timer_stop t.write_timer);
          handle = close_if_active uv t.handle;
          lua_reader_tid = if is_zero t.lua_reader_tid then t.lua_reader_tid else pos 0;
          lua_writer_tid = if is_zero t.lua_writer_tid then t.lua_writer_tid else pos 0;
        },
        record e {
          udata = false;
          calls =
              unblock_writer t.lua_writer_tid status
                (unblock_reader t.lua_reader_tid status e.calls);
        },
      )
      else (t, e)

  abbrev pub closing : ℤ → Connection Handle → Env → World Handle
  closing status t e = let (t', e') = close_connection status t e in kept t' e'

  -- `on_conn_timeout`, for each of the two timers.
  unfoldable pub on_read_timeout : World Handle → Outcome Handle
  on_read_timeout w = on_part w (λ t. t.read_timer_data) (closing ecanceled)

  unfoldable pub on_write_timeout : World Handle → Outcome Handle
  on_write_timeout w = on_part w (λ t. t.write_timer_data) (closing ecanceled)

  abbrev pub without_threads : Connection Handle → Connection Handle
  without_threads t = record t { lua_reader_tid = pos 0; lua_writer_tid = pos 0 }

  unfoldable pub close_connection_lua : World Handle → Outcome Handle
  close_connection_lua w = with_conn w [] λ t e. (closing eof (without_threads t) e, [])

  unfoldable pub connection_gc : World Handle → Outcome Handle
  connection_gc w = with_conn w [] λ t e. (closing ecanceled (without_threads t) e, [])
