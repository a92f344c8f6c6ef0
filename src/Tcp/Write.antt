-- ===== src/Tcp/Write.antt =====
-- src/luaw_tcp.c, the writing side: Lua's `write` and libuv's write callback.
use luaw.Prelude.{ℕ, true, false, List, [], ◌∷◌, if◌then◌else◌, length, ltb}
use luaw.Prelude.Int.{ℤ, pos, is_zero}
use luaw.Lua.{boolean, integer, text, strerror, resume_lua_thread, error_to_lua, incr_ref}
use luaw.Uv.{Uv}
use luaw.Tcp.{
  Connection, Env, World, Outcome, kept, release, with_conn, on_part, connection_closed,
  start_timer, stop_timer, close_connection, closing,
}

module _ (uv : Uv) where
  open uv use {Handle, write, write_rc}

  -- The write went through: its thread is resumed with true and 1.
  unfoldable pub write_finished : Connection Handle → Env → World Handle
  unfolding resume_lua_thread
  write_finished t e =
      release (record t { write_timer = stop_timer uv t.write_timer; lua_writer_tid = pos 0 })
        (record e {
          calls =
              resume_lua_thread
                (record { tid = t.lua_writer_tid; status = true; result = integer (pos 1) })
                e.calls;
        })

  unfoldable pub write_failed : ℤ → Connection Handle → Env → World Handle
  write_failed status t e = let (t', e') = close_connection uv status t e in release t' e'

  -- The write request is a part of the connection, and its pointer is cleared first.
  unfoldable pub on_write : ℤ → World Handle → Outcome Handle
  on_write status w =
      on_part w (λ t. t.write_req_data)
        λ t e.
          let t' = record t { write_req_data = false } in
          if is_zero status then write_finished t' e else write_failed status t' e

  unfoldable pub write_buffer : ℤ → List ℕ → ℤ → World Handle → Outcome Handle
  unfolding connection_closed error_to_lua
  write_buffer tid buff timeout w = with_conn w connection_closed λ t e.
      if is_zero tid
      then (kept t e, error_to_lua (text "write() specified invalid thread id"))
      else if ltb 0 (length buff)
      then (let rc = write_rc t.handle buff in
          let t' = record t { handle = write t.handle buff } in
          if is_zero rc
          then (
            kept
                (record t' {
                  write_req_data = true;
                  ref_count = incr_ref t'.ref_count;
                  lua_writer_tid = tid;
                  write_timer = start_timer uv t'.write_timer timeout;
                })
                (record e { sent = buff ∷ e.sent }),
            boolean true ∷ integer (pos (length buff)) ∷ [],
          )
          else (closing uv rc t' e, boolean false ∷ strerror rc ∷ []))
      else (kept t e, boolean true ∷ integer (pos (length buff)) ∷ [])
