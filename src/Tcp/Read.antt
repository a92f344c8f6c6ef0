-- ===== src/Tcp/Read.antt =====
-- src/luaw_tcp.c, the reading side: libuv's buffer and read callbacks, and Lua's `startReading` and
-- `read`.
use luaw.Prelude.{
  ℕ, ◌+◌, ◌-◌, true, false, List, [], ◌∷◌, Option, none, some, if◌then◌else◌, not, ◌||◌, ◌&&◌, take,
  ltb, ◌==◌,
}
use mathlib.Core.Option
use luaw.Prelude.Int.{ℤ, pos, is_zero, is_nonpos, eqb, pos_part}
use luaw.Lua.{nil, boolean, bytes, text, strerror, resume_lua_thread, error_to_lua}
use luaw.Uv.{Uv}
use luaw.Tcp.{
  World, Outcome, conn_buffer_size, kept, with_conn, on_part, connection_closed, start_timer,
  stop_timer, closing,
}

module _ (uv : Uv) where
  open uv use {Handle, is_active, read_start, read_start_rc, enobufs, eai_badflags}

  -- The buffer that libuv may fill: where it begins in `read_buffer`, if it has a base, and its length.
  unfoldable pub on_alloc : World Handle → Option (Option ℕ × ℕ)
  on_alloc w =
      Option.map
        (λ t.
          let free_space = conn_buffer_size - t.read_len in
          if t.handle_data && ltb 0 free_space then (some t.read_len, free_space) else (none, 0))
        w.conn

  -- `buffer` is the content of `read_buffer`, which libuv has filled.
  unfoldable pub on_read : ℤ → List ℕ → World Handle → Outcome Handle
  unfolding resume_lua_thread
  on_read nread buffer w =
      on_part w (λ t. t.handle_data)
        λ t e.
          let t' = record t { read_timer = stop_timer uv t.read_timer } in
          if is_zero nread || eqb nread enobufs
          then kept t' e
          else if not (is_nonpos nread)
          then kept (record t' { lua_reader_tid = pos 0; read_len = 0 })
              (record e {
                calls =
                    resume_lua_thread
                      (record {
                        tid = t.lua_reader_tid;
                        status = true;
                        result = bytes (take (t.read_len + pos_part nread) buffer);
                      })
                      e.calls;
              })
          else closing uv nread t' e

  unfoldable pub start_reading : World Handle → Outcome Handle
  unfolding connection_closed
  start_reading w = with_conn w connection_closed λ t e.
      let rc = read_start_rc t.handle in
      let t' = record t { lua_reader_tid = pos 0; handle = read_start t.handle } in
      if is_zero rc
      then (kept t' e, boolean true ∷ [])
      else (closing uv rc t' e, boolean false ∷ strerror rc ∷ [])

  -- `read` with the reader's thread id, its timeout and the buffer's content.
  unfoldable pub read_check : ℤ → ℤ → List ℕ → World Handle → Outcome Handle
  unfolding connection_closed error_to_lua
  read_check tid timeout buffer w = with_conn w connection_closed λ t e.
      if not (is_active t.handle)
      then (
        closing uv eai_badflags t e,
        error_to_lua (text "read() called on conn that is not registered to receive read events"),
      )
      else if t.read_len == 0
      then (if is_zero tid
          then (kept t e, error_to_lua (text "read() specified invalid thread id"))
          else (
            kept
                (record t {
                  lua_reader_tid = tid;
                  read_timer = start_timer uv t.read_timer timeout;
                })
                e,
            boolean true ∷ nil ∷ [],
          ))
      else (kept t e, boolean true ∷ bytes (take t.read_len buffer) ∷ [])
