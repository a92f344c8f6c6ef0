-- ===== src/Tcp/Connect.antt =====
-- src/luaw_tcp.c, outgoing connections: Lua's `connect` and libuv's connect callback.
use luaw.Prelude.{
  String, Bool, true, false, List, [], ◌∷◌, Option, none, some, if◌then◌else◌, not, ◌&&◌, ◌||◌,
}
use mathlib.Core.Option
use luaw.Prelude.Int.{ℤ, is_zero}
use luaw.Lua.{
  Value, nil, integer, text, strerror, format, format2, userdata, resume_lua_thread, error_to_lua,
}
use luaw.Uv.{Uv}
use luaw.Tcp.{
  Connection, Env, World, Outcome, kept, start_timer, stop_timer, close_connection, closing,
  fresh_connection,
}

module _ (uv : Uv) where
  open uv use {Handle, ip4_addr_rc, tcp_connect, tcp_connect_rc, enomem}

  -- Whether closing the connection resumes a thread.
  abbrev pub closing_resumes : Connection Handle → Bool
  closing_resumes t =
      t.lua_ref && (not (is_zero t.lua_reader_tid) || not (is_zero t.lua_writer_tid))

  -- A connect that failed. `resumeThreadId` and the thread id are pushed before the connection is
  -- closed, and status and message after it. Where closing resumed a thread, the two results of that
  -- call lie between them: the last resume then takes those for the function and the thread id. The
  -- first of them is a boolean or a message, which is no function, so that the scheduler is not called.
  unfoldable pub connect_failed : ℤ → Connection Handle → Env → World Handle
  unfolding resume_lua_thread
  connect_failed status t e =
      let (t', e') = close_connection uv status t e in
      if closing_resumes t
      then kept t' e'
      else kept t' (record e' {
        calls =
            resume_lua_thread
              (record { tid = t.lua_writer_tid; status = false; result = strerror status })
              e'.calls;
      })

  -- The request's pointer to the connection is never cleared, nor is the thread id on success.
  unfoldable pub connect_done : Connection Handle → Env → World Handle
  unfolding resume_lua_thread
  connect_done t e = kept t (record e {
    calls =
        resume_lua_thread (record { tid = t.lua_writer_tid; status = true; result = nil }) e.calls;
  })

  unfoldable pub on_client_connect : ℤ → World Handle → Outcome Handle
  on_client_connect status w =
      Option.map
        (λ t.
          let t' = record t { write_timer = stop_timer uv t.write_timer } in
          ((if is_zero status then connect_done t' w.env else connect_failed status t' w.env), []))
        w.conn

  -- From the allocation of the connection on.
  unfoldable pub connecting :
      String → ℤ → ℤ → ℤ → Bool → Connection Handle → Env → World Handle × List Value
  unfolding error_to_lua
  connecting ip4 port tid timeout allocated t e =
      if not allocated
      then (
        closing uv enomem t e,
        error_to_lua (text "Could not allocate memory for connect request"),
      )
      else (let rc = tcp_connect_rc t.handle ip4 port in
          let t' = record t { handle = tcp_connect t.handle ip4 port } in
          if is_zero rc
          then (
            kept
                (record t' {
                  lua_writer_tid = tid;
                  write_timer = start_timer uv t'.write_timer timeout;
                })
                e,
            userdata ∷ [],
          )
          else (closing uv rc t' e, error_to_lua (format "tcp connect failed: %s" (strerror rc))))

  -- The arguments of `connect`, and whether `malloc` gave a request. Where no connection is made the
  -- world is `none`.
  unfoldable pub client_connect : String → ℤ → ℤ → ℤ → Bool → Option (World Handle) × List Value
  unfolding connecting error_to_lua fresh_connection
  client_connect ip4 port tid timeout allocated =
      if is_zero port
      then (none, error_to_lua (text "Invalid port specified in client_connect"))
      else if is_zero tid
      then (none, error_to_lua (text "Invalid thread id specified in client_connect"))
      else if not (is_zero (ip4_addr_rc ip4 port))
      then (
        none,
        error_to_lua (
            format2 "Invalid ip address %s and port %d combination specified in client_connect"
              (text ip4) (integer port)),
      )
      else (let (w, r) =
            connecting ip4 port tid timeout allocated (fresh_connection uv)
              (record { udata = true; calls = []; sent = [] }) in
          (some w, r))
