-- ===== src/Tcp/Accept.antt =====
-- src/luaw_server.c, `on_server_connect`: a connection that the server accepts.
use luaw.Prelude.{true, [], if◌then◌else◌}
use luaw.Prelude.Int.{ℤ, is_zero}
use luaw.Uv.{Uv}
use luaw.Tcp.{Connection, Env, World, kept, closing, fresh_connection}

-- How the callback ends: with a Lua error, with the connection closed, or with a call of the
-- scheduler's `startSystemThread` for it.
pub data Accepted (H : Type 0) : Type 0 where
  raised : ℤ → Accepted H
  refused started : World H → Accepted H

module _ (uv : Uv) where
  open uv use {Handle, accept, accept_rc}

  unfoldable pub accepting : Connection Handle → Env → Accepted Handle
  accepting t e =
      let rc = accept_rc t.handle in
      let t' = record t { handle = accept t.handle } in
      if is_zero rc then started (kept t' e) else refused (closing uv rc t' e)

  unfoldable pub on_server_connect : ℤ → Accepted Handle
  unfolding fresh_connection accepting
  on_server_connect status =
      if is_zero status
      then accepting (fresh_connection uv) (record { udata = true; calls = []; sent = [] })
      else raised status
