-- ===== src/Tcp/Delivery.antt =====
-- What the threads that wait on a connection are told, and by which callbacks.
use luaw.Prelude.{
  ℕ, ◌≡◌, Bool, true, false, List, [], ◌∷◌, ◌++◌, Option, none, some, arith, if◌then◌else◌, subst,
}
use luaw.Prelude.Int.{ℤ, pos, is_zero, is_nonpos, eqb}
use luaw.Lua.{decr_ref, Value, boolean, nil, bytes, Resume, resume_lua_thread}
use luaw.Uv.{Uv, close_if_active-is_closing}
use mathlib.Core.Option.{some-injective}
use luaw.Tcp.{
  Connection, Env, World, conn_buffer_size, kept, close_connection, stop_timer, start_timer,
  closing, reader_result, writer_result, connection_closed,
}
use luaw.Tcp.Read.{on_alloc, on_read, read_check}
use luaw.Tcp.Connect.{on_client_connect, connect_done, connect_failed}
use luaw.Tcp.Run.{Pending, System, Reach, created}
use luaw.Tcp.Invariant.{ConnInv, Live}
use luaw.Tcp.Safety.{Reach-Inv, created-Inv}

-- The thread `tid` is told `r`, unless it is 0, which stands for no thread.
abbrev pub told : ℤ → Resume → List Resume
told tid r = if is_zero tid then [] else r ∷ []

module _ (uv : Uv) where
  open uv use {Handle, is_active, is_closing, eof, enobufs}

  -- Closing a linked connection tells its reader and then its writer, each at most once and only if
  -- it waits, and leaves nobody waiting; closing it again changes nothing.
  pub close_connection-tells :
      (status status' : ℤ) (t : Connection Handle) (e : Env)
      → t.lua_ref ≡ true
      → let (t', e') = close_connection uv status t e in
        (e'.calls
          ≡ told t.lua_writer_tid (writer_result uv t.lua_writer_tid status)
            ++ told t.lua_reader_tid (reader_result uv t.lua_reader_tid status)
            ++ e.calls)
        × (is_zero t'.lua_reader_tid ≡ true)
        × (is_zero t'.lua_writer_tid ≡ true)
        × (close_connection uv status' t' e' ≡ (t', e'))
  unfolding close_connection resume_lua_thread
  close_connection-tells status status' t e h =
      (ground arith, ground arith, ground arith, ground arith)

  -- On a linked connection without a reader, a failed connect delinks the userdata and resumes the
  -- thread that waits for it exactly once, with a false status and the error, or with true and 0 if the
  -- error is the end of the stream; a callback that finds nobody waiting resumes nobody. The connection is
  -- closed: its handle and both its timers are closing, it has given the userdata's reference back, and
  -- no thread stands in it any more.
  pub on_client_connect-failed :
      (status : ℤ) (t : Connection Handle) (e : Env)
      → t.lua_ref ≡ true
      → is_zero t.lua_reader_tid ≡ true
      → is_zero status ≡ false
      → (w : World Handle) × (on_client_connect uv status (kept t e) ≡ some (w, []))
        × (w.env.calls
            ≡ told t.lua_writer_tid (writer_result uv t.lua_writer_tid status) ++ e.calls)
        × (w.env.udata ≡ false)
        × (t' : Connection Handle) × (w.conn ≡ some t')
        × (is_closing t'.handle ≡ true)
        × (is_closing t'.read_timer ≡ true)
        × (is_closing t'.write_timer ≡ true)
        × (t'.lua_ref ≡ false)
        × (t'.ref_count ≡ decr_ref t.ref_count)
        × (is_zero t'.lua_reader_tid ≡ true)
        × (is_zero t'.lua_writer_tid ≡ true)
  unfolding on_client_connect connect_failed close_connection resume_lua_thread
  on_client_connect-failed status t e l r s =
      let u = record t { write_timer = stop_timer uv t.write_timer } in
      (
        connect_failed uv status u e,
        ground arith,
        ground arith,
        ground arith,
        (close_connection uv status u e).0,
        ground arith,
        ground (arith, close_if_active-is_closing uv t.handle),
        ground (arith, close_if_active-is_closing uv (uv.timer_stop t.read_timer)),
        ground (arith, close_if_active-is_closing uv (uv.timer_stop u.write_timer)),
        ground arith,
        ground arith,
        ground arith,
        ground arith,
      )

  -- The thread id of a connect that succeeded stays with the connection: if the thread goes on to read
  -- and the stream ends, it is resumed twice more, as the reader and as a writer. The connection is
  -- linked, its handle active and its buffer empty, and UV_EOF is negative and not UV_ENOBUFS.
  pub connected_reader-told_twice :
      (tid timeout : ℤ) (buffer : List ℕ) (t : Connection Handle) (e : Env)
      → t.lua_ref ≡ true
      → t.handle_data ≡ true
      → e.udata ≡ true
      → t.read_len ≡ 0
      → is_active t.handle ≡ true
      → t.lua_writer_tid ≡ tid
      → is_zero tid ≡ false
      → is_nonpos eof ≡ true
      → is_zero eof ≡ false
      → eqb eof enobufs ≡ false
      → (w₁ w₂ w₃ : World Handle) × (on_client_connect uv (pos 0) (kept t e) ≡ some (w₁, []))
        × (read_check uv tid timeout buffer w₁ ≡ some (w₂, boolean true ∷ nil ∷ []))
        × (on_read uv eof buffer w₂ ≡ some (w₃, []))
        × (w₃.env.calls
            ≡ writer_result uv tid eof
              ∷ reader_result uv tid eof
              ∷ record { tid = tid; status = true; result = nil }
              ∷ e.calls)
  unfolding on_client_connect connect_done close_connection resume_lua_thread read_check on_read
  connected_reader-told_twice tid timeout buffer t e l h u z a w n k m j =
      let connected : Env = record e {
        calls = record { tid = tid; status = true; result = nil } ∷ e.calls;
      } in
      let u₁ : Connection Handle = record t { write_timer = stop_timer uv t.write_timer } in
      let u₂ : Connection Handle = record u₁ {
        lua_reader_tid = tid;
        read_timer = start_timer uv t.read_timer timeout;
      } in
      let u₃ : Connection Handle = record u₂ { read_timer = stop_timer uv u₂.read_timer } in
      (
        kept u₁ connected,
        kept u₂ connected,
        closing uv eof u₃ connected,
        ground arith,
        ground arith,
        ground arith,
        ground arith,
      )

  same_conn :
      (u : Bool) (p : Pending) (c : Option (Connection Handle)) (t : Connection Handle)
      → ConnInv uv u p c
      → c ≡ some t
      → Live uv u p p.overlaps t
  same_conn u p none t v e = cc
  same_conn u p (some t') t v e = subst (Live uv u p p.overlaps) (some-injective t' t e) v

  -- In every reachable state with a connection whose handle's pointer is set, `read_buffer` is empty:
  -- libuv is offered the whole of it.
  Reach-on_alloc :
      (s : System Handle) (t : Connection Handle)
      → Reach uv (created uv) s
      → s.world.conn ≡ some t
      → t.handle_data ≡ true
      → on_alloc uv s.world ≡ some (some 0, conn_buffer_size)
  unfolding on_alloc
  Reach-on_alloc s t reach e h =
      let v =
        same_conn s.world.env.udata s.pending s.world.conn t (Reach-Inv uv reach (created-Inv uv))
          e in
      rw e (ground (arith, v.shape.drained))

  -- A result that carries bytes.
  abbrev pub hands_data : List Value → Bool
  hands_data (boolean true ∷ bytes b ∷ []) = true
  hands_data _ = false

  read_check-drained :
      (tid timeout : ℤ) (buffer : List ℕ) (c : Option (Connection Handle)) (e : Env) (p : Pending)
      (w : World Handle) (r : List Value)
      → ConnInv uv e.udata p c
      → read_check uv tid timeout buffer (record { conn = c; env = e }) ≡ some (w, r)
      → hands_data r ≡ false
  unfolding read_check connection_closed
  read_check-drained tid timeout buffer none e p w r v h = ground arith
  read_check-drained tid timeout buffer (some t) e p w r v h = ground (arith, v.shape.drained)

  -- In every reachable state a `read` that has a result never returns data itself: its caller has to
  -- wait for the read callback.
  pub Reach-read_check :
      (s : System Handle) (tid timeout : ℤ) (buffer : List ℕ) (w : World Handle) (r : List Value)
      → Reach uv (created uv) s
      → read_check uv tid timeout buffer s.world ≡ some (w, r)
      → hands_data r ≡ false
  Reach-read_check s tid timeout buffer w r reach e =
      read_check-drained tid timeout buffer s.world.conn s.world.env s.pending w r
        (Reach-Inv uv reach (created-Inv uv)) e
