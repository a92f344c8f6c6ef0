-- ===== src/Tcp/Reentrant/Atomic.antt =====
-- The methods of src/luaw_tcp.c with calls inside them, against the methods alone.
use luaw.Prelude.{ℕ, ◌≡◌, refl, false, List, [], ◌∷◌, Option, none, some, arith}
use mathlib.Core.Option
use luaw.Prelude.Int.{ℤ, pos}
use luaw.Lua.{Value, boolean, strerror, decr_ref, error_to_lua, text}
use luaw.Lua.Script.{returned, Calls, nested-fixed, meanwhile, finish}
use luaw.Uv.{Uv, close_if_active}
use luaw.Tcp.{
  Connection, Env, World, Outcome, connection_closed, kept, closing, close_connection,
  close_connection_lua, connection_gc, without_threads, reader_result, writer_result,
}
use luaw.Tcp.Read.{start_reading, read_check}
use luaw.Tcp.Write.{write_buffer}
use luaw.Tcp.Run.{System, execute, advance, pending_after, in_flight}
use luaw.Tcp.Reentrant.{
  Method, as_event, resume, of_outcome, returning, close_script, unblock_reader, unblock_writer,
  start_reading_script, read_check_script, write_script, script, TcpScript,
}
use luaw.Tcp.Reentrant.Turns.{put, finishing, perform, make_calls}

module _ (uv : Uv) where
  open uv use {Handle}

  -- Whatever is called, a connection that Lua no longer reaches stays as it is.
  perform-delinked :
      (m : Method) (fs : List (System Handle → Option (System Handle))) (s : System Handle)
      → s.world.env.udata ≡ false
      → perform uv m fs s ≡ some s
  unfolding perform finish script start_reading_script read_check_script write_script
      connection_closed error_to_lua
  perform-delinked Method.start_read fs s h = rw h (ground arith)
  perform-delinked (Method.reads tid n b) fs s h = rw h (ground arith)
  perform-delinked (Method.writes tid b n) fs s h = rw h (ground arith)
  perform-delinked Method.close fs s h = rw h (ground arith)
  perform-delinked Method.gc fs s h = rw h (ground arith)

  pub make_calls-delinked :
      (ks : Calls Method) (s : System Handle)
      → s.world.env.udata ≡ false
      → make_calls uv ks s ≡ some s
  make_calls-delinked ks s h = nested-fixed (perform uv) s (λ m fs. perform-delinked m fs s h) ks

  abbrev pub Idle : (System Handle → Option (System Handle)) → Type 0
  Idle f = (s : System Handle) → s.world.env.udata ≡ false → f s ≡ some s

  -- The connection that is closed, in the worlds in which its reader and its writer are resumed.
  module _ (status : ℤ) (t : Connection Handle) (e : Env) where
    abbrev delinked : Connection Handle
    delinked = record t {
      lua_ref = false;
      ref_count = decr_ref t.ref_count;
      read_timer = close_if_active uv (uv.timer_stop t.read_timer);
      write_timer = close_if_active uv (uv.timer_stop t.write_timer);
      handle = close_if_active uv t.handle;
    }

    abbrev for_reader : World Handle
    for_reader =
        kept (record delinked { lua_reader_tid = pos 0 })
          (record e { udata = false; calls = reader_result uv t.lua_reader_tid status ∷ e.calls })

    abbrev for_writer : World Handle
    for_writer =
        kept (record delinked { lua_writer_tid = pos 0 })
          (record e { udata = false; calls = writer_result uv t.lua_writer_tid status ∷ e.calls })

    abbrev for_both : World Handle
    for_both =
        kept (record delinked { lua_reader_tid = pos 0; lua_writer_tid = pos 0 })
          (record e {
            udata = false;
            calls =
                writer_result uv t.lua_writer_tid status
                ∷ reader_result uv t.lua_reader_tid status
                ∷ e.calls;
          })

  -- A method's call in which nothing else runs.
  abbrev pub atomic : Method → System Handle → Option (System Handle)
  atomic m s =
      Option.map (λ (w, r). advance uv (as_event m) s w r) (execute uv (as_event m) s.world)

  -- The outcome of an operation, as the end of its script.
  abbrev pub ends : System Handle → Outcome Handle → Option (System Handle × List Value)
  ends s none = none
  ends s (some (w, r)) = some (put uv w s, r)

  module _ (f g : System Handle → Option (System Handle)) (f_idle : Idle f) (g_idle : Idle g) where
    pub close-atomic :
        (status : ℤ) (k : World Handle → TcpScript Handle) (t : Connection Handle) (e : Env)
        (w : World Handle) (r : List Value) (s : System Handle)
        → k (closing uv status t e) ≡ returned w r
        → finishing uv (meanwhile f g) (close_script uv status k t e) s ≡ some (put uv w s, r)
    unfolding close_script close_connection unblock_reader unblock_writer resume finish
    close-atomic status k t e w r s p = ground (
      arith,
      f_idle (put uv (for_reader status t e) s) refl,
      f_idle (put uv (for_writer status t e) s) refl,
      g_idle (put uv (for_both status t e) s) refl,
    )

    pub outcome-atomic :
        (o : Outcome Handle) (s : System Handle)
        → finishing uv (meanwhile f g) (of_outcome o) s ≡ ends s o
    unfolding finish
    outcome-atomic none s = refl
    outcome-atomic (some (w, r)) s = refl

    start_reading-atomic :
        (c : Option (Connection Handle)) (s : System Handle)
        → s.world.conn ≡ c
        → finishing uv (meanwhile f g) (start_reading_script uv s.world) s
          ≡ ends s (start_reading uv s.world)
    unfolding start_reading_script start_reading finish
    start_reading-atomic none s p = ground arith
    start_reading-atomic (some t) s p =
        let rc = uv.read_start_rc t.handle in
        let u = record t { lua_reader_tid = pos 0; handle = uv.read_start t.handle } in
        let r = boolean false ∷ strerror rc ∷ [] in
        ground (
          arith,
          outcome-atomic (start_reading uv s.world) s,
          close-atomic rc (returning r) u s.world.env (closing uv rc u s.world.env) r s refl,
        )

    read_check-atomic :
        (tid n : ℤ) (b : List ℕ) (c : Option (Connection Handle)) (s : System Handle)
        → s.world.conn ≡ c
        → finishing uv (meanwhile f g) (read_check_script uv tid n b s.world) s
          ≡ ends s (read_check uv tid n b s.world)
    unfolding read_check_script read_check finish
    read_check-atomic tid n b none s p = ground arith
    read_check-atomic tid n b (some t) s p =
        let r =
          error_to_lua
            (text "read() called on conn that is not registered to receive read events") in
        ground (
          arith,
          outcome-atomic (read_check uv tid n b s.world) s,
          close-atomic uv.eai_badflags (returning r) t s.world.env
              (closing uv uv.eai_badflags t s.world.env) r s refl,
        )

    write-atomic :
        (tid : ℤ) (b : List ℕ) (n : ℤ) (c : Option (Connection Handle)) (s : System Handle)
        → s.world.conn ≡ c
        → finishing uv (meanwhile f g) (write_script uv tid b n s.world) s
          ≡ ends s (write_buffer uv tid b n s.world)
    unfolding write_script write_buffer finish
    write-atomic tid b n none s p = ground arith
    write-atomic tid b n (some t) s p =
        let rc = uv.write_rc t.handle b in
        let u = record t { handle = uv.write t.handle b } in
        let r = boolean false ∷ strerror rc ∷ [] in
        ground (
          arith,
          outcome-atomic (write_buffer uv tid b n s.world) s,
          close-atomic rc (returning r) u s.world.env (closing uv rc u s.world.env) r s refl,
        )

    close-lua-atomic :
        (c : Option (Connection Handle)) (s : System Handle)
        → s.world.conn ≡ c
        → (finishing uv (meanwhile f g) (script uv Method.close s.world) s
            ≡ ends s (close_connection_lua uv s.world))
          × (finishing uv (meanwhile f g) (script uv Method.gc s.world) s
              ≡ ends s (connection_gc uv s.world))
    unfolding script close_connection_lua connection_gc finish
    close-lua-atomic none s p = ground arith
    close-lua-atomic (some t) s p = ground (
      arith,
      close-atomic uv.eof (returning []) (without_threads uv t) s.world.env
          (closing uv uv.eof (without_threads uv t) s.world.env) [] s refl,
      close-atomic uv.ecanceled (returning []) (without_threads uv t) s.world.env
          (closing uv uv.ecanceled (without_threads uv t) s.world.env) [] s refl,
    )

    script-atomic :
        (m : Method) (s : System Handle)
        → finishing uv (meanwhile f g) (script uv m s.world) s
          ≡ ends s (execute uv (as_event m) s.world)
    unfolding script execute
    script-atomic Method.start_read s = start_reading-atomic s.world.conn s refl
    script-atomic (Method.reads tid n b) s = read_check-atomic tid n b s.world.conn s refl
    script-atomic (Method.writes tid b n) s = write-atomic tid b n s.world.conn s refl
    script-atomic Method.close s = (close-lua-atomic s.world.conn s refl).0
    script-atomic Method.gc s = (close-lua-atomic s.world.conn s refl).1

    perform-atomic : (m : Method) (s : System Handle) → perform uv m (meanwhile f g) s ≡ atomic m s
    unfolding perform
    perform-atomic m s = rw (script-atomic m s, perform) (shown (execute uv (as_event m) s.world))
      where
        shown :
            (o : Outcome Handle)
            → elim (ends s o) [
              | none ↦ none
              | some (t, r) ↦ some (record t {
                pending = pending_after uv (as_event m) r (in_flight uv s.world.conn) t.pending;
              })
            ]
              ≡ Option.map (λ (w, r). advance uv (as_event m) s w r) o
        shown none = refl
        shown (some (w, r)) = refl

  -- A method's call has the effect that it has alone, whatever the threads call that it resumes.
  pub perform-nested :
      (m : Method) (first second : Calls Method) (s : System Handle)
      → perform uv m (meanwhile (λ t. make_calls uv first t) (λ t. make_calls uv second t)) s
        ≡ atomic m s
  perform-nested m first second s =
      perform-atomic (λ t. make_calls uv first t) (λ t. make_calls uv second t)
        (make_calls-delinked first) (make_calls-delinked second) m s
