-- ===== src/Tcp/Reentrant/Held.antt =====
-- The methods of src/luaw_tcp.c on a connection to which a C function holds a reference meanwhile.
use luaw.Prelude.{ℕ, ◌≡◌, refl, List, Option, none, some, arith}
use mathlib.Core.Option
use luaw.Prelude.Int.{ℤ, pos, negsuc, incr, decr}
use luaw.Lua.{incr_ref}
use luaw.Lua.Script.{Calls, done, call, nested}
use luaw.Uv.{Uv}
use luaw.Tcp.{
  Connection, Env, World, Outcome, closing, close_connection, close_connection_lua, connection_gc,
  without_threads,
}
use luaw.Tcp.Read.{start_reading, read_check}
use luaw.Tcp.Write.{write_buffer}
use luaw.Tcp.Run.{System, execute, advance, pending_after, in_flight}
use luaw.Tcp.Reentrant.{Method, as_event}
use luaw.Tcp.Reentrant.Turns.{make_calls}
use luaw.Tcp.Reentrant.Atomic.{atomic, perform-nested}

decr-incr : (n : ℤ) → decr (incr n) ≡ incr (decr n)
decr-incr (pos n) = ground arith
decr-incr (negsuc n) = ground arith

module _ (uv : Uv) where
  open uv use {Handle}

  -- The connection with one reference more.
  abbrev pub held : Connection Handle → Connection Handle
  held t = record t { ref_count = incr_ref t.ref_count }

  abbrev hold : World Handle → World Handle
  hold w = record w { conn = Option.map held w.conn }

  abbrev held_outcome : Outcome Handle → Outcome Handle
  held_outcome o = Option.map (λ (w, r). (hold w, r)) o

  closing-hold :
      (status : ℤ) (t : Connection Handle) (e : Env)
      → closing uv status (held t) e ≡ hold (closing uv status t e)
  unfolding close_connection
  closing-hold status t e = ground (arith, decr-incr t.ref_count)

  start_reading-hold :
      (c : Option (Connection Handle)) (e : Env)
      → start_reading uv (hold (record { conn = c; env = e }))
        ≡ held_outcome (start_reading uv (record { conn = c; env = e }))
  unfolding start_reading
  start_reading-hold none e = ground arith
  start_reading-hold (some t) e =
      let u = record t { lua_reader_tid = pos 0; handle = uv.read_start t.handle } in
      ground (arith, closing-hold (uv.read_start_rc t.handle) u e)

  read_check-hold :
      (tid n : ℤ) (b : List ℕ) (c : Option (Connection Handle)) (e : Env)
      → read_check uv tid n b (hold (record { conn = c; env = e }))
        ≡ held_outcome (read_check uv tid n b (record { conn = c; env = e }))
  unfolding read_check
  read_check-hold tid n b none e = ground arith
  read_check-hold tid n b (some t) e = ground (arith, closing-hold uv.eai_badflags t e)

  write-hold :
      (tid : ℤ) (b : List ℕ) (n : ℤ) (c : Option (Connection Handle)) (e : Env)
      → write_buffer uv tid b n (hold (record { conn = c; env = e }))
        ≡ held_outcome (write_buffer uv tid b n (record { conn = c; env = e }))
  unfolding write_buffer
  write-hold tid b n none e = ground arith
  write-hold tid b n (some t) e =
      ground
        (arith, closing-hold (uv.write_rc t.handle b) (record t { handle = uv.write t.handle b }) e)

  close-hold :
      (c : Option (Connection Handle)) (e : Env)
      → (close_connection_lua uv (hold (record { conn = c; env = e }))
          ≡ held_outcome (close_connection_lua uv (record { conn = c; env = e })))
        × (connection_gc uv (hold (record { conn = c; env = e }))
            ≡ held_outcome (connection_gc uv (record { conn = c; env = e })))
  unfolding close_connection_lua connection_gc
  close-hold none e = ground arith
  close-hold (some t) e = ground (
    arith,
    closing-hold uv.eof (without_threads uv t) e,
    closing-hold uv.ecanceled (without_threads uv t) e,
  )

  execute-hold :
      (m : Method) (w : World Handle)
      → execute uv (as_event m) (hold w) ≡ held_outcome (execute uv (as_event m) w)
  unfolding execute
  execute-hold Method.start_read w = start_reading-hold w.conn w.env
  execute-hold (Method.reads tid n b) w = read_check-hold tid n b w.conn w.env
  execute-hold (Method.writes tid b n) w = write-hold tid b n w.conn w.env
  execute-hold Method.close w = (close-hold w.conn w.env).0
  execute-hold Method.gc w = (close-hold w.conn w.env).1

  abbrev pub holding : System Handle → System Handle
  holding s = record s { world = hold s.world }

  in_flight-held :
      (c : Option (Connection Handle)) → in_flight uv (Option.map held c) ≡ in_flight uv c
  in_flight-held none = refl
  in_flight-held (some t) = refl

  atomic-hold :
      (m : Method) (s : System Handle)
      → atomic uv m (holding s) ≡ Option.map holding (atomic uv m s)
  atomic-hold m s =
      rw (execute-hold m s.world, in_flight-held s.world.conn)
        (shown (execute uv (as_event m) s.world))
    where
      shown :
          (o : Outcome Handle)
          → Option.map
              (λ (w, r). record {
                world = w;
                pending = pending_after uv (as_event m) r (in_flight uv s.world.conn) s.pending;
              })
              (held_outcome o)
            ≡ Option.map holding (Option.map (λ (w, r). advance uv (as_event m) s w r) o)
      shown none = refl
      shown (some (w, r)) = refl

  pub make_calls-hold :
      (ks : Calls Method) (s : System Handle)
      → make_calls uv ks (holding s) ≡ Option.map holding (make_calls uv ks s)
  unfolding nested
  make_calls-hold done s = refl
  make_calls-hold (call m first second after) s =
      rw
        (
          perform-nested uv m first second s,
          perform-nested uv m first second (holding s),
          atomic-hold m s,
          nested,
        )
        (rest (atomic uv m s) (make_calls-hold after))
    where
      rest :
          (o : Option (System Handle))
          → ((t : System Handle)
              → make_calls uv after (holding t) ≡ Option.map holding (make_calls uv after t))
          → elim (Option.map holding o) [ none ↦ none | some t ↦ make_calls uv after t ]
            ≡ Option.map holding (elim o [ none ↦ none | some t ↦ make_calls uv after t ])
      rest none same = refl
      rest (some t) same = same t
