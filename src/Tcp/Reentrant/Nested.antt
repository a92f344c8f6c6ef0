-- ===== src/Tcp/Reentrant/Nested.antt =====
-- Calls of the methods of src/luaw_tcp.c with calls inside them, as steps of the connection.
use luaw.Prelude.{◌≡◌, refl, Bool, true, false, List, Option, none, some, arith, subst}
use luaw.Lua.{Value}
use luaw.Lua.Script.{Calls, done, call, nested}
use luaw.Uv.{Uv}
use luaw.Tcp.{Connection, Env, World, Outcome, kept, close_connection_lua, connection_gc}
use luaw.Tcp.Read.{start_reading, read_check}
use luaw.Tcp.Write.{write_buffer}
use luaw.Tcp.Run.{System, execute, is_enabled, advance, Step, Reach, does, here, next}
use luaw.Tcp.Safety.{Inv, Step-Inv, Inv-no_fault}
use luaw.Tcp.Run.{Reach-trans}
use luaw.Tcp.Reentrant.{Method, as_event}
use luaw.Tcp.Reentrant.Turns.{make_calls}
use luaw.Tcp.Reentrant.Atomic.{atomic, perform-nested}

abbrev pub has_conn : {H : Type 0} → Option (Connection H) → Bool
has_conn none = false
has_conn (some t) = true

module _ (uv : Uv) where
  open uv use {Handle}

  abbrev Kept : Outcome Handle → Type 0
  Kept none = Unit
  Kept (some (w, r)) = has_conn w.conn ≡ true

  -- No method frees a connection.
  execute-Kept :
      (m : Method) (t : Connection Handle) (e : Env) → Kept (execute uv (as_event m) (kept t e))
  unfolding execute start_reading read_check write_buffer close_connection_lua connection_gc
  execute-Kept Method.start_read t e = ground arith
  execute-Kept (Method.reads tid n b) t e = ground arith
  execute-Kept (Method.writes tid b n) t e = ground arith
  execute-Kept Method.close t e = ground arith
  execute-Kept Method.gc t e = ground arith

  conn_kept :
      (m : Method) (c : Option (Connection Handle)) (e : Env) (w : World Handle) (r : List Value)
      → execute uv (as_event m) (record { conn = c; env = e }) ≡ some (w, r)
      → has_conn c ≡ true
      → has_conn w.conn ≡ true
  conn_kept m none e w r p h = absurd (cc)
  conn_kept m (some t) e w r p h = subst Kept p (execute-Kept m t e)

  atomic-Step :
      (m : Method) (s : System Handle)
      → Inv uv s
      → (t : System Handle) × (atomic uv m s ≡ some t)
        × Step uv s t
        × (has_conn s.world.conn ≡ true → has_conn t.world.conn ≡ true)
  atomic-Step m s v =
      let enabled = is_method m in
      let (w, r, p) = Inv-no_fault uv s (as_event m) v enabled in
      (
        advance uv (as_event m) s w r,
        rw p refl,
        does (as_event m) w r enabled p refl,
        conn_kept m s.world.conn s.world.env w r p,
      )
    where
      is_method : (m : Method) → is_enabled uv (as_event m) s ≡ true
      is_method Method.start_read = refl
      is_method (Method.reads tid n b) = refl
      is_method (Method.writes tid b n) = refl
      is_method Method.close = refl
      is_method Method.gc = refl

  -- Calls with what runs inside them are steps of the connection, and none of them frees it.
  pub make_calls-Reach :
      (ks : Calls Method) (s : System Handle)
      → Inv uv s
      → (t : System Handle) × (make_calls uv ks s ≡ some t)
        × Reach uv s t
        × (has_conn s.world.conn ≡ true → has_conn t.world.conn ≡ true)
  unfolding nested
  make_calls-Reach done s v = (s, refl, here, λ h. h)
  make_calls-Reach (call m first second after) s v =
      let (t, p, st, keep) = atomic-Step m s v in
      let (u, q, r, stay) = make_calls-Reach after t (Step-Inv uv st v) in
      (
        u,
        rw (perform-nested uv m first second s, nested) (rw (p, nested) q),
        Reach-trans uv (next here st) r,
        λ h. stay (keep h),
      )

  -- The calls, if a thread was resumed that makes them.
  abbrev pub then_calls : Calls Method → Bool → System Handle → Option (System Handle)
  then_calls ks false s = some s
  then_calls ks true s = make_calls uv ks s
