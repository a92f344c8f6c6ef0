-- ===== src/Tcp/Reentrant/Alone.antt =====
-- All callbacks of src/luaw_tcp.c with the calls of the threads that they resume, against the callbacks
-- alone and the calls after them.
use luaw.Prelude.{
  ◌≡◌, refl, Bool, true, false, List, [], Option, none, some, arith, Bool-cases, inl, inr, ◌∙◌, sym,
  subst,
}
use luaw.Prelude.Int.{ℤ, is_zero}
use luaw.Lua.{Value}
use luaw.Lua.Script.{Calls, meanwhile}
use luaw.Uv.{Uv}
use luaw.Tcp.{
  Connection, World, Outcome, on_read_timeout, on_write_timeout, free_tcp_handle, free_read_timer,
  free_write_timer,
}
use luaw.Tcp.Read.{on_read}
use luaw.Tcp.Connect.{on_client_connect}
use luaw.Tcp.Write.{on_write}
use luaw.Tcp.Run.{Pending, System, execute, pending_after}
use luaw.Tcp.Invariant.{ConnInv}
use luaw.Tcp.Safety.{Inv}
use luaw.Tcp.Reentrant.{Method, Callback, event_of}
use luaw.Tcp.Reentrant.Turns.{put, finishing, make_calls, callback_script}
use luaw.Tcp.Reentrant.Atomic.{make_calls-delinked, Idle, outcome-atomic}
use luaw.Tcp.Reentrant.Callbacks.{
  goes_on, resumes, on_read-last, connect-last, timeout-last, write_failed-last,
}
use luaw.Tcp.Reentrant.Nested.{make_calls-Reach}
use luaw.Tcp.Reentrant.Writer.{Leads, on_write-Leads}

module _ (uv : Uv) where
  open uv use {Handle}

  -- A callback returns nothing, so that what is pending after it does not depend on that.
  pub pending_same :
      (c : Callback) (r : List Value) (b : Bool) (p : Pending)
      → pending_after uv (event_of c) r b p ≡ pending_after uv (event_of c) [] b p
  pending_same (Callback.has_read n d) r b p = refl
  pending_same (Callback.has_written n) r b p = refl
  pending_same (Callback.has_connected n) r b p = refl
  pending_same Callback.read_timeout r b p = refl
  pending_same Callback.write_timeout r b p = refl
  pending_same Callback.handle_closed r b p = refl
  pending_same Callback.read_timer_closed r b p = refl
  pending_same Callback.write_timer_closed r b p = refl

  -- A callback that resumes a thread at its end, or not at all while Lua reaches the connection.
  goes_on-Leads :
      (first : Calls Method) (b : Bool) (s : System Handle) (w : World Handle) (r : List Value)
      (o : Outcome Handle) {x : Option (System Handle × List Value)}
      → o ≡ some (w, r)
      → Inv uv (put uv w s)
      → x ≡ goes_on uv (λ t. make_calls uv first t) b s o
      → Leads uv first b x s w
  goes_on-Leads first false s w r o p v q = (put uv w s, r, q ∙ rw p refl, refl)
  goes_on-Leads first true s w r o p v q =
      let (t, d, _, _) = make_calls-Reach uv first (put uv w s) v in (t, [], q ∙ rw (p, d) refl, d)

  failed-resumes :
      (n : ℤ) (c : Option (Connection Handle))
      → is_zero n ≡ false
      → resumes uv (Callback.has_written n) c ≡ false
  failed-resumes n none z = refl
  failed-resumes n (some t) z = rw z refl

  module _ (first second : Calls Method) where
    abbrev f : System Handle → Option (System Handle)
    f t = make_calls uv first t

    abbrev g : System Handle → Option (System Handle)
    g t = make_calls uv second t

    f-Idle : Idle uv f
    f-Idle = make_calls-delinked uv first

    g-Idle : Idle uv g
    g-Idle = make_calls-delinked uv second

    -- Each callback leads to what it leads to alone, or to what the thread's calls reach from there.
    pub callback-Leads :
        (c : Callback) (s : System Handle) (w : World Handle) (r : List Value)
        → ((t : Connection Handle)
            → s.world.conn ≡ some t
            → is_zero t.lua_writer_tid ≡ false
            → t.lua_ref ≡ true)
        → execute uv (event_of c) s.world ≡ some (w, r)
        → Inv uv (put uv w s)
        → Leads uv first
            (resumes uv c s.world.conn)
            (finishing uv (meanwhile f g) (callback_script uv c s.world) s)
            s
            w
    unfolding execute callback_script
    callback-Leads (Callback.has_read n b) s w r h p v =
        goes_on-Leads first (resumes uv (Callback.has_read n b) s.world.conn) s w r
          (on_read uv n b s.world) p v (on_read-last uv f g f-Idle g-Idle n b s.world.conn s refl)
    callback-Leads (Callback.has_written n) s w r h p v = elim (Bool-cases (is_zero n)) [
      | inl z ↦ on_write-Leads uv n first g s.world.conn s w r z refl p v
      | inr z ↦
          subst
            (λ b.
              Leads uv first b
                (finishing uv (meanwhile f g) (callback_script uv (Callback.has_written n) s.world)
                  s)
                s w)
            (sym (failed-resumes n s.world.conn z))
            (goes_on-Leads first false s w r (on_write uv n s.world) p v
              (write_failed-last uv f g f-Idle g-Idle n s.world.conn s refl z))
    ]
    callback-Leads (Callback.has_connected n) s w r h p v =
        goes_on-Leads first (resumes uv (Callback.has_connected n) s.world.conn) s w r
          (on_client_connect uv n s.world) p v
          (connect-last uv f g f-Idle g-Idle n s.world.conn s refl h)
    callback-Leads Callback.read_timeout s w r h p v =
        goes_on-Leads first false s w r (on_read_timeout uv s.world) p v
          (timeout-last uv f g f-Idle g-Idle s.world.conn s refl).0
    callback-Leads Callback.write_timeout s w r h p v =
        goes_on-Leads first false s w r (on_write_timeout uv s.world) p v
          (timeout-last uv f g f-Idle g-Idle s.world.conn s refl).1
    callback-Leads Callback.handle_closed s w r h p v =
        goes_on-Leads first false s w r (free_tcp_handle uv s.world) p v
          (outcome-atomic uv f g f-Idle g-Idle (free_tcp_handle uv s.world) s)
    callback-Leads Callback.read_timer_closed s w r h p v =
        goes_on-Leads first false s w r (free_read_timer uv s.world) p v
          (outcome-atomic uv f g f-Idle g-Idle (free_read_timer uv s.world) s)
    callback-Leads Callback.write_timer_closed s w r h p v =
        goes_on-Leads first false s w r (free_write_timer uv s.world) p v
          (outcome-atomic uv f g f-Idle g-Idle (free_write_timer uv s.world) s)

  pub writes_linked :
      (u : Bool) (p : Pending) (c : Option (Connection Handle))
      → ConnInv uv u p c
      → (t : Connection Handle) → c ≡ some t
      → is_zero t.lua_writer_tid ≡ false
      → t.lua_ref ≡ true
  writes_linked u p none v t e z = absurd (cc)
  writes_linked u p (some x) v t e z = ground arith
