-- ===== src/Tcp/Reentrant/Writer.antt =====
-- `on_write` of src/luaw_tcp.c with calls of the thread that it resumes, after which it gives its
-- reference back.
use luaw.Prelude.{
  ◌≡◌, refl, Bool, true, false, List, [], ◌∷◌, Option, none, some, arith, Bool-cases, inl, inr, ◌∙◌,
  sym, subst, ap,
}
use mathlib.Core.Option
use luaw.Prelude.Int.{ℤ, pos, negsuc, incr, decr, is_zero, is_nonpos}
use luaw.Lua.{Value, resume_lua_thread, integer}
use luaw.Lua.Script.{resuming, Calls, meanwhile, finish}
use luaw.Uv.{Uv}
use luaw.Tcp.{Connection, Env, World, release, kept, stop_timer}
use luaw.Tcp.Write.{on_write, write_finished}
use luaw.Tcp.Run.{Pending, System}
use luaw.Tcp.Invariant.{ConnInv}
use luaw.Tcp.Safety.{Inv, Reach-Inv}
use luaw.Tcp.Reentrant.{Method, resume, releasing, Callback}
use luaw.Tcp.Reentrant.Turns.{put, finishing, make_calls, on_write_script}
use luaw.Tcp.Reentrant.Atomic.{make_calls-delinked}
use luaw.Tcp.Reentrant.Callbacks.{resumes}
use luaw.Tcp.Reentrant.Held.{held, holding, make_calls-hold}
use luaw.Tcp.Reentrant.Nested.{has_conn, make_calls-Reach, then_calls}

decr-incr : (n : ℤ) → decr (incr n) ≡ n
decr-incr (pos n) = refl
decr-incr (negsuc n) = ground arith

incr-decr : (n : ℤ) → incr (decr n) ≡ n
incr-decr (pos n) = ground arith
incr-decr (negsuc n) = refl

module _ (uv : Uv) where
  open uv use {Handle}

  -- What a callback with calls inside it has to do, where it leads to the world `w` alone: the calls
  -- follow, if it resumes a thread that makes them.
  abbrev pub Leads :
      Calls Method
      → Bool
      → Option (System Handle × List Value)
      → System Handle
      → World Handle
      → Type 0
  Leads ks b o s w =
      (t : System Handle) × (r : List Value) × (o ≡ some (t, r))
      × (then_calls uv ks b (put uv w s) ≡ some t)

  -- The reference is given back, and another one is left.
  release-held :
      (g : System Handle → Option (System Handle)) (c : Option (Connection Handle)) (e : Env)
      (p : Pending)
      → ConnInv uv e.udata p c
      → has_conn c ≡ true
      → let s : System Handle = record { world = record { conn = c; env = e }; pending = p } in
        finishing uv (g ∷ []) (releasing (holding uv s).world) (holding uv s) ≡ some (s, [])
  unfolding finish releasing release
  release-held g none e p v h = absurd (cc)
  release-held g (some x) e p v h = ground (arith, decr-incr x.ref_count)

  -- The write callback of a write that succeeded, where the connection has another reference.
  resumed_writer-Held :
      (first : Calls Method) (g : System Handle → Option (System Handle)) (x : Connection Handle)
      (e : Env) (s : System Handle)
      → Inv uv (put uv (kept x e) s)
      → Leads first true
          (finishing uv
            (meanwhile (λ t. make_calls uv first t) g)
            (resuming (kept (held uv x) e) releasing)
            s)
          s
          (kept x e)
  unfolding finish
  resumed_writer-Held first g x e s v =
      let (t, p, reach, keep) = make_calls-Reach uv first (put uv (kept x e) s) v in
      let q : make_calls uv first (put uv (kept (held uv x) e) s) ≡ some (holding uv t) =
        make_calls-hold uv first (put uv (kept x e) s) ∙ ap (Option.map (holding uv)) p in
      (
        t,
        [],
        rw (q, finish)
            (release-held g t.world.conn t.world.env t.pending (Reach-Inv uv reach v) (keep refl)),
        p,
      )

  -- The same where the write request has the last reference.
  resumed_writer-Freed :
      (first : Calls Method) (g : System Handle → Option (System Handle)) (x : Connection Handle)
      (e : Env) (s : System Handle)
      → Inv uv (put uv (release x e) s)
      → is_nonpos (decr x.ref_count) ≡ true
      → (finishing uv (meanwhile (λ t. make_calls uv first t) g) (resuming (kept x e) releasing) s
          ≡ some (put uv (release x e) s, []))
        × (make_calls uv first (put uv (release x e) s) ≡ some (put uv (release x e) s))
  unfolding finish releasing release
  resumed_writer-Freed first g x e s v h = ground (
    arith,
    make_calls-delinked uv first (put uv (kept x e) s),
    make_calls-delinked uv first (put uv (release x e) s),
  )

  resumed_writer :
      (first : Calls Method) (g : System Handle → Option (System Handle)) (x : Connection Handle)
      (e : Env) (s : System Handle)
      → Inv uv (put uv (release x e) s)
      → Leads first true
          (finishing uv
            (meanwhile (λ t. make_calls uv first t) g)
            (resuming (kept x e) releasing)
            s)
          s
          (release x e)
  unfolding release
  resumed_writer first g x e s v = elim (Bool-cases (is_nonpos (decr x.ref_count))) [
    | inl h ↦
        let (p, q) = resumed_writer-Freed first g x e s v h in (put uv (release x e) s, [], p, q)
    | inr h ↦
        let y : Connection Handle = record x { ref_count = decr x.ref_count } in
        let q : release x e ≡ kept y e = rw h refl in
        let back : held uv y ≡ x =
          ap (λ n. let z : Connection Handle = record x { ref_count = n } in z)
            (incr-decr x.ref_count) in
        subst
          (λ z.
            Leads first true
              (finishing uv (meanwhile (λ t. make_calls uv first t) g)
                (resuming (kept z e) releasing) s)
              s (release x e))
          back
          (subst
            (Leads first true
              (finishing uv (meanwhile (λ t. make_calls uv first t) g)
                (resuming (kept (held uv y) e) releasing) s)
              s)
            (sym q) (resumed_writer-Held first g y e s (subst (λ w. Inv uv (put uv w s)) q v)))
  ]

  -- The connection and the rest as the resumed writer finds them.
  abbrev written : Connection Handle → Connection Handle
  written t = record t {
    write_req_data = false;
    write_timer = stop_timer uv t.write_timer;
    lua_writer_tid = pos 0;
  }

  abbrev told : Connection Handle → Env → Env
  told t e = record e {
    calls = record { tid = t.lua_writer_tid; status = true; result = integer (pos 1) } ∷ e.calls;
  }

  on_write-resuming :
      (n : ℤ) (t : Connection Handle) (s : System Handle)
      → is_zero n ≡ true
      → s.world.conn ≡ some t
      → t.write_req_data ≡ true
      → is_zero t.lua_writer_tid ≡ false
      → on_write_script uv n s.world ≡ resuming (kept (written t) (told t s.world.env)) releasing
  unfolding on_write_script resume
  on_write-resuming n t s k p h z = ground arith

  pub on_write-Leads :
      (n : ℤ) (first : Calls Method) (g : System Handle → Option (System Handle))
      (c : Option (Connection Handle)) (s : System Handle) (w : World Handle) (r : List Value)
      → is_zero n ≡ true
      → s.world.conn ≡ c
      → on_write uv n s.world ≡ some (w, r)
      → Inv uv (put uv w s)
      → Leads first
          (resumes uv (Callback.has_written n) c)
          (finishing uv (meanwhile (λ t. make_calls uv first t) g) (on_write_script uv n s.world) s)
          s
          w
  unfolding on_write on_write_script write_finished resume resume_lua_thread finish releasing
  on_write-Leads n first g none s w r k p q v = absurd (ground arith)
  on_write-Leads n first g (some t) s w r k p q v = elim (Bool-cases t.write_req_data) [
    | inr h ↦ (put uv w s, [], ground arith, ground arith)
    | inl h ↦ elim (Bool-cases (is_zero t.lua_writer_tid)) [
      | inl z ↦ (put uv w s, [], ground arith, ground arith)
      | inr z ↦
          let x = written t in
          let e = told t s.world.env in
          let same : w ≡ release x e = ground arith in
          let (u, r, eq, calls) =
            resumed_writer first g x e s (subst (λ w. Inv uv (put uv w s)) same v) in
          let yes : resumes uv (Callback.has_written n) (some t) ≡ true = rw (k, h, z) refl in
          (
            u,
            r,
            rw (on_write-resuming n t s k p h z) eq,
            ap (λ b. then_calls uv first b (put uv w s)) yes
                ∙ ap (λ w. make_calls uv first (put uv w s)) same
                ∙ calls,
          )
    ]
  ]
