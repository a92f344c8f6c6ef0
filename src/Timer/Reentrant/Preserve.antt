-- ===== src/Timer/Reentrant/Preserve.antt =====
-- The invariant of user timers at the resumes and at the ends of the functions of src/luaw_timer.c.
use luaw.Prelude.{
  ◌≡◌, refl, Bool, true, false, List, [], ◌∷◌, Option, none, some, arith, ◌⊎◌, inl, inr, Bool-cases,
  subst, sym, ◌∙◌,
}
use luaw.Prelude.Int.{ℤ, is_zero}
use luaw.Lua.{Value, Resume, error_to_lua, format, strerror}
use luaw.Lua.Script.{returned, resuming, fault, Calls, finish, nested-fixed}
use luaw.Uv.{Uv, close_if_active-is_closing}
use luaw.Timer.{Timer, World, is_ticking, clear_user_timer, wait_user_timer}
use luaw.Timer.Run.{System, handle_closing}
use luaw.Timer.Safety.{Live, TimerInv, Inv}
use luaw.Timer.Reentrant.{
  Method, TimerScript, script, put, perform, make_calls, resume, close_handle, close_script,
  start_script, stop_script, clear_and_stop, delete_script, timeout_script, finishing,
}

module _ (uv : Uv) where
  open uv use {Handle}

  -- Whatever is called, a timer that Lua no longer reaches stays as it is.
  pub perform-delinked :
      (m : Method) (fs : List (System Handle → Option (System Handle))) (s : System Handle)
      → s.world.udata ≡ false
      → perform uv m fs s ≡ some s
  unfolding perform finish script start_script stop_script delete_script wait_user_timer
  perform-delinked (Method.start n) fs s h = rw h (ground arith)
  perform-delinked (Method.wait n) fs s h = rw h (ground arith)
  perform-delinked Method.stop fs s h = rw h (ground arith)
  perform-delinked Method.delete fs s h = rw h (ground arith)
  perform-delinked Method.gc fs s h = rw h (ground arith)

  pub make_calls-delinked :
      (ks : Calls Method) (s : System Handle) → s.world.udata ≡ false → make_calls uv ks s ≡ some s
  make_calls-delinked ks s h = nested-fixed (perform uv) s (λ m fs. perform-delinked m fs s h) ks

  -- What may run while a C function waits: it reads no freed timer, it keeps the invariant, and it
  -- leaves a timer alone that Lua no longer reaches.
  pub record Allowed (f : System Handle → Option (System Handle)) : Type 0 where
    pub safe :
        (s : System Handle)
        → Inv uv s
        → (t : System Handle) × (f s ≡ some t) × Inv uv t × (t.is_closed ≡ s.is_closed)
    pub idle : (s : System Handle) → s.world.udata ≡ false → f s ≡ some s

  abbrev pub AllAllowed : List (System Handle → Option (System Handle)) → Type 0
  AllAllowed [] = Unit
  AllAllowed (f ∷ fs) = Allowed f × AllAllowed fs

  -- A script that reads no freed timer and ends with the invariant. Where it runs a thread, either
  -- the invariant holds there, or Lua no longer reaches the timer.
  abbrev pub Good : Bool → TimerScript Handle → Type 0
  Good c fault = ⊥
  Good c (returned w r) = TimerInv uv w.udata c w.timer
  Good c (resuming w k) =
      ((w.udata ≡ false) × Good c (k w))
      ⊎ (TimerInv uv w.udata c w.timer
          × ((w' : World Handle) → TimerInv uv w'.udata c w'.timer → Good c (k w')))

  pub finish-Good :
      (fs : List (System Handle → Option (System Handle)))
      → AllAllowed fs
      → (sc : TimerScript Handle) (s : System Handle) → Good s.is_closed sc
      → (t : System Handle) × (r : List Value) × (finishing uv fs sc s ≡ some (t, r))
        × Inv uv t
        × (t.is_closed ≡ s.is_closed)
  unfolding finish
  finish-Good fs a fault s g = absurd g
  finish-Good [] a (returned w r) s g = (put uv w s, r, refl, g, refl)
  finish-Good (f ∷ fs) a (returned w r) s g = (put uv w s, r, refl, g, refl)
  finish-Good [] a (resuming w k) s (inl (h, g)) = finish-Good [] a (k w) (put uv w s) g
  finish-Good [] a (resuming w k) s (inr (v, g)) = finish-Good [] a (k w) (put uv w s) (g w v)
  finish-Good (f ∷ fs) a (resuming w k) s (inl (h, g)) =
      rw (a.0.idle (put uv w s) h) (finish-Good fs a.1 (k w) (put uv w s) g)
  finish-Good (f ∷ fs) a (resuming w k) s (inr (v, g)) =
      let (t, p, i, e) = a.0.safe (put uv w s) v in
      let (u, r, q, j, d) = finish-Good fs a.1 (k t.world) t (
        subst (λ c. Good c (k t.world)) (sym e)
          (g t.world (subst (λ c. TimerInv uv t.world.udata c t.world.timer) e i))) in
      (u, r, rw p q, j, d ∙ e)

  close-Good :
      (c : Bool) (r : List Value) (w : World Handle) (t : Timer Handle)
      → Live uv w.udata c t
      → Good c (close_script uv r (record w { timer = some t }))
  unfolding close_script resume close_handle
  close-Good c r w t v = ground (arith, close_if_active-is_closing uv t.handle)

  module _ (c : Bool) (w : World Handle) where
    abbrev at : Option (Timer Handle) → World Handle
    at t = record w { timer = t }

    pub start-Good :
        (n : ℤ) (t : Option (Timer Handle))
        → TimerInv uv w.udata c t
        → Good c (start_script uv n (at t))
    unfolding start_script
    start-Good n none v = ground arith
    start-Good n (some t) v = ground (
      arith,
      uv.start-is_closing t.handle n,
      close-Good c
          (error_to_lua
            (format "Error starting timer: %s" (strerror (uv.timer_start_rc t.handle n))))
          w (record t { handle = uv.timer_start t.handle n }),
    )

    clear_and_stop-Good :
        (t : Option (Timer Handle))
        → c ≡ false
        → TimerInv uv w.udata c t
        → Good c (clear_and_stop uv (at t))
    unfolding clear_and_stop clear_user_timer
    clear_and_stop-Good none e v = ground arith
    clear_and_stop-Good (some t) e v = ground (arith, uv.stop-is_closing t.handle)

  pub stop-Good :
      (c u : Bool) (calls : List Resume) (t : Option (Timer Handle))
      → TimerInv uv u c t
      → Good c (stop_script uv (record { udata = u; timer = t; calls = calls }))
  unfolding stop_script resume
  stop-Good c false calls t v = v
  stop-Good c true calls none v = ground arith
  stop-Good c true calls (some t) v =
      let clears : (w : World Handle)
          → TimerInv uv w.udata c w.timer
          → Good c (clear_and_stop uv w) =
        λ w i. clear_and_stop-Good c w w.timer v.attached.1 i in
      elim (Bool-cases (is_ticking t.state)) [
        | inr k ↦ rw k v
        | inl k ↦ elim (Bool-cases (is_zero t.lua_tid)) [
          | inl z ↦ rw (k, z) (clears (record { udata = true; timer = some t; calls = calls }) v)
          | inr z ↦ rw (k, z) (inr (v, clears))
        ]
      ]

  module _ (c : Bool) (w : World Handle) where
    abbrev this : Option (Timer Handle) → World Handle
    this t = record w { timer = t }

    pub delete-Good :
        (t : Option (Timer Handle)) → TimerInv uv w.udata c t → Good c (delete_script uv (this t))
    unfolding delete_script
    delete-Good none v = ground arith
    delete-Good (some t) v = ground (arith, close-Good c [] w t)

    pub timeout-Good :
        (t : Option (Timer Handle))
        → TimerInv uv w.udata c t
        → handle_closing uv t ≡ false
        → Good c (timeout_script uv (this t))
    unfolding timeout_script resume
    timeout-Good none v h = ground arith
    timeout-Good (some t) v h = ground arith
