-- ===== src/Timer/Safety.antt =====
-- Memory safety of user timers: no history reads a freed timer, and the timer is freed.
use luaw.Prelude.{
  ℕ, ◌+◌, ◌++◌, ◌≡◌, refl, Bool, true, false, List, [], ◌∷◌, Option, none, some, not, arith, ◌↔◌,
  inl, inr, Bool-cases,
}
use luaw.Prelude.Int.{ℤ, pos, is_zero}
use luaw.Lua.{Resume, Value}
use luaw.Uv.{Uv, close_if_active-is_closing}
use luaw.Timer.{
  Timer, World, Outcome, ticking, start_user_timer, wait_user_timer, stop_user_timer,
  close_timer_lua, on_user_timer_timeout, free_user_timer, new_user_timer, close_timer, timer_gc,
}
use luaw.Timer.Run.{
  System, Event, execute, is_enabled, closed_after, blocks, step, run, created, handle_closing,
}

abbrev pub bit : Bool → ℕ
bit true = 1
bit false = 0

module _ (uv : Uv) where
  open uv use {Handle, is_closing}

  -- What holds of a timer that is not freed. Each pointer that is set is one reference.
  pub record Live (udata is_closed : Bool) (t : Timer Handle) : Type 0 where
    pub linked : t.lua_ref ≡ udata
    pub attached : (t.handle_data ≡ true) × (is_closed ≡ false)
    pub counted : t.ref_count ≡ pos (bit t.lua_ref + bit t.handle_data)
    pub closing : is_closing t.handle ≡ not t.lua_ref
    pub waiting : is_zero t.lua_tid ≡ false → (t.state ≡ ticking) × (t.lua_ref ≡ true)

  abbrev pub TimerInv : Bool → Bool → Option (Timer Handle) → Type 0
  TimerInv udata is_closed none = (udata ≡ false) × (is_closed ≡ true)
  TimerInv udata is_closed (some t) = Live udata is_closed t

  abbrev pub Inv : System Handle → Type 0
  Inv s = TimerInv s.world.udata s.is_closed s.world.timer

  -- No fault, and the invariant afterwards.
  abbrev pub Keeps : Bool → Outcome Handle → Type 0
  Keeps is_closed none = ⊥
  Keeps is_closed (some (w, r)) = TimerInv w.udata is_closed w.timer

  -- A timer that is closed once its userdata is delinked, whatever it was before.
  close-Inv :
      (c : Bool) (t : Timer Handle) (w : World Handle)
      → Live w.udata c t
      → w.timer ≡ some t
      → TimerInv (close_timer uv t w).udata c (close_timer uv t w).timer
  unfolding close_timer
  close-Inv c t w v e = ground (arith, close_if_active-is_closing uv t.handle)

  module _ (u c : Bool) (calls : List Resume) where
    abbrev at : Option (Timer Handle) → World Handle
    at t = record { udata = u; timer = t; calls = calls }

    start-Inv :
        (n : ℤ) (t : Option (Timer Handle))
        → TimerInv u c t
        → Keeps c (start_user_timer uv n (at t))
    unfolding start_user_timer
    start-Inv n none v = ground arith
    start-Inv n (some t) v = ground (
      arith,
      uv.start-is_closing t.handle n,
      close_if_active-is_closing uv (uv.timer_start t.handle n),
    )

    wait-Inv :
        (n : ℤ) (t : Option (Timer Handle)) → TimerInv u c t → Keeps c (wait_user_timer uv n (at t))
    unfolding wait_user_timer
    wait-Inv n none v = ground arith
    wait-Inv n (some t) v = ground arith

    stop-Inv : (t : Option (Timer Handle)) → TimerInv u c t → Keeps c (stop_user_timer uv (at t))
    unfolding stop_user_timer
    stop-Inv none v = ground arith
    stop-Inv (some t) v = ground (arith, uv.stop-is_closing t.handle)

    delete-Inv : (t : Option (Timer Handle)) → TimerInv u c t → Keeps c (close_timer_lua uv (at t))
    unfolding close_timer_lua
    delete-Inv none v = ground arith
    delete-Inv (some t) v = ground (arith, close_if_active-is_closing uv t.handle)

    timeout-Inv :
        (t : Option (Timer Handle))
        → TimerInv u c t
        → handle_closing uv t ≡ false
        → Keeps c (on_user_timer_timeout uv (at t))
    unfolding on_user_timer_timeout
    timeout-Inv none v h = ground arith
    timeout-Inv (some t) v h = ground arith

    closed-Inv :
        (t : Option (Timer Handle))
        → TimerInv u c t
        → handle_closing uv t ≡ true
        → c ≡ false
        → Keeps true (free_user_timer uv (at t))
    unfolding free_user_timer
    closed-Inv none v h k = ground arith
    closed-Inv (some t) v h k = ground arith

  -- A live timer has a handle that is not closed, so it is freed with its last reference.
  pub freed :
      (t : Option (Timer Handle)) (u c : Bool)
      → TimerInv u c t
      → (t ≡ none) ↔ ((u ≡ false) × (c ≡ true))
  freed none u c v = (λ _. v, λ _. refl)
  freed (some t) u c v = (λ e. cc, λ h. ground arith)

  pub execute-Inv :
      (e : Event) (s : System Handle)
      → Inv s
      → is_enabled uv e s ≡ true
      → Keeps (closed_after uv e s.is_closed) (execute uv e s.world)
  unfolding execute
  execute-Inv (Event.start n) s v h =
      start-Inv s.world.udata s.is_closed s.world.calls n s.world.timer v
  execute-Inv (Event.wait n) s v h =
      wait-Inv s.world.udata s.is_closed s.world.calls n s.world.timer v
  execute-Inv Event.stop s v h = stop-Inv s.world.udata s.is_closed s.world.calls s.world.timer v
  execute-Inv Event.delete s v h =
      delete-Inv s.world.udata s.is_closed s.world.calls s.world.timer v
  execute-Inv Event.gc s v h =
      unfold timer_gc close_timer_lua in
      delete-Inv s.world.udata s.is_closed s.world.calls s.world.timer v
  execute-Inv Event.timeout s v h =
      timeout-Inv s.world.udata s.is_closed s.world.calls s.world.timer v (ground arith)
  execute-Inv Event.closed s v h =
      closed-Inv s.world.udata s.is_closed s.world.calls s.world.timer v (ground arith)
        (ground arith)

  pub Keeps-cases :
      (c : Bool) (o : Outcome Handle)
      → Keeps c o
      → (w : World Handle) × (r : List Value) × (o ≡ some (w, r)) × TimerInv w.udata c w.timer
  Keeps-cases c none k = absurd k
  Keeps-cases c (some (w, r)) k = (w, r, refl, k)

  pub step-Inv :
      (e : Event) (s : System Handle) → Inv s → (t : System Handle) × (step uv e s ≡ some t) × Inv t
  unfolding step
  step-Inv e s v = elim (Bool-cases (is_enabled uv e s)) [
    | inl h ↦
        let (w, r, p, k) =
          Keeps-cases (closed_after uv e s.is_closed) (execute uv e s.world)
            (execute-Inv e s v h) in
        (
          record {
            world = w;
            is_closed = closed_after uv e s.is_closed;
            blocked = blocks uv e r ++ s.blocked;
          },
          rw (h, p),
          k,
        )
    | inr h ↦ (s, rw h, v)
  ]

  pub run-Inv :
      (es : List Event) (s : System Handle)
      → Inv s
      → (t : System Handle) × (run uv es s ≡ some t) × Inv t
  unfolding run
  run-Inv [] s v = (s, refl, v)
  run-Inv (e ∷ es) s v =
      let (t, p, k) = step-Inv e s v in let (u, q, j) = run-Inv es t k in (u, rw (p, run) q, j)

  pub created-Inv : Inv (created uv)
  unfolding created new_user_timer
  created-Inv = ground (arith, uv.fresh-is_closing)
