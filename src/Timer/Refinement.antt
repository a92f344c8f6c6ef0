-- ===== src/Timer/Refinement.antt =====
-- User timers (src/luaw_timer.c) implement the machine of Timer.Phases.
use luaw.Prelude.{
  suc, length, ◌≡◌, refl, sym, ◌∙◌, ap, Bool, true, false, List, [], ◌∷◌, ◌++◌, Option, none, some,
  arith, Bool-cases, inl, inr,
}
use luaw.Uv.{Uv}
use luaw.Timer.{Timer, Outcome, new_user_timer}
use luaw.Timer.Run.{System, Event, execute, is_enabled, step, run, created, handle_closing}
use luaw.Timer.Safety.{TimerInv, Inv, step-Inv, run-Inv, created-Inv}
use luaw.Timer.Phases.{idle, move, moves, phase, Moves, fits, at-Moves}

module _ (uv : Uv) where
  open uv use {Handle}

  closing-delinked :
      (u c : Bool) (o : Option (Timer Handle))
      → TimerInv uv u c o
      → handle_closing uv o ≡ true
      → u ≡ false
  closing-delinked u c none v h = v.0
  closing-delinked u c (some t) v h = ground arith

  -- An event that libuv does not make leaves everything as it is, and so does the machine.
  still :
      (e : Event) (s : System Handle)
      → Inv uv s
      → is_enabled uv e s ≡ false
      → move uv true e (phase uv s.world) ≡ (phase uv s.world, [])
  unfolding move
  still (Event.start n) s v h = absurd (cc)
  still (Event.wait n) s v h = absurd (cc)
  still Event.stop s v h = absurd (cc)
  still Event.delete s v h = absurd (cc)
  still Event.gc s v h = absurd (cc)
  still Event.closed s v h = refl
  still Event.timeout s v h =
      let u = closing-delinked s.world.udata s.is_closed s.world.timer v (ground arith) in rw u refl

  -- The machine's state after an event, as the operation leaves it.
  abbrev Advances : System Handle → Event → System Handle → Type 0
  Advances s e t =
      (fit : Bool) × (phase uv t.world ≡ (move uv fit e (phase uv s.world)).0)
      × (t.world.calls ≡ (move uv fit e (phase uv s.world)).1 ++ s.world.calls)

  enabled-Advances :
      (e : Event) (s t : System Handle) (o : Outcome Handle) (fit : Bool)
      → is_enabled uv e s ≡ true
      → execute uv e s.world ≡ o
      → Moves uv fit e s.world o
      → step uv e s ≡ some t
      → Advances s e t
  unfolding step
  enabled-Advances e s t none fit h x m p = absurd (ground arith)
  enabled-Advances e s t (some (w, r)) fit h x m p =
      let same : t.world ≡ w = ground arith in
      (fit, ap (phase uv) same ∙ m.0, ap (λ x. x.calls) same ∙ m.1)

  step-Advances :
      (e : Event) (s t : System Handle) → Inv uv s → step uv e s ≡ some t → Advances s e t
  unfolding step
  step-Advances e s t v p = elim (Bool-cases (is_enabled uv e s)) [
    | inl h ↦
        enabled-Advances e s t (execute uv e s.world) _ h refl
          (at-Moves uv s.is_closed s.world.calls e s.blocked s.world.udata s.world.timer v h) p
    | inr h ↦
        let same : t.world ≡ s.world = ground arith in
        let kept = still e s v h in
        (
          true,
          ap (phase uv) same ∙ sym (ap (λ x. x.0) kept),
          ap (λ x. x.calls) same ∙ ap (λ x. x ++ s.world.calls) (sym (ap (λ x. x.1) kept)),
        )
  ]

  run-Advances :
      (es : List Event) (s t : System Handle)
      → Inv uv s
      → run uv es s ≡ some t
      → (fits : List Bool) × (length fits ≡ length es)
        × ((phase uv t.world, t.world.calls) ≡ moves uv fits es (phase uv s.world, s.world.calls))
  unfolding run moves
  run-Advances [] s t v p =
      let same : t ≡ s = cc in ([], refl, ap (λ x. (phase uv x.world, x.world.calls)) same)
  run-Advances (e ∷ es) s t v p =
      let (m, q, k) = step-Inv uv e s v in
      let (fit, x, y) = step-Advances e s m v q in
      let (fits, n, z) = run-Advances es m t k (rw (q, run) at p) in
      (fit ∷ fits, ap suc n, z ∙ ap (moves uv fits es) (rw (x, y) refl))

  -- Every history of a new timer is one of the machine of phases, which starts idle: with some answers
  -- of libuv to its requests to start, the machine ends in the timer's phase and resumes the same threads
  -- with the same results in the same order.
  pub run-moves :
      (es : List Event)
      → (t : System Handle) × (run uv es (created uv) ≡ some t)
        × (fits : List Bool) × (length fits ≡ length es)
        × ((phase uv t.world, t.world.calls) ≡ moves uv fits es (idle, []))
  unfolding created new_user_timer
  run-moves es =
      let (t, p, v) = run-Inv uv es (created uv) (created-Inv uv) in
      let (fits, n, z) = run-Advances es (created uv) t (created-Inv uv) p in (t, p, fits, n, z)
