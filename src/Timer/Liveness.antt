-- ===== src/Timer/Liveness.antt =====
-- Every user timer can be freed, and then nobody waits for it.
use luaw.Prelude.{
  ◌≡◌, refl, ◌∙◌, Option-cases, inl, inr, true, false, List, [], ◌∷◌, ◌++◌, Option, none, some,
  arith,
}
use luaw.Uv.{Uv}
use luaw.Timer.{Timer, close_timer_lua, close_timer, free_user_timer}
use luaw.Timer.Run.{System, Event, delete, closed, execute, step, run, created}
use luaw.Timer.Safety.{TimerInv, step-Inv, run-Inv, created-Inv, freed}
use luaw.Timer.Wakeups.{run-created_wakeups, resumed}

module _ (uv : Uv) where
  open uv use {Handle}

  run-append :
      (es fs : List Event) (s t : System Handle)
      → run uv es s ≡ some t
      → run uv (es ++ fs) s ≡ run uv fs t
  unfolding run
  run-append [] fs s t p = cc
  run-append (e ∷ es) fs s t p = elim (Option-cases (step uv e s)) [
    | inl q ↦ cc (rw (q, run) at p)
    | inr (m, q) ↦ rw (q, run) (run-append es fs m t (rw (q, run) at p))
  ]

  run_two :
      (e f : Event) (s m t : System Handle)
      → step uv e s ≡ some m
      → step uv f m ≡ some t
      → run uv (e ∷ f ∷ []) s ≡ some t
  unfolding run
  run_two e f s m t p q = ground arith

  -- `delete` delinks the userdata of a timer that has it.
  delete-udata :
      (o : Option (Timer Handle)) (s t : System Handle)
      → s.world.timer ≡ o
      → TimerInv uv s.world.udata s.is_closed o
      → step uv delete s ≡ some t
      → t.world.udata ≡ false
  unfolding step execute close_timer_lua close_timer
  delete-udata none s t e v p = ground arith
  delete-udata (some x) s t e v p = ground arith

  closed-is_closed :
      (o : Option (Timer Handle)) (s t : System Handle)
      → s.world.timer ≡ o
      → TimerInv uv s.world.udata s.is_closed o
      → s.world.udata ≡ false
      → step uv closed s ≡ some t
      → (t.is_closed ≡ true) × (t.world.udata ≡ false)
  unfolding step execute free_user_timer
  closed-is_closed none s t e v d p = ground arith
  closed-is_closed (some x) s t e v d p = ground arith

  -- Whatever has happened to a timer, once it is deleted and its handle has been closed it is freed, and
  -- the threads that `resumeThreadId` was called with are those whose calls of `wait` blocked, one call
  -- for each, in the order in which they blocked.
  pub run-delete-closed :
      (es : List Event)
      → (t : System Handle) × (run uv (es ++ delete ∷ closed ∷ []) (created uv) ≡ some t)
        × (t.world.timer ≡ none)
        × (resumed uv t.world.calls ≡ t.blocked)
  run-delete-closed es =
      let (s, p, v) = run-Inv uv es (created uv) (created-Inv uv) in
      let (m, q, w) = step-Inv uv delete s v in
      let (t, r, x) = step-Inv uv closed m w in
      let d = delete-udata s.world.timer s m refl v q in
      let (c, u) = closed-is_closed m.world.timer m t refl w d r in
      let gone = (freed uv t.world.timer t.world.udata t.is_closed x).1 (u, c) in
      let whole : run uv (es ++ delete ∷ closed ∷ []) (created uv) ≡ some t =
        run-append es (delete ∷ closed ∷ []) (created uv) s p ∙ run_two delete closed s m t q r in
      (t, whole, gone, ground (arith, run-created_wakeups uv (es ++ delete ∷ closed ∷ []) t whole))
