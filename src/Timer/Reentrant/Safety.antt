-- ===== src/Timer/Reentrant/Safety.antt =====
-- Memory safety of user timers when resumed threads call their methods before the C function that
-- resumed them goes on.
use luaw.Prelude.{
  ◌++◌, ◌≡◌, refl, Bool, true, false, List, [], ◌∷◌, Option, none, some, arith, ◌↔◌, inl, inr,
  Bool-cases, ◌∙◌,
}
use luaw.Lua.{Value}
use luaw.Lua.Script.{Calls, done, call, nested, meanwhile}
use luaw.Uv.{Uv}
use luaw.Timer.{World, wait_user_timer, free_user_timer}
use luaw.Timer.Run.{System, Event, blocks, is_enabled, created, execute}
use luaw.Timer.Safety.{Inv, freed, created-Inv, execute-Inv, Keeps, Keeps-cases}
use luaw.Timer.Reentrant.{
  Method, Turn, as_event, script, perform, make_calls, turn, turns, of_outcome, timeout_script,
  timeout_turn, closed_turn,
}
use luaw.Timer.Reentrant.Preserve.{
  make_calls-delinked, Allowed, AllAllowed, Good, finish-Good, start-Good, stop-Good, delete-Good,
  timeout-Good,
}

module _ (uv : Uv) where
  open uv use {Handle}

  of_outcome-Good :
      (c : Bool) (o : Option (World Handle × List Value)) → Keeps uv c o → Good uv c (of_outcome o)
  of_outcome-Good c none v = absurd v
  of_outcome-Good c (some (w, r)) v = v

  script-Good :
      (m : Method) (s : System Handle) → Inv uv s → Good uv s.is_closed (script uv m s.world)
  unfolding script execute
  script-Good (Method.start n) s v = start-Good uv s.is_closed s.world n s.world.timer v
  script-Good (Method.wait n) s v =
      of_outcome-Good s.is_closed (wait_user_timer uv n s.world)
        (execute-Inv uv (Event.wait n) s v refl)
  script-Good Method.stop s v = stop-Good uv s.is_closed s.world.udata s.world.calls s.world.timer v
  script-Good Method.delete s v = delete-Good uv s.is_closed s.world s.world.timer v
  script-Good Method.gc s v = delete-Good uv s.is_closed s.world s.world.timer v

  perform-safe :
      (m : Method) (fs : List (System Handle → Option (System Handle)))
      → AllAllowed uv fs
      → (s : System Handle) → Inv uv s
      → (t : System Handle) × (perform uv m fs s ≡ some t) × Inv uv t × (t.is_closed ≡ s.is_closed)
  unfolding perform
  perform-safe m fs a s v =
      let (t, r, p, i, e) = finish-Good uv fs a (script uv m s.world) s (script-Good m s v) in
      (record t { blocked = blocks uv (as_event m) r ++ t.blocked }, rw (p, perform) refl, i, e)

  -- Calls of methods are such calls again, at every depth.
  make_calls-Allowed : (ks : Calls Method) → Allowed uv (λ s. make_calls uv ks s)
  unfolding nested
  make_calls-Allowed done = record {
    safe = λ s v. (s, refl, v, refl);
    idle = make_calls-delinked uv done;
  }
  make_calls-Allowed (call m first second after) = record {
    safe = λ s v.
        let fs = meanwhile (λ t. make_calls uv first t) (λ t. make_calls uv second t) in
        let (t, p, i, e) =
          perform-safe m fs (make_calls-Allowed first, (make_calls-Allowed second, tt)) s v in
        let (u, q, j, d) = (make_calls-Allowed after).safe t i in (u, rw (p, nested) q, j, d ∙ e);
    idle = make_calls-delinked uv (call m first second after);
  }

  turn-Inv :
      (e : Turn) (s : System Handle)
      → Inv uv s
      → (t : System Handle) × (turn uv e s ≡ some t) × Inv uv t
  unfolding turn timeout_turn closed_turn execute
  turn-Inv (Turn.calls ks) s v = let (t, p, i, _) = (make_calls-Allowed ks).safe s v in (t, p, i)
  turn-Inv (Turn.timeout during) s v = elim (Bool-cases (is_enabled uv Event.timeout s)) [
    | inr h ↦ (s, rw h refl, v)
    | inl h ↦
        let (t, r, p, i, _) =
          finish-Good uv ((λ t. make_calls uv during t) ∷ []) (make_calls-Allowed during, tt)
            (timeout_script uv s.world) s
            (timeout-Good uv s.is_closed s.world s.world.timer v (ground arith)) in
        (t, rw (h, p) refl, i)
  ]
  turn-Inv Turn.closed s v = elim (Bool-cases (is_enabled uv Event.closed s)) [
    | inr h ↦ (s, rw h refl, v)
    | inl h ↦
        let (w, r, p, k) =
          Keeps-cases uv true (free_user_timer uv s.world) (execute-Inv uv Event.closed s v h) in
        (record s { world = w; is_closed = true }, rw (h, p) refl, k)
  ]

  turns-Inv :
      (es : List Turn) (s : System Handle)
      → Inv uv s
      → (t : System Handle) × (turns uv es s ≡ some t) × Inv uv t
  unfolding turns
  turns-Inv [] s v = (s, refl, v)
  turns-Inv (e ∷ es) s v =
      let (t, p, i) = turn-Inv e s v in let (u, q, j) = turns-Inv es t i in (u, rw (p, turns) q, j)

  -- Threads that an operation resumes may call the timer's methods before the operation goes on, to
  -- any depth. In every such history of a new timer no operation reads a freed timer, and the timer
  -- is freed exactly if its userdata was delinked and libuv has closed its handle.
  pub turns-created_safe :
      (es : List Turn)
      → (t : System Handle) × (turns uv es (created uv) ≡ some t)
        × ((t.world.timer ≡ none) ↔ ((t.world.udata ≡ false) × (t.is_closed ≡ true)))
  turns-created_safe es =
      let (t, p, v) = turns-Inv es (created uv) (created-Inv uv) in
      (t, p, freed uv t.world.timer t.world.udata t.is_closed v)
