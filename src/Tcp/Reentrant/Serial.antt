-- ===== src/Tcp/Reentrant/Serial.antt =====
-- Histories in which resumed threads call a connection's methods inside the C function that resumed
-- them, against histories in which nothing runs inside another call.
use luaw.Prelude.{
  ◌≡◌, ◌++◌, ◌&&◌, if◌then◌else◌, refl, Bool, true, false, List, [], ◌∷◌, Option, none, some,
  Bool-cases, inl, inr, ◌∙◌, sym, ap,
}
use luaw.Lua.{Value}
use luaw.Lua.Script.{Calls, done, call, nested, meanwhile}
use luaw.Uv.{Uv}
use luaw.Tcp.Run.{
  System, Event, step, run, is_enabled, pending_after, in_flight, advance, Step, Reach, does,
  created,
}
use luaw.Tcp.Safety.{Inv, created-Inv, Reach-Inv, Step-Inv, Inv-no_fault}
use luaw.Tcp.Reentrant.{Method, Callback, Turn, as_event, event_of}
use luaw.Tcp.Reentrant.Turns.{put, finishing, make_calls, call_back, turn, turns, callback_script}
use luaw.Tcp.Reentrant.Atomic.{atomic, perform-nested}
use luaw.Tcp.Reentrant.Callbacks.{resumes}
use luaw.Tcp.Reentrant.Nested.{then_calls}
use luaw.Tcp.Reentrant.Alone.{pending_same, callback-Leads, writes_linked}
use luaw.Tcp.Reentrant.Flat.{step-enabled, step-disabled, run-next, run-Reach, run-++}

-- The calls without what runs inside them.
abbrev pub outer : Calls Method → List Event
outer done = []
outer (call m first second after) = as_event m ∷ outer after

module _ (uv : Uv) where
  open uv use {Handle}

  method_step : (m : Method) (s : System Handle) → atomic uv m s ≡ step uv (as_event m) s
  unfolding step
  method_step Method.start_read s = refl
  method_step (Method.reads tid n b) s = refl
  method_step (Method.writes tid b n) s = refl
  method_step Method.close s = refl
  method_step Method.gc s = refl

  make_calls-serial :
      (ks : Calls Method) (s : System Handle) → make_calls uv ks s ≡ run uv (outer ks) s
  unfolding nested run
  make_calls-serial done s = refl
  make_calls-serial (call m first second after) s =
      rw (perform-nested uv m first second s, method_step m s, nested)
        (rest (step uv (as_event m) s) (make_calls-serial after))
    where
      rest :
          (o : Option (System Handle))
          → ((t : System Handle) → make_calls uv after t ≡ run uv (outer after) t)
          → elim o [ none ↦ none | some t ↦ make_calls uv after t ]
            ≡ elim o [ none ↦ none | some t ↦ run uv (outer after) t ]
      rest none same = refl
      rest (some t) same = same t

  -- The calls and callbacks of a turn, one after the other.
  abbrev pub events : Turn → System Handle → List Event
  events (Turn.calls ks) s = outer ks
  events (Turn.callback c first second) s =
      event_of c
      ∷ (if is_enabled uv (event_of c) s && resumes uv c s.world.conn then outer first else [])

  abbrev pub flatten : List Turn → System Handle → List Event
  flatten [] s = []
  flatten (e ∷ es) s = events e s ++ elim (turn uv e s) [ none ↦ [] | some t ↦ flatten es t ]

  then_calls-run :
      (ks : Calls Method) (b : Bool) (s : System Handle)
      → then_calls uv ks b s ≡ run uv (if b then outer ks else []) s
  then_calls-run ks false s = unfold run in refl
  then_calls-run ks true s = make_calls-serial ks s

  call_back-enabled :
      (c : Callback) (fs : List (System Handle → Option (System Handle))) (s t : System Handle)
      (r : List Value)
      → is_enabled uv (event_of c) s ≡ true
      → finishing uv fs (callback_script uv c s.world) (record s {
        pending = pending_after uv (event_of c) [] (in_flight uv s.world.conn) s.pending;
      })
        ≡ some (t, r)
      → call_back uv c fs s ≡ some t
  unfolding call_back
  call_back-enabled c fs s t r h p = rw (h, p) refl

  call_back-disabled :
      (c : Callback) (fs : List (System Handle → Option (System Handle))) (s : System Handle)
      → is_enabled uv (event_of c) s ≡ false
      → call_back uv c fs s ≡ some s
  unfolding call_back
  call_back-disabled c fs s h = rw h refl

  callback-serial :
      (c : Callback) (first second : Calls Method) (s : System Handle)
      → Inv uv s
      → turn uv (Turn.callback c first second) s
        ≡ run uv (events (Turn.callback c first second) s) s
  unfolding turn
  callback-serial c first second s v = elim (Bool-cases (is_enabled uv (event_of c) s)) [
    | inr h ↦
        call_back-disabled c fs s h
        ∙ sym (
            run-next uv (event_of c) (calls_after (is_enabled uv (event_of c) s)) s s
              (step-disabled uv (event_of c) s h)
            ∙ ap (λ b. run uv (calls_after b) s) h
            ∙ unfold run in refl)
    | inl h ↦
        let (w, r, p) = Inv-no_fault uv s (event_of c) v h in
        let b = in_flight uv s.world.conn in
        let now : System Handle = record s {
          pending = pending_after uv (event_of c) [] b s.pending;
        } in
        let same : advance uv (event_of c) s w r ≡ put uv w now =
          ap (λ p. let t : System Handle = record { world = w; pending = p } in t)
            (pending_same uv c r b s.pending) in
        let st : Step uv s (put uv w now) = does (event_of c) w r h p (sym same) in
        let (t, q, d, follow) =
          callback-Leads uv first second c now w r
            (writes_linked uv s.world.env.udata s.pending s.world.conn v) p (Step-Inv uv st v) in
        call_back-enabled c fs s t q h d
        ∙ sym (
            run-next uv (event_of c) (calls_after (is_enabled uv (event_of c) s)) s (put uv w now)
              (step-enabled uv (event_of c) s w r h p ∙ ap some same)
            ∙ ap (λ b. run uv (calls_after b) (put uv w now)) h
            ∙ sym (then_calls-run first (resumes uv c s.world.conn) (put uv w now))
            ∙ follow)
  ]
    where
      fs : List (System Handle → Option (System Handle))
      fs = meanwhile (λ t. make_calls uv first t) (λ t. make_calls uv second t)

      calls_after : Bool → List Event
      calls_after b = if b && resumes uv c s.world.conn then outer first else []

  turn-serial : (e : Turn) (s : System Handle) → Inv uv s → turn uv e s ≡ run uv (events e s) s
  turn-serial (Turn.calls ks) s v = unfold turn in make_calls-serial ks s
  turn-serial (Turn.callback c first second) s v = callback-serial c first second s v

  -- Threads that an operation resumes may call the connection's methods before the operation goes on.
  -- From a state of the invariant, such a history has the result of one without calls inside another:
  -- of its calls and callbacks in their order, where those that a callback's thread makes follow the
  -- callback, and those that a thread makes inside a closing are left out.
  history-serial :
      (es : List Turn) (s : System Handle) → Inv uv s → turns uv es s ≡ run uv (flatten es s) s
  unfolding turns
  history-serial [] s v = unfold turns run in refl
  history-serial (e ∷ es) s v =
      let (t, p, reach) = run-Reach uv (events e s) s v in
      rest t (turn uv e s) p (turn-serial e s v ∙ p) (history-serial es t (Reach-Inv uv reach v))
    where
      rest :
          (t : System Handle) (o : Option (System Handle))
          → run uv (events e s) s ≡ some t
          → o ≡ some t
          → turns uv es t ≡ run uv (flatten es t) t
          → elim o [ none ↦ none | some u ↦ turns uv es u ]
            ≡ run uv (events e s ++ elim o [ none ↦ [] | some u ↦ flatten es u ]) s
      rest t o p q same = rw q (same ∙ sym (run-++ uv (events e s) (flatten es t) s t p))

  -- Threads that an operation resumes may call the connection's methods before the operation goes on,
  -- to any depth. In every such history of a new connection no operation reads a freed connection: it
  -- ends in the state that its calls and callbacks lead to one after the other, where those that a
  -- callback's thread makes follow the callback and those that a thread makes inside a closing are left
  -- out. That state is reached by steps.
  pub turns-created-Reach :
      (es : List Turn)
      → (t : System Handle) × (turns uv es (created uv) ≡ some t)
        × (run uv (flatten es (created uv)) (created uv) ≡ some t)
        × Reach uv (created uv) t
  turns-created-Reach es =
      let (t, p, reach) = run-Reach uv (flatten es (created uv)) (created uv) (created-Inv uv) in
      (t, history-serial es (created uv) (created-Inv uv) ∙ p, p, reach)
