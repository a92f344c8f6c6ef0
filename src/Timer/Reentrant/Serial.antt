-- ===== src/Timer/Reentrant/Serial.antt =====
-- Histories in which resumed threads call a timer's methods inside the C function that resumed them,
-- against histories in which nothing runs inside another call.
use luaw.Prelude.{
  ◌++◌, ◌≡◌, refl, Bool, true, false, List, [], ◌∷◌, Option, none, some, arith, if◌then◌else◌, not,
  ◌&&◌, sym, ◌∙◌, ap,
}
use luaw.Prelude.Int.{is_zero}
use luaw.Lua.Script.{Calls, done, call, nested, finish}
use luaw.Uv.{Uv}
use luaw.Timer.{Timer, World, on_user_timer_timeout, clear_user_timer, has_elapsed}
use luaw.Timer.Run.{System, Event, is_enabled, created, execute, step, run}
use luaw.Timer.Reentrant.{
  Method, Turn, as_event, put, make_calls, turn, turns, timeout_script, timeout_turn, closed_turn,
  resume,
}
use luaw.Timer.Reentrant.Preserve.{make_calls-delinked}
use luaw.Timer.Wakeups.{run-created_wakeups, waiting, resumed}
use luaw.Timer.Reentrant.Atomic.{perform-serial, is_stop}

-- No thread that a stop resumes calls the timer before the stop is done.
abbrev pub is_orderly : Calls Method → Bool
is_orderly done = true
is_orderly (call Method.stop done second after) = is_orderly after
is_orderly (call Method.stop first second after) = false
is_orderly (call m first second after) = is_orderly after

-- The calls without what runs inside them.
abbrev pub outer : Calls Method → List Event
outer done = []
outer (call m first second after) = as_event m ∷ outer after

abbrev pub all_orderly : List Turn → Bool
all_orderly [] = true
all_orderly (Turn.calls ks ∷ es) = is_orderly ks && all_orderly es
all_orderly (Turn.timeout ks ∷ es) = is_orderly ks && all_orderly es
all_orderly (Turn.closed ∷ es) = all_orderly es

is_orderly-after :
    (m : Method) (first second after : Calls Method)
    → is_orderly (call m first second after) ≡ true
    → is_orderly after ≡ true
is_orderly-after Method.stop done second after h = h
is_orderly-after Method.stop (call m a b c) second after h = absurd (cc)
is_orderly-after (Method.start n) first second after h = h
is_orderly-after (Method.wait n) first second after h = h
is_orderly-after Method.delete first second after h = h
is_orderly-after Method.gc first second after h = h

module _ (uv : Uv) where
  open uv use {Handle}

  stops_alone :
      (m : Method) (first second after : Calls Method)
      → is_orderly (call m first second after) ≡ true
      → is_stop m ≡ true
      → (s : System Handle) → make_calls uv first s ≡ some s
  unfolding nested
  stops_alone Method.stop done second after h k s = refl
  stops_alone Method.stop (call m a b c) second after h k s = absurd (cc)
  stops_alone (Method.start n) first second after h k s = absurd (cc)
  stops_alone (Method.wait n) first second after h k s = absurd (cc)
  stops_alone Method.delete first second after h k s = absurd (cc)
  stops_alone Method.gc first second after h k s = absurd (cc)

  make_calls-serial :
      (ks : Calls Method) (s : System Handle)
      → is_orderly ks ≡ true
      → make_calls uv ks s ≡ run uv (outer ks) s
  unfolding nested run
  make_calls-serial done s h = refl
  make_calls-serial (call m first second after) s h =
      rw
        (
          perform-serial uv (λ t. make_calls uv first t) (λ t. make_calls uv second t)
              (make_calls-delinked uv first) m s (stops_alone m first second after h),
          nested,
        )
        (rest (step uv (as_event m) s)
          (λ t. make_calls-serial after t (is_orderly-after m first second after h)))
    where
      rest :
          (o : Option (System Handle))
          → ((t : System Handle) → make_calls uv after t ≡ run uv (outer after) t)
          → elim o [ none ↦ none | some t ↦ make_calls uv after t ]
            ≡ elim o [ none ↦ none | some t ↦ run uv (outer after) t ]
      rest none same = refl
      rest (some t) same = same t

  -- Whether the timer's callback resumes a thread.
  abbrev pub resumes : Option (Timer Handle) → Bool
  resumes none = false
  resumes (some t) = t.handle_data && not (is_zero t.lua_tid)

  -- The calls and callbacks of a turn, one after the other.
  abbrev pub events : Turn → System Handle → List Event
  events (Turn.calls ks) s = outer ks
  events (Turn.timeout during) s =
      Event.timeout
      ∷ (if is_enabled uv Event.timeout s && resumes s.world.timer then outer during else [])
  events Turn.closed s = Event.closed ∷ []

  abbrev pub flatten : List Turn → System Handle → List Event
  flatten [] s = []
  flatten (e ∷ es) s = events e s ++ elim (turn uv e s) [ none ↦ [] | some t ↦ flatten es t ]

  timeout-serial :
      (during : Calls Method) (t : Option (Timer Handle)) (s : System Handle)
      → s.world.timer ≡ t
      → is_orderly during ≡ true
      → timeout_turn uv during s ≡ run uv (events (Turn.timeout during) s) s
  unfolding timeout_turn timeout_script run step execute on_user_timer_timeout resume finish
      clear_user_timer
  timeout-serial during none s p h = ground arith
  timeout-serial during (some t) s p h =
      let w : World Handle = record s.world {
        timer = some (clear_user_timer t);
        calls = has_elapsed uv t.lua_tid ∷ s.world.calls;
      } in
      ground (arith, make_calls-serial during (put uv w s) h)

  closed-serial : (s : System Handle) → closed_turn uv s ≡ run uv (Event.closed ∷ []) s
  unfolding closed_turn run step execute
  closed-serial s = ground arith

  turn-serial :
      (e : Turn) (es : List Turn) (s : System Handle)
      → all_orderly (e ∷ es) ≡ true
      → (turn uv e s ≡ run uv (events e s) s) × (all_orderly es ≡ true)
  unfolding turn
  turn-serial (Turn.calls ks) es s h = (make_calls-serial ks s (ground arith), ground arith)
  turn-serial (Turn.timeout ks) es s h =
      (timeout-serial ks s.world.timer s refl (ground arith), ground arith)
  turn-serial Turn.closed es s h = (closed-serial s, h)

  abbrev then_run : List Event → Option (System Handle) → Option (System Handle)
  then_run fs none = none
  then_run fs (some t) = run uv fs t

  run-++ :
      (es fs : List Event) (s : System Handle) → run uv (es ++ fs) s ≡ then_run fs (run uv es s)
  unfolding run
  run-++ [] fs s = refl
  run-++ (e ∷ es) fs s = rest (step uv e s) (run-++ es fs)
    where
      rest :
          (o : Option (System Handle))
          → ((t : System Handle) → run uv (es ++ fs) t ≡ then_run fs (run uv es t))
          → elim o [ none ↦ none | some t ↦ run uv (es ++ fs) t ]
            ≡ then_run fs (elim o [ none ↦ none | some t ↦ run uv es t ])
      rest none same = refl
      rest (some t) same = same t

  -- Threads may call the timer's methods inside the operation that resumes them. If no thread does so
  -- that a stop resumes, then the history has the result of one without calls inside another: of its
  -- calls and callbacks in their order, where those that a timeout's thread makes follow the timeout
  -- and those that a closing's thread makes are left out.
  pub turns-serial :
      (es : List Turn) (s : System Handle)
      → all_orderly es ≡ true
      → turns uv es s ≡ run uv (flatten es s) s
  unfolding turns
  turns-serial [] s h = unfold run in refl
  turns-serial (e ∷ es) s h =
      let (p, k) = turn-serial e es s h in rest (turn uv e s) p (λ t. turns-serial es t k)
    where
      rest :
          (o : Option (System Handle))
          → o ≡ run uv (events e s) s
          → ((t : System Handle) → turns uv es t ≡ run uv (flatten es t) t)
          → elim o [ none ↦ none | some t ↦ turns uv es t ]
            ≡ run uv (events e s ++ elim o [ none ↦ [] | some t ↦ flatten es t ]) s
      rest none p same = sym (run-++ (events e s) [] s ∙ ap (then_run []) (sym p))
      rest (some t) p same =
          same t ∙ sym (run-++ (events e s) (flatten es t) s ∙ ap (then_run (flatten es t)) (sym p))

  -- Let threads call the timer's methods inside the operation that resumes them, but none that a stop
  -- resumes. In such a history of a new timer that runs to an end, the threads whose calls of `wait`
  -- blocked are those that `resumeThreadId` was called with and the one that still waits, in the same
  -- order.
  pub turns-wakeups :
      (es : List Turn) (t : System Handle)
      → all_orderly es ≡ true
      → turns uv es (created uv) ≡ some t
      → waiting uv t.world.timer ++ resumed uv t.world.calls ≡ t.blocked
  turns-wakeups es t h p =
      run-created_wakeups uv (flatten es (created uv)) t (sym (turns-serial es (created uv) h) ∙ p)
