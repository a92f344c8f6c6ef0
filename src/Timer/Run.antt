-- ===== src/Timer/Run.antt =====
-- Histories of one user timer: calls of its Lua methods in any order, and libuv's callbacks as far as
-- libuv may make them.
use luaw.Prelude.{
  ◌++◌, Bool, true, false, List, [], ◌∷◌, Option, none, some, if◌then◌else◌, not, ◌&&◌,
}
use luaw.Prelude.Int.{ℤ}
use luaw.Lua.{Value, boolean}
use luaw.Uv.{Uv}
use luaw.Timer.{
  Timer, World, Outcome, start_user_timer, wait_user_timer, stop_user_timer, close_timer_lua,
  timer_gc, on_user_timer_timeout, free_user_timer, new_user_timer,
}

pub data Event : Type 0 where
  start wait : ℤ → Event
  stop delete gc : Event
  timeout closed : Event

-- The world, whether the close callback has run, and the threads whose calls of `wait` blocked,
-- newest first.
pub record System (H : Type 0) : Type 0 where
  pub world : World H
  pub is_closed : Bool
  pub blocked : List ℤ

module _ (uv : Uv) where
  open uv use {Handle, is_closing}

  unfoldable pub execute : Event → World Handle → Outcome Handle
  execute (start n) w = start_user_timer uv n w
  execute (wait tid) w = wait_user_timer uv tid w
  execute stop w = stop_user_timer uv w
  execute delete w = close_timer_lua uv w
  execute gc w = timer_gc uv w
  execute timeout w = on_user_timer_timeout uv w
  execute closed w = free_user_timer uv w

  -- libuv's handle has been closed by `uv_close`.
  abbrev pub handle_closing : Option (Timer Handle) → Bool
  handle_closing none = true
  handle_closing (some t) = is_closing t.handle

  -- No timer callback runs after `uv_close`, and the close callback runs once, after it.
  abbrev pub is_enabled : Event → System Handle → Bool
  is_enabled timeout s = not (handle_closing s.world.timer)
  is_enabled closed s = handle_closing s.world.timer && not s.is_closed
  is_enabled _ s = true

  abbrev pub closed_after : Event → Bool → Bool
  closed_after closed b = true
  closed_after _ b = b

  -- `wait` returned true and false: the thread yields until it is resumed.
  abbrev pub blocks : Event → List Value → List ℤ
  blocks (wait tid) (boolean true ∷ boolean false ∷ []) = tid ∷ []
  blocks _ _ = []

  unfoldable pub step : Event → System Handle → Option (System Handle)
  step e s =
      if is_enabled e s
      then elim (execute e s.world) [
        | none ↦ none
        | some (w, r) ↦ some (record {
          world = w;
          is_closed = closed_after e s.is_closed;
          blocked = blocks e r ++ s.blocked;
        })
      ]
      else some s

  unfoldable pub run : List Event → System Handle → Option (System Handle)
  run [] s = some s
  run (e ∷ es) s = elim (step e s) [ none ↦ none | some t ↦ run es t ]

  unfoldable pub created : System Handle
  created = record { world = new_user_timer uv []; is_closed = false; blocked = [] }
