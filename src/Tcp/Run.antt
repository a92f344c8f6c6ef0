-- ===== src/Tcp/Run.antt =====
-- Histories of one connection: calls of its Lua methods in any order, and libuv's callbacks as far as
-- libuv may make them.
use luaw.Prelude.{
  ℕ, suc, ◌+◌, ◌-◌, Bool, true, false, List, [], ◌∷◌, Option, none, some, if◌then◌else◌, not, ◌&&◌,
  ◌≡◌, ltb,
}
use mathlib.Core.Option
use luaw.Prelude.Int.{ℤ, pos}
use luaw.Lua.{Value, boolean, integer}
use luaw.Uv.{Uv}
use luaw.Tcp.{
  Connection, World, Outcome, close_connection_lua, connection_gc, free_read_timer,
  free_write_timer, free_tcp_handle, on_read_timeout, on_write_timeout, new_connection,
}
use luaw.Tcp.Read.{on_read, start_reading, read_check}
use luaw.Tcp.Write.{on_write, write_buffer}
use luaw.Tcp.Connect.{on_client_connect}

-- The arguments of each call; those of `read_check` and `on_read` end with the buffer's content.
pub data Event : Type 0 where
  start_read : Event
  reads : ℤ → ℤ → List ℕ → Event
  writes : ℤ → List ℕ → ℤ → Event
  close gc : Event
  has_read : ℤ → List ℕ → Event
  has_written : ℤ → Event
  has_connected : ℤ → Event
  read_timeout write_timeout : Event
  handle_closed read_timer_closed write_timer_closed : Event

-- What libuv has to do yet: which close callbacks have run, and how many write callbacks are due.
-- `overlaps` counts the writes that began while another one was in flight.
pub record Pending : Type 0 where
  pub handle_done : Bool
  pub read_done : Bool
  pub write_done : Bool
  pub due : ℕ
  pub overlaps : ℕ

pub record System (H : Type 0) : Type 0 where
  pub world : World H
  pub pending : Pending
  pub open pending use *

module _ (uv : Uv) where
  open uv use {Handle, is_closing}

  unfoldable pub execute : Event → World Handle → Outcome Handle
  execute start_read w = start_reading uv w
  execute (reads tid n b) w = read_check uv tid n b w
  execute (writes tid b n) w = write_buffer uv tid b n w
  execute close w = close_connection_lua uv w
  execute gc w = connection_gc uv w
  execute (has_read n b) w = on_read uv n b w
  execute (has_written n) w = on_write uv n w
  execute (has_connected n) w = on_client_connect uv n w
  execute read_timeout w = on_read_timeout uv w
  execute write_timeout w = on_write_timeout uv w
  execute handle_closed w = free_tcp_handle uv w
  execute read_timer_closed w = free_read_timer uv w
  execute write_timer_closed w = free_write_timer uv w

  abbrev pub part_closing : (Connection Handle → Handle) → Option (Connection Handle) → Bool
  part_closing part none = true
  part_closing part (some t) = is_closing (part t)

  -- A close callback runs once, after `uv_close`; a handle that is closing has no other callback. A
  -- write callback belongs to a write, and the connect callback runs before the close callback.
  abbrev pub is_enabled : Event → System Handle → Bool
  is_enabled (has_read n b) s = not (part_closing (λ t. t.handle) s.world.conn)
  is_enabled (has_written n) s = ltb 0 s.due
  is_enabled (has_connected n) s = not s.handle_done
  is_enabled read_timeout s = not (part_closing (λ t. t.read_timer) s.world.conn)
  is_enabled write_timeout s = not (part_closing (λ t. t.write_timer) s.world.conn)
  is_enabled handle_closed s = part_closing (λ t. t.handle) s.world.conn && not s.handle_done
  is_enabled read_timer_closed s = part_closing (λ t. t.read_timer) s.world.conn && not s.read_done
  is_enabled write_timer_closed s =
      part_closing (λ t. t.write_timer) s.world.conn && not s.write_done
  is_enabled _ s = true

  -- Whether the call handed a write to libuv: `write` then returns true and the length.
  abbrev pub begins_write : Event → List Value → Bool
  begins_write (writes tid b n) (boolean true ∷ integer (pos (suc k)) ∷ []) = true
  begins_write _ _ = false

  abbrev pub in_flight : Option (Connection Handle) → Bool
  in_flight none = false
  in_flight (some t) = t.write_req_data

  -- What is pending after an event, its result and whether a write was in flight before.
  abbrev pub pending_after : Event → List Value → Bool → Pending → Pending
  pending_after handle_closed r b p = record p { handle_done = true }
  pending_after read_timer_closed r b p = record p { read_done = true }
  pending_after write_timer_closed r b p = record p { write_done = true }
  pending_after (has_written n) r b p = record p { due = p.due - 1 }
  pending_after e r b p =
      if begins_write e r
      then record p { due = p.due + 1; overlaps = if b then p.overlaps + 1 else p.overlaps }
      else p

  abbrev pub advance : Event → System Handle → World Handle → List Value → System Handle
  advance e s w r = record {
    world = w;
    pending = pending_after e r (in_flight s.world.conn) s.pending;
  }

  -- One call or callback, if it may happen, and several.
  unfoldable pub step : Event → System Handle → Option (System Handle)
  step e s =
      if is_enabled e s then Option.map (λ (w, r). advance e s w r) (execute e s.world) else some s

  unfoldable pub run : List Event → System Handle → Option (System Handle)
  run [] s = some s
  run (e ∷ es) s = elim (step e s) [ none ↦ none | some t ↦ run es t ]

  -- One call or callback.
  pub data Step (s t : System Handle) : Type 0 where
    does :
        (e : Event) (w : World Handle) (r : List Value)
        → is_enabled e s ≡ true
        → execute e s.world ≡ some (w, r)
        → t ≡ advance e s w r
        → Step s t

  pub data Reach (s : System Handle) : System Handle → Type 0 where
    here : Reach s s
    next : {t u : System Handle} → Reach s t → Step t u → Reach s u

  pub Reach-trans : {s t u : System Handle} → Reach s t → Reach t u → Reach s u
  Reach-trans r here = r
  Reach-trans r (next q st) = next (Reach-trans r q) st

  unfoldable pub created : System Handle
  created = record {
    world = new_connection uv;
    pending = record {
      handle_done = false;
      read_done = false;
      write_done = false;
      due = 0;
      overlaps = 0;
    };
  }
