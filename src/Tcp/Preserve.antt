-- ===== src/Tcp/Preserve.antt =====
-- Each operation of a connection reads no freed connection and keeps the invariant. `p` is what is
-- pending after it.
use luaw.Prelude.{
  ℕ, suc, ◌-◌, ◌≡◌, true, false, List, [], Option, none, some, arith, ltb, Bool-cases, inl, inr,
}
use luaw.Prelude.Int.{ℤ, pos}
use luaw.Uv.{Uv}
use luaw.Tcp.{
  Connection, Env, World, Outcome, release, close_connection, close_connection_lua, connection_gc,
  free_read_timer, free_write_timer, free_tcp_handle, on_read_timeout, on_write_timeout, stop_timer,
  without_threads,
}
use luaw.Tcp.Read.{on_read, start_reading, read_check}
use luaw.Tcp.Write.{on_write, write_finished, write_failed, write_buffer}
use luaw.Tcp.Connect.{on_client_connect, connect_done, connect_failed}
use luaw.Tcp.Run.{Pending, Event, part_closing, pending_after, in_flight}
use luaw.Tcp.Invariant.{
  ConnInv, Live, Keeps, stop_timer-is_closing, start_timer-is_closing, close-Live, release-Inv,
}

module _ (uv : Uv) where
  open uv use {Handle}

  write_finished-Inv :
      (q : Pending) (t : Connection Handle) (e : Env)
      → Live uv e.udata q (suc q.overlaps) t
      → ConnInv uv (write_finished uv t e).env.udata q (write_finished uv t e).conn
  unfolding write_finished release
  write_finished-Inv q t e v = ground (arith, stop_timer-is_closing uv t.write_timer)

  write_failed-Inv :
      (n : ℤ) (q : Pending) (t : Connection Handle) (e : Env)
      → Live uv e.udata q (suc q.overlaps) t
      → ConnInv uv (write_failed uv n t e).env.udata q (write_failed uv n t e).conn
  unfolding write_failed
  write_failed-Inv n q t e v =
      let (t', e') = close_connection uv n t e in
      release-Inv uv q t' e' (close-Live uv n q (suc q.overlaps) t e v)

module _ (uv : Uv) (p : Pending) (e : Env) where
  open uv use {Handle, is_closing}

  abbrev at : Option (Connection Handle) → World Handle
  at t = record { conn = t; env = e }

  -- The invariant with the write that a call of `write` began, if it did.
  abbrev pub WriteKeeps : Option (Connection Handle) → Outcome Handle → Type 0
  WriteKeeps t none = ⊥
  WriteKeeps t (some (w, r)) =
      ConnInv uv w.env.udata
        (pending_after uv (Event.writes (pos 1) [] (pos 0)) r (in_flight uv t) p) w.conn

  pub on_read-Inv :
      (n : ℤ) (b : List ℕ) (t : Option (Connection Handle))
      → ConnInv uv e.udata p t
      → part_closing uv (λ t. t.handle) t ≡ false
      → Keeps uv p (on_read uv n b (at t))
  unfolding on_read
  on_read-Inv n b none v h = ground arith
  on_read-Inv n b (some t) v h =
      let u = record t { read_timer = stop_timer uv t.read_timer } in
      ground (arith, stop_timer-is_closing uv t.read_timer, close-Live uv n p p.overlaps u e)

  pub start_reading-Inv :
      (t : Option (Connection Handle))
      → ConnInv uv e.udata p t
      → Keeps uv p (start_reading uv (at t))
  unfolding start_reading
  start_reading-Inv none v = ground arith
  start_reading-Inv (some t) v =
      let u = record t { lua_reader_tid = pos 0; handle = uv.read_start t.handle } in
      ground (
        arith,
        uv.read-is_closing t.handle,
        close-Live uv (uv.read_start_rc t.handle) p p.overlaps u e,
      )

  pub read_check-Inv :
      (tid n : ℤ) (b : List ℕ) (t : Option (Connection Handle))
      → ConnInv uv e.udata p t
      → Keeps uv p (read_check uv tid n b (at t))
  unfolding read_check
  read_check-Inv tid n b none v = ground arith
  read_check-Inv tid n b (some t) v = ground (
    arith,
    start_timer-is_closing uv t.read_timer n,
    close-Live uv uv.eai_badflags p p.overlaps t e,
  )

  pub close-Inv :
      (t : Option (Connection Handle))
      → ConnInv uv e.udata p t
      → Keeps uv p (close_connection_lua uv (at t))
  unfolding close_connection_lua
  close-Inv none v = ground arith
  close-Inv (some t) v = ground (arith, close-Live uv uv.eof p p.overlaps (without_threads uv t) e)

  pub gc-Inv :
      (t : Option (Connection Handle))
      → ConnInv uv e.udata p t
      → Keeps uv p (connection_gc uv (at t))
  unfolding connection_gc
  gc-Inv none v = ground arith
  gc-Inv (some t) v =
      ground (arith, close-Live uv uv.ecanceled p p.overlaps (without_threads uv t) e)

  pub read_timeout-Inv :
      (t : Option (Connection Handle))
      → ConnInv uv e.udata p t
      → part_closing uv (λ t. t.read_timer) t ≡ false
      → Keeps uv p (on_read_timeout uv (at t))
  unfolding on_read_timeout
  read_timeout-Inv none v h = ground arith
  read_timeout-Inv (some t) v h = ground (arith, close-Live uv uv.ecanceled p p.overlaps t e)

  pub write_timeout-Inv :
      (t : Option (Connection Handle))
      → ConnInv uv e.udata p t
      → part_closing uv (λ t. t.write_timer) t ≡ false
      → Keeps uv p (on_write_timeout uv (at t))
  unfolding on_write_timeout
  write_timeout-Inv none v h = ground arith
  write_timeout-Inv (some t) v h = ground (arith, close-Live uv uv.ecanceled p p.overlaps t e)

  pub on_client_connect-Inv :
      (n : ℤ) (t : Option (Connection Handle))
      → ConnInv uv e.udata p t
      → p.handle_done ≡ false
      → Keeps uv p (on_client_connect uv n (at t))
  unfolding on_client_connect connect_done connect_failed
  on_client_connect-Inv n none v h = ground arith
  on_client_connect-Inv n (some t) v h =
      let u = record t { write_timer = stop_timer uv t.write_timer } in
      ground (arith, stop_timer-is_closing uv t.write_timer, close-Live uv n p p.overlaps u e)

  pub handle_closed-Inv :
      (t : Option (Connection Handle))
      → ConnInv uv e.udata p t
      → part_closing uv (λ t. t.handle) t ≡ true
      → p.handle_done ≡ false
      → Keeps uv (record p { handle_done = true }) (free_tcp_handle uv (at t))
  unfolding free_tcp_handle release
  handle_closed-Inv none v h k = ground arith
  handle_closed-Inv (some t) v h k = ground arith

  pub read_closed-Inv :
      (t : Option (Connection Handle))
      → ConnInv uv e.udata p t
      → part_closing uv (λ t. t.read_timer) t ≡ true
      → p.read_done ≡ false
      → Keeps uv (record p { read_done = true }) (free_read_timer uv (at t))
  unfolding free_read_timer release
  read_closed-Inv none v h k = ground arith
  read_closed-Inv (some t) v h k = ground arith

  pub write_closed-Inv :
      (t : Option (Connection Handle))
      → ConnInv uv e.udata p t
      → part_closing uv (λ t. t.write_timer) t ≡ true
      → p.write_done ≡ false
      → Keeps uv (record p { write_done = true }) (free_write_timer uv (at t))
  unfolding free_write_timer release
  write_closed-Inv none v h k = ground arith
  write_closed-Inv (some t) v h k = ground arith

  pub on_write-Inv :
      (n : ℤ) (t : Option (Connection Handle))
      → ConnInv uv e.udata p t
      → ltb 0 p.due ≡ true
      → Keeps uv (record p { due = p.due - 1 }) (on_write uv n (at t))
  unfolding on_write
  on_write-Inv n none v h = ground arith
  on_write-Inv n (some t) v h = elim (Bool-cases t.write_req_data) [
    | inr idle ↦ ground arith
    | inl busy ↦
        let u = record t { write_req_data = false } in
        let live : Live uv e.udata q (suc q.overlaps) u = ground arith in
        ground (arith, write_finished-Inv uv q u e live, write_failed-Inv uv n q u e live)
  ]
    where
      q : Pending
      q = record p { due = p.due - 1 }

  pub write_buffer-Inv :
      (tid : ℤ) (b : List ℕ) (n : ℤ) (t : Option (Connection Handle))
      → ConnInv uv e.udata p t
      → WriteKeeps t (write_buffer uv tid b n (at t))
  unfolding write_buffer
  write_buffer-Inv tid b n none v = ground arith
  write_buffer-Inv tid b n (some t) v = ground (
    arith,
    start_timer-is_closing uv t.write_timer n,
    uv.write-is_closing t.handle b,
    close-Live uv (uv.write_rc t.handle b) p p.overlaps (record t { handle = uv.write t.handle b })
        e,
  )
