-- ===== src/Tcp/Liveness.antt =====
-- Every connection whose writes did not overlap can be freed: libuv only has to run what is pending.
use luaw.Prelude.{
  ◌≤◌, ◌≡◌, refl, ap, Bool-cases, inl, inr, true, false, List, [], ◌∷◌, Option, none, some, arith,
  ltb,
}
use luaw.Prelude.Int.{ℤ}
use luaw.Lua.{Value}
use luaw.Uv.{Uv}
use luaw.Tcp.{
  Connection, World, Outcome, close_connection_lua, close_connection, free_tcp_handle,
  free_read_timer, free_write_timer, release,
}
use luaw.Tcp.Write.{on_write, write_failed, write_finished}
use luaw.Tcp.Run.{
  System, Pending, Event, close, handle_closed, read_timer_closed, write_timer_closed, has_written,
  execute, is_enabled, part_closing, advance, Reach, does, step, run, created,
}
use luaw.Tcp.Invariant.{ConnInv}
use luaw.Tcp.Safety.{Inv, Inv-no_fault, Step-Inv, Reach-Inv, created-Inv, freed}

module _ (uv : Uv) where
  open uv use {Handle}

  -- A delinked connection after an event, or as it was where libuv does not owe the event.
  record Settles (e : Event) (s : System Handle) (p : Pending) : Type 0 where
    target : System Handle
    stepped : step uv e s ≡ some target
    valid : Inv uv target
    delinked : target.world.env.udata ≡ false
    pending : target.pending ≡ p

  -- No callback links the userdata again.
  Stays : Outcome Handle → Type 0
  Stays none = Unit {0}
  Stays (some (w, r)) = w.env.udata ≡ false

  run_event :
      (e : Event) (s : System Handle) (p : Pending)
      → Inv uv s
      → is_enabled uv e s ≡ true
      → Stays (execute uv e s.world)
      → ((w : World Handle) (r : List Value) → (advance uv e s w r).pending ≡ p)
      → Settles e s p
  unfolding Stays step
  run_event e s p v h d q =
      let (w, r, x) = Inv-no_fault uv s e v h in
      let st = does e w r h x refl in
      record {
        target = advance uv e s w r;
        stepped = ground (arith, h, x);
        valid = Step-Inv uv st v;
        delinked = ground arith;
        pending = q w r;
      }

  module _ (p : Pending) (w : World Handle) (d : w.env.udata ≡ false) where
    handle-Stays : (o : Option (Connection Handle)) → w.conn ≡ o → Stays (free_tcp_handle uv w)
    unfolding Stays free_tcp_handle release
    handle-Stays none e = ground arith
    handle-Stays (some t) e = ground arith

    read_timer-Stays : (o : Option (Connection Handle)) → w.conn ≡ o → Stays (free_read_timer uv w)
    unfolding Stays free_read_timer release
    read_timer-Stays none e = ground arith
    read_timer-Stays (some t) e = ground arith

    write_timer-Stays :
        (o : Option (Connection Handle)) → w.conn ≡ o → Stays (free_write_timer uv w)
    unfolding Stays free_write_timer release
    write_timer-Stays none e = ground arith
    write_timer-Stays (some t) e = ground arith

    write-Stays : (n : ℤ) (o : Option (Connection Handle)) → w.conn ≡ o → Stays (on_write uv n w)
    unfolding Stays on_write write_failed write_finished close_connection release
    write-Stays n none e = ground arith
    write-Stays n (some t) e = ground arith

  -- A delinked connection's handles are closing.
  closing_parts :
      (p : Pending) (o : Option (Connection Handle))
      → ConnInv uv false p o
      → (part_closing uv (λ t. t.handle) o ≡ true)
        × (part_closing uv (λ t. t.read_timer) o ≡ true)
        × (part_closing uv (λ t. t.write_timer) o ≡ true)
  closing_parts p none v = (refl, refl, refl)
  closing_parts p (some t) v = ground arith

  module _ (s : System Handle) (v : Inv uv s) (d : s.world.env.udata ≡ false) where
    settled : (e : Event) (p : Pending) → is_enabled uv e s ≡ false → s.pending ≡ p → Settles e s p
    unfolding step
    settled e p h q = record {
      target = s;
      stepped = ground (arith, h);
      valid = v;
      delinked = d;
      pending = q;
    }

    parts :
        (part_closing uv (λ t. t.handle) s.world.conn ≡ true)
        × (part_closing uv (λ t. t.read_timer) s.world.conn ≡ true)
        × (part_closing uv (λ t. t.write_timer) s.world.conn ≡ true)
    parts = closing_parts s.pending s.world.conn (rw d at v)

    settle_handle : Settles handle_closed s (record s.pending { handle_done = true })
    unfolding execute
    settle_handle = elim (Bool-cases s.handle_done) [
      | inl done ↦ settled handle_closed _ (ground arith) (ground arith)
      | inr due ↦
          run_event handle_closed s _ v (ground (arith, parts))
            (handle-Stays s.pending s.world d s.world.conn refl) (λ w r. refl)
    ]

    settle_read_timer : Settles read_timer_closed s (record s.pending { read_done = true })
    unfolding execute
    settle_read_timer = elim (Bool-cases s.read_done) [
      | inl done ↦ settled read_timer_closed _ (ground arith) (ground arith)
      | inr due ↦
          run_event read_timer_closed s _ v (ground (arith, parts))
            (read_timer-Stays s.pending s.world d s.world.conn refl) (λ w r. refl)
    ]

    settle_write_timer : Settles write_timer_closed s (record s.pending { write_done = true })
    unfolding execute
    settle_write_timer = elim (Bool-cases s.write_done) [
      | inl done ↦ settled write_timer_closed _ (ground arith) (ground arith)
      | inr due ↦
          run_event write_timer_closed s _ v (ground (arith, parts))
            (write_timer-Stays s.pending s.world d s.world.conn refl) (λ w r. refl)
    ]

    -- Where no write overlapped, at most one write callback is due.
    due_once :
        (o : Option (Connection Handle)) → ConnInv uv false s.pending o → s.overlaps ≡ 0 → s.due ≤ 1
    due_once none k h = omega (arith, k)
    due_once (some t) k h = ground (arith, k.shape.due_high)

    settle_write :
        (n : ℤ) → s.overlaps ≡ 0 → Settles (has_written n) s (record s.pending { due = 0 })
    unfolding execute
    settle_write n h =
        let low = due_once s.world.conn (rw d at v) h in
        elim (Bool-cases (ltb 0 s.due)) [
          | inl due ↦
              run_event (has_written n) s _ v due
                (write-Stays s.pending s.world d n s.world.conn refl) (λ w r. ground arith)
          | inr none_due ↦ settled (has_written n) _ none_due (ground arith)
        ]

  close-Stays :
      (p : Pending) (w : World Handle) (o : Option (Connection Handle))
      → w.conn ≡ o
      → ConnInv uv w.env.udata p o
      → Stays (close_connection_lua uv w)
  unfolding Stays close_connection_lua close_connection
  close-Stays p w none e v = ground arith
  close-Stays p w (some t) e v = ground arith

  settle_close : (s : System Handle) → Inv uv s → Settles close s s.pending
  unfolding execute
  settle_close s v =
      run_event close s _ v refl (close-Stays s.pending s.world s.world.conn refl v) (λ w r. refl)

  -- The fields of what is pending.
  module _ {e : Event} {s : System Handle} {p : Pending} (x : Settles e s p) where
    handle_at : x.target.handle_done ≡ p.handle_done
    handle_at = ap (λ q. q.handle_done) x.pending

    read_at : x.target.read_done ≡ p.read_done
    read_at = ap (λ q. q.read_done) x.pending

    write_at : x.target.write_done ≡ p.write_done
    write_at = ap (λ q. q.write_done) x.pending

    overlaps_at : x.target.overlaps ≡ p.overlaps
    overlaps_at = ap (λ q. q.overlaps) x.pending

  run_five :
      (a b c d e : Event) (s₁ s₂ s₃ s₄ s₅ s₆ : System Handle)
      → step uv a s₁ ≡ some s₂
      → step uv b s₂ ≡ some s₃
      → step uv c s₃ ≡ some s₄
      → step uv d s₄ ≡ some s₅
      → step uv e s₅ ≡ some s₆
      → run uv (a ∷ b ∷ c ∷ d ∷ e ∷ []) s₁ ≡ some s₆
  unfolding run
  run_five a b c d e s₁ s₂ s₃ s₄ s₅ s₆ h₁ h₂ h₃ h₄ h₅ = ground arith

  -- From every state of a new connection's histories in which no write has overlapped another one, one
  -- call of `close` frees the connection as soon as libuv has run what it then owes: the close callback
  -- of each of the three handles, and the callback of the write in flight, with any status `n`. Of the
  -- four callbacks those happen that libuv still owes; a callback that it does not owe changes nothing.
  pub Reach-close_frees :
      (n : ℤ) (s : System Handle)
      → Reach uv (created uv) s
      → s.overlaps ≡ 0
      → (t : System Handle) × (run uv
            (close ∷ handle_closed ∷ read_timer_closed ∷ write_timer_closed ∷ has_written n ∷ [])
            s
          ≡ some t)
        × (t.world.conn ≡ none)
  Reach-close_frees n s reach h =
      let a = settle_close s (Reach-Inv uv reach (created-Inv uv)) in
      let b = settle_handle a.target a.valid a.delinked in
      let c = settle_read_timer b.target b.valid b.delinked in
      let d = settle_write_timer c.target c.valid c.delinked in
      let few : d.target.overlaps ≡ 0 =
        cc (overlaps_at a, overlaps_at b, overlaps_at c, overlaps_at d) in
      let f = settle_write d.target d.valid d.delinked n few in
      (
        f.target,
        run_five close handle_closed read_timer_closed write_timer_closed (has_written n) s a.target
            b.target c.target d.target f.target a.stepped b.stepped c.stepped d.stepped f.stepped,
        (freed uv f.target.world.conn f.target.world.env.udata f.target.pending f.valid).1 (
          f.delinked,
          cc (handle_at b, handle_at c, handle_at d, handle_at f),
          cc (read_at c, read_at d, read_at f),
          cc (write_at d, write_at f),
          ap (λ q. q.due) f.pending,
          cc (few, overlaps_at f),
        ),
      )
