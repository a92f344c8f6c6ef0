-- ===== src/Tcp/Safety.antt =====
-- Memory safety of connections, over all histories.
use luaw.Prelude.{◌≤◌, ◌<◌, ◌≡◌, refl, Bool, true, List, Option, none, some, arith, ◌↔◌, ◌≢◌, subst}
use luaw.Lua.{Value}
use luaw.Uv.{Uv}
use luaw.Tcp.{Connection, World, Outcome, new_connection, fresh_connection}
use luaw.Tcp.Run.{
  Pending, System, Event, execute, is_enabled, pending_after, in_flight, advance, Step, Reach,
  created, does, here, next,
}
use luaw.Tcp.Invariant.{ConnInv, Freed}
use luaw.Tcp.Preserve.{
  on_read-Inv, start_reading-Inv, read_check-Inv, close-Inv, gc-Inv, read_timeout-Inv,
  write_timeout-Inv, on_client_connect-Inv, handle_closed-Inv, read_closed-Inv, write_closed-Inv,
  on_write-Inv, write_buffer-Inv,
}

module _ (uv : Uv) where
  open uv use {Handle}

  abbrev pub Inv : System Handle → Type 0
  Inv s = ConnInv uv s.world.env.udata s.pending s.world.conn

  -- No fault, and the invariant with what is pending after the event.
  abbrev Ends : Event → System Handle → Outcome Handle → Type 0
  Ends e s none = ⊥
  Ends e s (some (w, r)) = Inv (advance uv e s w r)

  execute-Inv :
      (e : Event) (s : System Handle)
      → Inv s
      → is_enabled uv e s ≡ true
      → Ends e s (execute uv e s.world)
  unfolding execute
  execute-Inv Event.start_read s v h = start_reading-Inv uv s.pending s.world.env s.world.conn v
  execute-Inv (Event.reads tid n b) s v h =
      read_check-Inv uv s.pending s.world.env tid n b s.world.conn v
  execute-Inv (Event.writes tid b n) s v h =
      write_buffer-Inv uv s.pending s.world.env tid b n s.world.conn v
  execute-Inv Event.close s v h = close-Inv uv s.pending s.world.env s.world.conn v
  execute-Inv Event.gc s v h = gc-Inv uv s.pending s.world.env s.world.conn v
  execute-Inv (Event.has_read n b) s v h =
      on_read-Inv uv s.pending s.world.env n b s.world.conn v (ground arith)
  execute-Inv (Event.has_written n) s v h = on_write-Inv uv s.pending s.world.env n s.world.conn v h
  execute-Inv (Event.has_connected n) s v h =
      on_client_connect-Inv uv s.pending s.world.env n s.world.conn v (ground arith)
  execute-Inv Event.read_timeout s v h =
      read_timeout-Inv uv s.pending s.world.env s.world.conn v (ground arith)
  execute-Inv Event.write_timeout s v h =
      write_timeout-Inv uv s.pending s.world.env s.world.conn v (ground arith)
  execute-Inv Event.handle_closed s v h =
      handle_closed-Inv uv s.pending s.world.env s.world.conn v (ground arith) (ground arith)
  execute-Inv Event.read_timer_closed s v h =
      read_closed-Inv uv s.pending s.world.env s.world.conn v (ground arith) (ground arith)
  execute-Inv Event.write_timer_closed s v h =
      write_closed-Inv uv s.pending s.world.env s.world.conn v (ground arith) (ground arith)

  Ends-cases :
      (e : Event) (s : System Handle) (o : Outcome Handle)
      → Ends e s o
      → (w : World Handle) × (r : List Value) × (o ≡ some (w, r)) × Inv (advance uv e s w r)
  Ends-cases e s none k = absurd k
  Ends-cases e s (some (w, r)) k = (w, r, refl, k)

  pub Step-Inv : {s t : System Handle} → Step uv s t → Inv s → Inv t
  Step-Inv {s} (does e w r h p q) v = rw q (subst (Ends e s) p (execute-Inv e s v h))

  pub created-Inv : Inv (created uv)
  unfolding created new_connection fresh_connection
  created-Inv = ground (arith, uv.fresh-is_closing)

  pub Reach-Inv : {s t : System Handle} → Reach uv s t → Inv s → Inv t
  Reach-Inv here v = v
  Reach-Inv (next r st) v = Step-Inv st (Reach-Inv r v)

  pub Inv-no_fault :
      (s : System Handle) (e : Event)
      → Inv s
      → is_enabled uv e s ≡ true
      → (w : World Handle) × (r : List Value) × (execute uv e s.world ≡ some (w, r))
  Inv-no_fault s e v h =
      let (w, r, p, _) = Ends-cases e s (execute uv e s.world) (execute-Inv e s v h) in (w, r, p)

  -- In every reachable state, a call or callback that may happen reads no freed connection: it has a
  -- result.
  pub Reach-no_fault :
      (s : System Handle) (e : Event)
      → Reach uv (created uv) s
      → is_enabled uv e s ≡ true
      → (w : World Handle) × (r : List Value) × (execute uv e s.world ≡ some (w, r))
  Reach-no_fault s e reach h = Inv-no_fault s e (Reach-Inv reach created-Inv) h

  pub freed :
      (c : Option (Connection Handle)) (u : Bool) (p : Pending)
      → ConnInv uv u p c
      → (c ≡ none) ↔ Freed uv u p
  freed none u p v = (λ _. v, λ _. refl)
  freed (some t) u p v = (λ e. cc, λ h. ground arith)

  -- A reachable connection is freed exactly if its userdata was delinked, its three handles are
  -- closed, no write callback is due and no write ever overlapped another.
  pub Reach-Freed :
      (s : System Handle)
      → Reach uv (created uv) s
      → (s.world.conn ≡ none) ↔ Freed uv s.world.env.udata s.pending
  Reach-Freed s reach = freed s.world.conn s.world.env.udata s.pending (Reach-Inv reach created-Inv)

  pub Step-overlaps : {s t : System Handle} → Step uv s t → s.overlaps ≤ t.overlaps
  Step-overlaps {s} (does e w r h p q) = rw q (grows e)
    where
      grows :
          (e : Event)
          → s.overlaps ≤ (pending_after uv e r (in_flight uv s.world.conn) s.pending).overlaps
      grows Event.handle_closed = omega arith
      grows Event.read_timer_closed = omega arith
      grows Event.write_timer_closed = omega arith
      grows (Event.has_written n) = omega arith
      grows _ = ground arith

  Reach-overlaps : {s t : System Handle} → Reach uv s t → s.overlaps ≤ t.overlaps
  Reach-overlaps here = omega arith
  Reach-overlaps (next r st) = omega (arith, Reach-overlaps r, Step-overlaps st)

  -- From a reachable state in which a write has overlapped another one, no state is reached in which
  -- the connection is freed.
  pub overlap_leaks :
      (s t : System Handle)
      → Reach uv (created uv) s
      → 0 < s.overlaps
      → Reach uv s t
      → t.world.conn ≢ none
  overlap_leaks s t reach h more e =
      let v = Reach-Inv more (Reach-Inv reach created-Inv) in
      omega (arith, (freed t.world.conn t.world.env.udata t.pending v).0 e, Reach-overlaps more)
