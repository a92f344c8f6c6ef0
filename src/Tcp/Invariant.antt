-- ===== src/Tcp/Invariant.antt =====
-- What holds of a connection between two operations, and what closing and releasing it do to that.
use luaw.Prelude.{ℕ, suc, ◌+◌, ◌≤◌, ◌<◌, ◌≡◌, Bool, true, false, Option, none, some, not, arith}
use luaw.Prelude.Int.{ℤ, pos, is_zero}
use luaw.Uv.{Uv, close_if_active-is_closing}
use luaw.Tcp.{Connection, Env, Outcome, release, close_connection, start_timer, stop_timer}
use luaw.Tcp.Run.{Pending}

abbrev pub bit : Bool → ℕ
bit true = 1
bit false = 0

abbrev pub pointers : {H : Type 0} → Connection H → ℕ
pointers t =
    bit t.lua_ref
    + bit t.handle_data
    + bit t.read_timer_data
    + bit t.write_timer_data
    + bit t.write_req_data

module _ (uv : Uv) where
  open uv use {Handle, is_closing}

  -- What holds of a connection that is not freed, but for its count.
  pub record Shape (udata : Bool) (p : Pending) (t : Connection Handle) : Type 0 where
    pub linked : t.lua_ref ≡ udata
    pub handle_held : t.handle_data ≡ not p.handle_done
    pub read_held : t.read_timer_data ≡ not p.read_done
    pub write_held : t.write_timer_data ≡ not p.write_done
    pub whole :
        t.lua_ref ≡ true
        → (t.handle_data ≡ true) × (t.read_timer_data ≡ true) × (t.write_timer_data ≡ true)
    pub due_low : bit t.write_req_data ≤ p.due
    pub due_high : p.due ≤ bit t.write_req_data + p.overlaps
    pub closing_handle : is_closing t.handle ≡ not t.lua_ref
    pub closing_read : is_closing t.read_timer ≡ not t.lua_ref
    pub closing_write : is_closing t.write_timer ≡ not t.lua_ref
    pub drained : t.read_len ≡ 0
    pub reader : is_zero t.lua_reader_tid ≡ false → t.lua_ref ≡ true
    pub writer : is_zero t.lua_writer_tid ≡ false → t.lua_ref ≡ true

  -- Each pointer is one reference, and there are `k` more.
  pub record Live (udata : Bool) (p : Pending) (k : ℕ) (t : Connection Handle) : Type 0 where
    pub shape : Shape udata p t
    pub counted : t.ref_count ≡ pos (pointers t + k)
    pub used : 0 < pointers t + k

  -- A freed connection is known to nobody.
  abbrev pub Freed : Bool → Pending → Type 0
  Freed udata p =
      (udata ≡ false)
      × (p.handle_done ≡ true)
      × (p.read_done ≡ true)
      × (p.write_done ≡ true)
      × (p.due ≡ 0)
      × (p.overlaps ≡ 0)

  -- Each write that overlapped another left a reference behind.
  abbrev pub ConnInv : Bool → Pending → Option (Connection Handle) → Type 0
  ConnInv udata p none = Freed udata p
  ConnInv udata p (some t) = Live udata p p.overlaps t

  abbrev pub Keeps : Pending → Outcome Handle → Type 0
  Keeps p none = ⊥
  Keeps p (some (w, r)) = ConnInv w.env.udata p w.conn

  pub stop_timer-is_closing : (h : Handle) → is_closing (stop_timer uv h) ≡ is_closing h
  unfolding stop_timer
  stop_timer-is_closing h = ground (arith, uv.stop-is_closing h)

  pub start_timer-is_closing : (h : Handle) (n : ℤ) → is_closing (start_timer uv h n) ≡ is_closing h
  unfolding start_timer
  start_timer-is_closing h n = ground (arith, uv.start-is_closing h n)

  -- Closing keeps what holds of a connection.
  pub close-Live :
      (status : ℤ) (p : Pending) (k : ℕ) (t : Connection Handle) (e : Env)
      → Live e.udata p k t
      → let (t', e') = close_connection uv status t e in Live e'.udata p k t'
  unfolding close_connection
  close-Live status p k t e v = ground (
    arith,
    close_if_active-is_closing uv t.handle,
    close_if_active-is_closing uv (uv.timer_stop t.read_timer),
    close_if_active-is_closing uv (uv.timer_stop t.write_timer),
  )

  -- The last reference frees the connection.
  pub release-Inv :
      (p : Pending) (t : Connection Handle) (e : Env)
      → Live e.udata p (suc p.overlaps) t
      → ConnInv (release t e).env.udata p (release t e).conn
  unfolding release
  release-Inv p t e v = ground arith
