-- ===== src/Tcp/Stream.antt =====
-- Conversations on a connection of src/luaw_tcp.c: threads call `read`, and bytes arrive in between.
use luaw.Prelude.{
  ℕ, ◌≡◌, refl, true, false, List, [], ◌∷◌, ◌++◌, map, Option, none, some, if◌then◌else◌, length,
  take, arith, Bool-cases, inl, inr, ap, ◌∙◌,
}
use luaw.Prelude.Int.{ℤ, pos, is_zero, is_nonpos}
use luaw.Lua.{Resume, bytes, resume_lua_thread}
use luaw.Uv.{Uv}
use luaw.Tcp.{Connection, Env, kept, start_timer, stop_timer}
use luaw.Tcp.Read.{on_read, read_check}
use luaw.Tcp.Run.{System, Pending, Event, reads, has_read, execute, step, run}

-- A thread calls `read`, or bytes arrive, one or more; `unused` is what stands behind them in the buffer.
pub data Moment : Type 0 where
  asks : ℤ → ℤ → Moment
  arrives : ℕ → List ℕ → List ℕ → Moment

abbrev pub as_event : Moment → Event
as_event (asks tid timeout) = reads tid timeout []
as_event (arrives b bs unused) = has_read (pos (length (b ∷ bs))) ((b ∷ bs) ++ unused)

-- The thread that a thread id stands for, if any.
abbrev pub thread : ℤ → Option ℤ
thread tid = if is_zero tid then none else some tid

abbrev pub later : Option ℤ → Option ℤ → Option ℤ
later none old = old
later (some tid) old = some tid

-- What the threads are handed, newest first, where `reader` waits: bytes go to the thread that asked last,
-- which then waits no more; bytes that nobody waits for are lost.
abbrev pub handed : Option ℤ → List Moment → List Resume → List Resume
handed reader [] calls = calls
handed reader (asks tid timeout ∷ ms) calls = handed (later (thread tid) reader) ms calls
handed none (arrives b bs unused ∷ ms) calls = handed none ms calls
handed (some tid) (arrives b bs unused ∷ ms) calls =
    handed none ms (record { tid = tid; status = true; result = bytes (b ∷ bs) } ∷ calls)

take-front : (bs more : List ℕ) → take (length bs) (bs ++ more) ≡ bs
take-front [] more = refl
take-front (b ∷ bs) more = rw (take-front bs more)

module _ (uv : Uv) where
  open uv use {Handle, is_active, is_closing, enobufs}

  -- A connection on which a conversation goes on.
  pub record IsOpen (t : Connection Handle) (e : Env) : Type 0 where
    pub linked : e.udata ≡ true
    pub attached : t.handle_data ≡ true
    pub drained : t.read_len ≡ 0
    pub active : is_active t.handle ≡ true
    pub not_closing : is_closing t.handle ≡ false

  module _ (p : Pending) where
    abbrev pub talking : Connection Handle → Env → System Handle
    talking t e = record { world = kept t e; pending = p }

    asked : ℤ → ℤ → Connection Handle → Connection Handle
    asked tid timeout t =
        if is_zero tid
        then t
        else record t { lua_reader_tid = tid; read_timer = start_timer uv t.read_timer timeout }

    step-asks :
        (tid timeout : ℤ) (t : Connection Handle) (e : Env)
        → IsOpen t e
        → step uv (reads tid timeout []) (talking t e) ≡ some (talking (asked tid timeout t) e)
    unfolding step execute read_check asked
    step-asks tid timeout t e v =
        let l = v.linked in let a = v.active in let d = v.drained in ground arith

    asked-IsOpen :
        (tid timeout : ℤ) (t : Connection Handle) (e : Env)
        → IsOpen t e
        → IsOpen (asked tid timeout t) e
          × (thread (asked tid timeout t).lua_reader_tid
              ≡ later (thread tid) (thread t.lua_reader_tid))
    unfolding asked
    asked-IsOpen tid timeout t e v = elim (Bool-cases (is_zero tid)) [
      | inl z ↦ rw z (v, refl)
      | inr z ↦ rw z (
        record {
          linked = v.linked;
          attached = v.attached;
          drained = v.drained;
          active = v.active;
          not_closing = v.not_closing;
        },
        rw z refl,
      )
    ]

    served : Connection Handle → Connection Handle
    served t = record t {
      read_timer = stop_timer uv t.read_timer;
      lua_reader_tid = pos 0;
      read_len = 0;
    }

    told_bytes : Connection Handle → List ℕ → Env → Env
    told_bytes t bs e = record e {
      calls =
          resume_lua_thread (record { tid = t.lua_reader_tid; status = true; result = bytes bs })
            e.calls;
    }

    step-arrives :
        (b : ℕ) (bs unused : List ℕ) (t : Connection Handle) (e : Env)
        → is_nonpos enobufs ≡ true
        → IsOpen t e
        → step uv (as_event (arrives b bs unused)) (talking t e)
          ≡ some (talking (served t) (told_bytes t (b ∷ bs) e))
    unfolding step execute on_read served told_bytes resume_lua_thread
    step-arrives b bs unused t e n v =
        let a = v.attached in
        let d = v.drained in let c = v.not_closing in ground (arith, take-front (b ∷ bs) unused)

    served-IsOpen :
        (t : Connection Handle) (bs : List ℕ) (e : Env)
        → IsOpen t e
        → IsOpen (served t) (told_bytes t bs e)
    unfolding served told_bytes
    served-IsOpen t bs e v = record {
      linked = v.linked;
      attached = v.attached;
      drained = refl;
      active = v.active;
      not_closing = v.not_closing;
    }

    -- What arrives is handed to the thread that waits.
    handed-arrives :
        (b : ℕ) (bs unused : List ℕ) (ms : List Moment) (t : Connection Handle) (e : Env)
        → handed (thread (served t).lua_reader_tid) ms (told_bytes t (b ∷ bs) e).calls
          ≡ handed (thread t.lua_reader_tid) (arrives b bs unused ∷ ms) e.calls
    unfolding served told_bytes resume_lua_thread
    handed-arrives b bs unused ms t e = elim (Bool-cases (is_zero t.lua_reader_tid)) [
      | inl z ↦ rw z refl
      | inr z ↦ rw z refl
    ]

    run-next :
        (x : Event) (xs : List Event) (s t : System Handle)
        → step uv x s ≡ some t
        → run uv (x ∷ xs) s ≡ run uv xs t
    unfolding run
    run-next x xs s t q = rw (q, run) refl

    -- Let threads call `read` on an open connection, with any timeouts, and bytes arrive, in any order.
    -- Every piece of what arrives is then handed to one thread, whole and in the order in which it
    -- arrived: to the one that asked last and has been handed nothing since; and it is handed to
    -- nobody, and is lost, if there is none. The connection is linked, its handle is active and not
    -- closing, its buffer is empty, and UV_ENOBUFS is not positive; it stays open. The number of bytes
    -- that libuv reports is the number of those that arrive.
    pub run-handed :
        (ms : List Moment) (t : Connection Handle) (e : Env)
        → is_nonpos enobufs ≡ true
        → IsOpen t e
        → (t' : Connection Handle) × (e' : Env) × (run uv (map as_event ms) (talking t e)
            ≡ some (talking t' e'))
          × (e'.calls ≡ handed (thread t.lua_reader_tid) ms e.calls)
          × IsOpen t' e'
    run-handed [] t e n v = (t, e, unfold run in refl, refl, v)
    run-handed (asks tid timeout ∷ ms) t e n v =
        let (w, k) = asked-IsOpen tid timeout t e v in
        let (t', e', r, c, u) = run-handed ms (asked tid timeout t) e n w in
        (
          t',
          e',
          run-next _ (map as_event ms) _ _ (step-asks tid timeout t e v) ∙ r,
          c ∙ ap (λ o. handed o ms e.calls) k,
          u,
        )
    run-handed (arrives b bs unused ∷ ms) t e n v =
        let (t', e', r, c, u) =
          run-handed ms (served t) (told_bytes t (b ∷ bs) e) n (served-IsOpen t (b ∷ bs) e v) in
        (
          t',
          e',
          run-next _ (map as_event ms) _ _ (step-arrives b bs unused t e n v) ∙ r,
          c ∙ handed-arrives b bs unused ms t e,
          u,
        )
