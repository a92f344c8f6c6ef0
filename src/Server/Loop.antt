-- ===== src/Server/Loop.antt =====
-- src/luaw_server.c: `server_loop` with its callbacks `run_user_threads`, `handle_shutdown_req` and
-- `close_walk_cb`. libuv's turns are the input: what Lua and the system do in each of them.
use luaw.Prelude.{
  ℕ, suc, ◌+◌, ◌≡◌, refl, ap, ◌∙◌, Bool, true, false, List, [], ◌∷◌, ◌++◌, map, if◌then◌else◌, not,
  length, ◌||◌, ◌&&◌, arith, Bool-cases, inl, inr,
}
use luaw.Prelude.Int.{ℤ, pos, is_zero, eqb}
use luaw.Uv.{Uv}

-- A turn of the loop: the status of the protected call of `runReadyThreads`, which the prepare handle makes
-- first, and then the signals that arrive.
pub record Turn : Type 0 where
  pub status : ℤ
  pub signals : List ℤ

-- Whether `uv_stop` was called, whether the signal handle is active, and how many turns were taken.
pub record EventLoop : Type 0 where
  pub stopping : Bool
  pub shutdown_signal : Bool
  pub turns : ℕ

abbrev pub sighup : ℤ
sighup = pos 1

unfoldable pub handle_shutdown_req : ℤ → EventLoop → EventLoop
handle_shutdown_req signum l =
    if eqb signum sighup then record l { stopping = true; shutdown_signal = false } else l

unfoldable pub run_user_threads : ℤ → EventLoop → EventLoop
run_user_threads status l = if is_zero status then l else record l { stopping = true }

-- A signal reaches the callback while its handle is active.
abbrev pub receive : List ℤ → EventLoop → EventLoop
receive [] l = l
receive (n ∷ ns) l = receive ns (if l.shutdown_signal then handle_shutdown_req n l else l)

abbrev pub take_turn : Turn → EventLoop → EventLoop
take_turn t l =
    let l' = receive t.signals (run_user_threads t.status l) in record l' { turns = suc l'.turns }

-- `uv_run`: turns are taken until `uv_stop` was called in one.
unfoldable pub uv_run : List Turn → EventLoop → EventLoop
unfolding handle_shutdown_req run_user_threads
uv_run [] l = l
uv_run (t ∷ ts) l = if l.stopping then l else uv_run ts (take_turn t l)

-- What is cleaned up when the loop has ended, in its order.
pub data Cleanup : Type 0 where
  handles_walked ran_once loop_deleted lua_closed syslog_closed : Cleanup

-- How `server_loop` ends; the status is what `uv_run` returned.
pub record Ended (H : Type 0) : Type 0 where
  pub event_loop : EventLoop
  pub handles : List H
  pub cleanup : List Cleanup
  pub status : ℤ

module _ (uv : Uv) where
  open uv use {Handle, is_closing, close, close-is_closing}

  unfoldable pub close_walk_cb : Handle → Handle
  close_walk_cb h = if not (is_closing h) then close h else h

  -- The loop; the handles that libuv has when it ends, each of them walked over; and the rest of the
  -- cleanup. `rc` is what `uv_run` returns.
  unfoldable pub server_loop : List Turn → List Handle → ℤ → EventLoop → Ended Handle
  unfolding close_walk_cb
  server_loop ts handles rc l = record {
    event_loop = uv_run ts l;
    handles = map close_walk_cb handles;
    cleanup = handles_walked ∷ ran_once ∷ loop_deleted ∷ lua_closed ∷ syslog_closed ∷ [];
    status = rc;
  }

-- What stops the server: a failed call of the scheduler, or SIGHUP.
abbrev pub has_sighup : List ℤ → Bool
has_sighup [] = false
has_sighup (n ∷ ns) = eqb n sighup || has_sighup ns

abbrev pub is_last : Turn → Bool
is_last t = not (is_zero t.status) || has_sighup t.signals

abbrev pub none_last : List Turn → Bool
none_last [] = true
none_last (t ∷ ts) = not (is_last t) && none_last ts

receive-inactive : (ns : List ℤ) (l : EventLoop) → l.shutdown_signal ≡ false → receive ns l ≡ l
receive-inactive [] l h = refl
receive-inactive (n ∷ ns) l h = ground (arith, receive-inactive ns l)

receive-stopping :
    (ns : List ℤ) (l : EventLoop)
    → l.shutdown_signal ≡ true
    → (receive ns l).stopping ≡ (l.stopping || has_sighup ns)
unfolding handle_shutdown_req
receive-stopping [] l h = ground arith
receive-stopping (n ∷ ns) l h = elim (Bool-cases (eqb n sighup)) [
  | inl hup ↦
      ground (arith, receive-inactive ns (record l { stopping = true; shutdown_signal = false }))
  | inr other ↦ ground (arith, receive-stopping ns l)
]

receive-turns : (ns : List ℤ) (l : EventLoop) → (receive ns l).turns ≡ l.turns
unfolding handle_shutdown_req
receive-turns [] l = refl
receive-turns (n ∷ ns) l = ground (
  arith,
  receive-turns ns l,
  receive-turns ns (record l { stopping = true; shutdown_signal = false }),
)

turn-turns : (t : Turn) (l : EventLoop) → (take_turn t l).turns ≡ suc l.turns
unfolding run_user_threads
turn-turns t l =
    ground
      (arith, receive-turns t.signals l, receive-turns t.signals (record l { stopping = true }))

receive-quiet : (ns : List ℤ) (l : EventLoop) → has_sighup ns ≡ false → receive ns l ≡ l
unfolding handle_shutdown_req
receive-quiet [] l h = refl
receive-quiet (n ∷ ns) l h = ground (arith, receive-quiet ns l)

turn-quiet :
    (t : Turn) (l : EventLoop)
    → is_last t ≡ false
    → take_turn t l ≡ record l { turns = suc l.turns }
unfolding run_user_threads
turn-quiet t l h = ground (arith, receive-quiet t.signals l)

turn-last :
    (t : Turn) (l : EventLoop)
    → is_last t ≡ true
    → l.shutdown_signal ≡ true
    → (take_turn t l).stopping ≡ true
unfolding run_user_threads
turn-last t l h k =
    ground (
      arith,
      receive-stopping t.signals l,
      receive-stopping t.signals (record l { stopping = true }),
    )

uv_run-stopped : (ts : List Turn) (l : EventLoop) → l.stopping ≡ true → uv_run ts l ≡ l
unfolding uv_run
uv_run-stopped [] l h = refl
uv_run-stopped (t ∷ ts) l h = ground arith

uv_run-active :
    (t : Turn) (ts : List Turn) (l : EventLoop)
    → l.stopping ≡ false
    → uv_run (t ∷ ts) l ≡ uv_run ts (take_turn t l)
unfolding uv_run
uv_run-active t ts l h = ground arith

uv_run-until :
    (before after : List Turn) (t : Turn) (l : EventLoop)
    → l.stopping ≡ false
    → l.shutdown_signal ≡ true
    → none_last before ≡ true
    → is_last t ≡ true
    → let r = uv_run (before ++ t ∷ after) l in
      (r.turns ≡ l.turns + length before + 1) × (r.stopping ≡ true)
uv_run-until [] after t l h k b e =
    let stops = turn-last t l e k in
    let last = uv_run-active t after l h ∙ uv_run-stopped after (take_turn t l) stops in
    (ap (λ r. r.turns) last ∙ omega (arith, turn-turns t l), ap (λ r. r.stopping) last ∙ stops)
uv_run-until (u ∷ us) after t l h k b e =
    let next : EventLoop = record l { turns = suc l.turns } in
    let quiet = turn-quiet u l (ground arith) in
    let (n, s) = uv_run-until us after t next h k (ground arith) e in
    let first = uv_run-active u (us ++ t ∷ after) l h ∙ ap (uv_run (us ++ t ∷ after)) quiet in
    (ap (λ r. r.turns) first ∙ omega (arith, n), ap (λ r. r.stopping) first ∙ s)

module _ (uv : Uv) where
  open uv use {Handle, is_closing, close-is_closing}

  abbrev pub all_closing : List Handle → Bool
  all_closing [] = true
  all_closing (h ∷ hs) = is_closing h && all_closing hs

  walk-closing : (hs : List Handle) → all_closing (map (close_walk_cb uv) hs) ≡ true
  unfolding close_walk_cb
  walk-closing [] = refl
  walk-closing (h ∷ hs) = ground (arith, close-is_closing h, walk-closing hs)

  -- The server takes turns for as long as the calls of the scheduler succeed and no SIGHUP comes, and none
  -- after the turn in which one fails or SIGHUP comes, whatever was to follow; then every handle is
  -- closing, and the status is that of `uv_run`.
  pub server_loop-until :
      (before after : List Turn) (t : Turn) (handles : List Handle) (rc : ℤ) (l : EventLoop)
      → l.stopping ≡ false
      → l.shutdown_signal ≡ true
      → none_last before ≡ true
      → is_last t ≡ true
      → let r = server_loop uv (before ++ t ∷ after) handles rc l in
        (r.event_loop.turns ≡ l.turns + length before + 1)
        × (r.event_loop.stopping ≡ true)
        × (all_closing r.handles ≡ true)
        × (r.status ≡ rc)
  unfolding server_loop
  server_loop-until before after t handles rc l h k b e =
      let (n, s) = uv_run-until before after t l h k b e in (n, s, walk-closing handles, refl)
