-- ===== src/Logging.antt =====
-- src/luaw_logging.c and src/luaw_logging.h: the log file. Logging.Syslog has the host name and the
-- connection to a syslog server.
pub mod Syslog
pub mod Files
pub mod Descriptors
use luaw.Prelude.{
  ℕ, ◌≡◌, refl, ◌∙◌, Bool, true, false, List, [], ◌∷◌, Option, none, some, if◌then◌else◌, ◌&&◌,
  arith,
}
use luaw.Prelude.Int.{ℤ, pos, negsuc, is_zero}
use luaw.Lua.{Value, integer}

-- `logfile_sate`.
pub data LogState : Type 0 where
  log_not_open opening_log log_is_open : LogState

abbrev pub log_code : LogState → ℕ
log_code log_not_open = 0
log_code opening_log = 1
log_code log_is_open = 2

-- The globals `log_state` and `logfile`, a file descriptor, and what libuv was asked to do: the
-- descriptors that it was to close, and the writes with theirs, newest first.
pub record Log : Type 0 where
  pub log_state : LogState
  pub logfile : ℤ
  pub closes : List ℤ
  pub writes : List (ℤ × List ℕ)

abbrev pub is_open : LogState → Bool
is_open log_is_open = true
is_open _ = false

abbrev pub is_not_open : LogState → Bool
is_not_open log_not_open = true
is_not_open _ = false

unfoldable pub get_logging_state : Log → List Value
get_logging_state s = integer (pos (log_code s.log_state)) ∷ []

-- `req->result` is a descriptor, or an error code below 0.
unfoldable pub on_log_open : ℤ → Log → Log
on_log_open result s = record s { logfile = result; log_state = log_is_open }

-- Whether a file name was given and a request allocated, and what `uv_fs_open` returns.
unfoldable pub open_log_file : Bool → Bool → ℤ → Log → Log
open_log_file named allocated rc s =
    if is_not_open s.log_state && named && allocated && is_zero rc
    then record s { log_state = opening_log }
    else s

-- `req->data` is the address of `logfile`: the file is the one that it holds when this runs.
unfoldable pub close_log : Log → Log
close_log s = record s { closes = s.logfile ∷ s.closes }

abbrev pub not_open : Log → Log
not_open s = record s { log_state = log_not_open }

unfoldable pub on_log_write : ℤ → Log → Log
unfolding close_log
on_log_write (pos n) s = s
on_log_write (negsuc k) s = close_log (not_open s)

-- A message, `none` if the argument is no string; whether both allocations succeed; whether to rotate
-- the log; and what `uv_fs_write` returns.
unfoldable pub write_log : Option (List ℕ) → Bool → Bool → ℤ → Log → Log × List Value
unfolding close_log get_logging_state
write_log none allocated rotate rc s = (s, get_logging_state s)
write_log (some str) allocated rotate rc s =
    let written = record s { writes = (s.logfile, str) ∷ s.writes } in
    let s' =
      if is_open s.log_state && allocated
      then (if rotate
          then not_open written
          else if is_zero rc
          then written
          else close_log (not_open written))
      else s in
    (s', get_logging_state s')

-- Calls from Lua and callbacks, in any order.
pub data Event : Type 0 where
  opens : Bool → Bool → ℤ → Event
  writes : Option (List ℕ) → Bool → Bool → ℤ → Event
  opened written : ℤ → Event
  rotated : Event

unfoldable pub execute : Event → Log → Log
execute (opens named allocated rc) s = open_log_file named allocated rc s
execute (writes str allocated rotate rc) s = (write_log str allocated rotate rc s).0
execute (opened result) s = on_log_open result s
execute (written result) s = on_log_write result s
execute rotated s = close_log s

unfoldable pub run : List Event → Log → Log
run [] s = s
run (e ∷ es) s = run es (execute e s)

-- If an open log is rotated and opened again before the last write to the old file has finished, then
-- the new file is closed although the log stays open with it, and the old file is not.
pub rotate-closes_new :
    (f g : ℤ) (str : List ℕ) (s : Log)
    → s.log_state ≡ log_is_open
    → s.logfile ≡ f
    → let t =
        run
          (writes (some str) true true (pos 0) ∷ opens true true (pos 0) ∷ opened g ∷ rotated ∷ [])
          s in
      (t.closes ≡ g ∷ s.closes)
      × (t.log_state ≡ log_is_open)
      × (t.logfile ≡ g)
      × (t.writes ≡ (f, str) ∷ s.writes)
unfolding run execute write_log open_log_file on_log_open close_log
rotate-closes_new f g str s h k = (ground arith, ground arith, ground arith, ground arith)
