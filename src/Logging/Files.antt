-- ===== src/Logging/Files.antt =====
-- The file descriptors of src/luaw_logging.c as an operating system sees them, where Lua calls `write`
-- and `open` only after the last write has finished and no open fails.
use luaw.Prelude.{
  ℕ, ◌+◌, ◌++◌, Bool, true, false, List, [], ◌∷◌, Option, none, some, if◌then◌else◌, ◌&&◌, not,
}
use mathlib.Core.Option
use luaw.Prelude.Int.{ℤ, pos, negsuc, is_zero, eqb}
use luaw.Logging.{LogState, log_not_open, opening_log, Log, Event, execute, is_open}

pub data FileOp : Type 0 where
  open_file write_file close_file : ℤ → FileOp

abbrev pub remove : ℤ → List ℤ → Option (List ℤ)
remove f [] = none
remove f (g ∷ fs) = if eqb f g then some fs else Option.map (λ hs. g ∷ hs) (remove f fs)

-- The open descriptors after an operation: a file that is not open can be neither written nor closed.
abbrev pub operate : FileOp → List ℤ → Option (List ℤ)
operate (FileOp.open_file f) fs = some (f ∷ fs)
operate (FileOp.write_file f) fs = Option.map (λ _. fs) (remove f fs)
operate (FileOp.close_file f) fs = remove f fs

abbrev pub operate_all : List FileOp → List ℤ → Option (List ℤ)
operate_all [] fs = some fs
operate_all (o ∷ os) fs = elim (operate o fs) [ none ↦ none | some gs ↦ operate_all os gs ]

abbrev pub write_ops : List (ℤ × List ℕ) → List FileOp
write_ops [] = []
write_ops ((f, str) ∷ ws) = FileOp.write_file f ∷ write_ops ws

abbrev pub close_ops : List ℤ → List FileOp
close_ops [] = []
close_ops (f ∷ fs) = FileOp.close_file f ∷ close_ops fs

abbrev pub open_ops : Event → List FileOp
open_ops (Event.opened f) = FileOp.open_file f ∷ []
open_ops _ = []

-- What an event does to files: what it asks of libuv where nothing was asked before.
abbrev pub ops : Event → Log → List FileOp
ops e s =
    let t = execute e (record s { closes = []; writes = [] }) in
    open_ops e ++ (write_ops t.writes ++ close_ops t.closes)

-- The write in flight: whether its callback closes the file.
pub data Flight : Type 0 where
  plain last : Flight

-- The log, the write in flight, the open descriptors, and how many rotations libuv refused, which the
-- code does not notice.
pub record Usage : Type 0 where
  pub log : Log
  pub flight : Option Flight
  pub files : List ℤ
  pub leaked : ℕ

abbrev pub is_idle : Option Flight → Bool
is_idle none = true
is_idle (some x) = false

abbrev pub is_plain : Option Flight → Bool
is_plain (some Flight.plain) = true
is_plain _ = false

abbrev pub is_last : Option Flight → Bool
is_last (some Flight.last) = true
is_last _ = false

abbrev pub is_opening : LogState → Bool
is_opening opening_log = true
is_opening _ = false

abbrev pub is_serial : Event → Usage → Bool
is_serial (Event.opens named allocated rc) u = is_idle u.flight
is_serial (Event.writes str allocated rotate rc) u = is_idle u.flight
is_serial (Event.opened (pos f)) u = is_opening u.log.log_state
is_serial (Event.opened (negsuc f)) u = false
is_serial (Event.written n) u = is_plain u.flight
is_serial Event.rotated u = is_last u.flight

-- libuv calls back where it took the write.
abbrev pub flight_after : Event → Log → Option Flight → Option Flight
flight_after (Event.writes (some str) allocated rotate rc) s x =
    if is_open s.log_state && allocated && is_zero rc
    then some (if rotate then Flight.last else Flight.plain)
    else x
flight_after (Event.writes none allocated rotate rc) s x = x
flight_after (Event.opens named allocated rc) s x = x
flight_after (Event.opened f) s x = x
flight_after (Event.written n) s x = none
flight_after Event.rotated s x = none

abbrev pub leaks : Event → Log → ℕ
leaks (Event.writes (some str) allocated rotate rc) s =
    if is_open s.log_state && allocated && rotate && not (is_zero rc) then 1 else 0
leaks _ s = 0

-- `none` if a file is written or closed that is not open.
abbrev pub use_file : Event → Usage → Option Usage
use_file e u =
    if is_serial e u
    then Option.map
        (λ fs. record {
          log = execute e u.log;
          flight = flight_after e u.log u.flight;
          files = fs;
          leaked = leaks e u.log + u.leaked;
        })
        (operate_all (ops e u.log) u.files)
    else some u

abbrev pub use_files : List Event → Usage → Option Usage
use_files [] u = some u
use_files (e ∷ es) u = elim (use_file e u) [ none ↦ none | some v ↦ use_files es v ]

-- The program's start, with the descriptor that `logfile` has then.
abbrev pub unused : ℤ → Usage
unused f = record {
  log = record { log_state = log_not_open; logfile = f; closes = []; writes = [] };
  flight = none;
  files = [];
  leaked = 0;
}
