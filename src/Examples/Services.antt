-- ===== src/Examples/Services.antt =====
-- Name resolution, connections made and accepted, and the log file.
use luaw.Prelude.{◌+◌, ℕ, ◌+◌, ◌≡◌, refl, String, true, false, List, [], ◌∷◌, some, length}
use mathlib.Core.Option
use luaw.Prelude.Int.{ℤ, pos, negsuc}
use luaw.Lua.{Value, strerror, format, Resume}
use luaw.Tcp.{World, fresh_connection, start_timer}
use luaw.Tcp.Connect.{client_connect, connecting}
use luaw.Tcp.Run.{here, execute, close}
use luaw.Tcp.Origins.{begun, client_connect-no_fault}
use luaw.Logging.{
  Log, Event, log_is_open, run, rotate-closes_new, opens, writes, opened, rotated, written,
  open_log_file, on_log_open, write_log, on_log_write, close_log, get_logging_state,
}
use luaw.Logging as Logging
use luaw.Logging.Files.{Usage, use_files, unused}
use luaw.Logging.Descriptors.{unused-use_files, current}
use luaw.Examples.World.{ToyHandle, toy_uv}

-- The connection of a `connect` that began, and one that the server accepted.
abbrev outgoing : World ToyHandle
outgoing = record {
  conn = some (record (fresh_connection toy_uv) {
    lua_writer_tid = pos 7;
    write_timer = record { active = true; closing = false };
  });
  env = record { udata = true; calls = []; sent = [] };
}

abbrev incoming : World ToyHandle
incoming = record {
  conn = some (fresh_connection toy_uv);
  env = record { udata = true; calls = []; sent = [] };
}

client_connect-no_fault_example :
    (w : World ToyHandle) × (r : List Value) × (execute toy_uv close outgoing ≡ some (w, r))
unfolding client_connect connecting fresh_connection start_timer
client_connect-no_fault_example =
    client_connect-no_fault toy_uv "10.0.0.1" (pos 80) (pos 7) (pos 100) true outgoing
      (begun toy_uv outgoing) close refl here refl

abbrev unresolved : Resume
unresolved = record {
  tid = pos 7;
  status = false;
  result = format "DNS resolution failed: %s" (strerror (pos 0));
}

-- No address can be written.
abbrev address_rc : ℕ → ℤ
address_rc a = negsuc (a + 27)

abbrev unwritten : Resume
unwritten = record {
  tid = pos 7;
  status = false;
  result = format "DNS resolution failed: %s" (strerror (negsuc 28));
}

abbrev address : ℕ → String
address a = "127.0.0.1"

-- A log that is opened, written, rotated, opened again, and closed when a write fails; libuv refuses no
-- write.
abbrev logging : List Event
logging =
    opens true true (pos 0)
    ∷ opened (pos 5)
    ∷ writes (some (104 ∷ [])) true false (pos 0)
    ∷ written (pos 1)
    ∷ writes (some (105 ∷ [])) true true (pos 0)
    ∷ rotated
    ∷ opens true true (pos 0)
    ∷ opened (pos 6)
    ∷ writes (some (106 ∷ [])) true false (pos 0)
    ∷ written (negsuc 27)
    ∷ []

unused-use_files_example :
    (u : Usage) × (use_files logging (unused (pos 0)) ≡ some u)
    × (length u.files ≡ current u + u.leaked)
unused-use_files_example = unused-use_files (pos 0) logging

-- Both files are closed at its end.
logging_closes :
    Option.map (λ u. u.log.closes) (use_files logging (unused (pos 0))) ≡ some (pos 6 ∷ pos 5 ∷ [])
unfolding Logging.execute open_log_file on_log_open write_log on_log_write close_log
    get_logging_state
logging_closes = refl

abbrev open_log : Log
open_log = record { log_state = log_is_open; logfile = pos 5; closes = []; writes = [] }

rotate-closes_new_example :
    let t =
      run
        (writes (some (104 ∷ [])) true true (pos 0)
          ∷ opens true true (pos 0)
          ∷ opened (pos 6)
          ∷ rotated
          ∷ [])
        open_log in
    (t.closes ≡ pos 6 ∷ [])
    × (t.log_state ≡ log_is_open)
    × (t.logfile ≡ pos 6)
    × (t.writes ≡ (pos 5, 104 ∷ []) ∷ [])
rotate-closes_new_example = rotate-closes_new (pos 5) (pos 6) (104 ∷ []) open_log refl refl

-- Two writes in flight that both fail: the log's file is closed twice.
two_failures :
    (run
      (writes (some (104 ∷ [])) true false (pos 0)
        ∷ writes (some (105 ∷ [])) true false (pos 0)
        ∷ written (negsuc 27)
        ∷ written (negsuc 27)
        ∷ [])
      open_log).closes
    ≡ pos 5 ∷ pos 5 ∷ []
unfolding run Logging.execute write_log on_log_write close_log get_logging_state
two_failures = refl
