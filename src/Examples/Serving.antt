-- ===== src/Examples/Serving.antt =====
-- Starting the server and its loop, of src/luaw_server.c.
use luaw.Prelude.{
  ℕ, ◌+◌, ◌≡◌, ◌↔◌, refl, arith, true, false, List, [], ◌∷◌, ◌++◌, none, some, length, replicate,
}
use luaw.Prelude.Int.{pos}
use luaw.Server.Reader.{load, opened, at_end, load-read_of}
use luaw.Server.Start.{goes_on, function, string, Globals, Interpreter, Listener, main}
use luaw.Server.Listening.{Serves}
use luaw.Server.Serves.{main-Serves}
use luaw.Server.Loop.{EventLoop, Turn, server_loop, all_closing, server_loop-until}
use luaw.Examples.World.{ToyHandle, toy_uv}

-- A file of exactly one block: its epilogue is not read.
abbrev block : List ℕ
block = replicate 1024 45

load-read_of_example :
    load 4 (opened block (some (10 ∷ []))) ≡ some (block, at_end (some (10 ∷ [])))
load-read_of_example = load-read_of block (some (10 ∷ [])) 4 (omega arith)

-- An interpreter whose state is the number of bytes of the chunks that ran, and which has what
-- `init_luaw_server` looks for.
abbrev toy_globals : Globals
toy_globals = record {
  request_handler = some function;
  luaw_scheduler = some (record {
    resume_thread_id = function;
    start_system_thread = function;
    run_ready_threads = function;
  });
  luaw_server_config =
      some (record { server_ip = string "127.0.0.1" none; server_port = function });
}

abbrev toy_lua : Interpreter
toy_lua = record {
  State = ℕ;
  Chunk = List ℕ;
  new_state = some 0;
  set_field = λ global key value s. s;
  open_file = λ f. some (1 ∷ 2 ∷ []);
  load_text = λ t. some t;
  call = λ c s. some (s + length c);
  globals = λ s. toy_globals;
}

abbrev listener : Listener
listener = record {
  address = record { server_ip = "127.0.0.1"; server_port = pos 80 };
  backlog = 128;
  shutdown_signal = true;
}

main-Serves_example : (main toy_lua toy_uv ("server.cfg" ∷ "app.lua" ∷ []) ≡ goes_on listener) ↔ (
    Serves toy_lua toy_uv "server.cfg" ("app.lua" ∷ []) listener.address
    × (listener.backlog ≡ 128)
    × (listener.shutdown_signal ≡ true))
main-Serves_example = main-Serves toy_lua toy_uv "server.cfg" ("app.lua" ∷ []) listener

abbrev starting : EventLoop
starting = record { stopping = false; shutdown_signal = true; turns = 0 }

abbrev calm : Turn
calm = record { status = pos 0; signals = pos 2 ∷ [] }

abbrev hung_up : Turn
hung_up = record { status = pos 0; signals = pos 2 ∷ pos 1 ∷ [] }

abbrev handles : List ToyHandle
handles = record { active = true; closing = false } ∷ record { active = false; closing = true } ∷ []

server_loop-until_example :
    let r = server_loop toy_uv ((calm ∷ []) ++ hung_up ∷ calm ∷ []) handles (pos 1) starting in
    (r.event_loop.turns ≡ 2)
    × (r.event_loop.stopping ≡ true)
    × (all_closing toy_uv r.handles ≡ true)
    × (r.status ≡ pos 1)
server_loop-until_example =
    server_loop-until toy_uv (calm ∷ []) (calm ∷ []) hung_up handles (pos 1) starting refl refl refl
      refl
