-- ===== src/Server/Start.antt =====
-- src/luaw_server.c: `init_luaw_server`, `start_server`, `run_lua_file` and what `main` does up to the
-- loop. Lua's interpreter is a parameter.
use luaw.Prelude.{ℕ, Bool, true, false, List, [], ◌∷◌, Option, none, some, if◌then◌else◌, String}
use luaw.Prelude.Int.{ℤ, pos, is_zero}
use luaw.Uv.{Uv}
use luaw.Server.Reader.{load, opened, fuel_for}

-- A run goes on, exits with `EXIT_FAILURE` and a message, or ends with a Lua error outside any
-- protected call, on which Lua aborts.
pub data Run {ℓ} (A : Type ℓ) : Type ℓ where
  goes_on : A → Run A
  exits : String → Run A
  aborts out_of_fuel : Run A

infixl 5 ◌>>=◌
abbrev pub ◌>>=◌ {ℓ κ} : {A : Type ℓ} {B : Type κ} → Run A → (A → Run B) → Run B
goes_on a >>= f = f a
exits m >>= f = exits m
aborts >>= f = aborts
out_of_fuel >>= f = out_of_fuel

-- A Lua value, as far as this code tells values apart: a string with the integer that it can be converted
-- to, if any; a number as an integer and as a text; a table by its field `server_port`.
pub data Field : Type 0 where
  function : Field
  string : String → Option ℤ → Field
  number : ℤ → String → Field
  table : Field → Field
  other : Field

abbrev pub is_function : Field → Bool
is_function function = true
is_function _ = false

-- `lua_isstring` with `lua_tostring`, and `lua_isnumber` with `lua_tointeger`.
abbrev pub as_string : Field → Option String
as_string (string s n) = some s
as_string (number n s) = some s
as_string _ = none

abbrev pub as_number : Field → Option ℤ
as_number (string s n) = n
as_number (number n s) = some n
as_number _ = none

-- The globals that `init_luaw_server` reads, `none` where one is no table.
pub record Scheduler : Type 0 where
  pub resume_thread_id : Field
  pub start_system_thread : Field
  pub run_ready_threads : Field

pub record Config : Type 0 where
  pub server_ip : Field
  pub server_port : Field

pub record Globals : Type 0 where
  pub request_handler : Option Field
  pub luaw_scheduler : Option Scheduler
  pub luaw_server_config : Option Config

-- The static variables that it sets, but for the references to the four functions.
pub record Address : Type 0 where
  pub server_ip : String
  pub server_port : ℤ

abbrev pub default_address : Address
default_address = record { server_ip = "0.0.0.0"; server_port = pos 80 }

-- Go on if the value is a function.
abbrev pub expect_function : Field → String → Run (Unit {0})
expect_function f message = if is_function f then goes_on tt else exits message

abbrev pub expect_table {ℓ} : {A : Type ℓ} → Option A → String → Run A
expect_table none message = exits message
expect_table (some t) message = goes_on t

abbrev pub set_port : Field → Address → Address
set_port f a = elim (as_number f) [ none ↦ a | some n ↦ record a { server_port = n } ]

-- `server_port` is a field of the value on top of the stack: of the configuration, if `server_ip` was a
-- string and is popped, and else of `server_ip` itself, which is popped by nobody. A string could be
-- indexed, but is not left there.
abbrev pub configure : Config → Address → Run Address
configure c a = elim (as_string c.server_ip) [
  | some ip ↦ goes_on (set_port c.server_port (record a { server_ip = ip }))
  | none ↦ elim c.server_ip [ table port ↦ goes_on (set_port port a) | _ ↦ aborts ]
]

abbrev pub read_config : Option Config → Address → Run Address
read_config none a = goes_on a
read_config (some c) a = configure c a

unfoldable pub init_luaw_server : Globals → Address → Run Address
init_luaw_server g a =
    expect_table g.request_handler "Luaw HTTP library not initialized" >>= λ handler.
    expect_function handler "Main HTTP request handler function (Luaw.request_handler) not set"
    >>= λ _. expect_table g.luaw_scheduler "Luaw scheduler not initialized" >>= λ s.
        expect_function s.resume_thread_id "resumeThreadId function not found in luaw scheduler"
        >>= λ _.
            expect_function s.start_system_thread
              "startSystemThread function not found in luaw scheduler"
            >>= λ _.
                expect_function s.run_ready_threads
                  "runReadyThreads function not found in luaw scheduler"
                >>= λ _. read_config g.luaw_server_config a

-- What `start_server` sets up.
pub record Listener : Type 0 where
  pub address : Address
  pub backlog : ℕ
  pub shutdown_signal : Bool

abbrev pub expect_zero : ℤ → String → Run (Unit {0})
expect_zero rc message = if is_zero rc then goes_on tt else exits message

module _ (uv : Uv) where
  open uv use {ip4_addr_rc, tcp_bind_rc, listen_rc}

  unfoldable pub start_server : Address → Run Listener
  start_server a =
      expect_zero (ip4_addr_rc a.server_ip a.server_port) "Error initializing socket address: %s"
      >>= λ _.
          expect_zero (tcp_bind_rc a.server_ip a.server_port) "Error binding to port %d : %s"
          >>= λ _.
              expect_zero (listen_rc a.server_ip a.server_port) "Error listening on port %d : %s"
              >>= λ _. goes_on (record { address = a; backlog = 128; shutdown_signal = true })

-- Lua and the file system: a new state with the libraries, a string put into a field of a global table, the
-- bytes of a file that can be opened, a chunk loaded from text, the state after a chunk has run, and the globals.
pub record Interpreter : Type 1 where
  pub State : Type 0
  pub Chunk : Type 0
  pub new_state : Option State
  pub set_field : String → String → String → State → State
  pub open_file : String → Option (List ℕ)
  pub load_text : List ℕ → Option Chunk
  pub call : Chunk → State → Option State
  pub globals : State → Globals

abbrev pub expect {ℓ} : {A : Type ℓ} → Option A → String → Run A
expect none message = exits message
expect (some a) message = goes_on a

abbrev pub read {ℓ} : {A B : Type ℓ} → Option (A × B) → Run A
read none = out_of_fuel
read (some (text, lb)) = goes_on text

-- The text that `main` puts behind the configuration file: `init = require("luaw_init")` on a line of its
-- own.
abbrev pub init_text : List ℕ
init_text =
    10 ∷ 105 ∷ 110 ∷ 105 ∷ 116 ∷ 32 ∷ 61 ∷ 32 ∷ 114 ∷ 101 ∷ 113 ∷ 117 ∷ 105 ∷ 114 ∷ 101 ∷ 40 ∷ 34
    ∷ 108 ∷ 117 ∷ 97 ∷ 119 ∷ 95 ∷ 105 ∷ 110 ∷ 105 ∷ 116 ∷ 34 ∷ 41 ∷ 10 ∷ []

module _ (lua : Interpreter) where
  open lua use {State, Chunk, new_state, set_field, open_file, load_text, call, globals}

  unfoldable pub set_lua_path : State → State
  set_lua_path s = set_field "package" "path" "?;?.lua;./bin/?;./bin/?.lua;./lib/?;./lib/?.lua" s

  unfoldable pub run_lua_file : String → Option (List ℕ) → State → Run State
  run_lua_file filename epilogue s =
      expect (open_file filename) "Could not open file %s for reading" >>= λ bytes.
      read (load (fuel_for bytes) (opened bytes epilogue)) >>= λ text.
      expect (load_text text) "Error while loading file: %s" >>= λ chunk.
      expect (call chunk s) "Error while executing file: %s"

  -- The files behind the first, in their order.
  unfoldable pub run_lua_files : List String → State → Run State
  unfolding run_lua_file
  run_lua_files [] s = goes_on s
  run_lua_files (f ∷ fs) s = run_lua_file f none s >>= λ s'. run_lua_files fs s'

  -- The arguments are those behind the program's name. What it does is what it has done when it enters the
  -- loop.
  unfoldable pub main : Uv → List String → Run Listener
  unfolding set_lua_path run_lua_file init_luaw_server start_server
  main uv [] = exits "Usage: %s <luaw config file >"
  main uv (config ∷ files) = expect new_state "Could not create new Lua state" >>= λ s₀.
      run_lua_file config (some init_text) (set_lua_path s₀) >>= λ s₁.
      run_lua_files files s₁ >>= λ s₂.
      init_luaw_server (globals s₂) default_address >>= λ a. start_server uv a
