-- ===== src/Server/Listening.antt =====
-- When `main` of src/luaw_server.c comes to serve, described without its order of checks.
use luaw.Prelude.{
  ℕ, ◌%◌, ◌==◌, ◌++◌, length, if◌then◌else◌, ◌≡◌, ◌↔◌, ◌⊎◌, inl, inr, refl, arith, true, List, [],
  ◌∷◌, Option, none, some, String,
}
use mathlib.Core.List.{append-nil}
use luaw.Prelude.Int.{ℤ, is_zero}
use luaw.Uv.{Uv}
use luaw.Server.Reader.{read_of}
use luaw.Server.Start.{
  Run, goes_on, exits, aborts, out_of_fuel, ◌>>=◌, Field, is_function, as_string, function, table,
  Scheduler, Config, Globals, Address, default_address, configure, read_config, set_port,
  Interpreter, set_lua_path, expect, init_text, expect_function, expect_table, expect_zero,
}

-- The three functions of the scheduler and the request handler are there.
abbrev pub IsScheduler : Scheduler → Type 0
IsScheduler s =
    (is_function s.resume_thread_id ≡ true)
    × (is_function s.start_system_thread ≡ true)
    × (is_function s.run_ready_threads ≡ true)

abbrev pub IsReady : Globals → Type 0
IsReady g =
    ((f : Field) × (g.request_handler ≡ some f) × (is_function f ≡ true))
    × ((s : Scheduler) × (g.luaw_scheduler ≡ some s) × IsScheduler s)

-- The address that a configuration gives: the one before if there is none; its `server_ip` and its
-- `server_port`, if it is a number; or, where `server_ip` is a table, the port that stands there.
abbrev pub Configures : Option Config → Address → Address → Type 0
Configures none a b = b ≡ a
Configures (some c) a b =
    ((ip : String) × (as_string c.server_ip ≡ some ip)
      × (b ≡ set_port c.server_port (record a { server_ip = ip })))
    ⊎ ((port : Field) × (c.server_ip ≡ table port) × (b ≡ set_port port a))

-- libuv takes the address, binds to it and listens on it.
abbrev pub IsFree : Uv → Address → Type 0
IsFree uv a =
    (is_zero (uv.ip4_addr_rc a.server_ip a.server_port) ≡ true)
    × (is_zero (uv.tcp_bind_rc a.server_ip a.server_port) ≡ true)
    × (is_zero (uv.listen_rc a.server_ip a.server_port) ≡ true)

-- What of a file and its epilogue is given to Lua: both, or the file alone where its length is a
-- multiple of 1024, the size of a block.
abbrev pub loaded : List ℕ → Option (List ℕ) → List ℕ
loaded bytes none = bytes
loaded bytes (some e) = if length bytes % 1024 == 0 then bytes else bytes ++ e

pub loaded-read_of : (bytes : List ℕ) (e : Option (List ℕ)) → (read_of bytes e).0 ≡ loaded bytes e
loaded-read_of bytes none = ground (arith, append-nil bytes)
loaded-read_of bytes (some e) = ground arith

module _ (lua : Interpreter) where
  open lua use {State, Chunk, new_state, open_file, load_text, call, globals}

  -- One file can be opened, its text, with the epilogue where that is read, be loaded, and the chunk run.
  abbrev pub RanFile : String → Option (List ℕ) → State → State → Type 0
  RanFile f e s t =
      (bytes : List ℕ) × (chunk : Chunk) × (open_file f ≡ some bytes)
      × (load_text (loaded bytes e) ≡ some chunk)
      × (call chunk s ≡ some t)

  pub data RanFiles : List String → State → State → Type 0 where
    no_file : {s : State} → RanFiles [] s s
    next_file :
        {f : String} {fs : List String} {s s' t : State}
        → RanFile f none s s'
        → RanFiles fs s' t
        → RanFiles (f ∷ fs) s t

  -- The configuration file has run, with the epilogue where it is loaded, and then the other files; the
  -- functions are there; the address is the configured one and is free.
  abbrev pub Serves : Uv → String → List String → Address → Type 0
  Serves uv config files a =
      (s₀ : State) × (s₁ : State) × (s₂ : State) × (new_state ≡ some s₀)
      × RanFile config (some init_text) (set_lua_path lua s₀) s₁
      × RanFiles files s₁ s₂
      × IsReady (globals s₂)
      × Configures (globals s₂).luaw_server_config default_address a
      × IsFree uv a

module _ {ℓ κ} {A : Type ℓ} {B : Type κ} where
  pub bind-inv :
      (m : Run A) (f : A → Run B) (b : B)
      → (m >>= f) ≡ goes_on b
      → (a : A) × (m ≡ goes_on a) × (f a ≡ goes_on b)
  bind-inv (goes_on a) f b h = (a, refl, h)
  bind-inv (exits s) f b h = absurd (cc)
  bind-inv aborts f b h = absurd (cc)
  bind-inv out_of_fuel f b h = absurd (cc)

  pub bind-intro :
      (m : Run A) (f : A → Run B) (b : B) (a : A)
      → m ≡ goes_on a
      → f a ≡ goes_on b
      → (m >>= f) ≡ goes_on b
  bind-intro m f b a e h = rw e h

module _ {ℓ} {A : Type ℓ} where
  pub expect-inv : (o : Option A) (s : String) (a : A) → expect o s ≡ goes_on a → o ≡ some a
  expect-inv none s a h = absurd (cc)
  expect-inv (some b) s a h = cc

  pub expect_table-inv :
      (o : Option A) (s : String) (a : A) → expect_table o s ≡ goes_on a → o ≡ some a
  expect_table-inv none s a h = absurd (cc)
  expect_table-inv (some b) s a h = cc

pub expect_function-inv :
    (f : Field) (s : String) (u : Unit {0}) → expect_function f s ≡ goes_on u → is_function f ≡ true
expect_function-inv f s u h = ground arith

pub expect_zero-inv :
    (rc : ℤ) (s : String) (u : Unit {0}) → expect_zero rc s ≡ goes_on u → is_zero rc ≡ true
expect_zero-inv rc s u h = ground arith

configure-Configures :
    (ip port : Field) (a b : Address)
    → let c : Config = record { server_ip = ip; server_port = port } in
      (configure c a ≡ goes_on b) ↔ Configures (some c) a b
configure-Configures function port a b = (λ h. absurd (cc), λ h. ground arith)
configure-Configures (Field.string s n) port a b = (λ h. inl (s, refl, cc), λ h. ground arith)
configure-Configures (Field.number n s) port a b = (λ h. inl (s, refl, cc), λ h. ground arith)
configure-Configures (table f) port a b = (λ h. inr (f, refl, cc), λ h. ground arith)
configure-Configures Field.other port a b = (λ h. absurd (cc), λ h. ground arith)

pub read_config-Configures :
    (c : Option Config) (a b : Address) → (read_config c a ≡ goes_on b) ↔ Configures c a b
read_config-Configures none a b = (λ h. cc, λ h. cc)
read_config-Configures (some c) a b = configure-Configures c.server_ip c.server_port a b
