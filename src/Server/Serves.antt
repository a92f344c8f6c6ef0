-- ===== src/Server/Serves.antt =====
-- `main` of src/luaw_server.c does what Server.Listening describes.
use luaw.Prelude.{
  ℕ, ◌≡◌, ◌↔◌, subst, refl, sym, ap, ◌∙◌, arith, true, List, [], ◌∷◌, Option, none, some, String,
}
use luaw.Uv.{Uv}
use luaw.Server.Reader.{read_of, load-read_of, fuel_for}
use luaw.Server.Start.{
  goes_on, Field, is_function, Scheduler, Globals, Address, default_address, init_luaw_server,
  Listener, start_server, Interpreter, set_lua_path, expect, read, run_lua_file, run_lua_files,
  init_text, main, read_config,
}
use luaw.Server.Listening.{
  IsScheduler, IsReady, Configures, IsFree, RanFile, RanFiles, loaded-read_of, no_file, next_file,
  Serves, bind-inv, bind-intro, expect-inv, read_config-Configures,
}

goes_on-inj {ℓ} : {A : Type ℓ} {a b : A} → goes_on a ≡ goes_on b → b ≡ a
goes_on-inj h = cc

-- The tests on the functions.
tests-inv :
    (g : Globals) (f : Field) (s : Scheduler) (a b : Address)
    → g.request_handler ≡ some f
    → g.luaw_scheduler ≡ some s
    → init_luaw_server g a ≡ goes_on b
    → (is_function f ≡ true) × IsScheduler s × (read_config g.luaw_server_config a ≡ goes_on b)
unfolding init_luaw_server
tests-inv g f s a b e e' h = ground arith

missing-inv :
    (g : Globals) (x : Option Field) (y : Option Scheduler) (a b : Address)
    → g.request_handler ≡ x
    → g.luaw_scheduler ≡ y
    → init_luaw_server g a ≡ goes_on b
    → (f : Field) × (s : Scheduler) × (x ≡ some f) × (y ≡ some s)
unfolding init_luaw_server
missing-inv g (some f) (some s) a b e e' h = (f, s, refl, refl)
missing-inv g none y a b e e' h = absurd (ground arith)
missing-inv g (some f) none a b e e' h = absurd (ground arith)

init-Ready :
    (g : Globals) (a b : Address)
    → init_luaw_server g a ≡ goes_on b
    → IsReady g × Configures g.luaw_server_config a b
init-Ready g a b h =
    let (f, s, e, e') = missing-inv g g.request_handler g.luaw_scheduler a b refl refl h in
    let (i, j, r) = tests-inv g f s a b e e' h in
    (((f, e, i), (s, e', j)), (read_config-Configures g.luaw_server_config a b).0 r)

init-goes_on :
    (g : Globals) (a b : Address)
    → IsReady g
    → Configures g.luaw_server_config a b
    → init_luaw_server g a ≡ goes_on b
unfolding init_luaw_server
init-goes_on g a b ((f, e, i), (s, e', (j, k, l))) c =
    rw (e, i, e', j, k, l) ((read_config-Configures g.luaw_server_config a b).1 c)

module _ (uv : Uv) where
  start-IsFree :
      (a : Address) (l : Listener)
      → start_server uv a ≡ goes_on l
      → IsFree uv a × (l ≡ record { address = a; backlog = 128; shutdown_signal = true })
  unfolding start_server
  start-IsFree a l h = ground arith

  start-goes_on :
      (a : Address)
      → IsFree uv a
      → start_server uv a ≡ goes_on (record { address = a; backlog = 128; shutdown_signal = true })
  unfolding start_server
  start-goes_on a (i, j, k) = rw (i, j, k) refl

module _ (lua : Interpreter) where
  open lua use {State, Chunk, new_state, open_file, load_text, call, globals}

  -- The reader gets the whole text.
  file-RanFile :
      (f : String) (e : Option (List ℕ)) (s t : State)
      → (run_lua_file lua f e s ≡ goes_on t) ↔ RanFile lua f e s t
  unfolding run_lua_file
  file-RanFile f e s t = (
    λ h.
        let (bytes, e₁, h₁) = bind-inv _ _ t h in
        let (text, e₂, h₂) = bind-inv _ _ t h₁ in
        let (chunk, e₃, h₃) = bind-inv _ _ t h₂ in
        let whole : read (some (read_of bytes e)) ≡ goes_on text =
          subst (λ r. read r ≡ goes_on text) (load-read_of bytes e (fuel_for bytes) (omega arith))
            e₂ in
        (
          bytes,
          chunk,
          expect-inv _ _ bytes e₁,
          subst (λ x. load_text x ≡ some chunk) (goes_on-inj whole ∙ loaded-read_of bytes e)
              (expect-inv _ _ chunk e₃),
          expect-inv _ _ t h₃,
        ),
    λ (bytes, chunk, o, l, c).
        let l' = subst (λ x. load_text x ≡ some chunk) (sym (loaded-read_of bytes e)) l in
        rw (o, load-read_of bytes e (fuel_for bytes) (omega arith), l', c) refl,
  )

  none-inv : (s t : State) → RanFiles lua [] s t → s ≡ t
  none-inv s t no_file = refl

  next-inv :
      (f : String) (fs : List String) (s t : State)
      → RanFiles lua (f ∷ fs) s t
      → (s' : State) × RanFile lua f none s s' × RanFiles lua fs s' t
  next-inv f fs s t (next_file r rs) = (_, r, rs)

  files-RanFiles :
      (fs : List String) (s t : State) → (run_lua_files lua fs s ≡ goes_on t) ↔ RanFiles lua fs s t
  unfolding run_lua_files
  files-RanFiles [] s t = (
    λ h. subst (λ x. RanFiles lua [] s x) (sym (goes_on-inj h)) no_file,
    λ r. ap goes_on (none-inv s t r),
  )
  files-RanFiles (f ∷ fs) s t = (
    λ h.
        let (s', e, h') = bind-inv (run_lua_file lua f none s) _ t h in
        next_file ((file-RanFile f none s s').0 e) ((files-RanFiles fs s' t).0 h'),
    λ r.
        let (s', e, h) = next-inv f fs s t r in
        bind-intro (run_lua_file lua f none s) _ t s' ((file-RanFile f none s s').1 e)
          ((files-RanFiles fs s' t).1 h),
  )

  expect-some :
      {A : Type 0} (o : Option A) (message : String) (a : A)
      → o ≡ some a
      → expect o message ≡ goes_on a
  expect-some o message a e = rw e refl

  main-inv :
      (uv : Uv) (config : String) (files : List String) (l : Listener)
      → main lua uv (config ∷ files) ≡ goes_on l
      → (s₀ : State) × (s₁ : State) × (s₂ : State) × (a : Address) × (new_state ≡ some s₀)
        × (run_lua_file lua config (some init_text) (set_lua_path lua s₀) ≡ goes_on s₁)
        × (run_lua_files lua files s₁ ≡ goes_on s₂)
        × (init_luaw_server (globals s₂) default_address ≡ goes_on a)
        × (start_server uv a ≡ goes_on l)
  unfolding main
  main-inv uv config files l h =
      let (s₀, e₀, h₀) = bind-inv (expect new_state "Could not create new Lua state") _ l h in
      let (s₁, e₁, h₁) =
        bind-inv (run_lua_file lua config (some init_text) (set_lua_path lua s₀)) _ l h₀ in
      let (s₂, e₂, h₂) = bind-inv (run_lua_files lua files s₁) _ l h₁ in
      let (a, e₃, h₃) = bind-inv (init_luaw_server (globals s₂) default_address) _ l h₂ in
      (s₀, s₁, s₂, a, expect-inv new_state _ s₀ e₀, e₁, e₂, e₃, h₃)

  -- `main` comes to its loop exactly if the configuration file has run, then every other file, and the
  -- functions are there and the configured address is free; it then listens on this address with a backlog
  -- of 128, and SIGHUP is handled. The configuration file runs with the epilogue behind it, except where its
  -- length is a multiple of 1024: then the file alone is loaded, and the epilogue is not.
  pub main-Serves :
      (uv : Uv) (config : String) (files : List String) (l : Listener)
      → (main lua uv (config ∷ files) ≡ goes_on l)
        ↔ (Serves lua uv config files l.address × (l.backlog ≡ 128) × (l.shutdown_signal ≡ true))
  unfolding main
  main-Serves uv config files l = (
    λ h.
        let (s₀, s₁, s₂, a, e₀, e₁, e₂, e₃, e₄) = main-inv uv config files l h in
        let (ready, configured) = init-Ready (globals s₂) default_address a e₃ in
        let (free, is) = start-IsFree uv a l e₄ in
        rw is (
          (
            s₀,
            s₁,
            s₂,
            e₀,
            (file-RanFile config (some init_text) (set_lua_path lua s₀) s₁).0 e₁,
            (files-RanFiles files s₁ s₂).0 e₂,
            ready,
            configured,
            free,
          ),
          refl,
          refl,
        ),
    λ ((s₀, s₁, s₂, e₀, r, rs, ready, configured, free), b, z).
        bind-intro _ _ l s₀ (expect-some new_state _ s₀ e₀) (
          bind-intro _ _ l s₁ ((file-RanFile config (some init_text) (set_lua_path lua s₀) s₁).1 r)
            (bind-intro _ _ l s₂ ((files-RanFiles files s₁ s₂).1 rs) (
              bind-intro _ _ l l.address
                (init-goes_on (globals s₂) default_address l.address ready configured)
                (start-goes_on uv l.address free ∙ cc)))),
  )
