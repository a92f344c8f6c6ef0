-- ===== src/Tcp/Origins.antt =====
-- Memory safety of the connections that `connect` and the server make (src/luaw_tcp.c and
-- src/luaw_server.c), over all histories.
use luaw.Prelude.{◌≡◌, String, Bool, true, false, List, [], Option, none, some, arith, subst}
use luaw.Prelude.Int.{ℤ}
use luaw.Lua.{Value}
use mathlib.Core.Option.{some-injective}
use luaw.Uv.{Uv}
use luaw.Tcp.{Connection, Env, World, fresh_connection}
use luaw.Tcp.Connect.{connecting, client_connect}
use luaw.Tcp.Accept.{Accepted, raised, refused, started, accepting, on_server_connect}
use luaw.Tcp.Run.{Pending, System, Event, execute, is_enabled, Reach}
use luaw.Tcp.Invariant.{Live, close-Live, start_timer-is_closing}
use luaw.Tcp.Safety.{Inv, Reach-Inv, Inv-no_fault}

module _ (uv : Uv) where
  open uv use {Handle}

  abbrev pub nothing_due : Pending
  nothing_due = record {
    handle_done = false;
    read_done = false;
    write_done = false;
    due = 0;
    overlaps = 0;
  }

  -- The connection that was made, if there is one, with nothing pending.
  abbrev pub begun : World Handle → System Handle
  begun w = record { world = w; pending = nothing_due }

  abbrev pub made : Accepted Handle → Option (World Handle)
  made (raised n) = none
  made (refused w) = some w
  made (started w) = some w

  abbrev Holds : Option (World Handle) → Type 0
  Holds none = Unit {0}
  Holds (some w) = Inv uv (begun w)

  abbrev linked : Env
  linked = record { udata = true; calls = []; sent = [] }

  fresh-Live : Live uv true nothing_due 0 (fresh_connection uv)
  unfolding fresh_connection
  fresh-Live = ground (arith, uv.fresh-is_closing)

  connecting-Holds :
      (ip4 : String) (port tid timeout : ℤ) (allocated : Bool) (t : Connection Handle)
      → Live uv true nothing_due 0 t
      → Holds (some (connecting uv ip4 port tid timeout allocated t linked).0)
  unfolding connecting
  connecting-Holds ip4 port tid timeout allocated t v =
      let u = record t { handle = uv.tcp_connect t.handle ip4 port } in
      let rc = uv.tcp_connect_rc t.handle ip4 port in
      let live : Live uv true nothing_due 0 u =
        ground (arith, uv.connect-is_closing t.handle ip4 port) in
      ground (
        arith,
        live,
        start_timer-is_closing uv t.write_timer timeout,
        close-Live uv uv.enomem nothing_due 0 t linked v,
        close-Live uv rc nothing_due 0 u linked live,
      )

  accepting-Holds :
      (t : Connection Handle) → Live uv true nothing_due 0 t → Holds (made (accepting uv t linked))
  unfolding accepting
  accepting-Holds t v =
      let u = record t { handle = uv.accept t.handle } in
      let live : Live uv true nothing_due 0 u = ground (arith, uv.accept-is_closing t.handle) in
      ground (arith, live, close-Live uv (uv.accept_rc t.handle) nothing_due 0 u linked live)

  client_connect-Holds :
      (ip4 : String) (port tid timeout : ℤ) (allocated : Bool)
      → Holds (client_connect uv ip4 port tid timeout allocated).0
  unfolding client_connect
  client_connect-Holds ip4 port tid timeout allocated =
      ground
        (arith, connecting-Holds ip4 port tid timeout allocated (fresh_connection uv) fresh-Live)

  on_server_connect-Holds : (status : ℤ) → Holds (made (on_server_connect uv status))
  unfolding on_server_connect
  on_server_connect-Holds status = ground (arith, accepting-Holds (fresh_connection uv) fresh-Live)

  Holds-some :
      (o : Option (World Handle)) (w : World Handle) → Holds o → o ≡ some w → Inv uv (begun w)
  Holds-some none w h e = ground arith
  Holds-some (some u) w h e = subst (λ x. Inv uv (begun x)) (some-injective u w e) h

  -- In every state reached from a connection that `connect` made, whether connecting began or failed,
  -- a call or callback that may happen reads no freed connection: it has a result.
  pub client_connect-no_fault :
      (ip4 : String) (port tid timeout : ℤ) (allocated : Bool) (w : World Handle)
      (s : System Handle) (e : Event)
      → (client_connect uv ip4 port tid timeout allocated).0 ≡ some w
      → Reach uv (begun w) s
      → is_enabled uv e s ≡ true
      → (w' : World Handle) × (r : List Value) × (execute uv e s.world ≡ some (w', r))
  client_connect-no_fault ip4 port tid timeout allocated w s e h reach k =
      Inv-no_fault uv s e
        (Reach-Inv uv reach
          (Holds-some _ w (client_connect-Holds ip4 port tid timeout allocated) h))
        k

  -- In every state reached from a connection that the server's callback made, whether it was accepted
  -- or closed at once, a call or callback that may happen reads no freed connection: it has a result.
  pub on_server_connect-no_fault :
      (status : ℤ) (w : World Handle) (s : System Handle) (e : Event)
      → made (on_server_connect uv status) ≡ some w
      → Reach uv (begun w) s
      → is_enabled uv e s ≡ true
      → (w' : World Handle) × (r : List Value) × (execute uv e s.world ≡ some (w', r))
  on_server_connect-no_fault status w s e h reach k =
      Inv-no_fault uv s e (Reach-Inv uv reach (Holds-some _ w (on_server_connect-Holds status) h)) k
