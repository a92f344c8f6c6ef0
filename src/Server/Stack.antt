-- ===== src/Server/Stack.antt =====
-- The stack of the main Lua state `l_global` in src/luaw_tcp.c, src/luaw_timer.c, src/luaw_server.c and
-- src/luaw_common.c. libuv's callbacks push on it and never call `lua_checkstack`; between two calls of
-- `run_user_threads`, which empties it, what they leave adds up.
use luaw.Prelude.{
  ℕ, ◌+◌, ◌-◌, Bool, false, List, [], ◌∷◌, ◌++◌, Option, none, some, if◌then◌else◌, not, ◌||◌, ltb,
}
use luaw.Prelude.Int.{ℤ, is_zero, is_nonpos, eqb}
use luaw.Uv.{Uv}
use luaw.Tcp.{Connection}
use luaw.Tcp.Connect.{closing_resumes}
use luaw.Timer.{Timer}

-- The slots that Lua promises to C code that does not ask for more.
abbrev pub lua_minstack : ℕ
lua_minstack = 20

-- Values are pushed or popped; a protected call takes the function and its arguments, and leaves its
-- results, or a message where it fails; or the stack is emptied. What a thread pushes on it while it is
-- resumed lies in the frame of the call, and goes with it.
pub data StackOp : Type 0 where
  pushes pops : ℕ → StackOp
  calls : ℕ → ℕ → Bool → StackOp
  emptied : StackOp

-- The height after an operation, `none` where it needs more than the promised slots.
unfoldable pub operate : StackOp → ℕ → Option ℕ
operate (pushes k) h = if ltb lua_minstack (h + k) then none else some (h + k)
operate (pops k) h = some (h - k)
operate (calls nargs nresults ok) h = some ((h - (nargs + 1)) + (if ok then nresults else 1))
operate emptied h = some 0

unfoldable pub operate_all : List StackOp → ℕ → Option ℕ
operate_all [] h = some h
operate_all (o ∷ os) h = elim (operate o h) [ none ↦ none | some k ↦ operate_all os k ]

-- `resume_lua_thread(l_global, 3, 2, 0)` and whether its call succeeds: none is made for the thread id 0.
abbrev pub resume_ops : ℤ → Bool → List StackOp
resume_ops tid ok = if is_zero tid then [] else calls 3 2 ok ∷ []

-- The function, the thread id and two results are pushed, and the thread is resumed.
abbrev pub told_ops : ℤ → Bool → List StackOp
told_ops tid ok = pushes 4 ∷ resume_ops tid ok

abbrev pub unblock_ops : ℤ → Bool → List StackOp
unblock_ops tid ok = if is_zero tid then [] else told_ops tid ok

-- What a callback finds. A connection's callbacks are those of `Tcp`; with each stands whether the calls
-- that it makes succeed. A request to connect that fails has `taken` too: whether the last result below
-- the error reads as a thread id. `on_server_connect` is the callback without an error, with whether
-- the connection is accepted.
pub data LoopCallback (H : Type 0) : Type 0 where
  at_read : ℤ → Connection H → Bool → Bool → LoopCallback H
  at_write : ℤ → Connection H → Bool → Bool → LoopCallback H
  at_connect : ℤ → Connection H → Bool → Bool → Bool → LoopCallback H
  at_read_timeout at_write_timeout : Connection H → Bool → Bool → LoopCallback H
  at_user_timer : Timer H → Bool → LoopCallback H
  at_resolved : ℤ → Bool → LoopCallback H
  at_accept : Bool → Bool → LoopCallback H

module _ (uv : Uv) where
  open uv use {Handle, enobufs}

  -- `close_connection`.
  abbrev pub close_ops : Connection Handle → Bool → Bool → List StackOp
  close_ops t a b =
      if t.lua_ref then unblock_ops t.lua_reader_tid a ++ unblock_ops t.lua_writer_tid b else []

  -- `on_read`.
  abbrev pub read_ops : ℤ → Connection Handle → Bool → Bool → List StackOp
  read_ops nread t a b =
      if not t.handle_data
      then []
      else if is_zero nread || eqb nread enobufs
      then []
      else if not (is_nonpos nread)
      then told_ops t.lua_reader_tid a
      else close_ops t a b

  -- `on_write`.
  abbrev pub write_ops : ℤ → Connection Handle → Bool → Bool → List StackOp
  write_ops status t a b =
      if not t.write_req_data
      then []
      else if is_zero status
      then told_ops t.lua_writer_tid a
      else close_ops t a b

  -- `on_client_connect`. The function and the thread id of a connect that failed stand below what closing
  -- leaves.
  abbrev pub connect_ops : ℤ → Connection Handle → Bool → Bool → Bool → List StackOp
  connect_ops status t a b taken =
      if is_zero status
      then told_ops t.lua_writer_tid a
      else pushes 2
        ∷ (close_ops t a b
            ++ pushes 2
              ∷ (if closing_resumes uv t
                  then (if taken then calls 3 2 false ∷ [] else [])
                  else resume_ops t.lua_writer_tid a))

  -- `on_conn_timeout`, at a timer whose pointer to the connection is set or not.
  abbrev pub timeout_ops : Bool → Connection Handle → Bool → Bool → List StackOp
  timeout_ops has_data t a b = if has_data then close_ops t a b else []

  -- `on_user_timer_timeout`.
  abbrev pub user_timer_ops : Timer Handle → Bool → List StackOp
  user_timer_ops t a = if t.handle_data then unblock_ops t.lua_tid a else []

  -- `on_resolved`.
  abbrev pub resolved_ops : ℤ → Bool → List StackOp
  resolved_ops tid a = told_ops tid a

  -- `on_server_connect`: the two functions, and the userdata to which `new_connection` gives its metatable;
  -- where the connection is not accepted the three stay.
  abbrev pub accept_ops : Bool → Bool → List StackOp
  accept_ops accepted ok = pushes 4 ∷ pops 1 ∷ (if accepted then calls 2 2 ok ∷ [] else [])

  unfoldable pub stack_ops : LoopCallback Handle → List StackOp
  stack_ops (at_read nread t a b) = read_ops nread t a b
  stack_ops (at_write status t a b) = write_ops status t a b
  stack_ops (at_connect status t a b taken) = connect_ops status t a b taken
  stack_ops (at_read_timeout t a b) = timeout_ops t.read_timer_data t a b
  stack_ops (at_write_timeout t a b) = timeout_ops t.write_timer_data t a b
  stack_ops (at_user_timer t a) = user_timer_ops t a
  stack_ops (at_resolved tid a) = resolved_ops tid a
  stack_ops (at_accept accepted a) = accept_ops accepted a

  unfoldable pub all_ops : List (LoopCallback Handle) → List StackOp
  unfolding stack_ops
  all_ops [] = []
  all_ops (c ∷ cs) = stack_ops c ++ all_ops cs

  -- A turn of the loop: `run_user_threads`, and the callbacks up to the next call of it.
  unfoldable pub turn_ops : Bool → List (LoopCallback Handle) → List StackOp
  unfolding all_ops
  turn_ops ok cs = pushes 1 ∷ calls 0 1 ok ∷ emptied ∷ all_ops cs
