-- ===== src/Server/Room.antt =====
-- How many callbacks of src/luaw_tcp.c, src/luaw_timer.c and src/luaw_server.c the stack of `l_global` has
-- room for in a turn of the loop.
use luaw.Prelude.{
  ℕ, ◌+◌, ◌≤◌, ◌<◌, ◌≡◌, refl, Bool, false, List, [], ◌∷◌, ◌++◌, Option, none, some, arith,
  if◌then◌else◌, Bool-cases, inl, inr,
}
use luaw.Prelude.Int.{ℤ, is_zero}
use luaw.Uv.{Uv}
use luaw.Tcp.{Connection}
use luaw.Tcp.Connect.{closing_resumes}
use luaw.Server.Stack.{
  resume_ops, StackOp, pushes, calls, operate, operate_all, LoopCallback, at_read, at_write,
  at_connect, at_read_timeout, at_write_timeout, at_user_timer, at_resolved, at_accept, close_ops,
  read_ops, connect_ops, accept_ops, told_ops, unblock_ops, stack_ops, all_ops, turn_ops,
}

abbrev pub and_then : List StackOp → Option ℕ → Option ℕ
and_then os none = none
and_then os (some h) = operate_all os h

pub operate_all-append :
    (os rest : List StackOp) (h : ℕ) → operate_all (os ++ rest) h ≡ and_then rest (operate_all os h)
unfolding operate_all
operate_all-append [] rest h = refl
operate_all-append (o ∷ os) rest h = next (λ k. operate_all-append os rest k) (operate o h) refl
  where
    next :
        ((k : ℕ) → operate_all (os ++ rest) k ≡ and_then rest (operate_all os k))
        → (k : Option ℕ) → operate o h ≡ k
        → operate_all (o ∷ (os ++ rest)) h ≡ and_then rest (operate_all (o ∷ os) h)
    next ih none e = rw (operate_all, e) refl
    next ih (some k) e = rw (operate_all, e) (ih k)

-- There is room, and the stack grows by so much at most.
abbrev pub Grows : ℕ → ℕ → Option ℕ → Type 0
Grows h n none = ⊥
Grows h n (some k) = k ≤ h + n

unblock-Grows :
    (tid : ℤ) (ok : Bool) (h : ℕ) → h + 4 ≤ 20 → Grows h 2 (operate_all (unblock_ops tid ok) h)
unfolding operate operate_all
unblock-Grows tid ok h l = ground arith

told-Grows :
    (tid : ℤ) (ok : Bool) (h : ℕ) → h + 4 ≤ 20 → Grows h 4 (operate_all (told_ops tid ok) h)
unfolding operate operate_all
told-Grows tid ok h l = ground arith

-- Operations one after the other.
append-Grows :
    (os rest : List StackOp) (h m n : ℕ)
    → Grows h m (operate_all os h)
    → ((k : ℕ) → k ≤ h + m → Grows k n (operate_all rest k))
    → Grows h (m + n) (operate_all (os ++ rest) h)
append-Grows os rest h m n g next = rw (operate_all-append os rest h) (after (operate_all os h) g)
  where
    after : (o : Option ℕ) → Grows h m o → Grows h (m + n) (and_then rest o)
    after none g' = g'
    after (some k) g' = more k (operate_all rest k) (next k g') g'
      where
        more : (k' : ℕ) (o : Option ℕ) → Grows k' n o → k' ≤ h + m → Grows h (m + n) o
        more k' none g'' l = g''
        more k' (some j) g'' l = omega arith

module _ (uv : Uv) where
  open uv use {Handle, enobufs}

  close-Grows :
      (t : Connection Handle) (a b : Bool) (h : ℕ)
      → h + 6 ≤ 20
      → Grows h 4 (operate_all (close_ops uv t a b) h)
  unfolding operate_all
  close-Grows t a b h l = elim (Bool-cases t.lua_ref) [
    | inl e ↦ rw e (
        append-Grows (unblock_ops t.lua_reader_tid a) (unblock_ops t.lua_writer_tid b) h 2 2
          (unblock-Grows t.lua_reader_tid a h (omega arith))
          (λ k m. unblock-Grows t.lua_writer_tid b k (omega arith)))
    | inr e ↦ rw e (omega arith)
  ]

  push-Grows : (h : ℕ) → h + 2 ≤ 20 → Grows h 2 (operate_all (pushes 2 ∷ []) h)
  unfolding operate operate_all
  push-Grows h l = ground arith

  -- The end of a connect that failed, which may resume the thread.
  last-Grows :
      (resumes taken ok : Bool) (tid : ℤ) (h : ℕ)
      → h + 2 ≤ 20
      → Grows h 2 (
          operate_all
            (pushes 2
              ∷ (if resumes
                  then (if taken then calls 3 2 false ∷ [] else [])
                  else resume_ops tid ok))
            h)
  unfolding operate operate_all
  last-Grows resumes taken ok tid h l = ground arith

  connect-Grows :
      (status : ℤ) (t : Connection Handle) (a b taken : Bool) (h : ℕ)
      → h + 8 ≤ 20
      → Grows h 8 (operate_all (connect_ops uv status t a b taken) h)
  unfolding operate_all
  connect-Grows status t a b taken h l = elim (Bool-cases (is_zero status)) [
    | inl e ↦ rw e (ground (arith, told-Grows t.lua_writer_tid a h (omega arith)))
    | inr e ↦ rw e (
        append-Grows (pushes 2 ∷ []) _ h 2 6 (push-Grows h (omega arith)) λ k m.
          append-Grows (close_ops uv t a b) _ k 4 2 (close-Grows t a b k (omega arith))
            λ j n. last-Grows (closing_resumes uv t) taken a t.lua_writer_tid j (omega arith))
  ]

  accept-Grows :
      (accepted ok : Bool) (h : ℕ)
      → h + 4 ≤ 20
      → Grows h 4 (operate_all (accept_ops uv accepted ok) h)
  unfolding operate operate_all
  accept-Grows accepted ok h l = ground arith

  read-Grows :
      (nread : ℤ) (t : Connection Handle) (a b : Bool) (h : ℕ)
      → h + 6 ≤ 20
      → Grows h 4 (operate_all (read_ops uv nread t a b) h)
  unfolding operate_all
  read-Grows nread t a b h l =
      ground (arith, told-Grows t.lua_reader_tid a h (omega arith), close-Grows t a b h l)

  -- The slots that a callback may leave taken.
  abbrev pub weight : LoopCallback Handle → ℕ
  weight (at_connect status t a b taken) = 8
  weight _ = 4

  abbrev pub weights : List (LoopCallback Handle) → ℕ
  weights [] = 0
  weights (c ∷ cs) = weight c + weights cs

  callback-Grows :
      (c : LoopCallback Handle) (h : ℕ)
      → h + weight c + 2 ≤ 20
      → Grows h (weight c) (operate_all (stack_ops uv c) h)
  unfolding stack_ops operate_all
  callback-Grows (at_read nread t a b) h l = ground (arith, read-Grows nread t a b h (omega arith))
  callback-Grows (at_write status t a b) h l =
      ground
        (arith, told-Grows t.lua_writer_tid a h (omega arith), close-Grows t a b h (omega arith))
  callback-Grows (at_connect status t a b taken) h l = ground (
    arith,
    told-Grows t.lua_writer_tid a h (omega arith),
    connect-Grows status t a b taken h (omega arith),
  )
  callback-Grows (at_read_timeout t a b) h l = ground (arith, close-Grows t a b h (omega arith))
  callback-Grows (at_write_timeout t a b) h l = ground (arith, close-Grows t a b h (omega arith))
  callback-Grows (at_user_timer t a) h l = ground (arith, unblock-Grows t.lua_tid a h (omega arith))
  callback-Grows (at_resolved tid a) h l = told-Grows tid a h (omega arith)
  callback-Grows (at_accept accepted a) h l = accept-Grows accepted a h (omega arith)

  callbacks-Grow :
      (cs : List (LoopCallback Handle)) (h : ℕ)
      → h + weights cs + 2 ≤ 20
      → Grows h (weights cs) (operate_all (all_ops uv cs) h)
  unfolding operate_all all_ops
  callbacks-Grow [] h l = omega arith
  callbacks-Grow (c ∷ cs) h l =
      append-Grows (stack_ops uv c) (all_ops uv cs) h (weight c) (weights cs)
        (callback-Grows c h (omega arith)) (λ k m. callbacks-Grow cs k (omega arith))

  -- Let a turn of the loop have callbacks whose weights, 8 for the end of a connect and 4 for any other one,
  -- are at most 18 together, and let a slot be free at its start. Whatever the callbacks find and whether or
  -- not the calls succeed, nothing is pushed outside the slots that Lua promises, and the slots that are
  -- left taken are no more than the weights.
  pub turn-Grows :
      (ok : Bool) (cs : List (LoopCallback Handle)) (h : ℕ)
      → h < 20
      → weights cs + 2 ≤ 20
      → Grows 0 (weights cs) (operate_all (turn_ops uv ok cs) h)
  unfolding turn_ops operate_all operate
  turn-Grows ok cs h l m = ground (arith, callbacks-Grow cs 0 (omega arith))
